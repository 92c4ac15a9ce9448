-- ===== src/Dispatch/Batch.antt =====
-- Which tasks a query of the job returns, and how many.
use mathlib.Core.Path.{subst}
use lucky_market.Base.{
  ℕ, zero, suc, ◌+◌, ◌-◌, ◌≤◌, String, Bool, true, false, ◌&&◌, List, [], ◌∷◌, ◌++◌, map, ◌≡◌, refl,
  ap, sym, ◌∙◌, ◌⊎◌, inl, inr, arith, str_eq, eq_iff, ltb, Bool-cases,
}
use lucky_market.Base.Outcome.{Post, pure}
use lucky_market.Activity.Store.{TaskRow, Tables, Store}
use lucky_market.Activity.Store.Runs.{Runs, >>=-Runs, select-Runs, weaken-Runs}
use lucky_market.Dispatch.{
  TaskEntity, task_entity, in_state, take, length, batch_limit, fill_batch,
  query_no_send_message_task_list,
}

-- a row that failed, or one that was created and is stale
abbrev pub IsDue : (TaskRow → Bool) → TaskRow → Type 0
IsDue stale r = (r.state ≡ "fail") ⊎ (r.state ≡ "create") × (stale r ≡ true)

length-take : (n : ℕ) (rs : List TaskRow) → length (take n rs) ≤ n
unfolding length take
length-take zero rs = omega arith
length-take (suc n) [] = omega arith
length-take (suc n) (r ∷ rs) = let h = length-take n rs in omega arith

length-append : (xs ys : List TaskRow) → length (xs ++ ys) ≡ length xs + length ys
unfolding length
length-append [] ys = omega arith
length-append (x ∷ xs) ys = let h = length-append xs ys in omega arith

abbrev pub IsIn : TaskRow → List TaskRow → Type 0
IsIn r [] = ⊥
IsIn r (x ∷ xs) = (x ≡ r) ⊎ IsIn r xs

take-IsIn : (n : ℕ) (rs : List TaskRow) (r : TaskRow) → IsIn r (take n rs) → IsIn r rs
unfolding take
take-IsIn zero rs r h = elim h [ ]
take-IsIn (suc n) [] r h = elim h [ ]
take-IsIn (suc n) (x ∷ xs) r (inl e) = inl e
take-IsIn (suc n) (x ∷ xs) r (inr h) = inr (take-IsIn n xs r h)

append-IsIn : (xs ys : List TaskRow) (r : TaskRow) → IsIn r (xs ++ ys) → IsIn r xs ⊎ IsIn r ys
append-IsIn [] ys r h = inr h
append-IsIn (x ∷ xs) ys r (inl e) = inl (inl e)
append-IsIn (x ∷ xs) ys r (inr h) = elim (append-IsIn xs ys r h) [
  | inl a ↦ inl (inr a)
  | inr b ↦ inr b
]

both : (a b : Bool) → (a && b) ≡ true → (a ≡ true) × (b ≡ true)
both true b h = (refl, h)
both false b h = cc

in_state-IsIn :
    (p : TaskRow → Bool) (state : String) (rs : List TaskRow) (r : TaskRow)
    → IsIn r (in_state p state rs)
    → IsIn r rs × (r.state ≡ state) × (p r ≡ true)
unfolding in_state
in_state-IsIn p state [] r = λ h. elim h [ ]
in_state-IsIn p state (x ∷ xs) r = elim (Bool-cases (str_eq x.state state && p x)) [
  | inl e ↦ rw e (λ h. elim h [
    | inl same ↦
        let (a, b) = both (str_eq x.state state) (p x) e in
        (
          inl same,
          subst (λ y. y.state ≡ state) same ((eq_iff x.state state).0 a),
          subst (λ y. p y ≡ true) same b,
        )
    | inr later ↦ let (a, b, c) = in_state-IsIn p state xs r later in (inr a, b, c)
  ])
  | inr e ↦ rw e (λ h. let (a, b, c) = in_state-IsIn p state xs r h in (inr a, b, c))
]

-- at most ten rows of the table, each due
abbrev pub IsBatch : (TaskRow → Bool) → List TaskRow → List TaskRow → Type 0
IsBatch stale tasks rows =
    (length rows ≤ 10) × ((r : TaskRow) → IsIn r rows → IsIn r tasks × IsDue stale r)

module _ (stale : TaskRow → Bool) (by_update_time : List TaskRow → List TaskRow) where
  -- ORDER BY returns rows that it was given
  abbrev pub IsOrdering : Type 0
  IsOrdering = (rs : List TaskRow) (r : TaskRow) → IsIn r (by_update_time rs) → IsIn r rs

  selected :
      IsOrdering
      → (n : ℕ) (p : TaskRow → Bool) (state : String) (tasks : List TaskRow) (r : TaskRow)
      → IsIn r (take n (by_update_time (in_state p state tasks)))
      → IsIn r tasks × (r.state ≡ state) × (p r ≡ true)
  selected ordering n p state tasks r h =
      in_state-IsIn p state tasks r (ordering _ r (take-IsIn n _ r h))

  -- the rows that failed, and behind them, as far as there is room, those that were created and are
  -- stale
  abbrev batch : List TaskRow → List TaskRow
  batch tasks = take batch_limit (by_update_time (in_state (λ r. true) "fail" tasks))

  abbrev refill : List TaskRow → List TaskRow → List TaskRow
  refill failed tasks =
      take (batch_limit - length failed) (by_update_time (in_state stale "create" tasks))

  failed-IsBatch : IsOrdering → (tasks : List TaskRow) → IsBatch stale tasks (batch tasks)
  failed-IsBatch ordering tasks = (
    length-take batch_limit _,
    λ r h. let (a, b, c) = selected ordering batch_limit (λ x. true) "fail" tasks r h in (a, inl b),
  )

  refill-IsBatch :
      IsOrdering
      → (tasks failed : List TaskRow) → ltb (length failed) batch_limit ≡ true
      → IsBatch stale tasks failed
      → IsBatch stale tasks (failed ++ refill failed tasks)
  refill-IsBatch ordering tasks failed room (bound, due) = (
    (let n = length-append failed (refill failed tasks) in
        let m =
          length-take (batch_limit - length failed)
            (by_update_time (in_state stale "create" tasks)) in
        omega arith),
    λ r h. elim (append-IsIn failed (refill failed tasks) r h) [
      | inl old ↦ due r old
      | inr new ↦
          let (a, b, c) =
            selected ordering (batch_limit - length failed) stale "create" tasks r new in
          (a, inr (b, c))
    ],
  )

  module _ {T : Type 0} where
    pure_value-Runs : {A : Type 0} (a : A) → Runs {T = T} (λ t x t'. (x ≡ a) × (t' ≡ t)) (pure a)
    pure_value-Runs a = record { runs = λ s. (refl, refl) }

    abbrev Filled : List TaskRow → Tables T → List TaskRow → Tables T → Type 0
    Filled failed t rows t' =
        (t' ≡ t)
        × ((rows ≡ failed)
            ⊎ (ltb (length failed) batch_limit ≡ true) × (rows ≡ failed ++ refill failed t.tasks))

    fill_batch-Runs :
        (failed : List TaskRow) → Runs (Filled failed) (fill_batch stale by_update_time failed)
    fill_batch-Runs failed = elim (Bool-cases (ltb (length failed) batch_limit)) [
      | inr e ↦ rw e (record { runs = λ s. (refl, inl refl) })
      | inl e ↦
          rw (e, fill_batch)
            (weaken-Runs
              (>>=-Runs (select-Runs (λ t. refill failed t.tasks))
                (λ created. pure_value-Runs (failed ++ created)))
              (λ t rows t' (created, t1, (found, same), (is, last)).
                (last ∙ same, inr (e, is ∙ ap (λ c. failed ++ c) (sym found)))))
    ]

    abbrev pub IsQueried : Tables T → List TaskEntity → Tables T → Type 0
    IsQueried t entities t' =
        (t' ≡ t)
        × ((rows : List TaskRow) × (entities ≡ map task_entity rows) × IsBatch stale t.tasks rows)

    Filled-IsBatch :
        IsOrdering
        → (t : Tables T) (failed rows : List TaskRow) (t' : Tables T) → batch t.tasks ≡ failed
        → Filled failed t rows t'
        → IsBatch stale t.tasks rows
    Filled-IsBatch ordering t failed rows t' found (same, inl is) =
        subst (IsBatch stale t.tasks) (found ∙ sym is) (failed-IsBatch ordering t.tasks)
    Filled-IsBatch ordering t failed rows t' found (same, inr (room, is)) =
        subst (IsBatch stale t.tasks) (sym is) (
          refill-IsBatch ordering t.tasks failed room
            (subst (IsBatch stale t.tasks) found (failed-IsBatch ordering t.tasks)))

    query-Runs : IsOrdering → Runs IsQueried (query_no_send_message_task_list stale by_update_time)
    unfolding query_no_send_message_task_list
    query-Runs ordering =
        weaken-Runs
          (>>=-Runs (>>=-Runs (select-Runs (λ t. batch t.tasks)) fill_batch-Runs)
            (λ rows. pure_value-Runs (map task_entity rows)))
          (λ t entities t' (rows, t2, (failed, t1, (found, same1), filled), (is, same2)). (
            same2 ∙ filled.0 ∙ same1,
            (
              rows,
              is,
              Filled-IsBatch ordering t failed rows t2 found
                  (subst (λ x. Filled failed x rows t2) same1 filled),
            ),
          ))

-- Where ORDER BY returns only rows that it was given, and whatever commands fail: a query that succeeds
-- writes nothing and returns at most ten tasks, each of a row of the table that failed, or that was
-- created and has waited too long; a completed task is never returned.
pub query_batch :
    {T : Type 0} (stale : TaskRow → Bool) (by_update_time : List TaskRow → List TaskRow)
    (s : Store T)
    → IsOrdering stale by_update_time
    → let (r, s') = query_no_send_message_task_list stale by_update_time s in
      Post (λ entities. IsQueried stale by_update_time s.tables entities s'.tables) r
query_batch stale by_update_time s ordering = (query-Runs stale by_update_time ordering).runs s
