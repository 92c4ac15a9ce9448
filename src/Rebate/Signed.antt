-- ===== src/Rebate/Signed.antt =====
-- Whether a sign-in is seen by the query for it.
use Prim.Native.Char.{Char, code}
use lucky_market.Base.{
  ℕ, suc, String, Bool, true, false, List, [], ◌∷◌, ◌++◌, ◌≡◌, ◌≢◌, ◌⊎◌, refl, ap, ◌∙◌, inl, inr,
  str_eq, ◌==◌, eq_iff, All, All-append, Bool-cases,
}
use lucky_market.Base.Outcome.{
  Exec, Outcome, ok, err, panics, Post, resume, driver, pure, ◌>>=◌, ◌>>◌,
}
use lucky_market.Text.{concat}
use lucky_market.Rebate.{
  Behavior, BehaviorRebateOrder, DailyBehaviorRebate, RebateRow, RebateStore, call,
  query_daily_behavior_rebate_config, save_user_rebate_order, biz_id_of, build_orders,
  order_configs, create_order, begins_with, select_orders, query_user_rebate_order,
  calendar_sign_rebate, is_calendar_sign_rebate, is_some,
}
use lucky_market.Rebate.Saved.{
  row_of, written, IsRebateSaved, save_user_rebate_order_settles, call-cases,
}

-- the biz_id begins with the user's id
abbrev pub IsUserKeyed : RebateRow → Type 0
IsUserKeyed r = (rest : String) × (r.biz_id ≡ concat r.user_id rest)

abbrev IsKeyedOrder : BehaviorRebateOrder → Type 0
IsKeyedOrder o = IsUserKeyed (row_of o)

build_orders-keyed :
    (random : ℕ → String) (n : ℕ) (behavior : Behavior) (configs : List DailyBehaviorRebate)
    → All IsKeyedOrder (build_orders random n behavior configs)
unfolding build_orders biz_id_of
build_orders-keyed random n behavior [] = tt
build_orders-keyed random n behavior (c ∷ cs) =
    ((_, refl), build_orders-keyed random (suc n) behavior cs)

written-keyed :
    (rows : List RebateRow) (orders : List BehaviorRebateOrder)
    → All IsUserKeyed rows
    → All IsKeyedOrder orders
    → All IsUserKeyed (written rows orders)
written-keyed rows [] hr ho = hr
written-keyed rows (o ∷ os) hr (h, ho) =
    written-keyed (rows ++ row_of o ∷ []) os
      (All-append IsUserKeyed rows (row_of o ∷ []) hr (h, tt)) ho

-- every row of the store is keyed by its user
abbrev pub IsKeyed : RebateStore → Type 0
IsKeyed s = All IsUserKeyed s.rows

record Keeps {A : Type 0} (m : Exec RebateStore A) : Type 0 where
  keeps : (s : RebateStore) → IsKeyed s → IsKeyed (m s).1

>>=-Keeps :
    {A B : Type 0} {m : Exec RebateStore A} {n : A → Exec RebateStore B}
    → Keeps m
    → ((a : A) → Keeps (n a))
    → Keeps (m >>= n)
>>=-Keeps {A} {B} {m} {n} h g = record { keeps = λ s k. go (m s).0 (m s).1 (h.keeps s k) }
  where
    go : (r : Outcome A) (s : RebateStore) → IsKeyed s → IsKeyed (resume r n s).1
    go (ok a) s k = (g a).keeps s k
    go (err e) s k = k
    go panics s k = k

pure-Keeps : {A : Type 0} (a : A) → Keeps (pure a)
pure-Keeps a = record { keeps = λ s k. k }

call-Keeps : Keeps call
call-Keeps = record { keeps = λ s k. go s k (call-cases s) }
  where
    go :
        (s : RebateStore)
        → IsKeyed s
        → (fs : List Bool) × ((call s ≡ (ok tt, record s { faults = fs }))
              × (s.faults ≡ [] → fs ≡ [])
            ⊎ (call s ≡ (err driver, record s { faults = fs })) × (s.faults ≢ []))
        → IsKeyed (call s).1
    go s k (fs, inl (e, q)) = rw e k
    go s k (fs, inr (e, q)) = rw e k

order_configs-Keeps :
    (random : ℕ → String) (behavior : Behavior) (configs : List DailyBehaviorRebate)
    → Keeps (order_configs random behavior configs)
unfolding order_configs
order_configs-Keeps random behavior [] = pure-Keeps _
order_configs-Keeps random behavior (c ∷ cs) = >>=-Keeps saved (λ u. pure-Keeps _)
  where
    orders : List BehaviorRebateOrder
    orders = build_orders random 0 behavior (c ∷ cs)

    saved : Keeps (
        save_user_rebate_order behavior.user_id (record {
          user_id = behavior.user_id;
          behavior = behavior;
          behavior_rebate_orders = orders;
        }))
    saved = record {
      keeps = λ s k. go s k _ _ (
          save_user_rebate_order_settles behavior.user_id
            (record {
              user_id = behavior.user_id;
              behavior = behavior;
              behavior_rebate_orders = orders;
            })
            s);
    }
      where
        go :
            (s : RebateStore)
            → IsKeyed s
            → (r : Outcome (Unit {0})) (s1 : RebateStore) → IsRebateSaved orders s (r, s1)
            → IsKeyed s1
        go s k (ok u) s1 (fresh, rows, sent, all) =
            rw rows (written-keyed s.rows orders k (build_orders-keyed random 0 behavior (c ∷ cs)))
        go s k (err e) s1 (rows, rest) = rw rows k
        go s k panics s1 h = elim h [ ]

config_query-Keeps : (kind : String) → Keeps (query_daily_behavior_rebate_config kind)
unfolding query_daily_behavior_rebate_config
config_query-Keeps kind = >>=-Keeps call-Keeps (λ u. record { keeps = λ s k. k })

create_order-Keeps :
    (random : ℕ → String) (behavior : Behavior) → Keeps (create_order random behavior)
unfolding create_order
create_order-Keeps random behavior =
    >>=-Keeps (config_query-Keeps behavior.behavior_type) (order_configs-Keeps random behavior)

calendar_sign_rebate-Keeps :
    (random : ℕ → String) (today user_id : String)
    → Keeps (calendar_sign_rebate random today user_id)
unfolding calendar_sign_rebate
calendar_sign_rebate-Keeps random today user_id = elim (Bool-cases (str_eq user_id "")) [
  | inl e ↦ rw e (record { keeps = λ s k. k })
  | inr e ↦ rw e (>>=-Keeps (create_order-Keeps random _) (λ u. pure-Keeps true))
]

-- a text that begins otherwise is no prefix
other_begin :
    (c d : Char) (u t rest : String)
    → (code d == code c) ≡ false
    → begins_with (String.◌∷◌ d t) (concat (String.◌∷◌ c u) rest) ≡ false
unfolding begins_with concat
other_begin c d u t rest e = rw e refl

select_none :
    (c d : Char) (u t : String) (rows : List RebateRow)
    → (code d == code c) ≡ false
    → All IsUserKeyed rows
    → select_orders (String.◌∷◌ c u) (String.◌∷◌ d t) rows ≡ []
unfolding select_orders
select_none c d u t [] e k = refl
select_none c d u t (r ∷ rs) e ((rest, key), k) =
    elim (Bool-cases (str_eq r.user_id (String.◌∷◌ c u))) [
      | inr other ↦ rw other (select_none c d u t rs e k)
      | inl same ↦
          rw (same, key ∙ ap (λ x. concat x rest) ((eq_iff r.user_id (String.◌∷◌ c u)).0 same))
            (rw (other_begin c d u t rest e) (select_none c d u t rs e k))
    ]

module _ (c d : Char) (u t : String) (e : (code d == code c) ≡ false) where
  abbrev IsUnseen : Outcome Bool → Type 0
  IsUnseen r = Post (λ signed. signed ≡ false) r

  query-unseen :
      (s : RebateStore)
      → IsKeyed s
      → Post (λ orders. orders ≡ []) (query_user_rebate_order (String.◌∷◌ c u) (String.◌∷◌ d t) s).0
  unfolding query_user_rebate_order
  query-unseen s k = elim (Bool-cases (s.routed (String.◌∷◌ c u))) [
    | inr lost ↦ rw lost tt
    | inl routed ↦ rw routed (go (call-cases s))
  ]
    where
      go :
          (fs : List Bool) × ((call s ≡ (ok tt, record s { faults = fs }))
                × (s.faults ≡ [] → fs ≡ [])
              ⊎ (call s ≡ (err driver, record s { faults = fs })) × (s.faults ≢ []))
          → Post
              (λ orders. orders ≡ [])
              ((call >> λ s'. (ok (select_orders (String.◌∷◌ c u) (String.◌∷◌ d t) s'.rows), s'))
                s).0
      go (fs, inl (h, q)) = rw h (select_none c d u t s.rows e k)
      go (fs, inr (h, q)) = rw h tt

  seen-IsUnseen :
      (s : RebateStore)
      → IsKeyed s
      → IsUnseen (is_calendar_sign_rebate (String.◌∷◌ d t) (String.◌∷◌ c u) s).0
  unfolding is_calendar_sign_rebate
  seen-IsUnseen s k = elim (Bool-cases (str_eq (String.◌∷◌ c u) "")) [
    | inl empty ↦ rw empty tt
    | inr named ↦ rw named (
        go (query_user_rebate_order (String.◌∷◌ c u) (String.◌∷◌ d t) s).0
          (query_user_rebate_order (String.◌∷◌ c u) (String.◌∷◌ d t) s).1 (query-unseen s k))
  ]
    where
      go :
          (r : Outcome (List BehaviorRebateOrder)) (s1 : RebateStore)
          → Post (λ orders. orders ≡ []) r
          → IsUnseen (resume r (λ orders. pure (is_some orders)) s1).0
      go (ok orders) s1 none = ap is_some none
      go (err x) s1 none = tt
      go panics s1 none = tt

-- Where the biz_ids that are stored begin with the ids of their users, as those do that sign-ins store,
-- and the user's id does not begin with the first character of the day: whatever commands fail, the
-- query for a sign-in of the day never finds one, though the user has just signed in.
pub sign_in_unseen :
    (random : ℕ → String) (c d : Char) (u t : String) (s : RebateStore)
    → (code d == code c) ≡ false
    → IsKeyed s
    → let (r, s') = calendar_sign_rebate random (String.◌∷◌ d t) (String.◌∷◌ c u) s in
      Post
        (λ signed. signed ≡ false)
        (is_calendar_sign_rebate (String.◌∷◌ d t) (String.◌∷◌ c u) s').0
sign_in_unseen random c d u t s e k =
    seen-IsUnseen c d u t e _
      ((calendar_sign_rebate-Keeps random (String.◌∷◌ d t) (String.◌∷◌ c u)).keeps s k)
