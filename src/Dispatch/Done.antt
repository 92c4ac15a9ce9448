-- ===== src/Dispatch/Done.antt =====
-- What a task that is marked completed says.
use mathlib.Core.Path.{subst}
use mathlib.Core.Option.{some-injective}
use lucky_market.Base.{
  String, Bool, true, false, ◌&&◌, some, List, [], ◌∷◌, ◌++◌, ◌≡◌, refl, ap, sym, ◌∙◌, ◌⊎◌, inl,
  inr, str_eq, eq_iff, eq_refl, Bool-cases, if◌then◌else◌,
}
use lucky_market.Base.Outcome.{Outcome, ok, err, panics, Post}
use lucky_market.Activity.Model.{
  Calendar, CreatePartakeOrder, UserRaffleOrder, save_order_record_topic,
}
use lucky_market.Activity.Store.{TaskRow, OrderRow, Tables, Store, call, execute}
use lucky_market.Activity.Ledger.{save_create_partake_order_aggregate}
use lucky_market.Activity.Ledger.Charge.{IsCharged, IsSettled}
use lucky_market.Activity.Ledger.Save.{save_settles}
use lucky_market.Award.{send_award_topic}
use lucky_market.Dispatch.{
  TaskEntity, Outbox, with_state, save_order_message, on_store, update_task_state, send_message,
  to_create_partake_order, route_task_by_topic, drop_error, mark_failed, after_completed,
  after_route, dispatch_single_task,
}

-- whether a row of the task says completed
unfoldable pub completed_in : String → String → List TaskRow → Bool
completed_in user_id message_id [] = false
completed_in user_id message_id (r ∷ rs) =
    let rest = completed_in user_id message_id rs in
    if str_eq r.user_id user_id && str_eq r.message_id message_id && str_eq r.state "completed"
    then true
    else rest

-- the award message was published, or the order of the message is charged
abbrev pub IsDone : {T : Type 0} → TaskEntity → Outbox T → Outbox T → Type 0
IsDone {T} task s s' =
    (task.topic ≡ "send_award")
      × (s'.sent
          ≡ s.sent
            ++ record { topic = task.topic; id = task.message_id; payload = task.message } ∷ [])
    ⊎ (task.topic ≡ "save_order_record")
      × (let (user_id, order_id) = save_order_message task.message in
          (row : OrderRow T) × (s'.store.tables.orders user_id order_id ≡ some row)
          × (str_eq row.account_sync_state "completed" ≡ true))

failed_rows :
    (user_id message_id : String) (rows : List TaskRow)
    → completed_in user_id message_id (with_state user_id message_id "fail" rows) ≡ false
unfolding completed_in with_state
failed_rows user_id message_id [] = refl
failed_rows user_id message_id (r ∷ rs) =
    elim (Bool-cases (str_eq r.user_id user_id && str_eq r.message_id message_id)) [
      | inl e ↦ rw e (rw e (failed_rows user_id message_id rs))
      | inr e ↦ rw e (rw e (failed_rows user_id message_id rs))
    ]

charged-IsDone :
    {T : Type 0} (cal : Calendar T) (user_id order_id : String) (t t' : Tables T)
    → IsCharged cal user_id order_id t t'
    → (t'.tasks ≡ t.tasks)
      × ((row : OrderRow T) × (t'.orders user_id order_id ≡ some row)
          × (str_eq row.account_sync_state "completed" ≡ true))
charged-IsDone cal user_id order_id t t' (order, found, inl (done, same)) =
    (ap (λ x. x.tasks) same, (order, ap (λ x. x.orders user_id order_id) same ∙ found, done))
charged-IsDone cal user_id order_id t t' (order, found, inr (account, waits, has, quota, after)) = (
  ap (λ x. x.tasks) after,
  (
    record order { account_sync_state = "completed" },
    ap (λ x. x.orders user_id order_id) after ∙ rw (eq_refl user_id, eq_refl order_id) refl,
    refl,
  ),
)

module _ {T : Type 0} (cal : Calendar T) (never : T) (task : TaskEntity) where
  -- the route changes no task, and does its work if it says so
  abbrev IsRouted : Outbox T → Outcome (Unit {0}) × Outbox T → Type 0
  IsRouted s (r, s') =
      (s'.store.tables.tasks ≡ s.store.tables.tasks) × Post (λ u. IsDone task s s') r

  send_message-IsRouted :
      (s : Outbox T) → task.topic ≡ send_award_topic → IsRouted s (send_message task s)
  unfolding send_message call
  send_message-IsRouted s award = go s.store.faults refl
    where
      go : (fs : List Bool) → s.store.faults ≡ fs → IsRouted s (send_message task s)
      go [] f = rw f (refl, inl (award, refl))
      go (true ∷ fs) f = rw f (refl, tt)
      go (false ∷ fs) f = rw f (refl, inl (award, refl))

  abbrev aggregate_of : String → String → CreatePartakeOrder T
  aggregate_of user_id order_id = to_create_partake_order never user_id order_id

  named :
      (user_id order_id : String) (order : UserRaffleOrder T)
      → (aggregate_of user_id order_id).user_raffle_order ≡ some order
      → order.order_id ≡ order_id
  unfolding to_create_partake_order
  named user_id order_id order given =
      sym (ap (λ (x : UserRaffleOrder T). x.order_id) (some-injective _ order given))

  user_of : (user_id order_id : String) → (aggregate_of user_id order_id).user_id ≡ user_id
  unfolding to_create_partake_order
  user_of user_id order_id = refl

  abbrev IsSaved : String → String → Tables T → Outcome (Unit {0}) × Store T → Type 0
  IsSaved user_id order_id t (r, s') =
      (s'.tables.tasks ≡ t.tasks)
      × Post
          (λ u.
            (row : OrderRow T) × (s'.tables.orders user_id order_id ≡ some row)
            × (str_eq row.account_sync_state "completed" ≡ true))
          r

  settled-IsSaved :
      (user_id order_id : String) (t : Tables T) (r : Outcome (Unit {0})) (s' : Store T)
      → IsSettled cal (aggregate_of user_id order_id) t (r, s')
      → IsSaved user_id order_id t (r, s')
  settled-IsSaved user_id order_id t (ok u) s' (order, given, charged) =
      charged-IsDone cal user_id order_id t s'.tables (
        subst (λ o. IsCharged cal user_id o t s'.tables) (named user_id order_id order given)
          (subst (λ u. IsCharged cal u order.order_id t s'.tables) (user_of user_id order_id)
            charged))
  settled-IsSaved user_id order_id t (err e) s' same = (ap (λ x. x.tasks) same, tt)
  settled-IsSaved user_id order_id t panics s' same = (ap (λ x. x.tasks) same, tt)

  saved-IsRouted :
      (s : Outbox T)
      → task.topic ≡ save_order_record_topic
      → let (user_id, order_id) = save_order_message task.message in
        IsRouted s
          (on_store (save_create_partake_order_aggregate cal (aggregate_of user_id order_id)) s)
  saved-IsRouted s order =
      let (user_id, order_id) = save_order_message task.message in
      let m = save_create_partake_order_aggregate cal (aggregate_of user_id order_id) in
      go (m s.store).0 (m s.store).1 (
        settled-IsSaved user_id order_id s.store.tables _ _
          (save_settles cal (aggregate_of user_id order_id) s.store))
    where
      go :
          (r : Outcome (Unit {0})) (store : Store T)
          → (let (user_id, order_id) = save_order_message task.message in
              IsSaved user_id order_id s.store.tables (r, store))
          → IsRouted s (r, record s { store = store })
      go (ok u) store (same, row) = (same, inr (order, row))
      go (err e) store (same, h) = (same, tt)
      go panics store (same, h) = (same, tt)

  route-IsRouted : (s : Outbox T) → IsRouted s (route_task_by_topic cal never task s)
  unfolding route_task_by_topic
  route-IsRouted s = elim (Bool-cases (str_eq task.topic send_award_topic)) [
    | inl award ↦ rw award (send_message-IsRouted s ((eq_iff task.topic send_award_topic).0 award))
    | inr other ↦ rw other (elim (Bool-cases (str_eq task.topic save_order_record_topic)) [
      | inl order ↦
          rw order (saved-IsRouted s ((eq_iff task.topic save_order_record_topic).0 order))
      | inr unknown ↦ rw unknown (refl, tt)
    ])
  ]

  -- an update writes the state, or nothing
  abbrev IsUpdated : String → Outbox T → Outcome (Unit {0}) × Outbox T → Type 0
  IsUpdated state s (ok u, s') = s' ≡ record s {
    store = record s.store {
      faults = s'.store.faults;
      tables = record s.store.tables {
        tasks = with_state task.user_id task.message_id state s.store.tables.tasks;
      };
    };
  }
  IsUpdated state s (err e, s') =
      s' ≡ record s { store = record s.store { faults = s'.store.faults } }
  IsUpdated state s (panics, s') = s' ≡ s

  update-IsUpdated :
      (state : String) (s : Outbox T)
      → IsUpdated state s (on_store (update_task_state task.user_id task.message_id state) s)
  unfolding update_task_state execute call
  update-IsUpdated state s = elim (Bool-cases (s.store.routed task.user_id)) [
    | inr lost ↦ rw lost refl
    | inl routed ↦ rw routed (go s.store.faults refl)
  ]
    where
      go :
          (fs : List Bool)
          → s.store.faults ≡ fs
          → IsUpdated state s (
              on_store
                (execute
                  (λ t. record t { tasks = with_state task.user_id task.message_id state t.tasks }))
                s)
      go [] f = rw f refl
      go (true ∷ fs) f = rw f refl
      go (false ∷ fs) f = rw f refl

  abbrev done_in : Outbox T → Bool
  done_in s = completed_in task.user_id task.message_id s.store.tables.tasks

  failed-none :
      (s : Outbox T) (r : Outcome (Unit {0})) (s' : Outbox T)
      → done_in s ≡ false
      → IsUpdated "fail" s (r, s')
      → done_in (drop_error (r, s')).1 ≡ false
  failed-none s (ok u) s' before is =
      ap done_in is ∙ failed_rows task.user_id task.message_id s.store.tables.tasks
  failed-none s (err e) s' before is = ap done_in is ∙ before
  failed-none s panics s' before is = ap done_in is ∙ before

  mark_failed-none :
      (s : Outbox T) → done_in s ≡ false → done_in (mark_failed cal never task s).1 ≡ false
  mark_failed-none s before = failed-none s _ _ before (update-IsUpdated "fail" s)

  completed-IsDone :
      (s s1 : Outbox T) (r : Outcome (Unit {0})) (s2 : Outbox T)
      → done_in s1 ≡ false
      → IsDone task s s1
      → IsUpdated "completed" s1 (r, s2)
      → let (r', s') = after_completed cal never task r s2 in done_in s' ≡ true → IsDone task s s'
  completed-IsDone s s1 (ok u) s2 before done is now = subst (IsDone task s) (sym is) done
  completed-IsDone s s1 (err e) s2 before done is now =
      absurd (let none = mark_failed-none s2 (ap done_in is ∙ before) in cc)
  completed-IsDone s s1 panics s2 before done is now =
      absurd (let none = ap done_in is ∙ before in cc)

  routed-IsDone :
      (s : Outbox T) (r : Outcome (Unit {0})) (s1 : Outbox T)
      → done_in s ≡ false
      → IsRouted s (r, s1)
      → let (r', s') = after_route cal never task r s1 in done_in s' ≡ true → IsDone task s s'
  routed-IsDone s (ok u) s1 before (same, done) now =
      completed-IsDone s s1
        (on_store (update_task_state task.user_id task.message_id "completed") s1).0
        (on_store (update_task_state task.user_id task.message_id "completed") s1).1
        (ap (completed_in task.user_id task.message_id) same ∙ before) done
        (update-IsUpdated "completed" s1) now
  routed-IsDone s (err e) s1 before (same, done) now = absurd (
      let none =
        mark_failed-none s1 (ap (completed_in task.user_id task.message_id) same ∙ before) in
      cc)
  routed-IsDone s panics s1 before (same, done) now =
      absurd (let none = ap (completed_in task.user_id task.message_id) same ∙ before in cc)

-- Where no row of a task says completed, and one does after its dispatch, whichever commands failed:
-- the task's message was published just now, if it announces an award, or the order that it names is
-- charged in the accounts, if it announces an order; no other task is ever completed.
pub completion_settles :
    {T : Type 0} (cal : Calendar T) (never : T) (task : TaskEntity) (s : Outbox T)
    → completed_in task.user_id task.message_id s.store.tables.tasks ≡ false
    → let (r, s') = dispatch_single_task cal never task s in
      completed_in task.user_id task.message_id s'.store.tables.tasks ≡ true → IsDone task s s'
unfolding dispatch_single_task
completion_settles cal never task s before =
    routed-IsDone cal never task s (route_task_by_topic cal never task s).0
      (route_task_by_topic cal never task s).1 before (route-IsRouted cal never task s)
