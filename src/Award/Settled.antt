-- ===== src/Award/Settled.antt =====
-- What SaveUserAwardRecord leaves.
use lucky_market.Base.{
  String, Bool, true, false, Option, none, some, List, [], ◌∷◌, ◌++◌, ◌≡◌, refl, ap, ◌∙◌, ◌⊎◌, inl,
  inr, str_eq, eq_refl, Bool-cases, if◌then◌else◌,
}
use lucky_market.Base.Outcome.{Outcome, ok, err, panics, resume}
use lucky_market.Activity.Store.{
  send_award, AwardRow, OrderRow, Tables, Store, call, after_fault, execute, insert, transaction,
}
use lucky_market.Activity.Pending.{lua_hset}
use lucky_market.Award.{
  send_award_topic, task_state_create, UserAwardRecord, UserAwardTaskInfo, convert_to_task_po,
  convert_to_user_award_record_po, use_order, add_award, after_award, award_body, delete_pending,
  drop_pending, save_award_task, save_user_award_record,
}

abbrev pub marked : {T : Type 0} → Bool → Option (OrderRow T) → Option (OrderRow T)
marked true (some row) = some (record row { order_state = "used" })
marked true none = none
marked false row = row

-- the record, the task that sends it and the end of the order, added to the tables
abbrev pub with_award : {T : Type 0} → String → UserAwardRecord T → Tables T → Tables T
with_award message_id entity t = record t {
  orders = λ u o. marked (str_eq entity.order_id o) (t.orders u o);
  awards = λ o.
      if str_eq entity.order_id o
      then some (record {
        user_id = entity.user_id;
        activity_id = entity.activity_id;
        strategy_id = entity.strategy_id;
        award_id = entity.award_id;
        award_title = entity.award_title;
        award_time = entity.award_time;
        award_state = entity.award_state;
      })
      else t.awards o;
  tasks =
      t.tasks
      ++ record {
        user_id = entity.user_id;
        topic = "send_award";
        message_id = message_id;
        message = send_award entity.user_id entity.award_id entity.award_title;
        state = "create";
      }
        ∷ [];
}

-- what happened to the tables: all of it, or nothing for an order whose award is recorded
abbrev pub IsAwarded : {T : Type 0} → String → UserAwardRecord T → Tables T → Tables T → Type 0
IsAwarded {T} message_id entity before after =
    (before.awards entity.order_id ≡ none) × (after ≡ with_award message_id entity before)
    ⊎ ((row : AwardRow T) × (before.awards entity.order_id ≡ some row) × (after ≡ before))

abbrev pub IsAwardSettled :
    {T : Type 0} → String → UserAwardRecord T → Store T → Outcome (Unit {0}) × Store T → Type 0
IsAwardSettled message_id entity s (ok u, s') = IsAwarded message_id entity s.tables s'.tables
IsAwardSettled message_id entity s (err e, s') = (s'.tables ≡ s.tables) × (s'.hashes ≡ s.hashes)
IsAwardSettled message_id entity s (panics, s') = (s' ≡ s) × (s.routed entity.user_id ≡ false)

module _ {T : Type 0} (message_id : String) (entity : UserAwardRecord T) where
  abbrev info : UserAwardTaskInfo T
  info = record {
    user_award_record = entity;
    task = record {
      user_id = entity.user_id;
      topic = send_award_topic;
      message_id = message_id;
      message = record {
        user_id = entity.user_id;
        award_id = entity.award_id;
        award_title = entity.award_title;
      };
      state = task_state_create;
    };
  }

  abbrev IsCommitted : Store T → Outcome (Unit {0}) × Store T → Type 0
  IsCommitted s (ok u, s') = IsAwarded message_id entity s.tables s'.tables
  IsCommitted s (err e, s') = (s'.tables ≡ s.tables) × (s'.hashes ≡ s.hashes)
  IsCommitted s (panics, s') = ⊥

  transaction-IsCommitted : (s : Store T) → IsCommitted s (transaction (award_body info) s)
  unfolding transaction award_body after_award insert execute call add_award use_order
      convert_to_task_po convert_to_user_award_record_po
  transaction-IsCommitted s = go s.faults (s.tables.awards entity.order_id) refl refl
    where
      go :
          (fs : List Bool) (o : Option (AwardRow T))
          → s.faults ≡ fs
          → s.tables.awards entity.order_id ≡ o
          → IsCommitted s (transaction (award_body info) s)
      go (true ∷ fs) o f e = rw f (refl, refl)
      go [] (some row) f e = rw (f, e) (inr (row, e, refl))
      go (false ∷ []) (some row) f e = rw (f, e) (inr (row, e, refl))
      go (false ∷ true ∷ fs) (some row) f e = rw (f, e) (refl, refl)
      go (false ∷ false ∷ fs) (some row) f e = rw (f, e) (inr (row, e, refl))
      go [] none f e = rw (f, e) (inl (e, refl))
      go (false ∷ []) none f e = rw (f, e) (inl (e, refl))
      go (false ∷ true ∷ fs) none f e = rw (f, e) (refl, refl)
      go (false ∷ false ∷ []) none f e = rw (f, e) (inl (e, refl))
      go (false ∷ false ∷ true ∷ fs) none f e = rw (f, e) (refl, refl)
      go (false ∷ false ∷ false ∷ []) none f e = rw (f, e) (inl (e, refl))
      go (false ∷ false ∷ false ∷ true ∷ fs) none f e = rw (f, e) (refl, refl)
      go (false ∷ false ∷ false ∷ false ∷ fs) none f e = rw (f, e) (inl (e, refl))

  dropped_tables : (s : Store T) → (drop_pending entity s).1.tables ≡ s.tables
  unfolding drop_pending call lua_hset
  dropped_tables s = go s.faults
    where
      go :
          (fs : List Bool)
          → (let (r, s') = after_fault fs s in delete_pending entity r s').tables ≡ s.tables
      go [] = refl
      go (true ∷ fs) = refl
      go (false ∷ fs) = refl

  committed-IsAwardSettled :
      (s : Store T) (r : Outcome (Unit {0})) (s1 : Store T)
      → IsCommitted s (r, s1)
      → IsAwardSettled message_id entity s (resume r (λ u. drop_pending entity) s1)
  unfolding drop_pending
  committed-IsAwardSettled s (ok u) s1 awarded = rw (dropped_tables s1) awarded
  committed-IsAwardSettled s (err e) s1 same = same
  committed-IsAwardSettled s panics s1 h = elim h [ ]

-- Whatever commands fail: a save that succeeds has recorded the award, added the task that sends it
-- and marked the order used, all three, or, where the order's award was recorded before, changed no
-- table; a save that fails changes neither a table nor the pending order; it panics only for a user
-- without a database.
pub award_settles :
    {T : Type 0} (message_id : String) (entity : UserAwardRecord T) (s : Store T)
    → IsAwardSettled message_id entity s (save_user_award_record message_id entity s)
unfolding save_user_award_record save_award_task
award_settles message_id entity s = elim (Bool-cases (s.routed entity.user_id)) [
  | inl routed ↦ rw routed (
      committed-IsAwardSettled message_id entity s
        (transaction (award_body (info message_id entity)) s).0
        (transaction (award_body (info message_id entity)) s).1
        (transaction-IsCommitted message_id entity s))
  | inr lost ↦ rw lost (refl, lost)
]

module _ {T : Type 0} (entity : UserAwardRecord T) where
  -- an award that was recorded stays recorded
  recorded :
      (message_id : String) (t t1 : Tables T)
      → IsAwarded message_id entity t t1
      → (row : AwardRow T) × (t1.awards entity.order_id ≡ some row)
  unfolding convert_to_user_award_record_po
  recorded message_id t t1 (inl (absent, after)) = (
    convert_to_user_award_record_po entity,
    ap (λ x. x.awards entity.order_id) after ∙ rw (eq_refl entity.order_id) refl,
  )
  recorded message_id t t1 (inr (row, found, same)) =
      (row, ap (λ x. x.awards entity.order_id) same ∙ found)

  ok-IsAwarded :
      (message_id : String) (s : Store T) (r : Outcome (Unit {0})) (s1 : Store T)
      → IsAwardSettled message_id entity s (r, s1)
      → r ≡ ok tt
      → IsAwarded message_id entity s.tables s1.tables
  ok-IsAwarded message_id s (ok u) s1 h e = h
  ok-IsAwarded message_id s (err x) s1 h e = cc
  ok-IsAwarded message_id s panics s1 h e = cc

-- Where the award of an order has been recorded, recording an award of the same order again, under
-- whichever event id and whichever commands fail, leaves every table as it is.
pub award_once :
    {T : Type 0} (message_id message_id' : String) (entity : UserAwardRecord T) (s s1 : Store T)
    → (save_user_award_record message_id entity s).0 ≡ ok tt
    → s1.tables ≡ (save_user_award_record message_id entity s).1.tables
    → (save_user_award_record message_id' entity s1).1.tables ≡ s1.tables
award_once {T} message_id message_id' entity s s1 saved same =
    again (save_user_award_record message_id' entity s1).0
      (save_user_award_record message_id' entity s1).1 (award_settles message_id' entity s1)
  where
    again :
        (r : Outcome (Unit {0})) (s2 : Store T)
        → IsAwardSettled message_id' entity s1 (r, s2)
        → s2.tables ≡ s1.tables
    again (ok u) s2 (inr (row, found, kept)) = kept
    again (ok u) s2 (inl (absent, after)) =
        let (row, found) =
          recorded entity message_id s.tables (save_user_award_record message_id entity s).1.tables
            (ok-IsAwarded entity message_id s (save_user_award_record message_id entity s).0
              (save_user_award_record message_id entity s).1 (award_settles message_id entity s)
              saved) in
        cc (absent, found, ap (λ x. x.awards entity.order_id) same)
    again (err e) s2 (kept, hashes) = kept
    again panics s2 (kept, lost) = ap (λ x. x.tables) kept
