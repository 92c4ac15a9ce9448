-- ===== src/Activity/Order/Settled.antt =====
-- What SaveLiteUserRaffleOrder leaves in MySQL and in Redis.
use mathlib.Core.Path.{subst}
use lucky_market.Base.{
  ◌++◌, String, Bool, true, false, if◌then◌else◌, Option, none, some, List, [], ◌∷◌, ◌≡◌, refl, ◌∙◌,
  ◌⊎◌, inl, inr, Bool-cases,
}
use lucky_market.Base.Outcome.{Outcome, ok, err, panics, resume}
use lucky_market.Activity.Model.{Calendar, UserRaffleOrder, CreatePartakeOrder}
use lucky_market.Activity.Store.{
  put_order, save_order, Store, Tables, call, after_fault, insert, execute, transaction, OrderRow,
}
use lucky_market.Activity.Pending.{
  Keys, keys_of, is_text, lua_restore, lua_incr, lua_hset, lua_compensate,
  compensate_pending_raffle_order,
}
use lucky_market.Activity.Order.{
  order_row, build_save_order_task, is_duplicate, compensated, insert_order, after_insert,
  save_lite, save_lite_user_raffle_order,
}

abbrev pub IsSameRedis : {T : Type 0} → Store T → Store T → Type 0
IsSameRedis s s' = (s'.counters ≡ s.counters) × (s'.hashes ≡ s.hashes)

abbrev pub keys_of_order : {T : Type 0} → Calendar T → UserRaffleOrder T → Keys
keys_of_order cal order =
    keys_of order.activity_id order.user_id (cal.format_day order.order_time)
      (cal.format_month order.order_time)

-- whether the next command fails
abbrev pub fails_next : List Bool → Bool
fails_next [] = false
fails_next (b ∷ fs) = b

-- the entries behind the first command that fails
abbrev pub behind_fault : List Bool → List Bool
behind_fault [] = []
behind_fault (true ∷ fs) = fs
behind_fault (false ∷ fs) = behind_fault fs

-- the Redis part of the store: what it was where the command of the compensation fails, and what its
-- script makes of it where it does not
abbrev pub IsGivenBack :
    {T : Type 0} → Calendar T → UserRaffleOrder T → Bool → Store T → Store T → Type 0
IsGivenBack cal order true s s' = IsSameRedis s s'
IsGivenBack cal order false s s' =
    IsSameRedis (lua_compensate (keys_of_order cal order) order.order_id s) s'

module _ {T : Type 0} (cal : Calendar T) (order : UserRaffleOrder T) where
  compensate_same :
      (s s1 : Store T)
      → IsSameRedis s s1
      → IsSameRedis
          (lua_compensate (keys_of_order cal order) order.order_id s)
          (lua_compensate (keys_of_order cal order) order.order_id s1)
  unfolding lua_compensate lua_restore lua_incr lua_hset
  compensate_same s s1 (counters, hashes) =
      let h = s.hashes (keys_of_order cal order).pending in
      rw (counters, hashes)
        (elim (Bool-cases (is_text h.oid order.order_id)) [
          | inl same ↦ rw same (elim (Bool-cases (is_text h.st "0")) [
            | inl waits ↦ rw waits (refl, refl)
            | inr used ↦ rw used (refl, refl)
          ])
          | inr other ↦ rw other (refl, refl)
        ])

  IsGivenBack-after :
      (failing : Bool) (s s1 s' : Store T)
      → IsSameRedis s s1
      → IsGivenBack cal order failing s1 s'
      → IsGivenBack cal order failing s s'
  IsGivenBack-after true s s1 s' (counters, hashes) (c, h) = (c ∙ counters, h ∙ hashes)
  IsGivenBack-after false s s1 s' same (c, h) =
      let (counters, hashes) = compensate_same s s1 same in (c ∙ counters, h ∙ hashes)

  given_back :
      (s : Store T)
      → IsGivenBack cal order
          (fails_next s.faults)
          s
          (compensate_pending_raffle_order cal order s).1
  unfolding compensate_pending_raffle_order call lua_compensate lua_restore lua_incr lua_hset
  given_back s = go s.faults
    where
      go :
          (fs : List Bool)
          → IsGivenBack cal order
              (fails_next fs)
              s
              (let (r, s') = after_fault fs s in
                resume r
                  (λ _ s1. (ok tt, lua_compensate (keys_of_order cal order) order.order_id s1))
                  s').1
      go [] = (refl, refl)
      go (true ∷ fs) = (refl, refl)
      go (false ∷ fs) = compensate_same s (record s { faults = fs }) (refl, refl)

module _ {T : Type 0} (message_id : String) (aggregate : CreatePartakeOrder T)
    (order : UserRaffleOrder T) where
  -- the order and its task, added to the tables
  abbrev pub with_order : Tables T → Tables T
  with_order t = record t {
    orders =
        put_order order.user_id order.order_id
          (some (record {
            activity_id = order.activity_id;
            activity_name = order.activity_name;
            strategy_id = order.strategy_id;
            order_time = order.order_time;
            order_state = order.order_state;
            account_sync_state = "create";
          }))
          t.orders;
    tasks =
        t.tasks
        ++ record {
          user_id = aggregate.user_id;
          topic = "save_order_record";
          message_id = message_id;
          message = save_order aggregate.user_id order.order_id;
          state = "create";
        }
          ∷ [];
  }

  abbrev pub IsSaved : Tables T → Type 0
  IsSaved t = (row : OrderRow T) × (t.orders order.user_id order.order_id ≡ some row)

  -- the transaction adds both or nothing, and reports a duplicate only of an order with a row
  abbrev pub IsInserted : Store T → Outcome (Unit {0}) × Store T → Type 0
  IsInserted s (ok u, s') =
      IsSameRedis s s'
      × (s.tables.orders order.user_id order.order_id ≡ none)
      × (s'.tables ≡ with_order s.tables)
  IsInserted s (err e, s') =
      IsSameRedis s s'
      × (s'.tables ≡ s.tables)
      × (is_duplicate e ≡ true → IsSaved s.tables)
      × (is_duplicate e ≡ false → s'.faults ≡ behind_fault s.faults)
  IsInserted s (panics, s') = ⊥

  pub insert_order-IsInserted :
      (s : Store T) → IsInserted s (insert_order message_id aggregate order s)
  unfolding order_row build_save_order_task insert_order insert execute transaction call
  insert_order-IsInserted s = go s.faults (s.tables.orders order.user_id order.order_id) refl refl
    where
      go :
          (fs : List Bool) (o : Option (OrderRow T))
          → s.faults ≡ fs
          → s.tables.orders order.user_id order.order_id ≡ o
          → IsInserted s (insert_order message_id aggregate order s)
      go (true ∷ fs) o f e = rw f ((refl, refl), refl, (λ d. cc), λ d. refl)
      go [] (some row) f e = rw (f, e) ((refl, refl), refl, (λ d. (row, e)), λ d. cc)
      go (false ∷ fs) (some row) f e = rw (f, e) ((refl, refl), refl, (λ d. (row, e)), λ d. cc)
      go [] none f e = rw (f, e) ((refl, refl), e, refl)
      go (false ∷ []) none f e = rw (f, e) ((refl, refl), e, refl)
      go (false ∷ true ∷ fs) none f e = rw (f, e) ((refl, refl), refl, (λ d. cc), λ d. refl)
      go (false ∷ false ∷ []) none f e = rw (f, e) ((refl, refl), e, refl)
      go (false ∷ false ∷ true ∷ fs) none f e = rw (f, e) ((refl, refl), refl, (λ d. cc), λ d. refl)
      go (false ∷ false ∷ false ∷ fs) none f e = rw (f, e) ((refl, refl), e, refl)

-- What a save of an order leaves: it succeeds with the order and its task added and Redis untouched,
-- or, for an order that has a row already, with nothing changed; it fails with no table changed, and
-- Redis as the script of the compensation leaves it, or untouched if its own command fails too, which is
-- the one behind the command that failed, or the first of all for a user without a database.
abbrev pub IsOrderSettled :
    {T : Type 0}
    → Calendar T
    → String
    → CreatePartakeOrder T
    → UserRaffleOrder T
    → Store T
    → Outcome (Unit {0}) × Store T
    → Type 0
IsOrderSettled {T} cal message_id aggregate order s (ok u, s') =
    IsSameRedis s s'
    × ((s.tables.orders order.user_id order.order_id ≡ none)
          × (s'.tables ≡ with_order message_id aggregate order s.tables)
        ⊎ ((row : OrderRow T) × (s.tables.orders order.user_id order.order_id ≡ some row)
            × (s'.tables ≡ s.tables)))
IsOrderSettled cal message_id aggregate order s (err e, s') =
    (s'.tables ≡ s.tables)
    × IsGivenBack cal order
        (fails_next (if s.routed order.user_id then behind_fault s.faults else s.faults)) s s'
IsOrderSettled cal message_id aggregate order s (panics, s') = ⊥

module _ {T : Type 0} (cal : Calendar T) (order : UserRaffleOrder T) where
  script_tables :
      (s : Store T) → (lua_compensate (keys_of_order cal order) order.order_id s).tables ≡ s.tables
  unfolding lua_compensate lua_restore lua_incr lua_hset
  script_tables s =
      let h = s.hashes (keys_of_order cal order).pending in
      elim (Bool-cases (is_text h.oid order.order_id)) [
        | inl same ↦ rw same (elim (Bool-cases (is_text h.st "0")) [
          | inl waits ↦ rw waits refl
          | inr used ↦ rw used refl
        ])
        | inr other ↦ rw other refl
      ]

  compensate_tables :
      (s : Store T) → (compensate_pending_raffle_order cal order s).1.tables ≡ s.tables
  unfolding compensate_pending_raffle_order call
  compensate_tables s = go s.faults
    where
      go :
          (fs : List Bool)
          → (let (r, s') = after_fault fs s in
              resume {B = Unit {0}} r
                (λ _ s1. (ok tt, lua_compensate (keys_of_order cal order) order.order_id s1))
                s').1.tables
            ≡ s.tables
      go [] = script_tables s
      go (true ∷ fs) = refl
      go (false ∷ fs) = script_tables (record s { faults = fs })

  module _ (message_id : String) (aggregate : CreatePartakeOrder T) (s : Store T) where
    after-IsOrderSettled :
        (r : Outcome (Unit {0})) (s1 : Store T)
        → s.routed order.user_id ≡ true
        → IsInserted message_id aggregate order s (r, s1)
        → IsOrderSettled cal message_id aggregate order s (after_insert cal order r s1)
    unfolding after_insert compensated
    after-IsOrderSettled (ok u) s1 routed (same, absent, tables) = (same, inl (absent, tables))
    after-IsOrderSettled (err e) s1 routed (same, tables, saved, behind) =
        elim (Bool-cases (is_duplicate e)) [
          | inl twice ↦ let (row, found) = saved twice in rw twice (same, inr (row, found, tables))
          | inr once ↦
              rw (once, routed)
                (
                  compensate_tables s1 ∙ tables,
                  IsGivenBack-after cal order (fails_next (behind_fault s.faults)) s s1
                      (compensate_pending_raffle_order cal order s1).1 same
                      (subst
                        (λ fs.
                          IsGivenBack cal order (fails_next fs) s1
                            (compensate_pending_raffle_order cal order s1).1)
                        (behind once) (given_back cal order s1)),
                )
        ]
    after-IsOrderSettled panics s1 routed h = h

    save_lite-IsOrderSettled :
        IsOrderSettled cal message_id aggregate order s (save_lite cal message_id aggregate order s)
    unfolding save_lite compensated
    save_lite-IsOrderSettled = elim (Bool-cases (s.routed order.user_id)) [
      | inl routed ↦ rw routed (
          after-IsOrderSettled (insert_order message_id aggregate order s).0
            (insert_order message_id aggregate order s).1 routed
            (insert_order-IsInserted message_id aggregate order s))
      | inr lost ↦ rw lost (rw lost (compensate_tables s, given_back cal order s))
    ]

-- Whatever commands fail, saving an order and announcing it are one step, and a failed save does not
-- keep the quota: unless the command behind the one that failed fails too, Redis is as the script of the
-- compensation leaves it.
pub save_lite_settles :
    {T : Type 0} (cal : Calendar T) (message_id : String) (aggregate : CreatePartakeOrder T)
    (order : UserRaffleOrder T) (s : Store T)
    → aggregate.user_raffle_order ≡ some order
    → IsOrderSettled cal message_id aggregate order s
        (save_lite_user_raffle_order cal message_id aggregate s)
unfolding save_lite_user_raffle_order
save_lite_settles cal message_id aggregate order s given = rw given (
    save_lite-IsOrderSettled cal order message_id
      (record aggregate { user_raffle_order = some order }) s)
