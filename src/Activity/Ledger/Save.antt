-- ===== src/Activity/Ledger/Save.antt =====
-- SaveCreatePartakeOrderAggregate as a whole: errors, repetition, and when it succeeds.
use lucky_market.Base.{
  String, Bool, true, false, Option, none, some, ◌≡◌, refl, sym, ◌∙◌, ap, inl, inr, str_eq, eq_refl,
  Bool-cases,
}
use mathlib.Core.Option.{some-injective}
use lucky_market.Base.Outcome.{Outcome, ok, err, panics, Post, ◌>>=◌}
use lucky_market.Activity.Model.{
  Calendar, CreatePartakeOrder, UserRaffleOrder, sync_state_completed,
}
use lucky_market.Activity.Store.{OrderRow, Tables, Store, first, transaction}
use lucky_market.Activity.Store.Runs.{
  Runs, failed, >>=-Runs, first-Runs, weaken-Runs, transaction-Runs, transaction-atomic,
}
use lucky_market.Activity.Ledger.{
  completed, charge_order, save_charge, save_routed, save_order,
  save_create_partake_order_aggregate,
}
use lucky_market.Activity.Ledger.Charge.{IsCharged, IsSettled, charge_order-Runs}

module _ {T : Type 0} (cal : Calendar T) where
  body-Runs :
      (user_id order_id : String)
      → Runs {T = T}
          (λ t u t'. IsCharged cal user_id order_id t t')
          (first (λ t. t.orders user_id order_id) >>= charge_order cal user_id order_id)
  body-Runs user_id order_id =
      weaken-Runs
        (>>=-Runs (first-Runs (λ t. t.orders user_id order_id))
          (charge_order-Runs cal user_id order_id))
        λ t u t' (order, t1, (found, same), charge). rw (sym same) (charge (rw same found))

  module _ (aggregate : CreatePartakeOrder T) (s : Store T) where
    by_outcome :
        (order : UserRaffleOrder T) (r : Outcome (Unit {0})) (s' : Store T)
        → aggregate.user_raffle_order ≡ some order
        → Post (λ u. IsCharged cal aggregate.user_id order.order_id s.tables s'.tables) r
        → (failed r ≡ true → s'.tables ≡ s.tables)
        → IsSettled cal aggregate s.tables (r, s')
    by_outcome order (ok u) s' given charged atomic = (order, given, charged)
    by_outcome order (err e) s' given charged atomic = atomic refl
    by_outcome order panics s' given charged atomic = atomic refl

    save_order-IsSettled :
        (o : Option (UserRaffleOrder T))
        → aggregate.user_raffle_order ≡ o
        → IsSettled cal aggregate s.tables (save_order cal aggregate.user_id o s)
    unfolding save_order save_routed save_charge
    save_order-IsSettled none given = refl
    save_order-IsSettled (some order) given = elim (Bool-cases (str_eq order.order_id "")) [
      | inl empty ↦ rw empty refl
      | inr named ↦ rw named (elim (Bool-cases (s.routed aggregate.user_id)) [
        | inl routed ↦ rw routed (
            let body =
              first (λ t. t.orders aggregate.user_id order.order_id)
              >>= charge_order cal aggregate.user_id order.order_id in
            let result = transaction body s in
            by_outcome order result.0 result.1 given
              ((transaction-Runs body (body-Runs aggregate.user_id order.order_id)).runs s)
              (transaction-atomic body s))
        | inr lost ↦ rw lost refl
      ])
    ]

-- Whatever commands fail: a save that succeeds has marked the order it names and charged it, and
-- nothing else, to the user's account and to the rows of the month and the day of the order's time,
-- each of which had a unit left or was started from the account, unless the order was charged before,
-- in which case it changes no table; a save that fails changes no table.
pub save_settles :
    {T : Type 0} (cal : Calendar T) (aggregate : CreatePartakeOrder T) (s : Store T)
    → IsSettled cal aggregate s.tables (save_create_partake_order_aggregate cal aggregate s)
unfolding save_create_partake_order_aggregate
save_settles cal aggregate s = save_order-IsSettled cal aggregate s aggregate.user_raffle_order refl

module _ {T : Type 0} (cal : Calendar T) (user_id order_id : String) where
  sync_of : Option (OrderRow T) → Bool
  sync_of none = false
  sync_of (some row) = str_eq row.account_sync_state sync_state_completed

  -- the second charge of an order finds it charged
  charged_once :
      (t t1 t2 : Tables T)
      → IsCharged cal user_id order_id t t1
      → IsCharged cal user_id order_id t1 t2
      → t2 ≡ t1
  charged_once t t1 t2 before (order', found', inl (done', same')) = same'
  charged_once t t1 t2 (order, found, inl (done, same))
        (order', found', inr (account', waits', has', quota', after')) =
      cc (ap (λ x. x.orders user_id order_id) same)
  charged_once t t1 t2 (order, found, inr (account, waits, has, quota, after))
        (order', found', inr (account', waits', has', quota', after')) =
      let row : t1.orders user_id order_id ≡ some (completed order) =
        ap (λ x. x.orders user_id order_id) after ∙ rw (eq_refl user_id, eq_refl order_id) refl in
      cc

-- what a successful save of an aggregate says of its order
order_of-IsSettled :
    {T : Type 0} (cal : Calendar T) (aggregate : CreatePartakeOrder T) (t : Tables T)
    (r : Outcome (Unit {0})) (s : Store T)
    → IsSettled cal aggregate t (r, s)
    → r ≡ ok tt
    → (order : UserRaffleOrder T) × (aggregate.user_raffle_order ≡ some order)
      × IsCharged cal aggregate.user_id order.order_id t s.tables
order_of-IsSettled cal aggregate t (ok u) s settled e = settled
order_of-IsSettled cal aggregate t (err x) s settled e = cc
order_of-IsSettled cal aggregate t panics s settled e = cc

-- Where a save of an order has succeeded, any later save of it, with the same tables, leaves every
-- table as it is, whichever commands fail: a message that is delivered again charges nothing.
pub save_once :
    {T : Type 0} (cal : Calendar T) (aggregate : CreatePartakeOrder T) (s s1 : Store T)
    → (save_create_partake_order_aggregate cal aggregate s).0 ≡ ok tt
    → s1.tables ≡ (save_create_partake_order_aggregate cal aggregate s).1.tables
    → (save_create_partake_order_aggregate cal aggregate s1).1.tables ≡ s1.tables
save_once {T} cal aggregate s s1 saved same =
    again (save_create_partake_order_aggregate cal aggregate s1).0
      (save_create_partake_order_aggregate cal aggregate s1).1 (save_settles cal aggregate s1)
  where
    again :
        (r : Outcome (Unit {0})) (s2 : Store T)
        → IsSettled cal aggregate s1.tables (r, s2)
        → s2.tables ≡ s1.tables
    again (ok u) s2 (order', given', charged') =
        let (order, given, charged) =
          order_of-IsSettled cal aggregate s.tables
            (save_create_partake_order_aggregate cal aggregate s).0
            (save_create_partake_order_aggregate cal aggregate s).1 (save_settles cal aggregate s)
            saved in
        let one : order ≡ order' = some-injective order order' (sym given ∙ given') in
        charged_once cal aggregate.user_id order'.order_id s.tables s1.tables s2.tables
          (rw (same, sym one) charged) charged'
    again (err e) s2 unchanged = unchanged
    again panics s2 unchanged = unchanged
