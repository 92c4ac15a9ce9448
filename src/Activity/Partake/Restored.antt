-- ===== src/Activity/Partake/Restored.antt =====
-- The usecase over the operations of internal/data, where the order cannot be saved.
use mathlib.Core.Path.{subst}
use lucky_market.Base.{String, true, false, some, [], ◌≡◌, refl}
use lucky_market.Base.Int.{ℤ}
use lucky_market.Base.Outcome.{ok, err, driver}
use lucky_market.Text.RoundTrip.{IsInt64}
use lucky_market.Activity.Model.{Calendar, UserRaffleOrder, CreatePartakeOrder}
use lucky_market.Activity.Store.{Store}
use lucky_market.Activity.Pending.{cache_get_or_create}
use lucky_market.Activity.Pending.Retry.{IsRestored, restores_from}
use lucky_market.Activity.Order.{
  save_lite_user_raffle_order, save_lite, insert_order, after_insert, compensated,
}
use lucky_market.Activity.Order.Settled.{IsInserted, insert_order-IsInserted}
use lucky_market.Activity.Partake.{Repo, place_order}

-- a repository whose writes are those of internal/data at the time `now`
abbrev pub data_repo : {T : Type 0} → Calendar T → T → String → Repo T (Store T) → Repo T (Store T)
data_repo cal now message_id repo = record repo {
  cache_get_or_create_no_used_raffle_order = cache_get_or_create cal now;
  save_lite_user_raffle_order = save_lite_user_raffle_order cal message_id;
}

-- For an order with an int64 strategy whose time names the day and the month of the call: where the
-- quota was taken for it, the transaction that saves it fails with an error of the database, and Redis is
-- reached behind it, placing the order fails with that error, and every counter has its value back, with
-- no order pending.
pub failed_order_restores :
    {T : Type 0} (cal : Calendar T) (now : T) (message_id : String) (repo : Repo T (Store T))
    (user_id : String) (activity_id : ℤ) (order order' : UserRaffleOrder T)
    (aggregate : CreatePartakeOrder T) (s s1 s2 : Store T)
    → IsInt64 order.strategy_id
    → cache_get_or_create cal now order s ≡ (ok (order', false), s1)
    → cal.format_day order.order_time ≡ cal.format_day now
    → cal.format_month order.order_time ≡ cal.format_month now
    → s1.routed order'.user_id ≡ true
    → insert_order message_id (record aggregate { user_raffle_order = some order' }) order' s1
      ≡ (err driver, s2)
    → s2.faults ≡ []
    → let (r, s') =
        place_order cal (data_repo cal now message_id repo) user_id activity_id order aggregate s in
      (r ≡ err driver) × IsRestored cal order' s.counters s'
unfolding place_order save_lite_user_raffle_order save_lite after_insert compensated
failed_order_restores cal now message_id repo user_id activity_id order order' aggregate s s1 s2 int
      made day month routed failed healthy =
    let complete = record aggregate { user_raffle_order = some order' } in
    let ((counters, hashes), tables, duplicate, behind) =
      subst (IsInserted message_id complete order' s1) failed
        (insert_order-IsInserted message_id complete order' s1) in
    rw (made, routed, failed)
      (refl, restores_from cal now order order' s s1 s2 int made day month counters hashes healthy)
