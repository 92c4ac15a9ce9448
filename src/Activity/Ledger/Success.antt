-- ===== src/Activity/Ledger/Success.antt =====
-- When SaveCreatePartakeOrderAggregate succeeds.
use lucky_market.Base.{String, true, false, Option, none, some, [], ◌≡◌, refl, str_eq}
use lucky_market.Base.Int.{ℤ}
use lucky_market.Base.Outcome.{ok}
use lucky_market.Activity.Model.{
  Calendar, CreatePartakeOrder, UserRaffleOrder, sync_state_completed,
}
use lucky_market.Activity.Store.{
  AccountRow, PeriodRow, OrderRow, Tables, Store, first, update, insert, select, transaction, call,
}
use lucky_market.Activity.Ledger.{
  set_day, charge_account, set_account, set_month, charge_order, charge_accounts, charge_month_row,
  charge_day_row, save_charge, save_routed, save_order, save_create_partake_order_aggregate,
}
use lucky_market.Activity.Ledger.Charge.{HasAccountQuota, HasQuota, charged_row, charged_accounts}

-- a store whose commands all reach their server
abbrev sound : {T : Type 0} → Tables T → Store T → Store T
sound t s = record s { tables = t; faults = [] }

module _ {T : Type 0} (user_id : String) (a : ℤ) (account : AccountRow) (s : Store T) where
  month_succeeds :
      (month : String) (row : Option PeriodRow) (t : Tables T)
      → t.months user_id a month ≡ row
      → HasQuota row
      → charge_month_row user_id a account month row (sound t s) ≡ (
        ok tt,
        sound
            (set_month user_id a month
              (charged_row account.month_count account.month_count_surplus row)
              t)
            s,
      )
  unfolding charge_month_row update insert call
  month_succeeds month none t e quota = rw e refl
  month_succeeds month (some row) t e quota = rw (quota, e) refl

  day_succeeds :
      (day : String) (row : Option PeriodRow) (t : Tables T)
      → t.days user_id a day ≡ row
      → HasQuota row
      → charge_day_row user_id a account day row (sound t s) ≡ (
        ok tt,
        sound
            (set_day user_id a day (charged_row account.day_count account.day_count_surplus row) t)
            s,
      )
  unfolding charge_day_row update insert call
  day_succeeds day none t e quota = rw e refl
  day_succeeds day (some row) t e quota = rw (quota, e) refl

  accounts_succeed :
      (month day : String) (t : Tables T)
      → t.accounts user_id a ≡ some account
      → HasAccountQuota user_id a account month day t
      → charge_accounts user_id a account month day (sound t s)
        ≡ (ok tt, sound (charged_accounts user_id a account month day t) s)
  unfolding charge_accounts update select call
  accounts_succeed month day t e (total, monthly, daily, month_left, day_left) =
      let t1 : Tables T = set_account user_id a (charge_account account) t in
      let month_row = t.months user_id a month in
      let t2 : Tables T =
        set_month user_id a month
          (charged_row account.month_count account.month_count_surplus month_row) t1 in
      rw (total, monthly, daily, e)
        (rw (month_succeeds month month_row t1 refl month_left)
          (rw (day_succeeds day (t.days user_id a day) t2 refl day_left) refl))

-- Where no command fails, the user has a database, the order has a row that is not charged yet, and
-- the account and any rows of the order's month and day have a unit left, the save succeeds.
pub save_succeeds :
    {T : Type 0} (cal : Calendar T) (aggregate : CreatePartakeOrder T) (order : UserRaffleOrder T)
    (s : Store T) (row : OrderRow T) (account : AccountRow)
    → s.faults ≡ []
    → s.routed aggregate.user_id ≡ true
    → aggregate.user_raffle_order ≡ some order
    → str_eq order.order_id "" ≡ false
    → s.tables.orders aggregate.user_id order.order_id ≡ some row
    → str_eq row.account_sync_state sync_state_completed ≡ false
    → s.tables.accounts aggregate.user_id row.activity_id ≡ some account
    → HasAccountQuota aggregate.user_id row.activity_id account
        (cal.format_month row.order_time)
        (cal.format_day row.order_time)
        s.tables
    → (save_create_partake_order_aggregate cal aggregate s).0 ≡ ok tt
unfolding save_create_partake_order_aggregate save_order save_routed save_charge transaction first
    charge_order update call
save_succeeds cal aggregate order s row account healthy routed given named found waits has quota =
    let t = s.tables in
    let healthy_store : s ≡ sound t s = rw healthy refl in
    rw (given, named, routed)
      (rw healthy_store (
        rw (found, waits, has)
          (rw
            (accounts_succeed aggregate.user_id row.activity_id account s
              (cal.format_month row.order_time) (cal.format_day row.order_time) t has quota)
            (rw found refl))))
