-- ===== src/Activity/Ledger.antt =====
-- internal/data/activity_partake.go, SaveCreatePartakeOrderAggregate: the consumer of save_order_record
-- charges an order to the accounts in MySQL. The transaction locks the rows it reads, so that no other
-- one writes them in between.
pub mod Charge
pub mod Save
pub mod Success
use lucky_market.Base.{
  ℕ, String, Bool, true, false, Option, none, some, str_eq, if◌then◌else◌, ◌==◌,
}
use lucky_market.Base.Int.{ℤ, pos, ◌-ℤ◌, leb_ℤ}
use lucky_market.Base.Outcome.{
  Exec, pure, fail, ◌>>=◌, ◌>>◌, invalid_params, db_router_error, activity_quota_error,
  activity_account_day_count_surplus_not_enough, activity_account_month_count_surplus_not_enough,
}
use lucky_market.Activity.Model.{
  Calendar, UserRaffleOrder, CreatePartakeOrder, sync_state_completed,
}
use lucky_market.Activity.Store.{
  AccountRow, PeriodRow, OrderRow, Tables, Store, put_order, put_account, put_period, select, first,
  execute, update, insert, refuse_if, transaction,
}

abbrev pub one_less : PeriodRow → PeriodRow
one_less row = record row { surplus = row.surplus -ℤ pos 1 }

abbrev pub charge_account : AccountRow → AccountRow
charge_account row = record row {
  total_count_surplus = row.total_count_surplus -ℤ pos 1;
  day_count_surplus = row.day_count_surplus -ℤ pos 1;
  month_count_surplus = row.month_count_surplus -ℤ pos 1;
}

-- the row of a month, or of a day, that has none yet
abbrev pub first_of_month : AccountRow → PeriodRow
first_of_month account = record {
  count = account.month_count;
  surplus = account.month_count_surplus -ℤ pos 1;
}

abbrev pub first_of_day : AccountRow → PeriodRow
first_of_day account = record {
  count = account.day_count;
  surplus = account.day_count_surplus -ℤ pos 1;
}

abbrev pub completed : {T : Type 0} → OrderRow T → OrderRow T
completed row = record row { account_sync_state = sync_state_completed }

module _ {T : Type 0} where
  module _ (user_id : String) (activity_id : ℤ) where
    abbrev pub set_account : AccountRow → Tables T → Tables T
    set_account row t = record t {
      accounts = put_account user_id activity_id (some row) t.accounts;
    }

    abbrev pub set_month : String → PeriodRow → Tables T → Tables T
    set_month month row t = record t {
      months = put_period user_id activity_id month (some row) t.months;
    }

    abbrev pub set_day : String → PeriodRow → Tables T → Tables T
    set_day day row t = record t { days = put_period user_id activity_id day (some row) t.days }

    unfoldable pub charge_month_row :
        AccountRow → String → Option PeriodRow → Exec (Store T) (Unit {0})
    unfolding update insert
    charge_month_row account month (some row) =
        refuse_if (leb_ℤ row.surplus (pos 0)) activity_account_month_count_surplus_not_enough
        >> update (λ t. t.months user_id activity_id month) (λ r. set_month month (one_less r))
        >>= λ rows. refuse_if (rows == 0) activity_account_month_count_surplus_not_enough
    charge_month_row account month none =
        insert (λ t. t.months user_id activity_id month) (set_month month (first_of_month account))

    unfoldable pub charge_day_row :
        AccountRow → String → Option PeriodRow → Exec (Store T) (Unit {0})
    unfolding update insert
    charge_day_row account day (some row) =
        refuse_if (leb_ℤ row.surplus (pos 0)) activity_account_day_count_surplus_not_enough
        >> update (λ t. t.days user_id activity_id day) (λ r. set_day day (one_less r))
        >>= λ rows. refuse_if (rows == 0) activity_account_day_count_surplus_not_enough
    charge_day_row account day none =
        insert (λ t. t.days user_id activity_id day) (set_day day (first_of_day account))

    -- the guards and the first two updates
    unfoldable pub charge_accounts : AccountRow → String → String → Exec (Store T) (Unit {0})
    unfolding select update charge_month_row charge_day_row
    charge_accounts account month day =
        refuse_if (leb_ℤ account.total_count_surplus (pos 0)) activity_quota_error
        >> refuse_if (leb_ℤ account.month_count_surplus (pos 0))
            activity_account_month_count_surplus_not_enough
        >> refuse_if (leb_ℤ account.day_count_surplus (pos 0))
            activity_account_day_count_surplus_not_enough
        >> update (λ t. t.accounts user_id activity_id) (λ r. set_account (charge_account r))
        >> select (λ t. t.months user_id activity_id month)
        >>= λ month_row.
            charge_month_row account month month_row
            >> select (λ t. t.days user_id activity_id day)
            >>= charge_day_row account day

  abbrev pub set_order : String → String → OrderRow T → Tables T → Tables T
  set_order user_id order_id row t = record t {
    orders = put_order user_id order_id (some row) t.orders;
  }

  unfoldable pub charge_order :
      Calendar T → String → String → OrderRow T → Exec (Store T) (Unit {0})
  unfolding first update charge_accounts
  charge_order cal user_id order_id order =
      if str_eq order.account_sync_state sync_state_completed
      then pure tt
      else (first (λ t. t.accounts user_id order.activity_id) >>= λ account.
          charge_accounts user_id order.activity_id account (cal.format_month order.order_time)
            (cal.format_day order.order_time)
          >> update (λ t. t.orders user_id order_id) (λ r. set_order user_id order_id (completed r))
          >> pure tt)

  unfoldable pub save_charge : Calendar T → String → String → Exec (Store T) (Unit {0})
  unfolding first charge_order transaction
  save_charge cal user_id order_id =
      transaction (first (λ t. t.orders user_id order_id) >>= charge_order cal user_id order_id)

  unfoldable pub save_routed : Calendar T → String → String → Exec (Store T) (Unit {0})
  unfolding save_charge
  save_routed cal user_id order_id s =
      if s.routed user_id then save_charge cal user_id order_id s else fail db_router_error s

  unfoldable pub save_order :
      Calendar T → String → Option (UserRaffleOrder T) → Exec (Store T) (Unit {0})
  unfolding save_routed
  save_order cal user_id none = fail invalid_params
  save_order cal user_id (some order) =
      if str_eq order.order_id ""
      then fail invalid_params
      else save_routed cal user_id order.order_id

  unfoldable pub save_create_partake_order_aggregate :
      Calendar T → CreatePartakeOrder T → Exec (Store T) (Unit {0})
  unfolding save_order
  save_create_partake_order_aggregate cal aggregate =
      save_order cal aggregate.user_id aggregate.user_raffle_order
