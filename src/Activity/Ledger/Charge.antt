-- ===== src/Activity/Ledger/Charge.antt =====
-- What a transaction that charges an order leaves in the tables.
use lucky_market.Base.{
  String, true, false, Option, none, some, ◌≡◌, refl, sym, ◌∙◌, ap, ◌⊎◌, inl, inr, str_eq,
  Bool-cases, ◌==◌,
}
use lucky_market.Base.Int.{◌-ℤ◌, ℤ, pos, leb_ℤ}
use lucky_market.Base.Outcome.{
  Outcome, ok, err, panics, activity_quota_error, activity_account_day_count_surplus_not_enough,
  activity_account_month_count_surplus_not_enough,
}
use lucky_market.Activity.Model.{
  Calendar, CreatePartakeOrder, UserRaffleOrder, sync_state_completed,
}
use lucky_market.Activity.Store.{AccountRow, PeriodRow, OrderRow, Tables, Store}
use lucky_market.Activity.Store.Runs.{
  Runs, >>=-Runs, select-Runs, first-Runs, update-Runs, insert-Runs, refuse_if-Runs, weaken-Runs,
  pure-Runs,
}
use lucky_market.Activity.Ledger.{
  one_less, charge_account, first_of_month, first_of_day, completed, set_account, set_month,
  set_day, set_order, charge_month_row, charge_day_row, charge_accounts, charge_order,
}

-- the row of a period after the charge: a period without a row starts from the account
abbrev pub charged_row : ℤ → ℤ → Option PeriodRow → PeriodRow
charged_row count surplus none = record { count = count; surplus = surplus -ℤ pos 1 }
charged_row count surplus (some row) = record { count = row.count; surplus = row.surplus -ℤ pos 1 }

abbrev pub charged_account : AccountRow → AccountRow
charged_account row = record {
  total_count = row.total_count;
  total_count_surplus = row.total_count_surplus -ℤ pos 1;
  day_count = row.day_count;
  day_count_surplus = row.day_count_surplus -ℤ pos 1;
  month_count = row.month_count;
  month_count_surplus = row.month_count_surplus -ℤ pos 1;
}

abbrev pub HasQuota : Option PeriodRow → Type 0
HasQuota none = Unit
HasQuota (some row) = leb_ℤ row.surplus (pos 0) ≡ false

module _ {T : Type 0} (user_id : String) where
  -- the account, the month and the day after the charge, and the account's quota before it
  abbrev pub charged_accounts : ℤ → AccountRow → String → String → Tables T → Tables T
  charged_accounts activity_id account month day t =
      set_day user_id activity_id day
        (charged_row account.day_count account.day_count_surplus (t.days user_id activity_id day))
        (set_month user_id activity_id month
          (charged_row account.month_count account.month_count_surplus
            (t.months user_id activity_id month))
          (set_account user_id activity_id (charged_account account) t))

  abbrev pub HasAccountQuota : ℤ → AccountRow → String → String → Tables T → Type 0
  HasAccountQuota activity_id account month day t =
      (leb_ℤ account.total_count_surplus (pos 0) ≡ false)
      × (leb_ℤ account.month_count_surplus (pos 0) ≡ false)
      × (leb_ℤ account.day_count_surplus (pos 0) ≡ false)
      × HasQuota (t.months user_id activity_id month)
      × HasQuota (t.days user_id activity_id day)

  charge_month-Runs :
      (a : ℤ) (account : AccountRow) (month : String) (row : Option PeriodRow)
      → Runs {T = T}
          (λ t u t'.
            t.months user_id a month ≡ row
            → HasQuota row
              × (t'
                  ≡ set_month user_id a month
                      (charged_row account.month_count account.month_count_surplus row)
                      t))
          (charge_month_row user_id a account month row)
  unfolding charge_month_row
  charge_month-Runs a account month none =
      weaken-Runs
        (insert-Runs (λ t. t.months user_id a month)
          (set_month user_id a month (first_of_month account)))
        λ t u t' same e. (tt, same)
  charge_month-Runs a account month (some row) =
      weaken-Runs
        (>>=-Runs
          (>>=-Runs
            (refuse_if-Runs (leb_ℤ row.surplus (pos 0))
              activity_account_month_count_surplus_not_enough)
            λ u.
              update-Runs (λ t. t.months user_id a month)
                (λ r. set_month user_id a month (one_less r)))
          λ rows. refuse_if-Runs (rows == 0) activity_account_month_count_surplus_not_enough)
        λ t u t' (rows, t2, (v, t1, (guard, same1), (n, same2)), (one, same3)) e.
          (guard, same3 ∙ same2 ∙ rw same1 (rw e refl))

  charge_day-Runs :
      (a : ℤ) (account : AccountRow) (day : String) (row : Option PeriodRow)
      → Runs {T = T}
          (λ t u t'.
            t.days user_id a day ≡ row
            → HasQuota row
              × (t'
                  ≡ set_day user_id a day
                      (charged_row account.day_count account.day_count_surplus row)
                      t))
          (charge_day_row user_id a account day row)
  unfolding charge_day_row
  charge_day-Runs a account day none =
      weaken-Runs
        (insert-Runs (λ t. t.days user_id a day) (set_day user_id a day (first_of_day account)))
        λ t u t' same e. (tt, same)
  charge_day-Runs a account day (some row) =
      weaken-Runs
        (>>=-Runs
          (>>=-Runs
            (refuse_if-Runs (leb_ℤ row.surplus (pos 0))
              activity_account_day_count_surplus_not_enough)
            λ u. update-Runs (λ t. t.days user_id a day) (λ r. set_day user_id a day (one_less r)))
          λ rows. refuse_if-Runs (rows == 0) activity_account_day_count_surplus_not_enough)
        λ t u t' (rows, t2, (v, t1, (guard, same1), (n, same2)), (one, same3)) e.
          (guard, same3 ∙ same2 ∙ rw same1 (rw e refl))

  charge_accounts-Runs :
      (a : ℤ) (account : AccountRow) (month day : String)
      → Runs {T = T}
          (λ t u t'.
            t.accounts user_id a ≡ some account
            → HasAccountQuota a account month day t × (t' ≡ charged_accounts a account month day t))
          (charge_accounts user_id a account month day)
  unfolding charge_accounts
  charge_accounts-Runs a account month day =
      weaken-Runs
        (>>=-Runs
          (>>=-Runs
            (>>=-Runs
              (>>=-Runs
                (>>=-Runs
                  (refuse_if-Runs (leb_ℤ account.total_count_surplus (pos 0)) activity_quota_error)
                  λ u.
                    refuse_if-Runs (leb_ℤ account.month_count_surplus (pos 0))
                      activity_account_month_count_surplus_not_enough)
                λ u.
                  refuse_if-Runs (leb_ℤ account.day_count_surplus (pos 0))
                    activity_account_day_count_surplus_not_enough)
              λ u.
                update-Runs (λ t. t.accounts user_id a)
                  (λ r. set_account user_id a (charge_account r)))
            λ u. select-Runs (λ t. t.months user_id a month))
          λ month_row.
            >>=-Runs
              (>>=-Runs (charge_month-Runs a account month month_row)
                λ u. select-Runs (λ t. t.days user_id a day))
              (charge_day-Runs a account day))
        λ t u t'
            (
              row,
              t5,
              (
                n,
                t4,
                (u3, t3, (u2, t2, (u1, t1, (total, e1), (monthly, e2)), (daily, e3)), (one, e4)),
                (em, e5),
              ),
              (day_row, t7, (u6, t6, charged_month, (ed, e6)), charged_day),
            )
            e.
          let same3 : t3 ≡ t = e3 ∙ e2 ∙ e1 in
          let same4 : t4 ≡ set_account user_id a (charge_account account) t =
            e4 ∙ rw same3 (rw e refl) in
          let month_is : t.months user_id a month ≡ row =
            sym (ap (λ x. x.months user_id a month) same4) ∙ em in
          let (month_left, e7) = charged_month (ap (λ x. x.months user_id a month) e5 ∙ em) in
          let same6 : t6
              ≡ set_month user_id a month
                  (charged_row account.month_count account.month_count_surplus row)
                  (set_account user_id a (charge_account account) t) =
            e7 ∙ rw (e5 ∙ same4) refl in
          let day_is : t.days user_id a day ≡ day_row =
            sym (ap (λ x. x.days user_id a day) same6) ∙ ed in
          let (day_left, e8) = charged_day (ap (λ x. x.days user_id a day) e6 ∙ ed) in
          (
            (total, monthly, daily, rw month_is month_left, rw day_is day_left),
            e8 ∙ rw (e6 ∙ same6) (rw (month_is, day_is) refl),
          )

-- How `before` and `after` differ by the charge of one order: an order that was charged already
-- changes nothing; any other takes one unit of the account and of the rows of the month and the day
-- of its time, each of which had one or is started from the account, and is marked.
abbrev pub IsCharged : {T : Type 0} → Calendar T → String → String → Tables T → Tables T → Type 0
IsCharged {T} cal user_id order_id before after =
    (order : OrderRow T) × (before.orders user_id order_id ≡ some order)
    × ((str_eq order.account_sync_state sync_state_completed ≡ true) × (after ≡ before)
        ⊎ ((account : AccountRow) × (str_eq order.account_sync_state sync_state_completed ≡ false)
            × (before.accounts user_id order.activity_id ≡ some account)
            × HasAccountQuota user_id order.activity_id account (cal.format_month order.order_time)
                (cal.format_day order.order_time) before
            × (after
                ≡ set_order user_id order_id (record order { account_sync_state = "completed" })
                    (charged_accounts user_id order.activity_id account
                      (cal.format_month order.order_time) (cal.format_day order.order_time)
                      before))))

-- a save that succeeds charges its order, and one that fails leaves the tables as they were
abbrev pub IsSettled :
    {T : Type 0}
    → Calendar T
    → CreatePartakeOrder T
    → Tables T
    → Outcome (Unit {0}) × Store T
    → Type 0
IsSettled {T} cal aggregate before (ok u, s) =
    (order : UserRaffleOrder T) × (aggregate.user_raffle_order ≡ some order)
    × IsCharged cal aggregate.user_id order.order_id before s.tables
IsSettled cal aggregate before (err e, s) = s.tables ≡ before
IsSettled cal aggregate before (panics, s) = s.tables ≡ before

module _ {T : Type 0} (cal : Calendar T) (user_id order_id : String) where
  pub charge_order-Runs :
      (order : OrderRow T)
      → Runs {T = T}
          (λ t u t'. t.orders user_id order_id ≡ some order → IsCharged cal user_id order_id t t')
          (charge_order cal user_id order_id order)
  unfolding charge_order
  charge_order-Runs order =
      elim (Bool-cases (str_eq order.account_sync_state sync_state_completed)) [
        | inl done ↦ rw done (record { runs = λ s e. (order, e, inl (done, refl)) })
        | inr waits ↦ rw waits (
            weaken-Runs
              (>>=-Runs (first-Runs (λ t. t.accounts user_id order.activity_id)) λ account.
                >>=-Runs
                  (>>=-Runs
                    (charge_accounts-Runs user_id order.activity_id account
                      (cal.format_month order.order_time) (cal.format_day order.order_time))
                    λ u.
                      update-Runs (λ t. t.orders user_id order_id)
                        (λ r. set_order user_id order_id (completed r)))
                  λ n. pure-Runs)
              λ t u t' (account, t1, (found, same1), (n, t3, (v, t2, charged, (one, same3)), same4))
                  e.
                let (quota, same2) = charged (rw same1 found) in
                (
                  order,
                  e,
                  inr (
                    account,
                    waits,
                    found,
                    rw (sym same1) quota,
                    same4 ∙ same3 ∙ rw same2 (rw same1 (rw e refl)),
                  ),
                ))
      ]
