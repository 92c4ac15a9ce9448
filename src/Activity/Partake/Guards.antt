-- ===== src/Activity/Partake/Guards.antt =====
-- When CreateOrder takes quota, and what it answers otherwise.
use lucky_market.Base.{
  String, true, false, Option, none, some, ◌≡◌, refl, str_eq, inl, inr, Bool-cases, ◌⊎◌, ◌≢◌,
  eq_iff, arith,
}
use lucky_market.Base.Int.{pos, leb_ℤ, ◌≤ℤ◌}
use lucky_market.Base.Outcome.{
  Outcome, ok, err, activity_state_error, activity_time_error, activity_quota_error,
  activity_account_day_count_surplus_not_enough, activity_account_month_count_surplus_not_enough,
}
use lucky_market.Activity.Model.{
  Calendar, Activity, ActivityAccount, ActivityAccountMonth, ActivityAccountDay,
  PartakeRaffleActivity, CreatePartakeOrder, state_open,
}
use lucky_market.Activity.Partake.{
  Repo, day_spent, month_spent, day_or, month_or, is_some, create_order, order_for_activity,
  do_filter_account, filter_account, filter_periods, place_order, build_user_raffle_order,
}

-- a row of the day or the month that is missing, or has a unit
abbrev pub IsDayLeft : Option ActivityAccountDay → Type 0
IsDayLeft none = Unit
IsDayLeft (some row) = pos 1 ≤ℤ row.day_count_surplus

abbrev pub IsMonthLeft : Option ActivityAccountMonth → Type 0
IsMonthLeft none = Unit
IsMonthLeft (some row) = pos 1 ≤ℤ row.month_count_surplus

-- Every condition holds and the order is placed, or the first that fails is answered, from the state that
-- the reads up to it left.
abbrev pub IsDecided :
    {T S : Type 0}
    → Calendar T
    → T
    → Activity T
    → ActivityAccount
    → Option ActivityAccountDay
    → Option ActivityAccountMonth
    → (S × S × S × S)
    → Outcome (CreatePartakeOrder T) × S
    → Outcome (CreatePartakeOrder T) × S
    → Type 0
IsDecided cal now activity account day_row month_row (s1, s2, s3, s4) placed result =
    (activity.state ≢ "open") × (result ≡ (err activity_state_error, s1))
    ⊎ (activity.state ≡ "open")
      × ((cal.before now activity.begin_date_time ≡ true)
          ⊎ (cal.before activity.end_date_time now ≡ true))
      × (result ≡ (err activity_time_error, s1))
    ⊎ (activity.state ≡ "open")
      × (cal.before now activity.begin_date_time ≡ false)
      × (cal.before activity.end_date_time now ≡ false)
      × ((account.total_count_surplus ≤ℤ pos 0) × (result ≡ (err activity_quota_error, s2))
          ⊎ (pos 1 ≤ℤ account.total_count_surplus)
            × ((¬ IsDayLeft day_row)
                  × (result ≡ (err activity_account_day_count_surplus_not_enough, s3))
                ⊎ IsDayLeft day_row
                  × ((¬ IsMonthLeft month_row)
                        × (result ≡ (err activity_account_month_count_surplus_not_enough, s4))
                      ⊎ IsMonthLeft month_row × (result ≡ placed))))

day_spent-cases :
    (o : Option ActivityAccountDay)
    → (day_spent o ≡ true) × (¬ IsDayLeft o) ⊎ (day_spent o ≡ false) × IsDayLeft o
day_spent-cases none = inr (refl, tt)
day_spent-cases (some row) = elim (Bool-cases (leb_ℤ row.day_count_surplus (pos 0))) [
  | inl spent ↦ rw spent (inl (refl, λ h. ground arith))
  | inr left ↦ rw left (inr (refl, ground arith))
]

month_spent-cases :
    (o : Option ActivityAccountMonth)
    → (month_spent o ≡ true) × (¬ IsMonthLeft o) ⊎ (month_spent o ≡ false) × IsMonthLeft o
month_spent-cases none = inr (refl, tt)
month_spent-cases (some row) = elim (Bool-cases (leb_ℤ row.month_count_surplus (pos 0))) [
  | inl spent ↦ rw spent (inl (refl, λ h. ground arith))
  | inr left ↦ rw left (inr (refl, ground arith))
]

module _ {T S : Type 0} (cal : Calendar T) (repo : Repo T S) where
  abbrev pub aggregate_of :
      PartakeRaffleActivity
      → T
      → ActivityAccount
      → Option ActivityAccountDay
      → Option ActivityAccountMonth
      → CreatePartakeOrder T
  aggregate_of partake now account day_row month_row = record {
    user_id = partake.user_id;
    activity_id = partake.activity_id;
    activity_account = some account;
    is_exist_account_month = is_some month_row;
    activity_account_month =
        some
          (month_or partake.user_id partake.activity_id account (cal.format_month now) month_row);
    is_exist_account_day = is_some day_row;
    activity_account_day =
        some (day_or partake.user_id partake.activity_id account (cal.format_day now) day_row);
    user_raffle_order = none;
  }

  -- Where the reads of the activity, the account and the rows of the day and the month succeed: an order is
  -- placed exactly if the activity is open, the time is in its window and neither the account nor a row
  -- is used up; otherwise the first of the conditions that fails gives the error, and nothing but reads
  -- was done.
  pub create_order_guards :
      (partake : PartakeRaffleActivity) (now : T) (order_id : String) (s s1 s2 s3 s4 : S)
      (activity : Activity T) (account : ActivityAccount) (day_row : Option ActivityAccountDay)
      (month_row : Option ActivityAccountMonth)
      → repo.query_raffle_activity partake.activity_id s ≡ (ok activity, s1)
      → repo.query_activity_account partake.user_id partake.activity_id s1 ≡ (ok (some account), s2)
      → repo.query_activity_account_day partake.user_id partake.activity_id (cal.format_day now) s2
        ≡ (ok day_row, s3)
      → repo.query_activity_account_month partake.user_id partake.activity_id
          (cal.format_month now)
          s3
        ≡ (ok month_row, s4)
      → IsDecided cal now activity account day_row month_row
          (s1, s2, s3, s4)
          (place_order cal repo partake.user_id partake.activity_id
            (build_user_raffle_order cal repo partake.user_id activity now order_id)
            (aggregate_of partake now account day_row month_row)
            s4)
          (create_order cal repo partake now order_id s)
  unfolding create_order order_for_activity do_filter_account filter_account filter_periods
  create_order_guards partake now order_id s s1 s2 s3 s4 activity account day_row month_row
        read_activity read_account read_day read_month =
      rw read_activity (elim (Bool-cases (str_eq activity.state state_open)) [
        | inr closed ↦ rw closed (inl (differ closed, refl))
        | inl opened ↦
            let is_open = (eq_iff activity.state state_open).0 opened in
            rw opened (elim (Bool-cases (cal.before now activity.begin_date_time)) [
              | inl early ↦ rw early (inr (inl (is_open, inl refl, refl)))
              | inr begun ↦ rw begun (elim (Bool-cases (cal.before activity.end_date_time now)) [
                | inl late ↦ rw late (inr (inl (is_open, inr refl, refl)))
                | inr lasts ↦
                    rw (lasts, read_account)
                      (inr (
                        inr (
                          is_open,
                          refl,
                          refl,
                          elim (Bool-cases (leb_ℤ account.total_count_surplus (pos 0))) [
                            | inl spent ↦ rw spent (inl (ground arith, refl))
                            | inr more ↦
                                rw (more, read_day)
                                  (inr (
                                    ground arith,
                                    elim (day_spent-cases day_row) [
                                      | inl (spent, none_left) ↦ rw spent (inl (none_left, refl))
                                      | inr (free, left) ↦
                                          rw (free, read_month)
                                            (inr (
                                              left,
                                              elim (month_spent-cases month_row) [
                                                | inl (spent, none_left) ↦
                                                    rw spent (inl (none_left, refl))
                                                | inr (free', left') ↦ rw free' (inr (left', refl))
                                              ],
                                            ))
                                    ],
                                  ))
                          ],
                        )))
              ])
            ])
      ])
    where
      differ : str_eq activity.state state_open ≡ false → activity.state ≢ "open"
      differ closed same = let e = (eq_iff activity.state state_open).1 same in cc
