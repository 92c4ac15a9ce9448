-- ===== src/Activity/Partake.antt =====
-- internal/biz/activity/pertake.go: an order for a raffle.
pub mod Guards
pub mod Restored
use lucky_market.Base.{
  ℕ, String, Bool, true, false, not, ◌||◌, Option, none, some, str_eq, if◌then◌else◌,
}
use lucky_market.Base.Int.{ℤ, pos, leb_ℤ}
use lucky_market.Base.Outcome.{
  Exec, pure, fail, ◌>>=◌, ◌>>◌, activity_state_error, activity_time_error, activity_quota_error,
  activity_account_day_count_surplus_not_enough, activity_account_month_count_surplus_not_enough,
}
use lucky_market.Activity.Model.{
  Calendar, Activity, ActivityAccount, ActivityAccountMonth, ActivityAccountDay,
  PartakeRaffleActivity, UserRaffleOrder, CreatePartakeOrder, state_open, order_state_create,
}

-- the operations of the repository that the usecase calls
pub record Repo (T S : Type 0) : Type 0 where
  pub query_raffle_activity : ℤ → Exec S (Activity T)
  pub query_activity_account : String → ℤ → Exec S (Option ActivityAccount)
  pub query_activity_account_day : String → ℤ → String → Exec S (Option ActivityAccountDay)
  pub query_activity_account_month : String → ℤ → String → Exec S (Option ActivityAccountMonth)
  pub cache_get_or_create_no_used_raffle_order :
      UserRaffleOrder T → Exec S (UserRaffleOrder T × Bool)
  pub save_lite_user_raffle_order : CreatePartakeOrder T → Exec S (Unit {0})

-- an account that may be missing: `spent` says whether it is there and used up
abbrev pub day_spent : Option ActivityAccountDay → Bool
day_spent none = false
day_spent (some row) = leb_ℤ row.day_count_surplus (pos 0)

abbrev pub month_spent : Option ActivityAccountMonth → Bool
month_spent none = false
month_spent (some row) = leb_ℤ row.month_count_surplus (pos 0)

abbrev pub is_some : {A : Type 0} → Option A → Bool
is_some none = false
is_some (some a) = true

module _ (user_id : String) (activity_id : ℤ) (account : ActivityAccount) where
  -- a row that is missing starts from the account
  abbrev pub day_or : String → Option ActivityAccountDay → ActivityAccountDay
  day_or day none = record {
    user_id = user_id;
    activity_id = activity_id;
    day = day;
    day_count = account.day_count;
    day_count_surplus = account.day_count_surplus;
  }
  day_or day (some row) = row

  abbrev pub month_or : String → Option ActivityAccountMonth → ActivityAccountMonth
  month_or month none = record {
    user_id = user_id;
    activity_id = activity_id;
    month = month;
    month_count = account.month_count;
    month_count_surplus = account.month_count_surplus;
  }
  month_or month (some row) = row

module _ {T S : Type 0} (cal : Calendar T) (repo : Repo T S) where
  -- `order_id` is the text of a random number of twelve digits
  unfoldable pub build_user_raffle_order : String → Activity T → T → String → UserRaffleOrder T
  build_user_raffle_order user_id activity now order_id = record {
    user_id = user_id;
    activity_id = activity.activity_id;
    activity_name = activity.activity_name;
    strategy_id = activity.strategy_id;
    order_id = order_id;
    order_time = now;
    order_state = order_state_create;
  }

  -- the part of doFilterAccount behind the account
  unfoldable pub filter_periods : String → ℤ → T → ActivityAccount → Exec S (CreatePartakeOrder T)
  filter_periods user_id activity_id now account =
      let day = cal.format_day now in
      let month = cal.format_month now in
      repo.query_activity_account_day user_id activity_id day >>= λ day_row.
      if day_spent day_row
      then fail activity_account_day_count_surplus_not_enough
      else (repo.query_activity_account_month user_id activity_id month >>= λ month_row.
          if month_spent month_row
          then fail activity_account_month_count_surplus_not_enough
          else pure (record {
            user_id = user_id;
            activity_id = activity_id;
            activity_account = some account;
            is_exist_account_month = is_some month_row;
            activity_account_month = some (month_or user_id activity_id account month month_row);
            is_exist_account_day = is_some day_row;
            activity_account_day = some (day_or user_id activity_id account day day_row);
            user_raffle_order = none;
          }))

  unfoldable pub filter_account :
      String → ℤ → T → Option ActivityAccount → Exec S (CreatePartakeOrder T)
  unfolding filter_periods
  filter_account user_id activity_id now none = fail activity_quota_error
  filter_account user_id activity_id now (some account) =
      if leb_ℤ account.total_count_surplus (pos 0)
      then fail activity_quota_error
      else filter_periods user_id activity_id now account

  unfoldable pub do_filter_account : String → ℤ → T → Exec S (CreatePartakeOrder T)
  unfolding filter_account
  do_filter_account user_id activity_id now =
      repo.query_activity_account user_id activity_id >>= filter_account user_id activity_id now

  -- a pending order that is used again is answered without an account
  unfoldable pub place_order :
      String → ℤ → UserRaffleOrder T → CreatePartakeOrder T → Exec S (CreatePartakeOrder T)
  place_order user_id activity_id new_order aggregate =
      repo.cache_get_or_create_no_used_raffle_order new_order >>= λ found.
      let (order, reused) = found in
      if reused
      then pure (record {
        user_id = user_id;
        activity_id = activity_id;
        activity_account = none;
        is_exist_account_month = false;
        activity_account_month = none;
        is_exist_account_day = false;
        activity_account_day = none;
        user_raffle_order = some order;
      })
      else (let complete = record aggregate { user_raffle_order = some order } in
          repo.save_lite_user_raffle_order complete >> pure complete)

  unfoldable pub order_for_activity :
      PartakeRaffleActivity → T → String → Activity T → Exec S (CreatePartakeOrder T)
  unfolding do_filter_account build_user_raffle_order place_order
  order_for_activity partake now order_id activity =
      if not (str_eq activity.state state_open)
      then fail activity_state_error
      else if cal.before now activity.begin_date_time || cal.before activity.end_date_time now
      then fail activity_time_error
      else (do_filter_account partake.user_id partake.activity_id now
          >>= place_order partake.user_id partake.activity_id
              (build_user_raffle_order partake.user_id activity now order_id))

  unfoldable pub create_order : PartakeRaffleActivity → T → String → Exec S (CreatePartakeOrder T)
  unfolding order_for_activity
  create_order partake now order_id =
      repo.query_raffle_activity partake.activity_id >>= order_for_activity partake now order_id
