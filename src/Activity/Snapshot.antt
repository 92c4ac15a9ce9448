-- ===== src/Activity/Snapshot.antt =====
-- internal/data/activity_quota.go, QueryActivityAccountEntity, cacheActivityAccountSnapshot and
-- AssembleActivityAccountByUserId: the account of a user, with the rows of the month and the day, and
-- its copy in Redis. The rows have no ids, which are positive as soon as a row is read or created.
pub mod View
pub mod Copied
use lucky_market.Base.{String, Bool, true, false, ◌&&◌, Option, none, some, str_eq, if◌then◌else◌}
use lucky_market.Base.Int.{ℤ, eqb_ℤ}
use lucky_market.Base.Outcome.{
  Exec, Outcome, ok, err, panics, Error, pure, fail, panic, ◌>>=◌, ◌>>◌, record_not_found,
}
use lucky_market.Activity.Model.{Calendar, ActivityAccount}
use lucky_market.Activity.Store.{
  Key, total_surplus, day_surplus, month_surplus, AccountRow, PeriodRow, Tables, Store, call, first,
  insert, put_key, put_period,
}
use lucky_market.Activity.Order.{is_duplicate}

abbrev pub is_missing : Error → Bool
is_missing record_not_found = true
is_missing _ = false

unfoldable pub account_entity : String → ℤ → AccountRow → PeriodRow → PeriodRow → ActivityAccount
account_entity user_id activity_id account month day = record {
  user_id = user_id;
  activity_id = activity_id;
  total_count = account.total_count;
  total_count_surplus = account.total_count_surplus;
  day_count = day.count;
  day_count_surplus = day.surplus;
  month_count = month.count;
  month_count_surplus = month.surplus;
}

module _ {T : Type 0} where
  module _ (f : Tables T → Option PeriodRow) (set : PeriodRow → Tables T → Tables T)
      (row : PeriodRow) where
    -- a row that was created in between is read again
    abbrev pub after_create : Outcome (Unit {0}) → Exec (Store T) PeriodRow
    after_create (ok u) = pure row
    after_create (err e) = if is_duplicate e then first f else fail e
    after_create panics = panic

    abbrev pub create_row : Exec (Store T) PeriodRow
    create_row s = let (r, s') = insert f (set row) s in after_create r s'

    abbrev pub after_find : Outcome PeriodRow → Exec (Store T) PeriodRow
    after_find (ok found) = pure found
    after_find (err e) = if is_missing e then create_row else fail e
    after_find panics = panic

    -- the row that `f` reads, or `row`, which is then created
    unfoldable pub find_or_create : Exec (Store T) PeriodRow
    unfolding first insert
    find_or_create s = let (r, s') = first f s in after_find r s'

  abbrev pub start_month : String → ℤ → String → PeriodRow → Tables T → Tables T
  start_month user_id activity_id month row t = record t {
    months = put_period user_id activity_id month (some row) t.months;
  }

  abbrev pub start_day : String → ℤ → String → PeriodRow → Tables T → Tables T
  start_day user_id activity_id day row t = record t {
    days = put_period user_id activity_id day (some row) t.days;
  }

  unfoldable pub query_routed : String → ℤ → String → String → Exec (Store T) ActivityAccount
  unfolding first find_or_create account_entity
  query_routed user_id activity_id month day =
      first (λ t. t.accounts user_id activity_id) >>= λ account.
      find_or_create (λ t. t.months user_id activity_id month)
        (start_month user_id activity_id month)
        (record { count = account.month_count; surplus = account.month_count_surplus })
      >>= λ m.
          find_or_create (λ t. t.days user_id activity_id day) (start_day user_id activity_id day)
            (record { count = account.day_count; surplus = account.day_count_surplus })
          >>= λ d. pure (account_entity user_id activity_id account m d)

  -- `month` and `day` are those of the time of the call; the router's nil database panics
  unfoldable pub query_activity_account_entity :
      String → ℤ → String → String → Exec (Store T) ActivityAccount
  unfolding query_routed
  query_activity_account_entity user_id activity_id month day s =
      if s.routed user_id then query_routed user_id activity_id month day s else (panics, s)

  -- redis.Set
  abbrev pub set_cached : (Store T → Store T) → Exec (Store T) (Unit {0})
  set_cached f = call >> λ s. (ok tt, f s)

  abbrev pub set_counter : Key → ℤ → Store T → Store T
  set_counter key n s = record s { counters = put_key key (some n) s.counters }

  abbrev pub set_snapshot : ActivityAccount → Store T → Store T
  set_snapshot account s = record s {
    snapshots = λ a u.
        if eqb_ℤ account.activity_id a && str_eq account.user_id u
        then some account
        else s.snapshots a u;
  }

  unfoldable pub cache_activity_account_snapshot :
      String → String → ActivityAccount → Exec (Store T) (Unit {0})
  unfolding call
  cache_activity_account_snapshot month day account =
      set_cached (set_snapshot account)
      >> set_cached (
          set_counter (total_surplus account.activity_id account.user_id)
            account.total_count_surplus)
      >> set_cached (
          set_counter (month_surplus account.activity_id account.user_id month)
            account.month_count_surplus)
      >> set_cached (
          set_counter (day_surplus account.activity_id account.user_id day)
            account.day_count_surplus)

  unfoldable pub assemble_activity_account_by_user_id :
      Calendar T → T → T → String → ℤ → Exec (Store T) (Unit {0})
  unfolding query_activity_account_entity cache_activity_account_snapshot
  assemble_activity_account_by_user_id cal now later user_id activity_id =
      query_activity_account_entity user_id activity_id (cal.format_month now) (cal.format_day now)
      >>= cache_activity_account_snapshot (cal.format_month later) (cal.format_day later)
