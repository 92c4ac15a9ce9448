-- ===== src/Activity/Recharge.antt =====
-- internal/biz/activity/quota.go, CreateRaffleActivityOrder, internal/data/activity_quota.go, SaveOrder,
-- and internal/listener/rebate_listener.go: an order for a sku adds its counts to the user's account.
-- The cached queries of the configuration are parameters.
pub mod Credit
pub mod Once
use lucky_market.Base.{
  ℕ, String, Bool, true, false, ◌||◌, Option, none, some, List, [], ◌∷◌, str_eq, ◌==◌,
  if◌then◌else◌,
}
use lucky_market.Base.Int.{ℤ, pos, ◌+ℤ◌, eqb_ℤ}
use lucky_market.Base.Outcome.{
  Exec, Outcome, ok, err, panics, Error, pure, fail, deref, ◌>>=◌, ◌>>◌, db_router_error,
  invalid_params, message, db_index_duplicate,
}
use lucky_market.Text.{parse_int}
use lucky_market.Activity.Model.{
  Calendar, Activity, ActivitySku, ActivityCount, SkuRecharge, ActivityOrder, CreateQuotaOrder,
  activity_order_state_completed,
}
use lucky_market.Activity.Store.{
  AccountRow, PeriodRow, RechargeRow, Tables, Store, update, insert, transaction, put_account,
  put_period,
}

abbrev pub raise_period : ℤ → PeriodRow → PeriodRow
raise_period n row = record { count = row.count +ℤ n; surplus = row.surplus +ℤ n }

abbrev pub new_period : ℤ → PeriodRow
new_period n = record { count = n; surplus = n }

module _ {T : Type 0} where
  unfoldable pub recharge_row : ActivityOrder T → RechargeRow T
  recharge_row order = record {
    user_id = order.user_id;
    sku = order.sku;
    activity_id = order.activity_id;
    activity_name = order.activity_name;
    strategy_id = order.strategy_id;
    order_id = order.order_id;
    order_time = order.order_time;
    total_count = order.total_count;
    day_count = order.day_count;
    month_count = order.month_count;
    state = order.state;
  }

  unfoldable pub add_recharge : ActivityOrder T → Tables T → Tables T
  unfolding recharge_row
  add_recharge order t = record t {
    recharges =
        λ n. if str_eq order.out_business_no n then some (recharge_row order) else t.recharges n;
  }

  -- `total_count + ?` and the like
  unfoldable pub raise_account : CreateQuotaOrder T → AccountRow → Tables T → Tables T
  unfolding ◌+ℤ◌
  raise_account agg row t = record t {
    accounts =
        put_account agg.user_id agg.activity_id
          (some (record {
            total_count = row.total_count +ℤ agg.total_count;
            total_count_surplus = row.total_count_surplus +ℤ agg.total_count;
            day_count = row.day_count +ℤ agg.day_count;
            day_count_surplus = row.day_count_surplus +ℤ agg.day_count;
            month_count = row.month_count +ℤ agg.month_count;
            month_count_surplus = row.month_count_surplus +ℤ agg.month_count;
          }))
          t.accounts;
  }

  unfoldable pub new_account : CreateQuotaOrder T → Tables T → Tables T
  new_account agg t = record t {
    accounts =
        put_account agg.user_id agg.activity_id
          (some (record {
            total_count = agg.total_count;
            total_count_surplus = agg.total_count;
            day_count = agg.day_count;
            day_count_surplus = agg.day_count;
            month_count = agg.month_count;
            month_count_surplus = agg.month_count;
          }))
          t.accounts;
  }

  abbrev pub set_day : CreateQuotaOrder T → String → PeriodRow → Tables T → Tables T
  set_day agg day row t = record t {
    days = put_period agg.user_id agg.activity_id day (some row) t.days;
  }

  abbrev pub set_month : CreateQuotaOrder T → String → PeriodRow → Tables T → Tables T
  set_month agg month row t = record t {
    months = put_period agg.user_id agg.activity_id month (some row) t.months;
  }

  -- a row that no UPDATE changed is inserted
  abbrev pub unless_updated : Exec (Store T) (Unit {0}) → ℕ → Exec (Store T) (Unit {0})
  unless_updated create n = if n == 0 then create else pure tt

  -- 3.1 to 3.3
  unfoldable pub save_account : CreateQuotaOrder T → Exec (Store T) (Unit {0})
  unfolding update insert raise_account new_account
  save_account agg =
      update (λ t. t.accounts agg.user_id agg.activity_id) (raise_account agg)
      >>= unless_updated (insert (λ t. t.accounts agg.user_id agg.activity_id) (new_account agg))

  unfoldable pub save_day : CreateQuotaOrder T → String → Exec (Store T) (Unit {0})
  unfolding update insert
  save_day agg day =
      if eqb_ℤ agg.day_count (pos 0)
      then pure tt
      else update (λ t. t.days agg.user_id agg.activity_id day)
          (λ row. set_day agg day (raise_period agg.day_count row))
        >>= unless_updated (
            insert (λ t. t.days agg.user_id agg.activity_id day)
              (set_day agg day (new_period agg.day_count)))

  unfoldable pub save_month : CreateQuotaOrder T → String → Exec (Store T) (Unit {0})
  unfolding update insert
  save_month agg month =
      if eqb_ℤ agg.month_count (pos 0)
      then pure tt
      else update (λ t. t.months agg.user_id agg.activity_id month)
          (λ row. set_month agg month (raise_period agg.month_count row))
        >>= unless_updated (
            insert (λ t. t.months agg.user_id agg.activity_id month)
              (set_month agg month (new_period agg.month_count)))

  unfoldable pub save_order_body : Calendar T → CreateQuotaOrder T → Exec (Store T) (Unit {0})
  unfolding insert add_recharge save_account save_day save_month
  save_order_body cal agg =
      let order = agg.activity_order in
      insert (λ t. t.recharges order.out_business_no) (add_recharge order)
      >> save_account agg
      >> save_day agg (cal.format_day order.order_time)
      >> save_month agg (cal.format_month order.order_time)

  unfoldable pub save_order : Calendar T → CreateQuotaOrder T → Exec (Store T) (Unit {0})
  unfolding transaction save_order_body
  save_order cal agg s =
      if s.routed agg.user_id
      then transaction (save_order_body cal agg) s
      else (err db_router_error, s)

-- the queries of the interface Repo that CreateRaffleActivityOrder calls; none is a nil pointer
pub record QuotaQueries (T : Type 0) : Type 0 where
  pub query_activity_sku : ℤ → Exec (Store T) (Option ActivitySku)
  pub query_raffle_activity_by_activity_id : ℤ → Exec (Store T) (Option (Activity T))
  pub query_raffle_activity_count_by_activity_count_id : ℤ → Exec (Store T) (Option ActivityCount)

-- what HandleFunc answers: whether the message is delivered again, and the error
pub record Handled : Type 0 where
  pub retry : Bool
  pub failure : Option Error

-- errors.Is(err, activity.ErrDBIndexDuplicate)
abbrev pub is_index_duplicate : Error → Bool
is_index_duplicate db_index_duplicate = true
is_index_duplicate _ = false

abbrev pub handled : Bool → Option Error → Handled
handled retry failure = record { retry = retry; failure = failure }

pub record RebateMessage : Type 0 where
  pub user_id : String
  pub rebate_desc : String
  pub rebate_type : String
  pub rebate_config : String
  pub biz_id : String

module _ {T : Type 0} (cal : Calendar T) (queries : QuotaQueries T) where
  -- `order_id` is the random id, and `now` the time of the call
  unfoldable pub build_order_aggregate :
      String → T → SkuRecharge → ActivitySku → Activity T → ActivityCount → CreateQuotaOrder T
  build_order_aggregate order_id now recharge sku activity count = record {
    user_id = recharge.user_id;
    activity_id = sku.activity_id;
    total_count = count.total_count;
    day_count = count.day_count;
    month_count = count.month_count;
    activity_order = record {
      user_id = recharge.user_id;
      sku = recharge.sku;
      activity_id = activity.activity_id;
      activity_name = activity.activity_name;
      strategy_id = activity.strategy_id;
      order_id = order_id;
      order_time = now;
      total_count = count.total_count;
      day_count = count.day_count;
      month_count = count.month_count;
      state = activity_order_state_completed;
      out_business_no = recharge.out_business_no;
    };
  }

  unfoldable pub save_built :
      String
      → T
      → SkuRecharge
      → ActivitySku
      → Option (Activity T)
      → Option ActivityCount
      → Exec (Store T) String
  unfolding build_order_aggregate save_order
  save_built order_id now recharge sku activity count = deref activity >>= λ a. deref count >>= λ c.
      save_order cal (build_order_aggregate order_id now recharge sku a c) >> pure order_id

  unfoldable pub create_raffle_activity_order : String → T → SkuRecharge → Exec (Store T) String
  unfolding save_built
  create_raffle_activity_order order_id now recharge =
      if str_eq recharge.user_id "" || str_eq recharge.out_business_no ""
      then fail invalid_params
      else queries.query_activity_sku recharge.sku >>= deref >>= λ sku.
          queries.query_raffle_activity_by_activity_id sku.activity_id >>= λ activity.
          queries.query_raffle_activity_count_by_activity_count_id sku.activity_count_id
          >>= save_built order_id now recharge sku activity

  -- only ErrDBIndexDuplicate is taken for a success
  abbrev pub after_order : Outcome String → Store T → Outcome Handled × Store T
  after_order (ok order_id) s = (ok (handled false none), s)
  after_order (err e) s =
      (ok (if is_index_duplicate e then handled false none else handled true (some e)), s)
  after_order panics s = (panics, s)

  unfoldable pub recharge_sku : String → T → RebateMessage → Option ℤ → Exec (Store T) Handled
  unfolding create_raffle_activity_order
  recharge_sku order_id now msg none s = (ok (handled false none), s)
  recharge_sku order_id now msg (some sku) s =
      let (r, s') =
        create_raffle_activity_order order_id now
          (record { user_id = msg.user_id; sku = sku; out_business_no = msg.biz_id }) s in
      after_order r s'

  -- RebateListener.Handle, on what the body is decoded to
  unfoldable pub handle : String → T → Option RebateMessage → Exec (Store T) Handled
  unfolding recharge_sku parse_int
  handle order_id now none = pure (handled false (some (message "unmarshal failed")))
  handle order_id now (some msg) =
      if str_eq msg.rebate_type "sku"
      then recharge_sku order_id now msg (parse_int msg.rebate_config)
      else pure (handled false none)
