-- ===== src/Tests/Recharges.antt =====
-- Recharges, rebates and tasks.
use lucky_market.Base.{
  ℕ, String, true, false, Option, none, some, List, [], ◌∷◌, ◌≡◌, refl, if◌then◌else◌,
}
use lucky_market.Base.Int.{ℤ, pos, eqb_ℤ, ◌+ℤ◌}
use lucky_market.Base.Outcome.{Post, pure}
use lucky_market.Text.{digits, scan}
use lucky_market.Activity.Model.{Calendar, ActivityAccount, CreateQuotaOrder}
use lucky_market.Activity.Store.{AccountRow, Store, TaskRow, save_order, no_hash}
use lucky_market.Activity.Recharge.{
  QuotaQueries, RebateMessage, build_order_aggregate, save_order as save_quota_order,
}
use lucky_market.Activity.Recharge.Credit.{IsOrderSettled, save_order_settles}
use lucky_market.Activity.Recharge.Once.{ReadOnly, Delivery, deliver, IsStep, rebate_once}
use lucky_market.Activity.Snapshot.{
  query_activity_account_entity, assemble_activity_account_by_user_id,
}
use lucky_market.Activity.Snapshot.View.{IsView, query_account-IsView}
use lucky_market.Activity.Snapshot.Copied.{IsCached, assembly_sets_counters}
use lucky_market.Rebate.{
  ConfigRow, BehaviorRebateOrder, BehaviorRebate, RebateStore, save_user_rebate_order,
  calendar_sign_rebate, is_calendar_sign_rebate,
}
use lucky_market.Rebate.Saved.{IsRebateSaved, save_user_rebate_order_settles}
use lucky_market.Rebate.Signed.{sign_in_unseen}
use lucky_market.Dispatch.{
  TaskEntity, Outbox, with_state, dispatch_single_task, query_no_send_message_task_list,
}
use lucky_market.Dispatch.Done.{completed_in, IsDone, completion_settles}
use lucky_market.Dispatch.Batch.{IsQueried, query_batch}

abbrev calendar : Calendar ℕ
calendar = record {
  before = λ a b. false;
  format_day = λ t. "2025-10-27";
  format_month = λ t. "2025-10";
}

abbrev account : AccountRow
account = record {
  total_count = pos 3;
  total_count_surplus = pos 2;
  day_count = pos 1;
  day_count_surplus = pos 1;
  month_count = pos 2;
  month_count_surplus = pos 2;
}

abbrev task_row : TaskRow
task_row = record {
  user_id = "u1";
  topic = "save_order_record";
  message_id = "m1";
  message = save_order "u1" "o1";
  state = "create";
}

abbrev store : Store ℕ
store = record {
  counters = λ k. none;
  hashes = λ k. no_hash;
  ttls = λ k. none;
  snapshots = λ a u. none;
  tables = record {
    orders = λ u o. some (record {
      activity_id = pos 7;
      activity_name = "spring";
      strategy_id = pos 100;
      order_time = 3;
      order_state = "create";
      account_sync_state = "create";
    });
    accounts = λ u a. some account;
    months = λ u a m. none;
    days = λ u a d. none;
    tasks = task_row ∷ [];
    awards = λ o. none;
    recharges = λ n. none;
  };
  routed = λ u. true;
  faults = [];
}

abbrev if_known : {A : Type 0} → ℤ → A → Option A
if_known n a = if eqb_ℤ n (pos 9) then some a else none

-- a single sku is configured
abbrev queries : QuotaQueries ℕ
queries = record {
  query_activity_sku = λ n. pure (
      if_known n (record {
        sku = n;
        activity_id = pos 7;
        activity_count_id = pos 1;
        stock_count = pos 10;
        stock_count_surplus = pos 10;
      }));
  query_raffle_activity_by_activity_id = λ n. pure (
      some (record {
        activity_id = n;
        activity_name = "spring";
        activity_desc = "";
        begin_date_time = 0;
        end_date_time = 9;
        strategy_id = pos 100;
        state = "open";
      }));
  query_raffle_activity_count_by_activity_count_id = λ n. pure (
      some (record {
        activity_count_id = n;
        total_count = pos 3;
        day_count = pos 2;
        month_count = pos 0;
      }));
}

abbrev rebate : RebateMessage
rebate = record {
  user_id = "u1";
  rebate_desc = "sign";
  rebate_type = "sku";
  rebate_config = "9";
  biz_id = "u1_sku_20251027";
}

abbrev agg : CreateQuotaOrder ℕ
agg =
    build_order_aggregate calendar queries "123456789012" 3
      (record { user_id = "u1"; sku = pos 9; out_business_no = "b1" })
      (record {
        sku = pos 9;
        activity_id = pos 7;
        activity_count_id = pos 1;
        stock_count = pos 10;
        stock_count_surplus = pos 10;
      })
      (record {
        activity_id = pos 7;
        activity_name = "spring";
        activity_desc = "";
        begin_date_time = 0;
        end_date_time = 9;
        strategy_id = pos 100;
        state = "open";
      })
      (record {
        activity_count_id = pos 1;
        total_count = pos 3;
        day_count = pos 2;
        month_count = pos 0;
      })

save_order_settles_example : IsOrderSettled calendar agg store (save_quota_order calendar agg store)
save_order_settles_example = save_order_settles calendar agg store

abbrev twice : List (Delivery ℕ)
twice = ("123456789012", 3, rebate) ∷ ("210987654321", 4, rebate) ∷ []

abbrev read_only : ReadOnly queries
read_only = record {
  reads_sku = λ n s. refl;
  reads_activity = λ n s. refl;
  reads_count = λ n s. refl;
}

rebate_once_example :
    IsStep calendar "u1_sku_20251027" store.tables (deliver calendar queries twice store).tables
rebate_once_example =
    rebate_once calendar queries "u1_sku_20251027" twice store read_only (refl, (refl, tt))

-- the second delivery adds nothing
account_after :
    (deliver calendar queries twice store).tables.accounts "u1" (pos 7)
    ≡ some (record {
      total_count = pos 6;
      total_count_surplus = pos 5;
      day_count = pos 3;
      day_count_surplus = pos 3;
      month_count = pos 2;
      month_count_surplus = pos 2;
    })
unfolding deliver digits scan ◌+ℤ◌
account_after = refl

abbrev sign_config : String → ConfigRow
sign_config kind = record {
  behavior_type = "sign";
  rebate_desc = "sign in";
  rebate_type = kind;
  rebate_config = "9";
  state = "open";
}

abbrev sign_store : RebateStore
sign_store = record {
  configs = sign_config "sku" ∷ sign_config "integral" ∷ [];
  rows = [];
  sent = [];
  routed = λ u. true;
  faults = [];
}

abbrev order : String → BehaviorRebateOrder
order biz_id = record {
  user_id = "u1";
  order_id = "o1";
  behavior_type = "sign";
  rebate_desc = "sign in";
  rebate_type = "sku";
  out_business_no = "20251027";
  rebate_config = "9";
  biz_id = biz_id;
}

abbrev rebates : BehaviorRebate
rebates = record {
  user_id = "u1";
  behavior = record { user_id = "u1"; behavior_type = "sign"; out_business_no = "20251027" };
  behavior_rebate_orders = order "a" ∷ order "b" ∷ [];
}

save_user_rebate_order_settles_example :
    IsRebateSaved rebates.behavior_rebate_orders sign_store
      (save_user_rebate_order "u1" rebates sign_store)
save_user_rebate_order_settles_example = save_user_rebate_order_settles "u1" rebates sign_store

sign_in_unseen_example :
    let (r, s') = calendar_sign_rebate (λ n. "123456789012") "20251027" "u1" sign_store in
    Post (λ signed. signed ≡ false) (is_calendar_sign_rebate "20251027" "u1" s').0
sign_in_unseen_example =
    sign_in_unseen (λ n. "123456789012") "u" "2" "1" "0251027" sign_store refl tt

abbrev task : TaskEntity
task = record {
  user_id = "u1";
  topic = "save_order_record";
  message_id = "m1";
  message = save_order "u1" "o1";
  state = "";
}

abbrev outbox : Outbox ℕ
outbox = record { store = store; sent = [] }

completion_settles_example : IsDone task outbox (dispatch_single_task calendar 0 task outbox).1
unfolding completed_in dispatch_single_task with_state
completion_settles_example = completion_settles calendar 0 task outbox refl refl

query_batch_example :
    let (r, s') = query_no_send_message_task_list (λ r. true) (λ rs. rs) store in
    Post (λ entities. IsQueried (λ r. true) (λ rs. rs) store.tables entities s'.tables) r
query_batch_example = query_batch (λ r. true) (λ rs. rs) store (λ rs r h. h)

query_account-IsView_example :
    let (r, s') = query_activity_account_entity "u1" (pos 7) "2025-10" "2025-10-27" store in
    Post (λ view. IsView "u1" (pos 7) "2025-10" "2025-10-27" store.tables view s'.tables) r
query_account-IsView_example = query_account-IsView "u1" (pos 7) "2025-10" "2025-10-27" store

assembly_sets_counters_example :
    let (r, s') = assemble_activity_account_by_user_id calendar 3 4 "u1" (pos 7) store in
    Post
      (λ u.
        (view : ActivityAccount) × IsView "u1"
          (pos 7)
          "2025-10"
          "2025-10-27"
          store.tables
          view
          s'.tables
        × IsCached "2025-10" "2025-10-27" view s')
      r
assembly_sets_counters_example = assembly_sets_counters calendar 3 4 "u1" (pos 7) store
