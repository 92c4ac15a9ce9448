-- ===== src/Activity/Model.antt =====
-- internal/biz/activity/model.go. `T` is Go's time.Time; a pointer that may be nil is an Option.
use lucky_market.Base.{String, Bool, Option}
use lucky_market.Base.Int.{ℤ, pos}

-- What the program asks of times: t.Before(u), and Format("2006-01-02"), Format("2006-01").
pub record Calendar (T : Type 0) : Type 0 where
  pub before : T → T → Bool
  pub format_day : T → String
  pub format_month : T → String

abbrev pub state_open : String
state_open = "open"

abbrev pub order_state_create : String
order_state_create = "create"

abbrev pub order_state_used : String
order_state_used = "used"

abbrev pub sync_state_create : String
sync_state_create = "create"

abbrev pub sync_state_completed : String
sync_state_completed = "completed"

abbrev pub save_order_record_topic : String
save_order_record_topic = "save_order_record"

pub record Activity (T : Type 0) : Type 0 where
  pub activity_id : ℤ
  pub activity_name : String
  pub activity_desc : String
  pub begin_date_time : T
  pub end_date_time : T
  pub strategy_id : ℤ
  pub state : String

pub record ActivityAccount : Type 0 where
  pub user_id : String
  pub activity_id : ℤ
  pub total_count : ℤ
  pub total_count_surplus : ℤ
  pub day_count : ℤ
  pub day_count_surplus : ℤ
  pub month_count : ℤ
  pub month_count_surplus : ℤ

pub record ActivityAccountMonth : Type 0 where
  pub user_id : String
  pub activity_id : ℤ
  pub month : String
  pub month_count : ℤ
  pub month_count_surplus : ℤ

pub record ActivityAccountDay : Type 0 where
  pub user_id : String
  pub activity_id : ℤ
  pub day : String
  pub day_count : ℤ
  pub day_count_surplus : ℤ

pub record PartakeRaffleActivity : Type 0 where
  pub user_id : String
  pub activity_id : ℤ

pub record UserRaffleOrder (T : Type 0) : Type 0 where
  pub user_id : String
  pub activity_id : ℤ
  pub activity_name : String
  pub strategy_id : ℤ
  pub order_id : String
  pub order_time : T
  pub order_state : String

pub record CreatePartakeOrder (T : Type 0) : Type 0 where
  pub user_id : String
  pub activity_id : ℤ
  pub activity_account : Option ActivityAccount
  pub is_exist_account_month : Bool
  pub activity_account_month : Option ActivityAccountMonth
  pub is_exist_account_day : Bool
  pub activity_account_day : Option ActivityAccountDay
  pub user_raffle_order : Option (UserRaffleOrder T)

pub record ActivitySku : Type 0 where
  pub sku : ℤ
  pub activity_id : ℤ
  pub activity_count_id : ℤ
  pub stock_count : ℤ
  pub stock_count_surplus : ℤ

pub record ActivitySkuStockKey : Type 0 where
  pub sku : ℤ
  pub activity_id : ℤ

pub record ActivityCount : Type 0 where
  pub activity_count_id : ℤ
  pub total_count : ℤ
  pub day_count : ℤ
  pub month_count : ℤ

pub record SkuRecharge : Type 0 where
  pub user_id : String
  pub sku : ℤ
  pub out_business_no : String

pub record ActivityOrder (T : Type 0) : Type 0 where
  pub user_id : String
  pub sku : ℤ
  pub activity_id : ℤ
  pub activity_name : String
  pub strategy_id : ℤ
  pub order_id : String
  pub order_time : T
  pub total_count : ℤ
  pub day_count : ℤ
  pub month_count : ℤ
  pub state : String
  pub out_business_no : String

pub record CreateQuotaOrder (T : Type 0) : Type 0 where
  pub user_id : String
  pub activity_id : ℤ
  pub total_count : ℤ
  pub day_count : ℤ
  pub month_count : ℤ
  pub activity_order : ActivityOrder T

abbrev pub activity_order_state_completed : String
activity_order_state_completed = "completed"

abbrev pub activity_result_status_success : ℤ
activity_result_status_success = pos 1

abbrev pub activity_result_status_credit : ℤ
activity_result_status_credit = pos 2

pub record ActivityResult : Type 0 where
  pub user_id : String
  pub status : ℤ
  pub result : String
  pub timestamp : ℤ
