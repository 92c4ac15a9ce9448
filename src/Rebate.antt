-- ===== src/Rebate.antt =====
-- internal/biz/rebate/rebate.go, internal/data/rebate.go, and CalendarSignRebate and
-- IsCalendarSignRebate of internal/service/activity.go: a sign-in writes an order for each rebate that
-- is configured, in one transaction, and then publishes a message for each. The rows are those of one
-- shard, whose unique index is on biz_id; what is published may get lost.
pub mod Saved
pub mod Signed
use Prim.Native.Char.{code}
use lucky_market.Base.{
  ℕ, suc, ◌==◌, String, Bool, true, false, ◌&&◌, Option, none, some, List, [], ◌∷◌, ◌++◌, map,
  str_eq, if◌then◌else◌,
}
use lucky_market.Base.Outcome.{
  Exec, Outcome, ok, err, panics, Error, pure, fail, ◌>>=◌, ◌>>◌, driver, duplicate_entry, message,
  invalid_params,
}
use lucky_market.Text.{concat}
use lucky_market.Activity.Recharge.{RebateMessage}

abbrev pub behavior_sign : String
behavior_sign = "sign"

pub record Behavior : Type 0 where
  pub user_id : String
  pub behavior_type : String
  pub out_business_no : String

pub record BehaviorRebateOrder : Type 0 where
  pub user_id : String
  pub order_id : String
  pub behavior_type : String
  pub rebate_desc : String
  pub rebate_type : String
  pub out_business_no : String
  pub rebate_config : String
  pub biz_id : String

pub record BehaviorRebate : Type 0 where
  pub user_id : String
  pub behavior : Behavior
  pub behavior_rebate_orders : List BehaviorRebateOrder

pub record DailyBehaviorRebate : Type 0 where
  pub behavior_type : String
  pub rebate_desc : String
  pub rebate_type : String
  pub rebate_config : String

-- a row of daily_behavior_rebate
pub record ConfigRow : Type 0 where
  pub behavior_type : String
  pub rebate_desc : String
  pub rebate_type : String
  pub rebate_config : String
  pub state : String

-- a row of user_behavior_rebate_order
pub record RebateRow : Type 0 where
  pub user_id : String
  pub order_id : String
  pub behavior_type : String
  pub out_business_no : String
  pub rebate_desc : String
  pub rebate_type : String
  pub rebate_config : String
  pub biz_id : String

pub record RebateStore : Type 0 where
  pub configs : List ConfigRow
  pub rows : List RebateRow
  pub sent : List RebateMessage
  -- whether the router has a database for a user
  pub routed : String → Bool
  pub faults : List Bool

abbrev pub after_fault : List Bool → RebateStore → Outcome (Unit {0}) × RebateStore
after_fault [] s = (ok tt, s)
after_fault (true ∷ fs) s = (err driver, record s { faults = fs })
after_fault (false ∷ fs) s = (ok tt, record s { faults = fs })

unfoldable pub call : Exec RebateStore (Unit {0})
call s = after_fault s.faults s

unfoldable pub config_entity : ConfigRow → DailyBehaviorRebate
config_entity p = record {
  behavior_type = p.behavior_type;
  rebate_desc = p.rebate_desc;
  rebate_type = p.rebate_type;
  rebate_config = p.rebate_config;
}

unfoldable pub order_entity : RebateRow → BehaviorRebateOrder
order_entity p = record {
  user_id = p.user_id;
  order_id = p.order_id;
  behavior_type = p.behavior_type;
  rebate_desc = p.rebate_desc;
  rebate_type = p.rebate_type;
  rebate_config = p.rebate_config;
  out_business_no = p.out_business_no;
  biz_id = p.biz_id;
}

unfoldable pub order_row : BehaviorRebateOrder → RebateRow
order_row order = record {
  user_id = order.user_id;
  order_id = order.order_id;
  behavior_type = order.behavior_type;
  out_business_no = order.out_business_no;
  rebate_desc = order.rebate_desc;
  rebate_type = order.rebate_type;
  rebate_config = order.rebate_config;
  biz_id = order.biz_id;
}

unfoldable pub select_configs : String → List ConfigRow → List DailyBehaviorRebate
unfolding config_entity
select_configs behavior_type [] = []
select_configs behavior_type (c ∷ cs) =
    let rest = select_configs behavior_type cs in
    if str_eq c.behavior_type behavior_type && str_eq c.state "open"
    then config_entity c ∷ rest
    else rest

unfoldable pub query_daily_behavior_rebate_config :
    String → Exec RebateStore (List DailyBehaviorRebate)
unfolding call select_configs
query_daily_behavior_rebate_config behavior_type =
    call >> λ s. (ok (select_configs behavior_type s.configs), s)

unfoldable pub has_biz : String → List RebateRow → Bool
has_biz biz_id [] = false
has_biz biz_id (r ∷ rs) =
    let rest = has_biz biz_id rs in if str_eq r.biz_id biz_id then true else rest

-- the loop of the transaction: the error for a duplicate is not gorm.ErrDuplicatedKey, so it is returned
unfoldable pub insert_orders : List BehaviorRebateOrder → Exec RebateStore (Unit {0})
unfolding call has_biz order_row
insert_orders [] = pure tt
insert_orders (order ∷ orders) = call >> λ s.
    let rest = insert_orders orders (record s { rows = s.rows ++ order_row order ∷ [] }) in
    if has_biz order.biz_id s.rows then (err duplicate_entry, s) else rest

abbrev pub settle :
    List RebateRow → Outcome (Unit {0}) → RebateStore → Outcome (Unit {0}) × RebateStore
settle old (ok u) s = (ok u, s)
settle old (err e) s = (err e, record s { rows = old })
settle old panics s = (panics, record s { rows = old })

unfoldable pub save_orders : List BehaviorRebateOrder → Exec RebateStore (Unit {0})
unfolding call insert_orders
save_orders orders s = let (r, s') = (insert_orders orders >> call) s in settle s.rows r s'

unfoldable pub rebate_message : BehaviorRebateOrder → RebateMessage
rebate_message order = record {
  user_id = order.user_id;
  rebate_desc = order.rebate_desc;
  rebate_type = order.rebate_type;
  rebate_config = order.rebate_config;
  biz_id = order.biz_id;
}

-- `_ = r.publisher.PublishSendRebate`
abbrev pub published : RebateMessage → Outcome (Unit {0}) × RebateStore → RebateStore
published msg (ok u, s) = record s { sent = s.sent ++ msg ∷ [] }
published msg (err e, s) = s
published msg (panics, s) = s

unfoldable pub publish_orders : List BehaviorRebateOrder → RebateStore → RebateStore
unfolding call rebate_message
publish_orders [] s = s
publish_orders (order ∷ orders) s =
    publish_orders orders (published (rebate_message order) (call s))

unfoldable pub save_user_rebate_order : String → BehaviorRebate → Exec RebateStore (Unit {0})
unfolding save_orders publish_orders
save_user_rebate_order user_id aggregate s =
    if s.routed user_id
    then ((save_orders aggregate.behavior_rebate_orders >> λ s'.
          (ok tt, publish_orders aggregate.behavior_rebate_orders s'))
        s)
    else (err (message "db router not found"), s)

-- `%s_%s_%s`
unfoldable pub biz_id_of : Behavior → DailyBehaviorRebate → String
unfolding concat
biz_id_of behavior config =
    concat behavior.user_id
      (concat "_" (concat config.rebate_type (concat "_" behavior.out_business_no)))

-- `random` has the random ids
unfoldable pub build_orders :
    (ℕ → String) → ℕ → Behavior → List DailyBehaviorRebate → List BehaviorRebateOrder
unfolding biz_id_of
build_orders random n behavior [] = []
build_orders random n behavior (config ∷ configs) =
    record {
      user_id = behavior.user_id;
      order_id = random n;
      behavior_type = config.behavior_type;
      rebate_desc = config.rebate_desc;
      rebate_type = config.rebate_type;
      out_business_no = behavior.out_business_no;
      rebate_config = config.rebate_config;
      biz_id = biz_id_of behavior config;
    }
    ∷ build_orders random (suc n) behavior configs

abbrev pub order_ids : List BehaviorRebateOrder → List String
order_ids [] = []
order_ids (o ∷ os) = o.order_id ∷ order_ids os

unfoldable pub order_configs :
    (ℕ → String) → Behavior → List DailyBehaviorRebate → Exec RebateStore (List String)
unfolding build_orders save_user_rebate_order
order_configs random behavior [] = pure []
order_configs random behavior (config ∷ configs) =
    let orders = build_orders random 0 behavior (config ∷ configs) in
    save_user_rebate_order behavior.user_id
      (record { user_id = behavior.user_id; behavior = behavior; behavior_rebate_orders = orders })
    >> pure (order_ids orders)

unfoldable pub create_order : (ℕ → String) → Behavior → Exec RebateStore (List String)
unfolding query_daily_behavior_rebate_config order_configs
create_order random behavior =
    query_daily_behavior_rebate_config behavior.behavior_type >>= order_configs random behavior

-- `s LIKE prefix%`, for a prefix without wildcards
unfoldable pub begins_with : String → String → Bool
begins_with String.[] s = true
begins_with (String.◌∷◌ c p) String.[] = false
begins_with (String.◌∷◌ c p) (String.◌∷◌ d s) =
    let rest = begins_with p s in if code c == code d then rest else false

unfoldable pub select_orders : String → String → List RebateRow → List BehaviorRebateOrder
unfolding begins_with order_entity
select_orders user_id out_business_no [] = []
select_orders user_id out_business_no (r ∷ rs) =
    let rest = select_orders user_id out_business_no rs in
    if str_eq r.user_id user_id && begins_with out_business_no r.biz_id
    then order_entity r ∷ rest
    else rest

-- the router's nil database panics when it is used
unfoldable pub query_user_rebate_order :
    String → String → Exec RebateStore (List BehaviorRebateOrder)
unfolding call select_orders
query_user_rebate_order user_id out_business_no s =
    if s.routed user_id
    then (call >> λ s'. (ok (select_orders user_id out_business_no s'.rows), s')) s
    else (panics, s)

-- `today` is the day, as Format("20060102") has it
unfoldable pub calendar_sign_rebate : (ℕ → String) → String → String → Exec RebateStore Bool
unfolding create_order
calendar_sign_rebate random today user_id =
    if str_eq user_id ""
    then fail (message "invalid user_id")
    else create_order random
        (record { user_id = user_id; behavior_type = behavior_sign; out_business_no = today })
      >> pure true

abbrev pub is_some : List BehaviorRebateOrder → Bool
is_some [] = false
is_some (o ∷ os) = true

unfoldable pub is_calendar_sign_rebate : String → String → Exec RebateStore Bool
unfolding query_user_rebate_order
is_calendar_sign_rebate today user_id =
    if str_eq user_id ""
    then fail (message "invalid user_id")
    else query_user_rebate_order user_id today >>= λ orders. pure (is_some orders)
