-- ===== src/Activity/Sku.antt =====
-- The stock of a sku: internal/biz/activity/sku_chain.go and stock.go, and of
-- internal/data/activity_quota.go CacheActivitySkuStockCount, SubtractionActivitySkuStock and
-- ActivitySkuStockConsumeSendQueue. The script writes a result as a JSON text, with the user's id in it as
-- it is: what encoding/json reads there is a parameter. The keys behind the id are read as written, since
-- a key that comes twice is read where it comes last.
pub mod Bound
pub mod Keys
pub mod Assembly
pub mod Stocked
pub mod Table
pub mod Consumed
pub mod StockZero
use Prim.Native.Char.{code}
use lucky_market.Base.{
  ℕ, ◌+◌, ◌*◌, ◌%◌, String, Bool, true, false, not, ◌&&◌, ◌||◌, Option, none, some, List, [], ◌∷◌,
  ◌++◌, str_eq, if◌then◌else◌, ◌==◌,
}
use lucky_market.Base.Int.{ℤ, pos, negsuc, ◌-ℤ◌, leb_ℤ, eqb_ℤ}
use lucky_market.Base.Outcome.{
  Exec, Outcome, ok, err, panics, pure, fail, ◌>>=◌, ◌>>◌, driver, parse_failed, message,
  activity_state_error, activity_time_error, activity_stock_error, activity_sku_stock_error,
}
use lucky_market.Text.{concat, format_int}
use lucky_market.Activity.Model.{
  Calendar, Activity, ActivitySku, ActivitySkuStockKey, ActivityResult, state_open,
  activity_result_status_success, activity_result_status_credit,
}

-- Redis, with the counters by the texts of their keys, and what was sent.
pub record SkuStore : Type 0 where
  pub stocks : String → Option ℤ
  -- the hashes of GetActivityResultHashKey, by activity, shard and user
  pub results : ℤ → ℕ → String → Option ActivityResult
  pub stock_zero_events : List ℤ
  pub consume_queue : List ActivitySkuStockKey
  -- the id that json.Unmarshal reads in the text of a result; none where the text is no JSON
  pub json_user : String → Option String
  pub faults : List Bool

abbrev pub after_fault : List Bool → SkuStore → Outcome (Unit {0}) × SkuStore
after_fault [] s = (ok tt, s)
after_fault (true ∷ fs) s = (err driver, record s { faults = fs })
after_fault (false ∷ fs) s = (ok tt, record s { faults = fs })

-- a command that reaches its server, or does not
unfoldable pub call : Exec SkuStore (Unit {0})
call s = after_fault s.faults s

-- internal/data/keys.go, and the key of the same name in internal/biz/activity/stock.go
unfoldable pub get_activity_sku_stock_count_key : ℤ → String
get_activity_sku_stock_count_key sku = concat "activity_sku_stock_count_key_" (format_int sku)

unfoldable pub assembled_stock_count_key : ℤ → String
assembled_stock_count_key sku = concat "activity_sku_stock_count_" (format_int sku)

abbrev pub kept_value : Option ℤ → ℤ → Option ℤ
kept_value none n = some n
kept_value (some old) n = some old

-- SETNX
unfoldable pub cache_activity_sku_stock_count : String → ℤ → Exec SkuStore (Unit {0})
unfolding call
cache_activity_sku_stock_count key count = call >> λ s. (
  ok tt,
  record s { stocks = λ j. if str_eq key j then kept_value (s.stocks j) count else s.stocks j },
)

-- the shard of a user
unfoldable pub shard_of : ℕ → String → ℕ
shard_of shard String.[] = shard
shard_of shard (String.◌∷◌ c rest) = shard_of ((shard * 31 + code c) % 100) rest

-- The reply of the script: a status, and a JSON text or one that is none.
pub data Reply : Type 0 where
  not_initialized : Reply
  replied : ℤ → ActivityResult → Reply

abbrev pub credit : String → ℤ → ActivityResult
credit user_id now = record {
  user_id = user_id;
  status = activity_result_status_credit;
  result = "POINTS_100";
  timestamp = now;
}

abbrev pub sold : String → ℤ → ℤ → ActivityResult
sold user_id sku now = record {
  user_id = user_id;
  status = activity_result_status_success;
  result = concat "SKU_" (format_int sku);
  timestamp = now;
}

unfoldable pub store_result : ℤ → ℕ → String → ActivityResult → SkuStore → SkuStore
store_result activity_id shard user_id r s = record s {
  results = λ a n u.
      if eqb_ℤ activity_id a && ((shard == n) && str_eq user_id u) then some r else s.results a n u;
}

unfoldable pub set_stock : String → ℤ → SkuStore → SkuStore
set_stock key n s = record s { stocks = λ j. if str_eq key j then some n else s.stocks j }

unfoldable pub lua_subtract : Option ℤ → ℤ → ℤ → String → ℤ → SkuStore → Reply × SkuStore
unfolding store_result set_stock shard_of get_activity_sku_stock_count_key
lua_subtract none sku activity_id user_id now s = (not_initialized, s)
lua_subtract (some stock) sku activity_id user_id now s =
    let shard = shard_of 0 user_id in
    let left = stock -ℤ pos 1 in
    if leb_ℤ stock (pos 0)
    then (
      replied (pos 2) (credit user_id now),
      store_result activity_id shard user_id (credit user_id now) s,
    )
    else (
      replied (if eqb_ℤ left (pos 0) then pos 0 else pos 1) (sold user_id sku now),
      store_result activity_id shard user_id (sold user_id sku now)
          (set_stock (get_activity_sku_stock_count_key sku) left s),
    )

-- an error of the publication is only logged
abbrev pub published : ℤ → Outcome (Unit {0}) → SkuStore → SkuStore
published sku (ok u) s = record s { stock_zero_events = s.stock_zero_events ++ sku ∷ [] }
published sku (err e) s = s
published sku panics s = s

unfoldable pub publish_stock_zero : ℤ → Exec SkuStore (Unit {0})
unfolding call
publish_stock_zero sku s = let (r, s') = call s in (ok tt, published sku r s')

-- the switch over the status
unfoldable pub result_of_status : ℤ → ℤ → ActivityResult → Exec SkuStore ActivityResult
unfolding publish_stock_zero
result_of_status sku status result =
    if eqb_ℤ status (pos 0)
    then publish_stock_zero sku >> pure result
    else if eqb_ℤ status (pos 1) || eqb_ℤ status (pos 2)
    then pure result
    else fail (message "未知结果")

-- a reply that is no JSON fails before its status is looked at, though the script has written
abbrev pub parsed_result : ℤ → ℤ → ActivityResult → Option String → Exec SkuStore ActivityResult
parsed_result sku status result none = fail parse_failed
parsed_result sku status result (some user_id) =
    result_of_status sku status (record result { user_id = user_id })

unfoldable pub read_reply : ℤ → Reply → Exec SkuStore ActivityResult
unfolding result_of_status
read_reply sku not_initialized s = fail parse_failed s
read_reply sku (replied status result) s =
    parsed_result sku status result (s.json_user result.user_id) s

unfoldable pub subtraction_activity_sku_stock : ℤ → ℤ → String → ℤ → Exec SkuStore ActivityResult
unfolding call lua_subtract read_reply
subtraction_activity_sku_stock sku activity_id user_id now = call >> λ s.
    let (reply, s') =
      lua_subtract (s.stocks (get_activity_sku_stock_count_key sku)) sku activity_id user_id now
        s in
    read_reply sku reply s'

unfoldable pub activity_sku_stock_consume_send_queue :
    ActivitySkuStockKey → Exec SkuStore (Unit {0})
unfolding call
activity_sku_stock_consume_send_queue key =
    call >> λ s. (ok tt, record s { consume_queue = s.consume_queue ++ key ∷ [] })

module _ {T : Type 0} (cal : Calendar T) where
  -- SkuStockActionChain.Action; `unix` is the time of the call in seconds
  unfoldable pub sku_stock_action : ℤ → ActivitySku → Activity T → Exec SkuStore Bool
  unfolding subtraction_activity_sku_stock activity_sku_stock_consume_send_queue
  sku_stock_action unix activity_sku activity =
      subtraction_activity_sku_stock activity_sku.sku activity.activity_id "user_id" unix
      >>= λ result.
          if eqb_ℤ result.status activity_result_status_success
          then (activity_sku_stock_consume_send_queue
                (record { sku = activity_sku.sku; activity_id = activity.activity_id })
              >> pure true)
          else fail activity_sku_stock_error

  -- BaseActionChain.Action, with the stock node behind it as OpenLogicChain has it
  unfoldable pub base_action : T → ℤ → ActivitySku → Activity T → Exec SkuStore Bool
  unfolding sku_stock_action
  base_action now unix activity_sku activity =
      if not (str_eq activity.state state_open)
      then fail activity_state_error
      else if cal.before now activity.begin_date_time || cal.before activity.end_date_time now
      then fail activity_time_error
      else if leb_ℤ activity_sku.stock_count (pos 0)
      then fail activity_stock_error
      else sku_stock_action unix activity_sku activity
