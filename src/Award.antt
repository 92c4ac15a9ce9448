-- ===== src/Award.antt =====
-- internal/biz/award/award.go and internal/data/award.go, SaveUserAwardRecord: the record of an award,
-- the task that sends it, and the end of the order that it was won with.
pub mod Settled
use lucky_market.Base.{
  String, Bool, true, false, Option, none, some, List, [], ◌∷◌, ◌++◌, str_eq, if◌then◌else◌,
}
use lucky_market.Base.Int.{ℤ}
use lucky_market.Base.Outcome.{Exec, Outcome, ok, err, panics, pure, fail, panic, ◌>>=◌, ◌>>◌}
use lucky_market.Activity.Model.{order_state_used}
use lucky_market.Activity.Store.{
  Message, send_award, TaskRow, OrderRow, AwardRow, Tables, Store, pending_raffle_order, no_hash,
  call, execute, insert, transaction,
}
use lucky_market.Activity.Pending.{lua_hset}
use lucky_market.Activity.Order.{is_duplicate, add_task}

abbrev pub send_award_topic : String
send_award_topic = "send_award"

abbrev pub task_state_create : String
task_state_create = "create"

pub record SendAwardMessage : Type 0 where
  pub user_id : String
  pub award_id : ℤ
  pub award_title : String

pub record UserAwardRecord (T : Type 0) : Type 0 where
  pub user_id : String
  pub activity_id : ℤ
  pub strategy_id : ℤ
  pub order_id : String
  pub award_id : ℤ
  pub award_title : String
  pub award_time : T
  pub award_state : String

pub record Task : Type 0 where
  pub user_id : String
  pub topic : String
  pub message_id : String
  pub message : SendAwardMessage
  pub state : String

pub record UserAwardTaskInfo (T : Type 0) : Type 0 where
  pub user_award_record : UserAwardRecord T
  pub task : Task

unfoldable pub convert_to_task_po : Task → TaskRow
convert_to_task_po entity = record {
  user_id = entity.user_id;
  topic = entity.topic;
  message_id = entity.message_id;
  message = send_award entity.message.user_id entity.message.award_id entity.message.award_title;
  state = entity.state;
}

module _ {T : Type 0} where
  unfoldable pub convert_to_user_award_record_po : UserAwardRecord T → AwardRow T
  convert_to_user_award_record_po entity = record {
    user_id = entity.user_id;
    activity_id = entity.activity_id;
    strategy_id = entity.strategy_id;
    award_id = entity.award_id;
    award_title = entity.award_title;
    award_time = entity.award_time;
    award_state = entity.award_state;
  }

  -- UPDATE … SET order_state = 'used' WHERE order_id = ?: no user is named
  abbrev pub used : Bool → Option (OrderRow T) → Option (OrderRow T)
  used false row = row
  used true none = none
  used true (some row) = some (record row { order_state = order_state_used })

  unfoldable pub use_order : String → Tables T → Tables T
  use_order order_id t = record t { orders = λ u o. used (str_eq order_id o) (t.orders u o) }

  unfoldable pub add_award : UserAwardRecord T → Tables T → Tables T
  unfolding convert_to_user_award_record_po
  add_award entity t = record t {
    awards = λ o.
        if str_eq entity.order_id o
        then some (convert_to_user_award_record_po entity)
        else t.awards o;
  }

  -- a duplicate ends the body at once, and the transaction commits
  unfoldable pub after_award : UserAwardTaskInfo T → Outcome (Unit {0}) → Exec (Store T) (Unit {0})
  unfolding execute use_order convert_to_task_po
  after_award aggregate (ok u) =
      execute (add_task (convert_to_task_po aggregate.task))
      >> execute (use_order aggregate.user_award_record.order_id)
  after_award aggregate (err e) = if is_duplicate e then pure tt else fail e
  after_award aggregate panics = panic

  unfoldable pub award_body : UserAwardTaskInfo T → Exec (Store T) (Unit {0})
  unfolding insert add_award after_award
  award_body aggregate s =
      let entity = aggregate.user_award_record in
      let (r, s') = insert (λ t. t.awards entity.order_id) (add_award entity) s in
      after_award aggregate r s'

  -- an error of the deletion is only logged
  abbrev pub delete_pending : UserAwardRecord T → Outcome (Unit {0}) → Store T → Store T
  delete_pending entity (ok u) s =
      lua_hset (pending_raffle_order entity.activity_id entity.user_id) no_hash s
  delete_pending entity (err e) s = s
  delete_pending entity panics s = s

  unfoldable pub drop_pending : UserAwardRecord T → Exec (Store T) (Unit {0})
  unfolding call lua_hset
  drop_pending entity s = let (r, s') = call s in (ok tt, delete_pending entity r s')

  -- the router's nil database panics when it is used
  unfoldable pub save_award_task : UserAwardTaskInfo T → Exec (Store T) (Unit {0})
  unfolding award_body transaction drop_pending
  save_award_task aggregate s =
      if s.routed aggregate.user_award_record.user_id
      then ((transaction (award_body aggregate) >> drop_pending aggregate.user_award_record) s)
      else (panics, s)

  -- `message_id` is the random id of the event
  unfoldable pub save_user_award_record : String → UserAwardRecord T → Exec (Store T) (Unit {0})
  unfolding save_award_task
  save_user_award_record message_id entity = save_award_task (record {
    user_award_record = entity;
    task = record {
      user_id = entity.user_id;
      topic = send_award_topic;
      message_id = message_id;
      message = record {
        user_id = entity.user_id;
        award_id = entity.award_id;
        award_title = entity.award_title;
      };
      state = task_state_create;
    };
  })
