-- ===== src/Dispatch.antt =====
-- internal/job/send_award_message.go, internal/biz/task/task.go and internal/data/task.go: the job that
-- sends the messages of the tasks that are not completed. A task's row holds no times, so the rows that
-- were not written for six minutes and the order by update_time are parameters. The job starts a
-- goroutine for each task; here they run one after the other, in any order.
pub mod Done
pub mod Batch
use lucky_market.Base.{
  ℕ, zero, suc, ◌-◌, String, Bool, true, false, ◌&&◌, List, [], ◌∷◌, ◌++◌, map, str_eq, ltb, Option,
  none, some, if◌then◌else◌,
}
use lucky_market.Base.Int.{ℤ, pos}
use lucky_market.Base.Outcome.{
  Exec, Outcome, ok, err, panics, Error, pure, fail, ◌>>=◌, ◌>>◌, message,
}
use lucky_market.Text.{concat}
use lucky_market.Activity.Model.{
  Calendar, UserRaffleOrder, CreatePartakeOrder, save_order_record_topic,
}
use lucky_market.Activity.Store.{
  Message, save_order, send_award, TaskRow, Tables, Store, call, select, execute,
}
use lucky_market.Activity.Ledger.{save_create_partake_order_aggregate}
use lucky_market.Award.{send_award_topic}

-- the columns that the query selects; the others are zero
pub record TaskEntity : Type 0 where
  pub user_id : String
  pub topic : String
  pub message_id : String
  pub message : Message
  pub state : String

-- rabbitmq.BaseEvent, without its timestamp, and the topic it is published under
pub record Event : Type 0 where
  pub topic : String
  pub id : String
  pub payload : Message

-- the database, and what was published
pub record Outbox (T : Type 0) : Type 0 where
  pub store : Store T
  pub sent : List Event

unfoldable pub task_entity : TaskRow → TaskEntity
task_entity p = record {
  user_id = p.user_id;
  topic = p.topic;
  message_id = p.message_id;
  message = p.message;
  state = "";
}

unfoldable pub in_state : (TaskRow → Bool) → String → List TaskRow → List TaskRow
in_state p state [] = []
in_state p state (r ∷ rs) =
    let rest = in_state p state rs in if str_eq r.state state && p r then r ∷ rest else rest

unfoldable pub take : ℕ → List TaskRow → List TaskRow
take zero rs = []
take (suc n) [] = []
take (suc n) (r ∷ rs) = r ∷ take n rs

unfoldable pub length : List TaskRow → ℕ
length [] = 0
length (r ∷ rs) = suc (length rs)

abbrev pub batch_limit : ℕ
batch_limit = 10

unfoldable pub with_state : String → String → String → List TaskRow → List TaskRow
with_state user_id message_id state [] = []
with_state user_id message_id state (r ∷ rs) =
    (if str_eq r.user_id user_id && str_eq r.message_id message_id
      then record r { state = state }
      else r)
    ∷ with_state user_id message_id state rs

-- what json.Unmarshal makes of a message: the two fields of SaveOrderTaskMessage
abbrev pub save_order_message : Message → String × String
save_order_message (save_order user_id order_id) = (user_id, order_id)
save_order_message (send_award user_id award_id award_title) = ("", "")

module _ {T : Type 0} where
  abbrev pub on_store : {A : Type 0} → Exec (Store T) A → Exec (Outbox T) A
  on_store m s = let (r, store) = m s.store in (r, record s { store = store })

  module _ (stale : TaskRow → Bool) (by_update_time : List TaskRow → List TaskRow) where
    abbrev pub fill_batch : List TaskRow → Exec (Store T) (List TaskRow)
    fill_batch tasks =
        if ltb (length tasks) batch_limit
        then (select (λ t.
              take (batch_limit - length tasks) (by_update_time (in_state stale "create" t.tasks)))
            >>= λ created. pure (tasks ++ created))
        else pure tasks

    -- the database of an index
    unfoldable pub query_no_send_message_task_list : Exec (Store T) (List TaskEntity)
    unfolding select in_state take length task_entity
    query_no_send_message_task_list =
        select (λ t. take batch_limit (by_update_time (in_state (λ r. true) "fail" t.tasks)))
        >>= fill_batch
        >>= λ tasks. pure (map task_entity tasks)

  -- the router's nil database panics when it is used
  unfoldable pub update_task_state : String → String → String → Exec (Store T) (Unit {0})
  unfolding execute with_state
  update_task_state user_id message_id state s =
      if s.routed user_id
      then execute (λ t. record t { tasks = with_state user_id message_id state t.tasks }) s
      else (panics, s)

  unfoldable pub send_message : TaskEntity → Exec (Outbox T) (Unit {0})
  unfolding call
  send_message task = on_store call >> λ s. (
    ok tt,
    record s {
      sent =
          s.sent
          ++ record { topic = task.topic; id = task.message_id; payload = task.message } ∷ [];
    },
  )

  -- ToCreatePartakeOrder, of which SaveOrderRecord reads the user and the order id; `never` is the
  -- zero time
  unfoldable pub to_create_partake_order : T → String → String → CreatePartakeOrder T
  to_create_partake_order never user_id order_id = record {
    user_id = user_id;
    activity_id = pos 0;
    activity_account = none;
    is_exist_account_month = false;
    activity_account_month = none;
    is_exist_account_day = false;
    activity_account_day = none;
    user_raffle_order = some (record {
      user_id = user_id;
      activity_id = pos 0;
      activity_name = "";
      strategy_id = pos 0;
      order_id = order_id;
      order_time = never;
      order_state = "";
    });
  }

  abbrev pub drop_error : Outcome (Unit {0}) × Outbox T → Outcome (Unit {0}) × Outbox T
  drop_error (ok u, s) = (ok tt, s)
  drop_error (err e, s) = (ok tt, s)
  drop_error (panics, s) = (panics, s)

  module _ (cal : Calendar T) (never : T) where
    unfoldable pub route_task_by_topic : TaskEntity → Exec (Outbox T) (Unit {0})
    unfolding send_message save_create_partake_order_aggregate to_create_partake_order
    route_task_by_topic task =
        if str_eq task.topic send_award_topic
        then send_message task
        else if str_eq task.topic save_order_record_topic
        then (let (user_id, order_id) = save_order_message task.message in
            on_store (
              save_create_partake_order_aggregate cal
                (to_create_partake_order never user_id order_id)))
        else fail (message (concat "unsupported task topic: " task.topic))

    -- errors of the update to fail are dropped
    abbrev pub mark_failed : TaskEntity → Exec (Outbox T) (Unit {0})
    mark_failed task s =
        drop_error (on_store (update_task_state task.user_id task.message_id "fail") s)

    abbrev pub after_completed : TaskEntity → Outcome (Unit {0}) → Exec (Outbox T) (Unit {0})
    after_completed task (ok u) s = (ok tt, s)
    after_completed task (err e) s = mark_failed task s
    after_completed task panics s = (panics, s)

    abbrev pub after_route : TaskEntity → Outcome (Unit {0}) → Exec (Outbox T) (Unit {0})
    after_route task (ok u) s =
        let (r, s') = on_store (update_task_state task.user_id task.message_id "completed") s in
        after_completed task r s'
    after_route task (err e) s = mark_failed task s
    after_route task panics s = (panics, s)

    unfoldable pub dispatch_single_task : TaskEntity → Exec (Outbox T) (Unit {0})
    unfolding route_task_by_topic update_task_state
    dispatch_single_task task s = let (r, s') = route_task_by_topic task s in after_route task r s'

    unfoldable pub dispatch_all : List TaskEntity → Exec (Outbox T) (Unit {0})
    unfolding dispatch_single_task
    dispatch_all [] = pure tt
    dispatch_all (task ∷ tasks) = dispatch_single_task task >> dispatch_all tasks

    -- ProcessTask on one database; `schedule` is the order in which the goroutines run
    unfoldable pub process_database :
        (TaskRow → Bool)
        → (List TaskRow → List TaskRow)
        → (List TaskEntity → List TaskEntity)
        → Exec (Outbox T) (Unit {0})
    unfolding query_no_send_message_task_list dispatch_all
    process_database stale by_update_time schedule =
        on_store (query_no_send_message_task_list stale by_update_time) >>= λ tasks.
        dispatch_all (schedule tasks)
