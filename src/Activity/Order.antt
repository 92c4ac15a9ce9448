-- ===== src/Activity/Order.antt =====
-- internal/data/activity_partake.go, SaveLiteUserRaffleOrder: the order and the task that announces it
-- are written in one transaction, and a failure gives the quota back.
pub mod Settled
use lucky_market.Base.{
  ℕ, String, Bool, true, false, Option, none, some, List, [], ◌∷◌, ◌++◌, if◌then◌else◌,
}
use lucky_market.Base.Outcome.{
  Exec, Outcome, ok, err, panics, Error, pure, fail, panic, lift, deref, ◌>>=◌, ◌>>◌,
  db_router_error, duplicate_entry,
}
use lucky_market.Activity.Model.{
  Calendar, UserRaffleOrder, CreatePartakeOrder, save_order_record_topic, sync_state_create,
}
use lucky_market.Activity.Store.{
  Message, save_order, TaskRow, OrderRow, Tables, Store, execute, insert, transaction,
}
use lucky_market.Activity.Pending.{compensate_pending_raffle_order}
use lucky_market.Activity.Ledger.{set_order}

abbrev pub is_duplicate : Error → Bool
is_duplicate duplicate_entry = true
is_duplicate _ = false

module _ {T : Type 0} where
  unfoldable pub order_row : UserRaffleOrder T → OrderRow T
  order_row order = record {
    activity_id = order.activity_id;
    activity_name = order.activity_name;
    strategy_id = order.strategy_id;
    order_time = order.order_time;
    order_state = order.order_state;
    account_sync_state = sync_state_create;
  }

  -- `message_id` is the random id of the event
  unfoldable pub build_save_order_task :
      String → String → CreatePartakeOrder T → UserRaffleOrder T → TaskRow
  build_save_order_task user_id message_id aggregate order = record {
    user_id = user_id;
    topic = save_order_record_topic;
    message_id = message_id;
    message = save_order aggregate.user_id order.order_id;
    state = "create";
  }

  abbrev pub add_task : TaskRow → Tables T → Tables T
  add_task task t = record t { tasks = t.tasks ++ task ∷ [] }

  -- an error of the compensation is only logged
  unfoldable pub compensated : Calendar T → UserRaffleOrder T → Error → Exec (Store T) (Unit {0})
  unfolding compensate_pending_raffle_order
  compensated cal order e s = (err e, (compensate_pending_raffle_order cal order s).1)

  unfoldable pub insert_order :
      String → CreatePartakeOrder T → UserRaffleOrder T → Exec (Store T) (Unit {0})
  unfolding order_row build_save_order_task insert execute transaction
  insert_order message_id aggregate order = transaction (
      insert (λ t. t.orders order.user_id order.order_id)
        (set_order order.user_id order.order_id (order_row order))
      >> execute (add_task (build_save_order_task aggregate.user_id message_id aggregate order)))

  -- a duplicate key means that the order was saved before
  unfoldable pub after_insert :
      Calendar T → UserRaffleOrder T → Outcome (Unit {0}) → Exec (Store T) (Unit {0})
  unfolding compensated
  after_insert cal order (ok u) = pure tt
  after_insert cal order (err e) = if is_duplicate e then pure tt else compensated cal order e
  after_insert cal order panics = panic

  unfoldable pub save_lite :
      Calendar T → String → CreatePartakeOrder T → UserRaffleOrder T → Exec (Store T) (Unit {0})
  unfolding insert_order after_insert compensated
  save_lite cal message_id aggregate order s =
      if s.routed order.user_id
      then (let (r, s') = insert_order message_id aggregate order s in after_insert cal order r s')
      else compensated cal order db_router_error s

  unfoldable pub save_lite_user_raffle_order :
      Calendar T → String → CreatePartakeOrder T → Exec (Store T) (Unit {0})
  unfolding save_lite
  save_lite_user_raffle_order cal message_id aggregate =
      deref aggregate.user_raffle_order >>= save_lite cal message_id aggregate
