-- ===== src/Draw.antt =====
-- internal/service/activity.go, Draw: a request for a raffle, over the store that the usecases of orders
-- and awards share and the state of the raffle.
pub mod Awarded
pub mod Queries
pub mod Reuse
pub mod Redraw
use Prim.Native.Nat.{◌^◌}
use lucky_market.Base.{ℕ, ◌-◌, ◌%◌, String, ◌||◌, Option, none, some, str_eq, ltb, if◌then◌else◌}
use lucky_market.Base.Int.{ℤ, pos, negsuc, leb_ℤ}
use lucky_market.Base.Outcome.{Exec, pure, fail, deref, ◌>>=◌, ◌>>◌, message}
use lucky_market.Activity.Model.{Calendar, UserRaffleOrder, CreatePartakeOrder}
use lucky_market.Activity.Store.{Store}
use lucky_market.Activity.Partake.{create_order}
use lucky_market.Activity.Partake
use lucky_market.Strategy.Repo
use lucky_market.Award.{UserAwardRecord, save_user_award_record}
use lucky_market.Strategy.Model.{RaffleAward}
use lucky_market.Strategy.Usecase.{perform_raffle}

-- MySQL and Redis as the orders and awards use them, and as the raffle does
pub record World (T R : Type 0) : Type 0 where
  pub store : Store T
  pub raffle : R

pub record DrawRequest : Type 0 where
  pub user_id : String
  pub activity_id : ℤ

pub record DrawReply : Type 0 where
  pub award_id : ℤ
  pub award_title : String
  pub award_index : ℤ

-- the times and random texts of a call: the times of the order and of the award, the id of the order
-- and the id of the award's event
pub record Call (T : Type 0) : Type 0 where
  pub now : T
  pub award_time : T
  pub order_id : String
  pub message_id : String

-- the conversion int32(n) of an integer, whose value is taken modulo 2 ^ 32
unfoldable pub int32 : ℤ → ℤ
int32 (pos n) = let m = n % 2 ^ 32 in if ltb m (2 ^ 31) then pos m else negsuc (2 ^ 32 - m - 1)
int32 (negsuc n) = let m = n % 2 ^ 32 in if ltb m (2 ^ 31) then negsuc m else pos (2 ^ 32 - m - 1)

unfoldable pub award_record :
    {T : Type 0} → Call T → DrawRequest → UserRaffleOrder T → RaffleAward → UserAwardRecord T
award_record call req order award = record {
  user_id = req.user_id;
  activity_id = req.activity_id;
  strategy_id = order.strategy_id;
  order_id = order.order_id;
  award_id = award.award_id;
  award_title = award.award_title;
  award_time = call.award_time;
  award_state = "create";
}

unfoldable pub draw_reply : RaffleAward → DrawReply
unfolding int32
draw_reply award = record {
  award_id = award.award_id;
  award_title = award.award_title;
  award_index = int32 award.sort;
}

module _ {T R : Type 0} where
  abbrev pub on_store : {A : Type 0} → Exec (Store T) A → Exec (World T R) A
  on_store m w = let (r, s) = m w.store in (r, record w { store = s })

  abbrev pub on_raffle : {A : Type 0} → Exec R A → Exec (World T R) A
  on_raffle m w = let (r, s) = m w.raffle in (r, record w { raffle = s })

module _ {T F R : Type 0} (cal : Calendar T) (activities : Partake.Repo T (Store T))
    (strategies : Repo.Repo F R) (secure_random_int : ℤ → Exec R ℤ) where
  -- the award is recorded for the order; none if the fuel of the tree did not suffice
  unfoldable pub record_award :
      Call T
      → DrawRequest
      → UserRaffleOrder T
      → Option RaffleAward
      → Exec (World T R) (Option DrawReply)
  unfolding award_record draw_reply
  record_award call req order none = pure none
  record_award call req order (some award) =
      on_store (save_user_award_record call.message_id (award_record call req order award))
      >> pure (some (draw_reply award))

  unfoldable pub raffle_for :
      ℕ → Call T → DrawRequest → UserRaffleOrder T → Exec (World T R) (Option DrawReply)
  unfolding record_award
  raffle_for fuel call req order =
      on_raffle (
        perform_raffle strategies secure_random_int fuel (record {
          activity_id = req.activity_id;
          user_id = req.user_id;
          strategy_id = order.strategy_id;
        }))
      >>= record_award call req order

  unfoldable pub draw_placed :
      ℕ → Call T → DrawRequest → CreatePartakeOrder T → Exec (World T R) (Option DrawReply)
  unfolding raffle_for
  draw_placed fuel call req aggregate =
      deref aggregate.user_raffle_order >>= raffle_for fuel call req

  unfoldable pub draw : ℕ → Call T → DrawRequest → Exec (World T R) (Option DrawReply)
  unfolding draw_placed
  draw fuel call req =
      if str_eq req.user_id "" || leb_ℤ req.activity_id (pos 0)
      then fail (message "invalid user_id or activity_id")
      else (on_store (
            create_order cal activities
              (record { user_id = req.user_id; activity_id = req.activity_id }) call.now
              call.order_id)
          >>= draw_placed fuel call req)
