-- ===== src/Draw/Awarded.antt =====
-- What a draw that answers has recorded.
use mathlib.Core.Path.{subst}
use lucky_market.Base.{ℕ, ◌||◌, Option, none, some, ◌≡◌, refl, sym, inl, inr, str_eq, Bool-cases}
use lucky_market.Base.Int.{ℤ, pos, leb_ℤ}
use lucky_market.Base.Outcome.{Exec, Outcome, ok, err, panics, resume, Post, pure}
use lucky_market.Activity.Model.{Calendar, UserRaffleOrder, CreatePartakeOrder}
use lucky_market.Activity.Store.{Tables, Store}
use lucky_market.Activity.Partake
use lucky_market.Activity.Partake.{create_order}
use lucky_market.Award.{save_user_award_record}
use lucky_market.Award.Settled.{IsAwarded, IsAwardSettled, award_settles}
use lucky_market.Strategy.Model.{RaffleAward}
use lucky_market.Strategy.Repo
use lucky_market.Strategy.Usecase.{perform_raffle}
use lucky_market.Draw.{
  World, Call, DrawRequest, DrawReply, award_record, draw_reply, record_award, raffle_for,
  draw_placed, draw,
}

-- an award, if one is answered, that was recorded for the order
abbrev pub IsDrawn :
    {T : Type 0}
    → Call T
    → DrawRequest
    → UserRaffleOrder T
    → Tables T
    → Option DrawReply
    → Tables T
    → Type 0
IsDrawn call req order t none t' = t' ≡ t
IsDrawn call req order t (some reply) t' =
    (award : RaffleAward) × (award.award_id ≡ reply.award_id)
    × (award.award_title ≡ reply.award_title)
    × IsAwarded call.message_id
        (record {
          user_id = req.user_id;
          activity_id = req.activity_id;
          strategy_id = order.strategy_id;
          order_id = order.order_id;
          award_id = award.award_id;
          award_title = award.award_title;
          award_time = call.award_time;
          award_state = "create";
        })
        t t'

-- the order of the aggregate that the usecase of orders answered
abbrev pub IsAnswer :
    {T : Type 0}
    → Call T
    → DrawRequest
    → Outcome (CreatePartakeOrder T)
    → Tables T
    → Option DrawReply
    → Tables T
    → Type 0
IsAnswer {T} call req created t reply t' =
    (aggregate : CreatePartakeOrder T) × (order : UserRaffleOrder T) × (created ≡ ok aggregate)
    × (aggregate.user_raffle_order ≡ some order)
    × IsDrawn call req order t reply t'

module _ {T F R : Type 0} (cal : Calendar T) (activities : Partake.Repo T (Store T))
    (strategies : Repo.Repo F R) (secure_random_int : ℤ → Exec R ℤ) (fuel : ℕ) (call : Call T)
    (req : DrawRequest) where
  abbrev Draws : UserRaffleOrder T → Tables T → Outcome (Option DrawReply) × World T R → Type 0
  Draws order t (r, w') = Post (λ reply. IsDrawn call req order t reply w'.store.tables) r

  record_award-Draws :
      (order : UserRaffleOrder T) (award : Option RaffleAward) (w : World T R)
      → Draws order w.store.tables
          (record_award cal activities strategies secure_random_int call req order award w)
  unfolding record_award award_record draw_reply
  record_award-Draws order none w = refl
  record_award-Draws order (some award) w =
      go (save_user_award_record call.message_id (award_record call req order award) w.store).0
        (save_user_award_record call.message_id (award_record call req order award) w.store).1
        (award_settles call.message_id (award_record call req order award) w.store)
    where
      go :
          (r : Outcome (Unit {0})) (s' : Store T)
          → IsAwardSettled call.message_id (award_record call req order award) w.store (r, s')
          → Draws order w.store.tables
              (resume r (λ _. pure (some (draw_reply award))) (record w { store = s' }))
      go (ok u) s' h = (award, refl, refl, h)
      go (err e) s' h = tt
      go panics s' h = tt

  raffle_for-Draws :
      (order : UserRaffleOrder T) (w : World T R)
      → Draws order w.store.tables
          (raffle_for cal activities strategies secure_random_int fuel call req order w)
  unfolding raffle_for
  raffle_for-Draws order w = go (raffle w.raffle).0 (raffle w.raffle).1
    where
      raffle : Exec R (Option RaffleAward)
      raffle = perform_raffle strategies secure_random_int fuel (record {
        activity_id = req.activity_id;
        user_id = req.user_id;
        strategy_id = order.strategy_id;
      })

      go :
          (r : Outcome (Option RaffleAward)) (raffled : R)
          → Draws order w.store.tables (
              resume r
                (record_award cal activities strategies secure_random_int call req order)
                (record w { raffle = raffled }))
      go (ok award) raffled = record_award-Draws order award (record w { raffle = raffled })
      go (err e) raffled = tt
      go panics raffled = tt

  abbrev create : Exec (Store T) (CreatePartakeOrder T)
  create =
      create_order cal activities (record { user_id = req.user_id; activity_id = req.activity_id })
        call.now call.order_id

  placed :
      (w : World T R) (created : Outcome (CreatePartakeOrder T)) (s1 : Store T)
      → let (r, w') =
          resume created
            (draw_placed cal activities strategies secure_random_int fuel call req)
            (record w { store = s1 }) in
        Post (λ reply. IsAnswer call req created s1.tables reply w'.store.tables) r
  unfolding draw_placed
  placed w (ok aggregate) s1 = go aggregate.user_raffle_order refl
    where
      answer :
          (order : UserRaffleOrder T) (drawn : Outcome (Option DrawReply) × World T R)
          → aggregate.user_raffle_order ≡ some order
          → Draws order s1.tables drawn
          → Post
              (λ reply. IsAnswer call req (ok aggregate) s1.tables reply drawn.1.store.tables)
              drawn.0
      answer order (ok reply, w') e h = (aggregate, order, refl, e, h)
      answer order (err x, w') e h = tt
      answer order (panics, w') e h = tt

      answered : Outcome (Option DrawReply) × World T R → Type 0
      answered drawn =
          Post (λ reply. IsAnswer call req (ok aggregate) s1.tables reply drawn.1.store.tables)
            drawn.0

      lost :
          aggregate.user_raffle_order ≡ none
          → draw_placed cal activities strategies secure_random_int fuel call req aggregate
              (record w { store = s1 })
            ≡ (panics, record w { store = s1 })
      lost e = rw e refl

      found :
          (order : UserRaffleOrder T)
          → aggregate.user_raffle_order ≡ some order
          → draw_placed cal activities strategies secure_random_int fuel call req aggregate
              (record w { store = s1 })
            ≡ raffle_for cal activities strategies secure_random_int fuel call req order
                (record w { store = s1 })
      found order e = rw e refl

      go :
          (o : Option (UserRaffleOrder T))
          → aggregate.user_raffle_order ≡ o
          → answered (
              draw_placed cal activities strategies secure_random_int fuel call req aggregate
                (record w { store = s1 }))
      go none e = subst answered (sym (lost e)) tt
      go (some order) e = subst answered (sym (found order e)) (
          answer order
            (raffle_for cal activities strategies secure_random_int fuel call req order
              (record w { store = s1 }))
            e (raffle_for-Draws order (record w { store = s1 })))
  placed w (err e) s1 = tt
  placed w panics s1 = tt

-- A draw that succeeds got an order, and answers an award that it has recorded for that order, with the
-- task that sends it, the order being used then, or found the order's award recorded before; or the
-- fuel of the tree did not suffice, and no table was written behind the order.
pub draw_records :
    {T F R : Type 0} (cal : Calendar T) (activities : Partake.Repo T (Store T))
    (strategies : Repo.Repo F R) (secure_random_int : ℤ → Exec R ℤ) (fuel : ℕ) (call : Call T)
    (req : DrawRequest) (w : World T R)
    → let (r, w') = draw cal activities strategies secure_random_int fuel call req w in
      let (created, s1) =
        create_order cal activities
          (record { user_id = req.user_id; activity_id = req.activity_id })
          call.now
          call.order_id
          w.store in
      Post (λ reply. IsAnswer call req created s1.tables reply w'.store.tables) r
unfolding draw
draw_records cal activities strategies secure_random_int fuel call req w =
    elim (Bool-cases (str_eq req.user_id "" || leb_ℤ req.activity_id (pos 0))) [
      | inl bad ↦ rw bad tt
      | inr good ↦ rw good (
          placed cal activities strategies secure_random_int fuel call req w
            (create cal activities strategies secure_random_int fuel call req w.store).0
            (create cal activities strategies secure_random_int fuel call req w.store).1)
    ]
