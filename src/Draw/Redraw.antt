-- ===== src/Draw/Redraw.antt =====
-- A draw for a pending order whose award was recorded before.
use lucky_market.Base.{
  ℕ, String, ◌||◌, Option, none, some, ◌≡◌, refl, ap, ◌∙◌, inl, inr, str_eq, Bool-cases,
}
use lucky_market.Base.Int.{ℤ, pos, leb_ℤ}
use lucky_market.Base.Outcome.{Exec, Outcome, ok, err, panics, resume, pure}
use lucky_market.Activity.Model.{Calendar, UserRaffleOrder, CreatePartakeOrder}
use lucky_market.Activity.Store.{pending_raffle_order, AwardRow, Tables, Store, call}
use lucky_market.Activity.Partake
use lucky_market.Activity.Partake.{
  create_order, order_for_activity, do_filter_account, filter_account, filter_periods, place_order,
  build_user_raffle_order, day_spent, month_spent,
}
use lucky_market.Activity.Partake.Restored.{data_repo}
use lucky_market.Award.{save_user_award_record}
use lucky_market.Award.Settled.{IsAwardSettled, award_settles}
use lucky_market.Strategy.Model.{RaffleAward}
use lucky_market.Strategy.Repo
use lucky_market.Strategy.Usecase.{perform_raffle}
use lucky_market.Draw.{
  World, Call, DrawRequest, award_record, draw_reply, record_award, raffle_for, draw_placed, draw,
}
use lucky_market.Draw.Queries.{ReadOnly, data_repo-ReadOnly}
use lucky_market.Draw.Reuse.{waiting, Reached, IsReused, create_reuses}

module _ {T F R : Type 0} (cal : Calendar T) (repo : Partake.Repo T (Store T))
    (read : ReadOnly repo) (strategies : Repo.Repo F R) (secure_random_int : ℤ → Exec R ℤ)
    (fuel : ℕ) (call : Call T) (req : DrawRequest) (order_message oid sid : String)
    (row : AwardRow T) (t : Tables T) (recorded : t.awards oid ≡ some row) where
  award_kept :
      (order : UserRaffleOrder T) (award : RaffleAward) (s : Store T) (r : Outcome (Unit {0}))
      (s' : Store T)
      → order.order_id ≡ oid
      → s.tables ≡ t
      → IsAwardSettled call.message_id (award_record call req order award) s (r, s')
      → s'.tables ≡ t
  unfolding award_record
  award_kept order award s (ok u) s' id same (inl (absent, after)) =
      cc (absent, recorded, ap (λ (x : Tables T). x.awards order.order_id) same, ap t.awards id)
  award_kept order award s (ok u) s' id same (inr (old, found, kept)) = kept ∙ same
  award_kept order award s (err e) s' id same (kept, hashes) = kept ∙ same
  award_kept order award s panics s' id same (kept, lost) = ap (λ x. x.tables) kept ∙ same

  record_kept :
      (order : UserRaffleOrder T) (award : Option RaffleAward) (w : World T R)
      → order.order_id ≡ oid
      → w.store.tables ≡ t
      → (record_award cal repo strategies secure_random_int call req order award w).1.store.tables
        ≡ t
  unfolding record_award
  record_kept order none w id same = same
  record_kept order (some award) w id same =
      go (save_user_award_record call.message_id (award_record call req order award) w.store).0
        (save_user_award_record call.message_id (award_record call req order award) w.store).1
        (award_settles call.message_id (award_record call req order award) w.store)
    where
      go :
          (r : Outcome (Unit {0})) (s' : Store T)
          → IsAwardSettled call.message_id (award_record call req order award) w.store (r, s')
          → (resume r
              (λ _. pure (some (draw_reply award)))
              (record w { store = s' })).1.store.tables
            ≡ t
      go (ok u) s' h = award_kept order award w.store (ok u) s' id same h
      go (err e) s' h = award_kept order award w.store (err e) s' id same h
      go panics s' h = award_kept order award w.store panics s' id same h

  raffle_kept :
      (order : UserRaffleOrder T) (w : World T R)
      → order.order_id ≡ oid
      → w.store.tables ≡ t
      → (raffle_for cal repo strategies secure_random_int fuel call req order w).1.store.tables ≡ t
  unfolding raffle_for
  raffle_kept order w id same = go (raffle w.raffle).0 (raffle w.raffle).1
    where
      raffle : Exec R (Option RaffleAward)
      raffle = perform_raffle strategies secure_random_int fuel (record {
        activity_id = req.activity_id;
        user_id = req.user_id;
        strategy_id = order.strategy_id;
      })

      go :
          (r : Outcome (Option RaffleAward)) (raffled : R)
          → (resume r
              (record_award cal repo strategies secure_random_int call req order)
              (record w { raffle = raffled })).1.store.tables
            ≡ t
      go (ok award) raffled = record_kept order award (record w { raffle = raffled }) id same
      go (err e) raffled = same
      go panics raffled = same

-- Where the queries write neither a table nor a pending order, and answer the activity that was asked for
-- or one that is not open: a draw of a user whose pending order has had its award recorded leaves every
-- table as it was, whichever award it answers and whichever commands fail.
pub redraw_unrecorded :
    {T F R : Type 0} (cal : Calendar T) (repo : Partake.Repo T (Store T))
    (strategies : Repo.Repo F R) (secure_random_int : ℤ → Exec R ℤ) (fuel : ℕ) (call : Call T)
    (req : DrawRequest) (order_message oid sid : String) (row : AwardRow T) (w : World T R)
    → ReadOnly repo
    → w.store.hashes (pending_raffle_order req.activity_id req.user_id) ≡ waiting oid sid
    → w.store.tables.awards oid ≡ some row
    → (draw cal
        (data_repo cal call.now order_message repo)
        strategies
        secure_random_int
        fuel
        call
        req
        w).1.store.tables
      ≡ w.store.tables
unfolding draw draw_placed
redraw_unrecorded {T} {F} {R} cal repo strategies secure_random_int fuel call req order_message oid
      sid row w read pending recorded =
    elim (Bool-cases (str_eq req.user_id "" || leb_ℤ req.activity_id (pos 0))) [
      | inl bad ↦ rw bad refl
      | inr good ↦ rw good (
          go (create w.store).0 (create w.store).1 (
            create_reuses cal call.now order_message repo read req.user_id oid sid req.activity_id
              w.store.tables call.order_id w.store (refl, pending)))
    ]
  where
    activities : Partake.Repo T (Store T)
    activities = data_repo cal call.now order_message repo

    create : Exec (Store T) (CreatePartakeOrder T)
    create =
        create_order cal activities
          (record { user_id = req.user_id; activity_id = req.activity_id }) call.now call.order_id

    raffled :
        (order : UserRaffleOrder T) (w1 : World T R)
        → order.order_id ≡ oid
        → w1.store.tables ≡ w.store.tables
        → (raffle_for cal activities strategies secure_random_int fuel call req order
            w1).1.store.tables
          ≡ w.store.tables
    raffled order w1 id same =
        raffle_kept cal activities (data_repo-ReadOnly cal call.now order_message repo read)
          strategies secure_random_int fuel call req order_message oid sid row w.store.tables
          recorded order w1 id same

    go :
        (r : Outcome (CreatePartakeOrder T)) (s1 : Store T)
        → Reached req.user_id oid sid req.activity_id w.store.tables
            (IsReused req.user_id oid sid req.activity_id w.store.tables)
            (r, s1)
        → let (r', w') =
            resume r
              (draw_placed cal activities strategies secure_random_int fuel call req)
              (record w { store = s1 }) in
          w'.store.tables ≡ w.store.tables
    go (ok aggregate) s1 ((order, is, id), same) =
        rw is (raffled order (record w { store = s1 }) id same)
    go (err e) s1 (h, same) = same
    go panics s1 (h, same) = same
