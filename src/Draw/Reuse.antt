-- ===== src/Draw/Reuse.antt =====
-- The order that a draw gets where one is pending.
use lucky_market.Base.{
  ◌⊎◌, inl, inr, String, Bool, true, false, not, ◌||◌, Option, none, some, List, [], ◌∷◌, ◌≡◌, refl,
  ap, ◌∙◌, str_eq, if◌then◌else◌,
}
use lucky_market.Base.Int.{ℤ, pos}
use lucky_market.Base.Outcome.{
  Exec, Outcome, ok, err, panics, resume, Post, Post-all, activity_state_error, activity_time_error,
  pure, fail, ◌>>=◌, ◌>>◌,
}
use lucky_market.Text.{parse_int}
use lucky_market.Activity.Model.{
  Calendar, Activity, UserRaffleOrder, CreatePartakeOrder, state_open,
}
use lucky_market.Activity.Store.{PendingHash, pending_raffle_order, Tables, Store, call}
use lucky_market.Activity.Pending.{
  cache_get_or_create, lua_get_or_create, lua_pending, order_of_reply, read_reply,
}
use lucky_market.Activity.Partake
use lucky_market.Activity.Partake.{
  create_order, order_for_activity, do_filter_account, filter_account, filter_periods, place_order,
  build_user_raffle_order, day_spent, month_spent,
}
use lucky_market.Activity.Partake.Restored.{data_repo}
use lucky_market.Draw.Queries.{IsKept, ReadOnly, filter-IsKept, data_repo-ReadOnly}

-- the orders that wait are those of the state "0"
abbrev pub waiting : String → String → PendingHash
waiting oid sid = record { oid = some oid; sid = some sid; st = some "0" }

module _ {T : Type 0} (user_id oid sid : String) (activity_id : ℤ) (t : Tables T) where
  -- the tables, and the pending order
  abbrev pub IsWaiting : Store T → Type 0
  IsWaiting s =
      (s.tables ≡ t) × (s.hashes (pending_raffle_order activity_id user_id) ≡ waiting oid sid)

  -- what a step answers, with the tables as they were
  abbrev pub Reached : {A : Type 0} → (A → Type 0) → Outcome A × Store T → Type 0
  Reached P (r, s) = Post P r × (s.tables ≡ t)

  abbrev pub IsReused : CreatePartakeOrder T → Type 0
  IsReused aggregate =
      (order : UserRaffleOrder T) × (aggregate.user_raffle_order ≡ some order)
      × (order.order_id ≡ oid)

  IsWaiting-IsKept : (s s' : Store T) → IsKept s s' → IsWaiting s → IsWaiting s'
  IsWaiting-IsKept s s' (tables, hashes) (same, found) =
      (tables ∙ same, ap (λ h. h (pending_raffle_order activity_id user_id)) hashes ∙ found)

  after_read :
      {A B : Type 0} (P : B → Type 0) (Q : A → Type 0) (m : Exec (Store T) A)
      (f : A → Exec (Store T) B) (s : Store T)
      → IsKept s (m s).1
      → Post Q (m s).0
      → IsWaiting s
      → ((a : A) (s1 : Store T) → Q a → IsWaiting s1 → Reached P (f a s1))
      → Reached P ((m >>= f) s)
  after_read {A} P Q m f s kept answer w h =
      go (m s).0 (m s).1 (IsWaiting-IsKept s (m s).1 kept w) answer
    where
      go : (r : Outcome A) (s1 : Store T) → IsWaiting s1 → Post Q r → Reached P (resume r f s1)
      go (ok a) s1 w1 q = h a s1 q w1
      go (err e) s1 (same, found) q = (tt, same)
      go panics s1 (same, found) q = (tt, same)

  Reached-if :
      {A : Type 0} (P : A → Type 0) (b : Bool) (m n : Exec (Store T) A) (s : Store T)
      → Reached P (m s)
      → Reached P (n s)
      → Reached P ((if b then m else n) s)
  Reached-if P true m n s hm hn = hm
  Reached-if P false m n s hm hn = hn

  reply_reused :
      (order : UserRaffleOrder T)
      → Post
          (λ (o, reused). (o.order_id ≡ oid) × (reused ≡ true))
          (read_reply order (pos 2, oid ∷ sid ∷ "0" ∷ []))
  unfolding read_reply order_of_reply
  reply_reused order = go (parse_int sid) refl
    where
      go :
          (o : Option ℤ)
          → parse_int sid ≡ o
          → Post
              (λ (o, reused). (o.order_id ≡ oid) × (reused ≡ true))
              (read_reply order (pos 2, oid ∷ sid ∷ "0" ∷ []))
      go none e = rw (read_reply, order_of_reply, e) tt
      go (some n) e = rw (read_reply, order_of_reply, e) (refl, refl)

  -- the pending order is answered, whatever new order is offered
  pending_reused :
      (cal : Calendar T) (now : T) (order : UserRaffleOrder T) (s : Store T)
      → order.user_id ≡ user_id
      → order.activity_id ≡ activity_id
      → IsWaiting s
      → Reached
          (λ (o, reused). (o.order_id ≡ oid) × (reused ≡ true))
          (cache_get_or_create cal now order s)
  unfolding cache_get_or_create call lua_get_or_create lua_pending
  pending_reused cal now order s user activity (same, found) = go s.faults refl
    where
      at : s.hashes (pending_raffle_order order.activity_id order.user_id) ≡ waiting oid sid
      at = rw (user, activity) found

      go :
          (fs : List Bool)
          → s.faults ≡ fs
          → Reached
              (λ (o, reused). (o.order_id ≡ oid) × (reused ≡ true))
              (cache_get_or_create cal now order s)
      go [] f = rw f (rw at (reply_reused order, same))
      go (true ∷ fs) f = rw f (tt, same)
      go (false ∷ fs) f = rw f (rw at (reply_reused order, same))

module _ {T : Type 0} (cal : Calendar T) (now : T) (message_id : String)
    (repo : Partake.Repo T (Store T)) (read : ReadOnly repo) (user_id oid sid : String)
    (activity_id : ℤ) (t : Tables T) where
  place_reuses :
      (order : UserRaffleOrder T) (aggregate : CreatePartakeOrder T) (s : Store T)
      → order.user_id ≡ user_id
      → order.activity_id ≡ activity_id
      → IsWaiting user_id oid sid activity_id t s
      → Reached user_id oid sid activity_id t (IsReused user_id oid sid activity_id t) (
          place_order cal (data_repo cal now message_id repo) user_id activity_id order aggregate s)
  unfolding place_order
  place_reuses order aggregate s user activity w =
      go (cache_get_or_create cal now order s).0 (cache_get_or_create cal now order s).1
        (pending_reused user_id oid sid activity_id t cal now order s user activity w)
    where
      go :
          (r : Outcome (UserRaffleOrder T × Bool)) (s1 : Store T)
          → Reached user_id oid sid activity_id t
              (λ (o, reused). (o.order_id ≡ oid) × (reused ≡ true))
              (r, s1)
          → Reached user_id oid sid activity_id t (IsReused user_id oid sid activity_id t) (
              resume r
                (λ found.
                  let (o, reused) = found in
                  if reused
                  then pure (record {
                    user_id = user_id;
                    activity_id = activity_id;
                    activity_account = none;
                    is_exist_account_month = false;
                    activity_account_month = none;
                    is_exist_account_day = false;
                    activity_account_day = none;
                    user_raffle_order = some o;
                  })
                  else (let complete = record aggregate { user_raffle_order = some o } in
                      (data_repo cal now message_id repo).save_lite_user_raffle_order complete
                      >> pure complete))
                s1)
      go (ok (o, reused)) s1 ((id, again), same) = rw again ((o, refl, id), same)
      go (err e) s1 (h, same) = (tt, same)
      go panics s1 (h, same) = (tt, same)

  pub create_reuses :
      (order_id : String) (s : Store T)
      → IsWaiting user_id oid sid activity_id t s
      → Reached user_id oid sid activity_id t (IsReused user_id oid sid activity_id t) (
          create_order cal
            (data_repo cal now message_id repo)
            (record { user_id = user_id; activity_id = activity_id })
            now
            order_id
            s)
  unfolding create_order order_for_activity build_user_raffle_order
  create_reuses order_id s w =
      after_read user_id oid sid activity_id t (IsReused user_id oid sid activity_id t)
        (λ (a : Activity T). (a.activity_id ≡ activity_id) ⊎ (str_eq a.state state_open ≡ false))
        (repo.query_raffle_activity activity_id)
        (order_for_activity cal (data_repo cal now message_id repo)
          (record { user_id = user_id; activity_id = activity_id }) now order_id)
        s (read.reads_activity activity_id s) (read.answers_activity activity_id s) w behind
    where
      placed :
          (activity : Activity T) (s1 : Store T)
          → activity.activity_id ≡ activity_id
          → IsWaiting user_id oid sid activity_id t s1
          → Reached user_id oid sid activity_id t (IsReused user_id oid sid activity_id t) (
              (do_filter_account cal (data_repo cal now message_id repo) user_id activity_id now
                  >>= place_order cal (data_repo cal now message_id repo) user_id activity_id (
                      build_user_raffle_order cal
                        (data_repo cal now message_id repo)
                        user_id
                        activity
                        now
                        order_id))
                s1)
      placed activity s1 named w1 =
          after_read user_id oid sid activity_id t (IsReused user_id oid sid activity_id t)
            (λ a. Unit {0})
            (do_filter_account cal (data_repo cal now message_id repo) user_id activity_id now)
            (place_order cal (data_repo cal now message_id repo) user_id activity_id (
              build_user_raffle_order cal (data_repo cal now message_id repo) user_id activity now
                order_id))
            s1
            (filter-IsKept cal (data_repo cal now message_id repo)
              (data_repo-ReadOnly cal now message_id repo read) user_id activity_id now s1)
            (Post-all (λ a. Unit {0}) (λ a. tt) _) w1
            (λ aggregate s2 q w2.
              place_reuses
                (build_user_raffle_order cal (data_repo cal now message_id repo) user_id activity
                  now order_id)
                aggregate s2 refl named w2)

      behind :
          (activity : Activity T) (s1 : Store T)
          → (activity.activity_id ≡ activity_id) ⊎ (str_eq activity.state state_open ≡ false)
          → IsWaiting user_id oid sid activity_id t s1
          → Reached user_id oid sid activity_id t (IsReused user_id oid sid activity_id t) (
              order_for_activity cal
                (data_repo cal now message_id repo)
                (record { user_id = user_id; activity_id = activity_id })
                now
                order_id
                activity
                s1)
      behind activity s1 (inr closed) (same, found) = rw closed (tt, same)
      behind activity s1 (inl named) (same, found) =
          Reached-if user_id oid sid activity_id t (IsReused user_id oid sid activity_id t)
            (not (str_eq activity.state state_open)) (fail activity_state_error) _ s1 (tt, same)
            (Reached-if user_id oid sid activity_id t (IsReused user_id oid sid activity_id t)
              (cal.before now activity.begin_date_time || cal.before activity.end_date_time now)
              (fail activity_time_error) _ s1 (tt, same) (placed activity s1 named (same, found)))
