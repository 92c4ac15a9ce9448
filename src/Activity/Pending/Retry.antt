-- ===== src/Activity/Pending/Retry.antt =====
-- What comes after a new pending order: another call, or the compensation.
use lucky_market.Base.{
  String, Bool, true, false, Option, none, some, List, [], ◌∷◌, ◌≡◌, refl, sym, ap, ◌∙◌, inl, inr,
  arith, ℕ, ◌-◌, ltb, str_eq, eq_refl, if◌then◌else◌, Bool-cases,
}
use lucky_market.Base.Int.{
  ℤ, pos, ◌-ℤ◌, ◌+ℤ◌, eqb_ℤ, eqb_ℤ_iff, leb_ℤ, -ℤ_parts, +ℤ_parts, eq_of_parts,
}
use lucky_market.Base.Outcome.{Outcome, ok, err, panics, resume}
use lucky_market.Text.{format_int}
use lucky_market.Text.RoundTrip.{IsInt64, parse_int-format_int}
use lucky_market.Activity.Model.{Calendar, UserRaffleOrder, order_state_create}
use lucky_market.Activity.Store.{
  Key, Store, PendingHash, no_hash, call, after_fault, pending_raffle_order,
}
use lucky_market.Activity.Pending.{
  Keys, Reply, or_zero, lua_incr, lua_hset, lua_expire, lua_deduct, lua_read_deduct, lua_pending,
  lua_get_or_create, cache_get_or_create, lua_restore, lua_compensate,
  compensate_pending_raffle_order, read_reply, order_of_reply,
}
use lucky_market.Activity.Pending.Quota.{
  eqb_key_refl, eqb_key_sound, is_quota_key, less_one, AreApart, keys_of-AreApart, decr_all,
  keys_at, is_new, other_status,
}

abbrev pub waiting : String → String → PendingHash
waiting oid sid = record { oid = some oid; sid = some sid; st = some "0" }

module _ {T : Type 0} (k : Keys) (apart : AreApart k) (oid sid : String) where
  -- a script that replied with status 1 has taken the units and left the hash
  abbrev IsTaken : Store T → Reply × Store T → Type 0
  IsTaken s (reply, s') =
      eqb_ℤ reply.0 (pos 1) ≡ true
      → (reply.1 ≡ oid ∷ sid ∷ "0" ∷ [])
        × (s'.hashes k.pending ≡ waiting oid sid)
        × (s'.ttls k.pending ≡ some 1800)
        × ((j : Key)
            → s'.counters j ≡ (if is_quota_key k j then less_one (s.counters j) else s.counters j))

  lua_deduct-IsTaken :
      (total day month : Option ℤ) (s : Store T)
      → IsTaken s (lua_deduct k oid sid "0" total day month s)
  unfolding lua_deduct lua_hset lua_expire
  lua_deduct-IsTaken (some t) (some d) (some m) s = elim (Bool-cases (leb_ℤ t (pos 0))) [
    | inl out ↦ rw out λ e. cc
    | inr more ↦ rw more (elim (Bool-cases (leb_ℤ d (pos 0))) [
      | inl out ↦ rw out λ e. cc
      | inr more' ↦ rw more' (elim (Bool-cases (leb_ℤ m (pos 0))) [
        | inl out ↦ rw out λ e. cc
        | inr more'' ↦ rw more'' λ e. (
          refl,
          rw (eqb_key_refl k.pending) refl,
          rw (eqb_key_refl k.pending) refl,
          λ j. decr_all k apart s j,
        )
      ])
    ])
  ]
  lua_deduct-IsTaken none day month s = λ e. cc
  lua_deduct-IsTaken (some t) none month s = λ e. cc
  lua_deduct-IsTaken (some t) (some d) none s = λ e. cc

  lua_pending-IsTaken :
      (o i t : Option String) (s : Store T) → IsTaken s (lua_pending k oid sid "0" o i t s)
  unfolding lua_pending lua_read_deduct lua_hset
  lua_pending-IsTaken (some o) (some i) (some t) s = elim (Bool-cases (str_eq t "0")) [
    | inl again ↦ rw again λ e. cc
    | inr over ↦ rw over (
        lua_deduct-IsTaken (s.counters k.total) (s.counters k.day) (s.counters k.month)
          (lua_hset k.pending no_hash s))
  ]
  lua_pending-IsTaken none i t s =
      lua_deduct-IsTaken (s.counters k.total) (s.counters k.day) (s.counters k.month) s
  lua_pending-IsTaken (some o) none t s =
      lua_deduct-IsTaken (s.counters k.total) (s.counters k.day) (s.counters k.month) s
  lua_pending-IsTaken (some o) (some i) none s =
      lua_deduct-IsTaken (s.counters k.total) (s.counters k.day) (s.counters k.month) s

-- the state after a call that returned a new order
abbrev pub IsCreated :
    {T : Type 0}
    → Keys
    → UserRaffleOrder T
    → (Key → Option ℤ)
    → UserRaffleOrder T
    → Store T
    → Type 0
IsCreated k order before order' s =
    (order' ≡ record order { order_state = order_state_create })
    × (s.hashes k.pending ≡ waiting order.order_id (format_int order.strategy_id))
    × (s.ttls k.pending ≡ some 1800)
    × ((j : Key) → s.counters j ≡ (if is_quota_key k j then less_one (before j) else before j))

created_as :
    {T : Type 0} {a b : UserRaffleOrder T}
    → ◌≡◌ {A = Outcome (UserRaffleOrder T × Bool)} (ok (a, false)) (ok (b, false))
    → a ≡ b
created_as {T} {a} {b} e = ap order_in e
  where
    order_in : Outcome (UserRaffleOrder T × Bool) → UserRaffleOrder T
    order_in (ok (o, reused)) = o
    order_in (err x) = a
    order_in panics = a

absurd_new :
    {T P : Type 0} {order' : UserRaffleOrder T} {r : Outcome (UserRaffleOrder T × Bool)}
    → is_new r ≡ false
    → r ≡ ok (order', false)
    → P
absurd_new old e = cc (ap is_new e)

module _ {T : Type 0} (order order' : UserRaffleOrder T) (s1 : Store T)
    (int : IsInt64 order.strategy_id) where
  created_reply :
      (reply : Reply)
      → reply.0 ≡ pos 1
      → reply.1 ≡ order.order_id ∷ format_int order.strategy_id ∷ "0" ∷ []
      → read_reply order reply ≡ ok (record order { order_state = order_state_create }, false)
  unfolding read_reply
  created_reply (status, texts) one payload =
      rw (one, payload) (rw (parse_int-format_int order.strategy_id int, order_of_reply) refl)

  script_creates :
      (k : Keys) (s : Store T)
      → AreApart k
      → read_reply order (lua_get_or_create k order.order_id (format_int order.strategy_id) "0" s).0
        ≡ ok (order', false)
      → (lua_get_or_create k order.order_id (format_int order.strategy_id) "0" s).1 ≡ s1
      → IsCreated k order s.counters order' s1
  unfolding lua_get_or_create
  script_creates k s apart result after =
      let h = s.hashes k.pending in
      let run =
        lua_pending k order.order_id (format_int order.strategy_id) "0" h.oid h.sid h.st s in
      elim (Bool-cases (eqb_ℤ run.0.0 (pos 1))) [
        | inl one ↦
            let (texts, hash, ttl, counters) =
              lua_pending-IsTaken k apart order.order_id (format_int order.strategy_id) h.oid h.sid
                h.st s one in
            let status : run.0.0 ≡ pos 1 = (eqb_ℤ_iff run.0.0 (pos 1)).0 one in
            let made : read_reply order run.0
                ≡ ok (record order { order_state = order_state_create }, false) =
              created_reply run.0 status texts in
            (
              created_as (sym result ∙ made),
              rw (sym after) hash,
              rw (sym after) ttl,
              rw (sym after) counters,
            )
        | inr other ↦ absurd_new (other_status order run.0.0 run.0.1 other) result
      ]

-- A call that returned a new order left it pending and took one unit of each counter.
created :
    {T : Type 0} (cal : Calendar T) (now : T) (order order' : UserRaffleOrder T) (s s1 : Store T)
    → IsInt64 order.strategy_id
    → cache_get_or_create cal now order s ≡ (ok (order', false), s1)
    → IsCreated (keys_at cal now order) order s.counters order' s1
unfolding cache_get_or_create call
created {T} cal now order order' s s1 int = by_fault s.faults
  where
    k : Keys
    k = keys_at cal now order

    apart : AreApart k
    apart =
        keys_of-AreApart order.activity_id order.user_id (cal.format_day now) (cal.format_month now)

    by_fault :
        (fs : List Bool)
        → (let (r, s') = after_fault fs s in
            resume r
              (λ _ s1.
                let (reply, s2) =
                  lua_get_or_create k order.order_id (format_int order.strategy_id) "0" s1 in
                (read_reply order reply, s2))
              s')
          ≡ (ok (order', false), s1)
        → IsCreated k order s.counters order' s1
    by_fault [] e = script_creates order order' s1 int k s apart (ap (λ x. x.0) e) (ap (λ x. x.1) e)
    by_fault (true ∷ fs) e = absurd_new {order' = order'} refl (ap (λ x. x.0) e)
    by_fault (false ∷ fs) e =
        script_creates order order' s1 int k (record s { faults = fs }) apart (ap (λ x. x.0) e)
          (ap (λ x. x.1) e)

-- a hash, if it has not expired
abbrev pub alive : ℕ → Option ℕ → PendingHash → PendingHash
alive seconds none h = h
alive seconds (some ttl) h = if ltb seconds ttl then h else no_hash

abbrev pub left_of : ℕ → Option ℕ → Option ℕ
left_of seconds none = none
left_of seconds (some ttl) = some (ttl - seconds)

-- the store some seconds later, when `gone` says which counters have expired too
abbrev pub elapse : {T : Type 0} → ℕ → (Key → Bool) → Store T → Store T
elapse seconds gone s = record s {
  counters = λ k. if gone k then none else s.counters k;
  hashes = λ k. alive seconds (s.ttls k) (s.hashes k);
  ttls = λ k. left_of seconds (s.ttls k);
}

-- For an order with an int64 strategy: where a call returned it as new and Redis stays reachable, a further
-- call for the same user and activity within 30 minutes returns that order, marked as used again, on
-- whichever day, with whatever order of its own and whichever counters have expired, and changes nothing
-- in Redis: a user who retries before the pending order expires pays once.
pub retry_reuses :
    {T : Type 0} (cal : Calendar T) (now later : T) (order order' again : UserRaffleOrder T)
    (s s1 : Store T) (seconds : ℕ) (gone : Key → Bool)
    → IsInt64 order.strategy_id
    → cache_get_or_create cal now order s ≡ (ok (order', false), s1)
    → ltb seconds 1800 ≡ true
    → again.activity_id ≡ order.activity_id
    → again.user_id ≡ order.user_id
    → s1.faults ≡ []
    → cache_get_or_create cal later again (elapse seconds gone s1) ≡ (
      ok (
        record again {
          strategy_id = order.strategy_id;
          order_id = order'.order_id;
          order_state = order_state_create;
        },
        true,
      ),
      elapse seconds gone s1,
    )
unfolding cache_get_or_create call lua_get_or_create lua_pending read_reply
retry_reuses cal now later order order' again s s1 seconds gone int made soon activity user
      healthy =
    let (same, hash, ttl, counters) = created cal now order order' s s1 int made in
    let left : (elapse seconds gone s1).hashes
          (pending_raffle_order order.activity_id order.user_id)
        ≡ waiting order.order_id (format_int order.strategy_id) =
      rw ttl (rw soon hash) in
    rw (healthy, activity, user, same)
      (rw left (rw (parse_int-format_int order.strategy_id int, order_of_reply) refl))

module _ {T : Type 0} (k : Keys) (apart : AreApart k) where
  incr_all :
      (s : Store T) (j : Key)
      → (lua_incr k.month (lua_incr k.day (lua_incr k.total s))).counters j
        ≡ (if is_quota_key k j then some (or_zero (s.counters j) +ℤ pos 1) else s.counters j)
  unfolding lua_incr
  incr_all s j =
      ground (arith, apart, eqb_key_sound k.total j, eqb_key_sound k.day j, eqb_key_sound k.month j)

given_back : (n : ℤ) → (n -ℤ pos 1) +ℤ pos 1 ≡ n
given_back n =
    eq_of_parts ((n -ℤ pos 1) +ℤ pos 1) n
      (ground (arith, +ℤ_parts (n -ℤ pos 1) (pos 1), -ℤ_parts n (pos 1)))

module _ {T : Type 0} (k : Keys) where
  restored_hash : (s : Store T) → (lua_restore k s).hashes k.pending ≡ no_hash
  unfolding lua_restore lua_hset
  restored_hash s = rw (eqb_key_refl k.pending) refl

  restored_faults : (s : Store T) → (lua_restore k s).faults ≡ s.faults
  unfolding lua_restore lua_hset lua_incr
  restored_faults s = refl

  restored_counter :
      AreApart k
      → (before : Key → Option ℤ) (s : Store T)
      → ((j : Key) → s.counters j ≡ (if is_quota_key k j then less_one (before j) else before j))
      → (j : Key) → or_zero ((lua_restore k s).counters j) ≡ or_zero (before j)
  unfolding lua_restore lua_hset
  restored_counter apart before s taken j = elim (Bool-cases (is_quota_key k j)) [
    | inl quota ↦ rw (incr_all k apart s j, taken j, quota) (given_back (or_zero (before j)))
    | inr other ↦ rw (incr_all k apart s j, taken j, other) refl
  ]

module _ {T : Type 0} (cal : Calendar T) where
  compensate_waiting :
      (order : UserRaffleOrder T) (s : Store T)
      → let k = keys_at cal order.order_time order in
        s.hashes k.pending ≡ waiting order.order_id (format_int order.strategy_id)
        → s.faults ≡ []
        → (compensate_pending_raffle_order cal order s).1 ≡ lua_restore k s
  unfolding compensate_pending_raffle_order call lua_compensate
  compensate_waiting order s hash healthy = rw healthy (rw hash (rw (eq_refl order.order_id) refl))

  compensate_nothing :
      (order : UserRaffleOrder T) (s : Store T)
      → s.hashes (pending_raffle_order order.activity_id order.user_id) ≡ no_hash
      → s.faults ≡ []
      → (compensate_pending_raffle_order cal order s).1 ≡ s
  unfolding compensate_pending_raffle_order call lua_compensate
  compensate_nothing order s hash healthy = rw healthy (rw hash refl)

-- every counter is back at `before`, nothing is pending, and compensating again changes nothing
abbrev pub IsRestored :
    {T : Type 0} → Calendar T → UserRaffleOrder T → (Key → Option ℤ) → Store T → Type 0
IsRestored cal order before s =
    ((j : Key) → or_zero (s.counters j) ≡ or_zero (before j))
    × (s.hashes (pending_raffle_order order.activity_id order.user_id) ≡ no_hash)
    × ((compensate_pending_raffle_order cal order s).1 ≡ s)

-- the compensation on a store that has the counters and hashes that the call left
pub restores_from :
    {T : Type 0} (cal : Calendar T) (now : T) (order order' : UserRaffleOrder T) (s s1 s2 : Store T)
    → IsInt64 order.strategy_id
    → cache_get_or_create cal now order s ≡ (ok (order', false), s1)
    → cal.format_day order.order_time ≡ cal.format_day now
    → cal.format_month order.order_time ≡ cal.format_month now
    → s2.counters ≡ s1.counters
    → s2.hashes ≡ s1.hashes
    → s2.faults ≡ []
    → IsRestored cal order' s.counters (compensate_pending_raffle_order cal order' s2).1
unfolding compensate_pending_raffle_order
restores_from cal now order order' s s1 s2 int made day month counters_same hashes_same healthy =
    let (same, hash, ttl, counters) = created cal now order order' s s1 int made in
    let k = keys_at cal now order in
    let apart =
      keys_of-AreApart order.activity_id order.user_id (cal.format_day now)
        (cal.format_month now) in
    let same_keys : keys_at cal order.order_time order ≡ k = rw (day, month) refl in
    let waits : s2.hashes k.pending ≡ waiting order.order_id (format_int order.strategy_id) =
      rw hashes_same hash in
    let compensated : (compensate_pending_raffle_order cal order' s2).1 ≡ lua_restore k s2 =
      rw same (compensate_waiting cal order s2 waits healthy)
      ∙ ap (λ x. lua_restore x s2) same_keys in
    rw compensated (
      restored_counter k apart s.counters s2 (rw counters_same counters),
      rw same (restored_hash k s2),
      compensate_nothing cal order' (lua_restore k s2) (rw same (restored_hash k s2))
          (restored_faults k s2 ∙ healthy),
    )

-- For an order with an int64 strategy: where a call returned it as new, Redis stays reachable, and the compensation names the day and
-- the month of that call, the compensation gives every unit back: each counter has the value it had
-- before the call, no order is pending, and a second compensation changes nothing.
pub compensation_restores :
    {T : Type 0} (cal : Calendar T) (now : T) (order order' : UserRaffleOrder T) (s s1 : Store T)
    → IsInt64 order.strategy_id
    → cache_get_or_create cal now order s ≡ (ok (order', false), s1)
    → cal.format_day order.order_time ≡ cal.format_day now
    → cal.format_month order.order_time ≡ cal.format_month now
    → s1.faults ≡ []
    → IsRestored cal order' s.counters (compensate_pending_raffle_order cal order' s1).1
compensation_restores cal now order order' s s1 int made day month healthy =
    restores_from cal now order order' s s1 s1 int made day month refl refl healthy
