-- ===== src/Activity/Pending.antt =====
-- internal/data/activity_partake.go, CacheGetOrCreateNoUsedRaffleOrder and
-- compensatePendingRaffleOrder: the quota counters and the pending order in Redis. A Lua script runs
-- with no other command in between.
pub mod Quota
pub mod Retry
use lucky_market.Base.{
  ℕ, String, Bool, true, false, ◌&&◌, ◌||◌, Option, none, some, List, [], ◌∷◌, str_eq,
  if◌then◌else◌,
}
use lucky_market.Base.Int.{ℤ, pos, negsuc, ◌+ℤ◌, ◌-ℤ◌, leb_ℤ, eqb_ℤ}
use lucky_market.Base.Outcome.{
  Exec, Outcome, ok, err, panics, Error, pure, fail, lift, ◌>>=◌, ◌>>◌, driver, message,
  parse_failed, activity_quota_error, activity_account_day_count_surplus_not_enough,
  activity_account_month_count_surplus_not_enough,
}
use lucky_market.Text.{format_int, parse_int}
use lucky_market.Activity.Model.{Calendar, UserRaffleOrder, order_state_create}
use lucky_market.Activity.Store.{
  Key, total_surplus, day_surplus, month_surplus, pending_raffle_order, PendingHash, no_hash, Store,
  put_key, call, eqb_key,
}

-- KEYS of the scripts
pub record Keys : Type 0 where
  pub total : Key
  pub day : Key
  pub month : Key
  pub pending : Key

abbrev pub keys_of : ℤ → String → String → String → Keys
keys_of activity_id user_id day month = record {
  total = total_surplus activity_id user_id;
  day = day_surplus activity_id user_id day;
  month = month_surplus activity_id user_id month;
  pending = pending_raffle_order activity_id user_id;
}

-- A reply of EVAL: the status and the texts behind it.
abbrev pub Reply : Type 0
Reply = ℤ × List String

-- 30 minutes, in seconds
abbrev pub pending_raffle_order_ttl : ℕ
pending_raffle_order_ttl = 1800

abbrev pub or_zero : Option ℤ → ℤ
or_zero none = pos 0
or_zero (some n) = n

abbrev pub is_text : Option String → String → Bool
is_text none t = false
is_text (some u) t = str_eq u t

module _ {T : Type 0} where
  -- DECR and INCR take a missing key for 0
  unfoldable pub lua_decr : Key → Store T → Store T
  lua_decr k s = record s {
    counters = put_key k (some (or_zero (s.counters k) -ℤ pos 1)) s.counters;
  }

  unfoldable pub lua_incr : Key → Store T → Store T
  lua_incr k s = record s {
    counters = put_key k (some (or_zero (s.counters k) +ℤ pos 1)) s.counters;
  }

  unfoldable pub lua_hset : Key → PendingHash → Store T → Store T
  lua_hset k h s = record s { hashes = put_key k h s.hashes }

  -- EXPIRE
  unfoldable pub lua_expire : Key → ℕ → Store T → Store T
  lua_expire k seconds s = record s { ttls = put_key k (some seconds) s.ttls }

  -- the script behind the check of the pending order
  unfoldable pub lua_deduct :
      Keys → String → String → String → Option ℤ → Option ℤ → Option ℤ → Store T → Reply × Store T
  unfolding lua_decr lua_hset lua_expire
  lua_deduct k oid sid st (some total) (some day) (some month) s =
      if leb_ℤ total (pos 0)
      then ((negsuc 1, []), s)
      else if leb_ℤ day (pos 0)
      then ((negsuc 2, []), s)
      else if leb_ℤ month (pos 0)
      then ((negsuc 3, []), s)
      else (
        (pos 1, oid ∷ sid ∷ st ∷ []),
        lua_expire k.pending pending_raffle_order_ttl (
            lua_hset k.pending (record { oid = some oid; sid = some sid; st = some st })
              (lua_decr k.month (lua_decr k.day (lua_decr k.total s)))),
      )
  lua_deduct k oid sid st _ _ _ s = ((negsuc 0, []), s)

  unfoldable pub lua_read_deduct : Keys → String → String → String → Store T → Reply × Store T
  unfolding lua_deduct
  lua_read_deduct k oid sid st s =
      lua_deduct k oid sid st (s.counters k.total) (s.counters k.day) (s.counters k.month) s

  -- the pending order is used again in state "0", and dropped in any other
  unfoldable pub lua_pending :
      Keys
      → String
      → String
      → String
      → Option String
      → Option String
      → Option String
      → Store T
      → Reply × Store T
  unfolding lua_read_deduct
  lua_pending k oid sid st (some oid') (some sid') (some st') s =
      if str_eq st' "0"
      then ((pos 2, oid' ∷ sid' ∷ st' ∷ []), s)
      else lua_read_deduct k oid sid st (lua_hset k.pending no_hash s)
  lua_pending k oid sid st _ _ _ s = lua_read_deduct k oid sid st s

  unfoldable pub lua_get_or_create : Keys → String → String → String → Store T → Reply × Store T
  unfolding lua_pending
  lua_get_or_create k oid sid st s =
      let h = s.hashes k.pending in lua_pending k oid sid st h.oid h.sid h.st s

  -- the switch over the status
  unfoldable pub order_of_reply :
      UserRaffleOrder T → ℤ → List String → Outcome (UserRaffleOrder T × Bool)
  order_of_reply order status (oid ∷ sid ∷ st ∷ _) = elim (parse_int sid) [
    | none ↦ err parse_failed
    | some strategy_id ↦ ok (
      record order { strategy_id = strategy_id; order_id = oid; order_state = order_state_create },
      eqb_ℤ status (pos 2),
    )
  ]
  order_of_reply order status _ = err (message "unexpected redis eval payload length")

  unfoldable pub read_reply : UserRaffleOrder T → Reply → Outcome (UserRaffleOrder T × Bool)
  unfolding order_of_reply
  read_reply order (status, texts) =
      if eqb_ℤ status (negsuc 0) || eqb_ℤ status (negsuc 1)
      then err activity_quota_error
      else if eqb_ℤ status (negsuc 2)
      then err activity_account_day_count_surplus_not_enough
      else if eqb_ℤ status (negsuc 3)
      then err activity_account_month_count_surplus_not_enough
      else if eqb_ℤ status (pos 1) || eqb_ℤ status (pos 2)
      then order_of_reply order status texts
      else err (message "unexpected redis eval status")

  -- `now` is the time of the call, which names the day and the month
  unfoldable pub cache_get_or_create :
      Calendar T → T → UserRaffleOrder T → Exec (Store T) (UserRaffleOrder T × Bool)
  unfolding call lua_get_or_create read_reply
  cache_get_or_create cal now order = call >> λ s.
      let (reply, s') =
        lua_get_or_create
          (keys_of order.activity_id order.user_id (cal.format_day now) (cal.format_month now))
          order.order_id (format_int order.strategy_id) "0" s in
      (read_reply order reply, s')

  -- the compensation undoes a deduction whose order is still pending
  unfoldable pub lua_restore : Keys → Store T → Store T
  unfolding lua_incr lua_hset
  lua_restore k s =
      lua_hset k.pending no_hash (lua_incr k.month (lua_incr k.day (lua_incr k.total s)))

  unfoldable pub lua_compensate : Keys → String → Store T → Store T
  unfolding lua_restore
  lua_compensate k oid s =
      let h = s.hashes k.pending in
      if is_text h.oid oid then (if is_text h.st "0" then lua_restore k s else s) else s

  unfoldable pub compensate_pending_raffle_order :
      Calendar T → UserRaffleOrder T → Exec (Store T) (Unit {0})
  unfolding call lua_compensate
  compensate_pending_raffle_order cal order = call >> λ s. (
    ok tt,
    lua_compensate
        (keys_of order.activity_id order.user_id (cal.format_day order.order_time)
          (cal.format_month order.order_time))
        order.order_id s,
  )
