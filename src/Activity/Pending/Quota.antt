-- ===== src/Activity/Pending/Quota.antt =====
-- What the scripts do to the quota of a user.
use lucky_market.Base.{
  String, Bool, true, false, not, ◌&&◌, Option, none, some, List, [], ◌∷◌, ◌≡◌, refl, sym, ◌∙◌, inl,
  inr, arith, str_eq, eq_iff, eq_refl, if◌then◌else◌, Bool-cases,
}
use lucky_market.Base.Int.{ℤ, pos, ◌≤ℤ◌, ◌-ℤ◌, eqb_ℤ, eqb_ℤ_iff, leb_ℤ}
use lucky_market.Base.Outcome.{Outcome, ok, err, panics, resume}
use lucky_market.Text.{format_int}
use lucky_market.Text.RoundTrip.{IsInt64, parse_int-format_int}
use lucky_market.Activity.Model.{Calendar, UserRaffleOrder}
use lucky_market.Activity.Store.{
  Key, eqb_key, Store, PendingHash, no_hash, call, after_fault, total_surplus, day_surplus,
  month_surplus, pending_raffle_order,
}
use lucky_market.Activity.Pending.{
  Keys, keys_of, Reply, or_zero, lua_decr, lua_hset, lua_deduct, lua_read_deduct, lua_pending,
  lua_get_or_create, cache_get_or_create, read_reply, order_of_reply,
}

eqb_ℤ_refl : (a : ℤ) → eqb_ℤ a a ≡ true
eqb_ℤ_refl a = (eqb_ℤ_iff a a).1 refl

pub eqb_key_refl : (k : Key) → eqb_key k k ≡ true
unfolding eqb_key
eqb_key_refl (total_surplus a u) = rw (eqb_ℤ_refl a, eq_refl u)
eqb_key_refl (day_surplus a u d) = rw (eqb_ℤ_refl a, eq_refl u, eq_refl d)
eqb_key_refl (month_surplus a u m) = rw (eqb_ℤ_refl a, eq_refl u, eq_refl m)
eqb_key_refl (pending_raffle_order a u) = rw (eqb_ℤ_refl a, eq_refl u)

-- The counter of a key after one unit was taken, or given back.
abbrev pub less_one : Option ℤ → Option ℤ
less_one n = some (or_zero n -ℤ pos 1)

abbrev pub is_quota_key : Keys → Key → Bool
is_quota_key k j =
    if eqb_key k.total j then true else if eqb_key k.day j then true else eqb_key k.month j

both : (b c : Bool) → (b && c) ≡ true → (b ≡ true) × (c ≡ true)
both true c h = (refl, h)
both false c h = cc

pub eqb_key_sound : (k j : Key) → eqb_key k j ≡ true → k ≡ j
unfolding eqb_key
eqb_key_sound (total_surplus a u) (total_surplus b v) h =
    let (p, q) = both (eqb_ℤ a b) (str_eq u v) h in cc ((eqb_ℤ_iff a b).0 p, (eq_iff u v).0 q)
eqb_key_sound (day_surplus a u d) (day_surplus b v e) h =
    let (p, r) = both (eqb_ℤ a b) (str_eq u v && str_eq d e) h in
    let (q, w) = both (str_eq u v) (str_eq d e) r in
    cc ((eqb_ℤ_iff a b).0 p, (eq_iff u v).0 q, (eq_iff d e).0 w)
eqb_key_sound (month_surplus a u d) (month_surplus b v e) h =
    let (p, r) = both (eqb_ℤ a b) (str_eq u v && str_eq d e) h in
    let (q, w) = both (str_eq u v) (str_eq d e) r in
    cc ((eqb_ℤ_iff a b).0 p, (eq_iff u v).0 q, (eq_iff d e).0 w)
eqb_key_sound (pending_raffle_order a u) (pending_raffle_order b v) h =
    let (p, q) = both (eqb_ℤ a b) (str_eq u v) h in cc ((eqb_ℤ_iff a b).0 p, (eq_iff u v).0 q)
eqb_key_sound _ _ h = cc

-- the three counters of one call are different keys
abbrev pub AreApart : Keys → Type 0
AreApart k =
    (eqb_key k.total k.day ≡ false)
    × (eqb_key k.total k.month ≡ false)
    × (eqb_key k.day k.month ≡ false)

pub keys_of-AreApart : (a : ℤ) (u d m : String) → AreApart (keys_of a u d m)
unfolding eqb_key
keys_of-AreApart a u d m = (refl, refl, refl)

module _ {T : Type 0} (k : Keys) (apart : AreApart k) where
  pub decr_all :
      (s : Store T) (j : Key)
      → (lua_decr k.month (lua_decr k.day (lua_decr k.total s))).counters j
        ≡ (if is_quota_key k j then less_one (s.counters j) else s.counters j)
  unfolding lua_decr
  decr_all s j =
      ground (arith, apart, eqb_key_sound k.total j, eqb_key_sound k.day j, eqb_key_sound k.month j)

  -- A script's reply takes one unit of each quota exactly if its status is 1, and then none of them
  -- was used up and the reply names the new order.
  abbrev IsFair : String → String → Store T → Reply × Store T → Type 0
  IsFair oid sid s (reply, s') =
      ((j : Key)
        → s'.counters j ≡ (
            if eqb_ℤ reply.0 (pos 1) && is_quota_key k j
            then less_one (s.counters j)
            else s.counters j))
      × (eqb_ℤ reply.0 (pos 1) ≡ true
          → (reply.1 ≡ oid ∷ sid ∷ "0" ∷ [])
            × (pos 1 ≤ℤ or_zero (s.counters k.total))
            × (pos 1 ≤ℤ or_zero (s.counters k.day))
            × (pos 1 ≤ℤ or_zero (s.counters k.month)))

  lua_deduct-IsFair :
      (oid sid : String) (total day month : Option ℤ) (s : Store T)
      → s.counters k.total ≡ total
      → s.counters k.day ≡ day
      → s.counters k.month ≡ month
      → IsFair oid sid s (lua_deduct k oid sid "0" total day month s)
  unfolding lua_deduct
  lua_deduct-IsFair oid sid (some t) (some d) (some m) s et ed em =
      elim (Bool-cases (leb_ℤ t (pos 0))) [
        | inl out ↦ rw out ((λ j. refl), λ e. cc)
        | inr more ↦ rw more (elim (Bool-cases (leb_ℤ d (pos 0))) [
          | inl out ↦ rw out ((λ j. refl), λ e. cc)
          | inr more' ↦ rw more' (elim (Bool-cases (leb_ℤ m (pos 0))) [
            | inl out ↦ rw out ((λ j. refl), λ e. cc)
            | inr more'' ↦ rw more'' (
              (λ j. decr_all s j),
              λ e. (refl, rw et (ground arith), rw ed (ground arith), rw em (ground arith)),
            )
          ])
        ])
      ]
  lua_deduct-IsFair oid sid none day month s et ed em = ((λ j. refl), λ e. cc)
  lua_deduct-IsFair oid sid (some t) none month s et ed em = ((λ j. refl), λ e. cc)
  lua_deduct-IsFair oid sid (some t) (some d) none s et ed em = ((λ j. refl), λ e. cc)

  lua_pending-IsFair :
      (oid sid : String) (h : PendingHash) (s : Store T)
      → IsFair oid sid s (lua_pending k oid sid "0" h.oid h.sid h.st s)
  unfolding lua_pending lua_read_deduct lua_hset
  lua_pending-IsFair oid sid h s = go h.oid h.sid h.st
    where
      read : (s' : Store T) → IsFair oid sid s' (lua_read_deduct k oid sid "0" s')
      read s' =
          lua_deduct-IsFair oid sid (s'.counters k.total) (s'.counters k.day) (s'.counters k.month)
            s' refl refl refl

      go : (o i t : Option String) → IsFair oid sid s (lua_pending k oid sid "0" o i t s)
      go (some o) (some i) (some t) = elim (Bool-cases (str_eq t "0")) [
        | inl again ↦ rw again ((λ j. refl), λ e. cc)
        | inr over ↦ rw over (read (lua_hset k.pending no_hash s))
      ]
      go none i t = read s
      go (some o) none t = read s
      go (some o) (some i) none = read s

-- the call returned an order that was not there before
abbrev pub is_new : {T : Type 0} → Outcome (UserRaffleOrder T × Bool) → Bool
is_new (ok (order, reused)) = not reused
is_new (err e) = false
is_new panics = false

module _ {T : Type 0} (order : UserRaffleOrder T) where
  reused_not_new :
      (status : ℤ) (texts : List String)
      → eqb_ℤ status (pos 2) ≡ true
      → is_new (order_of_reply order status texts) ≡ false
  unfolding order_of_reply
  reused_not_new status (oid ∷ sid ∷ st ∷ more) h = ground arith
  reused_not_new status [] h = refl
  reused_not_new status (oid ∷ []) h = refl
  reused_not_new status (oid ∷ sid ∷ []) h = refl

  pub new_created :
      IsInt64 order.strategy_id
      → is_new (read_reply order (pos 1, order.order_id ∷ format_int order.strategy_id ∷ "0" ∷ []))
        ≡ true
  unfolding read_reply
  new_created int = rw (parse_int-format_int order.strategy_id int, order_of_reply) refl

  pub other_status :
      (status : ℤ) (texts : List String)
      → eqb_ℤ status (pos 1) ≡ false
      → is_new (read_reply order (status, texts)) ≡ false
  unfolding read_reply
  other_status status texts h = elim (Bool-cases (eqb_ℤ status (pos 2))) [
    | inl two ↦
        let same : status ≡ pos 2 = (eqb_ℤ_iff status (pos 2)).0 two in
        rw same (reused_not_new (pos 2) texts refl)
    | inr no_two ↦ rw (h, no_two) (ground arith)
  ]

  -- a new order comes back for status 1, and for no other
  new_status :
      (status : ℤ) (texts : List String)
      → IsInt64 order.strategy_id
      → (eqb_ℤ status (pos 1) ≡ true
          → texts ≡ order.order_id ∷ format_int order.strategy_id ∷ "0" ∷ [])
      → is_new (read_reply order (status, texts)) ≡ eqb_ℤ status (pos 1)
  new_status status texts int h = elim (Bool-cases (eqb_ℤ status (pos 1))) [
    | inl one ↦
        let same : status ≡ pos 1 = (eqb_ℤ_iff status (pos 1)).0 one in
        rw (h one, one, same) (new_created int)
    | inr other ↦ other_status status texts other ∙ sym other
  ]

abbrev pub keys_at : {T : Type 0} → Calendar T → T → UserRaffleOrder T → Keys
keys_at cal now order =
    keys_of order.activity_id order.user_id (cal.format_day now) (cal.format_month now)

abbrev pub IfNew : Bool → Type 0 → Type 0
IfNew true P = P
IfNew false P = Unit

-- A call takes one unit of the three counters of `k`, and of no other, exactly if it returns a new
-- order, and then none of the three was used up.
abbrev pub IsDeducted :
    {T : Type 0} → Keys → (Key → Option ℤ) → Outcome (UserRaffleOrder T × Bool) × Store T → Type 0
IsDeducted k before (r, s) =
    ((j : Key)
      → s.counters j ≡ (if is_new r && is_quota_key k j then less_one (before j) else before j))
    × IfNew (is_new r) (
        (pos 1 ≤ℤ or_zero (before k.total))
        × (pos 1 ≤ℤ or_zero (before k.day))
        × (pos 1 ≤ℤ or_zero (before k.month)))

IfNew_intro : {P : Type 0} (b : Bool) → (b ≡ true → P) → IfNew b P
IfNew_intro true f = f refl
IfNew_intro false f = tt

script_deducts :
    {T : Type 0} (k : Keys) (order : UserRaffleOrder T) (s : Store T)
    → AreApart k
    → IsInt64 order.strategy_id
    → let (reply, s') = lua_get_or_create k order.order_id (format_int order.strategy_id) "0" s in
      IsDeducted k s.counters (read_reply order reply, s')
unfolding lua_get_or_create
script_deducts k order s apart int =
    let h = s.hashes k.pending in
    let reply =
      lua_pending k order.order_id (format_int order.strategy_id) "0" h.oid h.sid h.st s in
    let fair = lua_pending-IsFair k apart order.order_id (format_int order.strategy_id) h s in
    let status = new_status order reply.0.0 reply.0.1 int (λ e. (fair.1 e).0) in
    rw status (
      fair.0,
      IfNew_intro (eqb_ℤ reply.0.0 (pos 1)) λ e. let (named, a, b, c) = fair.1 e in (a, b, c),
    )

-- For an order with an int64 strategy: a call takes one unit of the total, the day's and the month's
-- quota of the user, and of no other key, exactly if it returns a new order; it changes no counter if
-- it returns a pending order again or any error; and it returns a new order only if none of the three
-- was used up.
pub cache_get_or_create_deducts :
    {T : Type 0} (cal : Calendar T) (now : T) (order : UserRaffleOrder T) (s : Store T)
    → IsInt64 order.strategy_id
    → IsDeducted (keys_at cal now order) s.counters (cache_get_or_create cal now order s)
unfolding cache_get_or_create call
cache_get_or_create_deducts {T} cal now order s int = by_fault s.faults
  where
    k : Keys
    k = keys_at cal now order

    apart : AreApart k
    apart =
        keys_of-AreApart order.activity_id order.user_id (cal.format_day now) (cal.format_month now)

    by_fault :
        (fs : List Bool)
        → IsDeducted k s.counters (
            let (r, s') = after_fault fs s in
            resume r
              (λ _ s1.
                let (reply, s2) =
                  lua_get_or_create k order.order_id (format_int order.strategy_id) "0" s1 in
                (read_reply order reply, s2))
              s')
    by_fault [] = script_deducts k order s apart int
    by_fault (true ∷ fs) = ((λ j. refl), tt)
    by_fault (false ∷ fs) = script_deducts k order (record s { faults = fs }) apart int
