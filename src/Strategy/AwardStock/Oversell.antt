-- ===== src/Strategy/AwardStock/Oversell.antt =====
-- Requests for the stock of an award, interleaved between their commands.
use lucky_market.Base.{
  ℕ, zero, suc, ◌+◌, ◌≤◌, ◌<◌, Bool, true, false, some, List, [], ◌∷◌, ◌++◌, ◌≡◌, refl, ap, inl,
  inr, arith, if◌then◌else◌, All, Bool-cases,
}
use lucky_market.Base.Int.{ℤ, pos, ◌≤ℤ◌, pos_part, neg_part, eqb_ℤ, eqb_ℤ_iff, ltb_ℤ, -ℤ_parts}
use lucky_market.Base.Outcome.{Outcome, ok, err, panics, Post}
use lucky_market.Strategy.AwardStock.{AwardStock, counted, decr, is_locked, lock_surplus}

-- Requests that have decremented the counter wait with the value that they saw for their lock.
pub record System : Type 0 where
  pub stock : AwardStock
  pub waiting : List ℤ
  pub granted : ℕ
  -- the locks that were dropped, 24 hours after they were set
  pub expired : ℕ

abbrev begun : Outcome ℤ → AwardStock → System → System
begun (ok v) s x = record x { stock = s; waiting = v ∷ x.waiting }
begun (err e) s x = record x { stock = s }
begun panics s x = record x { stock = s }

abbrev grant : Outcome Bool → ℕ → ℕ
grant (ok true) n = suc n
grant _ n = n

-- A request decrements, a waiting request goes for its lock, somebody sets the counter to a value of
-- at most `n`, or a lock expires. Calls of Redis may fail in between.
pub data Step (n : ℕ) : System → System → Type 0 where
  begin : (x : System) → Step n x (begun (decr x.stock).0 (decr x.stock).1 x)
  finish :
      (x : System) (v : ℤ) (before behind : List ℤ)
      → x.waiting ≡ before ++ v ∷ behind
      → Step n x (record {
        stock = (lock_surplus v x.stock).1;
        waiting = before ++ behind;
        granted = grant (lock_surplus v x.stock).0 x.granted;
        expired = x.expired;
      })
  refill :
      (x : System) (m : ℤ)
      → m ≤ℤ pos n
      → Step n x (record x { stock = record (x.stock) { surplus = some m } })
  expire :
      (x : System) (v : ℤ) (before behind : List ℤ)
      → x.stock.locks ≡ before ++ v ∷ behind
      → Step n x (record x {
        stock = record (x.stock) { locks = before ++ behind };
        expired = suc x.expired;
      })

pub data Reach (n : ℕ) (x : System) : System → Type 0 where
  here : Reach n x x
  next : {y z : System} → Reach n x y → Step n y z → Reach n x z

abbrev Below : ℕ → ℤ → Type 0
Below n v = pos_part v < n + neg_part v

abbrev Slot : ℕ → ℤ → Type 0
Slot n v = (neg_part v ≡ 0) × (pos_part v < n)

abbrev Distinct : List ℤ → Type 0
Distinct [] = Unit
Distinct (v ∷ vs) = (is_locked v vs ≡ false) × Distinct vs

abbrev length : List ℤ → ℕ
length [] = 0
length (v ∷ vs) = suc (length vs)

abbrev occurs : ℤ → List ℤ → ℕ
occurs v [] = 0
occurs v (w ∷ ws) = (if eqb_ℤ w v then 1 else 0) + occurs v ws

-- how many entries are numbers below `k`
abbrev total : ℕ → List ℤ → ℕ
total zero vs = 0
total (suc k) vs = occurs (pos k) vs + total k vs

occurs_unlocked : (v : ℤ) (vs : List ℤ) → is_locked v vs ≡ false → occurs v vs ≡ 0
unfolding is_locked
occurs_unlocked v [] h = refl
occurs_unlocked v (w ∷ ws) h = ground (arith, occurs_unlocked v ws)

occurs-le-one : (v : ℤ) (vs : List ℤ) → Distinct vs → occurs v vs ≤ 1
occurs-le-one v [] h = omega arith
occurs-le-one v (w ∷ ws) h = elim (Bool-cases (eqb_ℤ w v)) [
  | inl same ↦
      let e : w ≡ v = (eqb_ℤ_iff w v).0 same in
      rw same (omega (arith, occurs_unlocked v ws (rw (← e) h.0)))
  | inr other ↦ rw other (omega (arith, occurs-le-one v ws h.1))
]

total-le : (k : ℕ) (vs : List ℤ) → Distinct vs → total k vs ≤ k
total-le zero vs h = omega arith
total-le (suc k) vs h = omega (arith, occurs-le-one (pos k) vs h, total-le k vs h)

total_cons :
    (k : ℕ) (w : ℤ) (ws : List ℤ)
    → neg_part w ≡ 0
    → total k (w ∷ ws) ≡ (if ltb_ℤ w (pos k) then 1 else 0) + total k ws
total_cons zero w ws h = ground arith
total_cons (suc k) w ws h = ground (arith, total_cons k w ws h)

total_nil : (k : ℕ) → total k [] ≡ 0
total_nil zero = refl
total_nil (suc k) = omega (arith, total_nil k)

total_length : (k : ℕ) (vs : List ℤ) → All (Slot k) vs → total k vs ≡ length vs
total_length k [] h = total_nil k
total_length k (v ∷ vs) h = ground (arith, total_cons k v vs, total_length k vs)

decr_keeps :
    (n : ℕ) (s : AwardStock)
    → counted s.surplus ≤ℤ pos n
    → Post (Below n) (decr s).0
      × ((decr s).1.locks ≡ s.locks)
      × (counted (decr s).1.surplus ≤ℤ pos n)
unfolding decr
decr_keeps n s h = ground (arith, -ℤ_parts (counted s.surplus) (pos 1))

lock_keeps :
    (n g expired : ℕ) (v : ℤ) (s : AwardStock)
    → Below n v
    → All (Slot n) s.locks
    → Distinct s.locks
    → g ≡ length s.locks + expired
    → All (Slot n) (lock_surplus v s).1.locks
      × Distinct (lock_surplus v s).1.locks
      × (grant (lock_surplus v s).0 g ≡ length (lock_surplus v s).1.locks + expired)
      × ((lock_surplus v s).1.surplus ≡ s.surplus)
unfolding lock_surplus
lock_keeps n g expired v s b slots distinct count = ground arith

-- What the steps keep for a bound `n` of the counter.
pub record IsBounded (n : ℕ) (x : System) : Type 0 where
  pub surplus : counted x.stock.surplus ≤ℤ pos n
  pub waiting : All (Below n) x.waiting
  pub slots : All (Slot n) x.stock.locks
  pub distinct : Distinct x.stock.locks
  pub granted : x.granted ≡ length x.stock.locks + x.expired

All-split :
    (P : ℤ → Type 0) (before : List ℤ) (v : ℤ) (behind : List ℤ)
    → All P (before ++ v ∷ behind)
    → P v × All P (before ++ behind)
All-split P [] v behind h = h
All-split P (w ∷ before) v behind h = let (p, q) = All-split P before v behind h.1 in (p, (h.0, q))

without_locked :
    (w : ℤ) (before : List ℤ) (v : ℤ) (behind : List ℤ)
    → is_locked w (before ++ v ∷ behind) ≡ false
    → is_locked w (before ++ behind) ≡ false
unfolding is_locked
without_locked w [] v behind h = ground arith
without_locked w (u ∷ before) v behind h = ground (arith, without_locked w before v behind)

Distinct-split :
    (before : List ℤ) (v : ℤ) (behind : List ℤ)
    → Distinct (before ++ v ∷ behind)
    → Distinct (before ++ behind)
Distinct-split [] v behind h = h.1
Distinct-split (w ∷ before) v behind h =
    (without_locked w before v behind h.0, Distinct-split before v behind h.1)

length-split :
    (before : List ℤ) (v : ℤ) (behind : List ℤ)
    → length (before ++ v ∷ behind) ≡ suc (length (before ++ behind))
length-split [] v behind = refl
length-split (w ∷ before) v behind = ap suc (length-split before v behind)

begun-IsBounded :
    (n : ℕ) (x : System) (r : Outcome ℤ) (s : AwardStock)
    → IsBounded n x
    → Post (Below n) r
    → s.locks ≡ x.stock.locks
    → counted s.surplus ≤ℤ pos n
    → IsBounded n (begun r s x)
begun-IsBounded n x (ok v) s h below same le = record {
  surplus = le;
  waiting = (below, h.waiting);
  slots = rw same h.slots;
  distinct = rw same h.distinct;
  granted = rw same h.granted;
}
begun-IsBounded n x (err e) s h below same le = record {
  surplus = le;
  waiting = h.waiting;
  slots = rw same h.slots;
  distinct = rw same h.distinct;
  granted = rw same h.granted;
}
begun-IsBounded n x panics s h below same le = record {
  surplus = le;
  waiting = h.waiting;
  slots = rw same h.slots;
  distinct = rw same h.distinct;
  granted = rw same h.granted;
}

pub Step-IsBounded : {n : ℕ} {x y : System} → Step n x y → IsBounded n x → IsBounded n y
Step-IsBounded {n} (begin x) h =
    let (below, same, le) = decr_keeps n x.stock h.surplus in
    begun-IsBounded n x (decr x.stock).0 (decr x.stock).1 h below same le
Step-IsBounded {n} (finish x v before behind e) h =
    let (below, rest) = All-split (Below n) before v behind (rw e at h.waiting) in
    let (slots, distinct, count, same) =
      lock_keeps n x.granted x.expired v x.stock below h.slots h.distinct h.granted in
    record {
      surplus = rw same h.surplus;
      waiting = rest;
      slots = slots;
      distinct = distinct;
      granted = count;
    }
Step-IsBounded (refill x m le) h = record {
  surplus = le;
  waiting = h.waiting;
  slots = h.slots;
  distinct = h.distinct;
  granted = h.granted;
}
Step-IsBounded {n} (expire x v before behind e) h = record {
  surplus = h.surplus;
  waiting = h.waiting;
  slots = (All-split (Slot n) before v behind (rw e at h.slots)).1;
  distinct = Distinct-split before v behind (rw e at h.distinct);
  granted = omega (arith, h.granted, ap length e, length-split before v behind);
}

Reach-IsBounded : {n : ℕ} {x y : System} → Reach n x y → IsBounded n x → IsBounded n y
Reach-IsBounded here h = h
Reach-IsBounded (next r st) h = Step-IsBounded st (Reach-IsBounded r h)

-- However the requests of an award interleave, whichever calls of Redis fail, and however often the
-- counter is set again to a value of at most `n`, at most `n` requests are granted in all, and one more
-- for each lock that has expired, if at the start nothing was granted, locked or expired, no request was
-- under way and the counter was at most `n`.
pub granted_bound :
    {n : ℕ} {x y : System}
    → Reach n x y
    → counted x.stock.surplus ≤ℤ pos n
    → x.stock.locks ≡ []
    → x.waiting ≡ []
    → x.granted ≡ 0
    → x.expired ≡ 0
    → y.granted ≤ n + y.expired
granted_bound {n} {x} {y} r le unlocked idle none_yet fresh =
    let h : IsBounded n y = Reach-IsBounded r (record {
      surplus = le;
      waiting = rw idle tt;
      slots = rw unlocked tt;
      distinct = rw unlocked tt;
      granted = rw (unlocked, none_yet, fresh) refl;
    }) in
    omega
      (arith, h.granted, total_length n y.stock.locks h.slots, total-le n y.stock.locks h.distinct)
