-- ===== src/Strategy/Pools/Draw.antt =====
-- Drawing from a pool that was assembled into Redis.
use lucky_market.Base.{
  ℕ, zero, suc, ◌+◌, ◌^◌, ◌<◌, ◌≤◌, String, false, Option, none, some, List, [], ◌∷◌, ◌++◌, ◌≡◌,
  ◌≢◌, refl, ap, sym, ◌∙◌, inl, inr, arith, str_eq, eq_iff, eq_refl, Bool-cases, if◌then◌else◌, All,
}
use lucky_market.Base.Int.{ℤ, pos, pos_part, eqb_ℤ, eqb_ℤ_iff, leb_ℤ}
use lucky_market.Base.Outcome.{Exec, ok}
use lucky_market.Text.{format_int, parse_int}
use lucky_market.Text.RoundTrip.{IsInt64, parse_int-format_int}
use lucky_market.Strategy.Model.{StrategyAward}
use lucky_market.Strategy.Repo.{Runtime}
use lucky_market.Strategy.Armory.{
  replicate, index_from, length, award_slots, fill_pool, award_pool, total_rate, max_decimal_len,
  assemble_with_awards, get_random_award_id,
}
use lucky_market.Strategy.Pools.{
  PoolStore, Hash, put, hset, redis_pools, store_strategy_award_pool, get_rate_range,
  get_strategy_award_assemble,
}

abbrev pub get_elem? : List ℤ → ℕ → Option ℤ
get_elem? [] i = none
get_elem? (a ∷ as') zero = some a
get_elem? (a ∷ as') (suc i) = get_elem? as' i

abbrev pub count : ℤ → List ℤ → ℕ
count a [] = 0
count a (b ∷ bs) = (if eqb_ℤ b a then 1 else 0) + count a bs

-- The prize slots of an award: those of the entries with its id.
abbrev pub slots_of : {F : Type 0} → Runtime F → F → F → ℤ → List (StrategyAward F) → ℕ
slots_of rt total range a [] = 0
slots_of rt total range a (b ∷ bs) =
    (if eqb_ℤ b.award_id a then award_slots rt total range b else 0) + slots_of rt total range a bs

format_int-injective : (i j : ℤ) → IsInt64 i → IsInt64 j → format_int i ≡ format_int j → i ≡ j
format_int-injective i j hi hj e =
    let same : some i ≡ some j =
      sym (parse_int-format_int i hi) ∙ ap parse_int e ∙ parse_int-format_int j hj in
    cc

module _ {ℓ} {V : Type ℓ} (k j : String) (v : V) (m : String → V) where
  pub put_hit : k ≡ j → put k v m j ≡ v
  put_hit e = rw ((eq_iff k j).1 e)

  pub put_miss : k ≢ j → put k v m j ≡ m j
  put_miss h = elim (Bool-cases (str_eq k j)) [
    | inl e ↦ absurd (h ((eq_iff k j).0 e))
    | inr e ↦ rw e
  ]

count-append : (a : ℤ) (xs ys : List ℤ) → count a (xs ++ ys) ≡ count a xs + count a ys
count-append a [] ys = omega arith
count-append a (x ∷ xs) ys = omega (arith, count-append a xs ys)

count-replicate : (a b : ℤ) (n : ℕ) → count a (replicate n b) ≡ (if eqb_ℤ b a then n else 0)
unfolding replicate
count-replicate a b zero = ground arith
count-replicate a b (suc n) = ground (arith, count-replicate a b n)

count-fill_pool :
    {F : Type 0} (rt : Runtime F) (total range : F) (a : ℤ) (awards : List (StrategyAward F))
    → count a (fill_pool rt total range awards) ≡ slots_of rt total range a awards
unfolding fill_pool
count-fill_pool rt total range a [] = refl
count-fill_pool rt total range a (b ∷ bs) = omega (
  arith,
  count-append a (replicate (award_slots rt total range b) b.award_id)
      (fill_pool rt total range bs),
  count-replicate a b.award_id (award_slots rt total range b),
  count-fill_pool rt total range a bs,
)

count_of_elem : (pool : List ℤ) (v : ℕ) (a : ℤ) → get_elem? pool v ≡ some a → 0 < count a pool
count_of_elem [] v a e = cc
count_of_elem (b ∷ pool) zero a e = ground (arith, eqb_ℤ_iff b a)
count_of_elem (b ∷ pool) (suc v) a e = omega (arith, count_of_elem pool v a e)

elem_below : (pool : List ℤ) (v : ℕ) (a : ℤ) → get_elem? pool v ≡ some a → v < length pool
unfolding length
elem_below [] v a e = cc
elem_below (b ∷ pool) zero a e = omega arith
elem_below (b ∷ pool) (suc v) a e = omega (arith, elem_below pool v a e)

slots_IsInt64 :
    {F : Type 0} (rt : Runtime F) (total range : F) (a : ℤ) (awards : List (StrategyAward F))
    → All (λ b. IsInt64 b.award_id) awards
    → 0 < slots_of rt total range a awards
    → IsInt64 a
slots_IsInt64 rt total range a [] h p = absurd (omega arith)
slots_IsInt64 rt total range a (b ∷ bs) h p = elim (Bool-cases (eqb_ℤ b.award_id a)) [
  | inl same ↦ rw (← (eqb_ℤ_iff b.award_id a).0 same) h.0
  | inr other ↦
      slots_IsInt64 rt total range a bs h.1
        (omega (arith, let q : 0 < 0 + slots_of rt total range a bs = rw other at p in q))
]

hset-index_from :
    (pool : List ℤ) (i v : ℕ) (a : ℤ) (h : Hash)
    → i + length pool ≤ 2 ^ 63
    → get_elem? pool v ≡ some a
    → hset (index_from i pool) h (format_int (pos (i + v))) ≡ some (format_int a)
unfolding hset index_from length
hset-index_from [] i v a h fits e = cc
hset-index_from (b ∷ pool) i zero a h fits e =
    put_hit (format_int (pos i)) (format_int (pos (i + 0))) _ (hset (index_from (i + 1) pool) h)
      (ap (λ (n : ℕ). format_int (pos n)) (omega arith))
    ∙ (let same : b ≡ a = cc in ap (λ (c : ℤ). some (format_int c)) same)
hset-index_from (b ∷ pool) i (suc v) a h fits e =
    put_miss (format_int (pos i)) (format_int (pos (i + suc v))) _
      (hset (index_from (i + 1) pool) h)
      (λ same. apart (
        format_int-injective (pos i) (pos (i + suc v)) (omega arith)
          (omega (arith, elem_below pool v a e)) same))
    ∙ ap (λ (n : ℕ). hset (index_from (i + 1) pool) h (format_int (pos n)))
        (let q : i + suc v ≡ i + 1 + v = omega arith in q)
    ∙ hset-index_from pool (i + 1) v a h (omega arith) e
  where
    apart : pos i ≢ pos (i + suc v)
    apart same = let q : i ≡ i + suc v = ap pos_part same in absurd (omega arith)

-- the entries of a whole table
table_entry :
    (b : ℤ) (pool : List ℤ) (v : ℕ) (a : ℤ) (h : Hash)
    → length (b ∷ pool) ≤ 2 ^ 63
    → get_elem? (b ∷ pool) v ≡ some a
    → hset ((0, b) ∷ index_from 1 pool) h (format_int (pos v)) ≡ some (format_int a)
unfolding index_from
table_entry b pool v a h fits e =
    ap (λ (n : ℕ). hset (index_from 0 (b ∷ pool)) h (format_int (pos n)))
      (let q : v ≡ 0 + v = omega arith in q)
    ∙ hset-index_from (b ∷ pool) 0 v a h (omega arith) e

-- A store whose commands all reach Redis.
abbrev pub healthy : (String → Option ℤ) → (String → Hash) → PoolStore
healthy ranges tables = record { ranges = ranges; tables = tables; faults = [] }

not_empty : (n : ℕ) → leb_ℤ (pos (suc n)) (pos 0) ≡ false
not_empty n = ground arith

store_then_draw :
    (id : String) (pool : List ℤ) (ranges : String → Option ℤ) (tables : String → Hash)
    (random_int : ℤ → Exec PoolStore ℤ) (v : ℕ) (a : ℤ)
    → length pool ≤ 2 ^ 63
    → IsInt64 a
    → get_elem? pool v ≡ some a
    → let (r, s) =
        store_strategy_award_pool id
          (pos (length pool))
          (index_from 0 pool)
          (healthy ranges tables) in
      random_int (pos (length pool)) s ≡ (ok (pos v), s)
      → (r ≡ ok tt) × (get_random_award_id redis_pools random_int id s ≡ (ok a, s))
unfolding store_strategy_award_pool index_from length get_random_award_id redis_pools get_rate_range
    get_strategy_award_assemble
store_then_draw id [] ranges tables random_int v a fits int e drawn = cc
store_then_draw id (b ∷ pool) ranges tables random_int v a fits int e drawn =
    let stored = table_entry b pool v a (tables id) fits e in
    (
      refl,
      rw (eq_refl, not_empty (length pool), drawn, eq_refl, stored, parse_int-format_int a int)
          refl,
    )

-- The i-th entry of a shuffled pool is an award of the strategy, if the shuffle keeps the entries.
elem_offered :
    {F : Type 0} (rt : Runtime F) (awards : List (StrategyAward F)) (v : ℕ) (a : ℤ)
    → ((xs : List ℤ) (b : ℤ) → count b (rt.shuffle xs) ≡ count b xs)
    → get_elem? (rt.shuffle (award_pool rt awards)) v ≡ some a
    → 0
      < slots_of rt
          (total_rate rt awards rt.zero_rate)
          (rt.pow10 (max_decimal_len rt awards 0))
          a
          awards
unfolding award_pool
elem_offered rt awards v a kept e = omega (
  arith,
  count_of_elem (rt.shuffle (award_pool rt awards)) v a e,
  kept (award_pool rt awards) a,
  count-fill_pool rt (total_rate rt awards rt.zero_rate) (rt.pow10 (max_decimal_len rt awards 0)) a
      awards,
)

-- If a shuffle keeps every entry as often as it was there, the awards' ids are int64 and the pool has
-- at most 2^63 entries, then after the pool of `id` was assembled into a Redis whose commands succeed:
-- the assembly reported no error; a draw whose random number is `v` gives the `v`-th entry of the
-- shuffled pool and changes nothing; that entry is the id of an award with at least one slot; and each
-- id stands in the pool as often as its awards have slots.
pub assemble_then_draw :
    {F : Type 0} (rt : Runtime F) (id : String) (awards : List (StrategyAward F))
    (ranges : String → Option ℤ) (tables : String → Hash) (random_int : ℤ → Exec PoolStore ℤ)
    (v : ℕ) (a : ℤ)
    → ((xs : List ℤ) (b : ℤ) → count b (rt.shuffle xs) ≡ count b xs)
    → All (λ b. IsInt64 b.award_id) awards
    → length (rt.shuffle (award_pool rt awards)) ≤ 2 ^ 63
    → get_elem? (rt.shuffle (award_pool rt awards)) v ≡ some a
    → random_int
        (pos (length (rt.shuffle (award_pool rt awards))))
        (assemble_with_awards rt redis_pools id awards (healthy ranges tables)).1
      ≡ (ok (pos v), (assemble_with_awards rt redis_pools id awards (healthy ranges tables)).1)
    → let (r, s) = assemble_with_awards rt redis_pools id awards (healthy ranges tables) in
      let total = total_rate rt awards rt.zero_rate in
      let range = rt.pow10 (max_decimal_len rt awards 0) in
      (r ≡ ok tt)
      × (get_random_award_id redis_pools random_int id s ≡ (ok a, s))
      × (0 < slots_of rt total range a awards)
      × ((b : ℤ) → count b (rt.shuffle (award_pool rt awards)) ≡ slots_of rt total range b awards)
unfolding assemble_with_awards redis_pools award_pool
assemble_then_draw rt id awards ranges tables random_int v a kept ints fits e drawn =
    let offered = elem_offered rt awards v a kept e in
    let total = total_rate rt awards rt.zero_rate in
    let range = rt.pow10 (max_decimal_len rt awards 0) in
    let (done, draw) =
      store_then_draw id (rt.shuffle (award_pool rt awards)) ranges tables random_int v a fits
        (slots_IsInt64 rt total range a awards ints offered) e drawn in
    (
      done,
      draw,
      offered,
      λ b. kept (award_pool rt awards) b ∙ count-fill_pool rt total range b awards,
    )
