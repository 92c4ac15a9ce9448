-- ===== src/Strategy/Armory.antt =====
-- internal/biz/strategy/raffle_support.go, armoryDispatch: assembling the prize pools of a strategy
-- and drawing from them. pkg/xrand/random.go is the argument `secure_random_int`.
use Prim.Native.Nat.{max}
use lucky_market.Base.{
  ℕ, zero, suc, ◌+◌, String, Bool, true, false, List, [], ◌∷◌, ◌++◌, str_eq, if◌then◌else◌, ◌||◌,
}
use lucky_market.Base.Int.{ℤ, pos, leb_ℤ, eqb_ℤ, pos_part}
use lucky_market.Base.Outcome.{
  Exec, pure, fail, lift, deref, ◌>>=◌, ◌>>◌, with_cause, rate_range_failed, rate_range_invalid,
  random_val_gen_failed, award_assemble_failed,
}
use lucky_market.Text.{split, concat, format_int}
use lucky_market.Strategy.Model.{StrategyAward, get_rule_weight, get_rule_weight_values}
use lucky_market.Strategy.Repo.{PoolRepo, Repo, Runtime}

-- the number of characters of a text
unfoldable pub text_length : String → ℕ
text_length String.[] = 0
text_length (String.◌∷◌ c s) = suc (text_length s)

-- append(pool, id) for i := 0; i < count; i++
unfoldable pub replicate : ℕ → ℤ → List ℤ
replicate zero a = []
replicate (suc n) a = a ∷ replicate n a

-- for idx, id := range pool { m[idx] = id }
unfoldable pub index_from : ℕ → List ℤ → List (ℕ × ℤ)
index_from i [] = []
index_from i (a ∷ as') = (i, a) ∷ index_from (i + 1) as'

unfoldable pub length : List ℤ → ℕ
length [] = 0
length (a ∷ as') = suc (length as')

-- ruleValuesSet[id]
unfoldable pub in_set : ℤ → List ℤ → Bool
in_set a [] = false
in_set a (b ∷ bs) = eqb_ℤ b a || in_set a bs

module _ {F : Type 0} (rt : Runtime F) where
  open rt use {zero_rate, add, div, mul, pow10, round_int, format_float, shuffle, range_order}

  unfoldable pub total_rate : List (StrategyAward F) → F → F
  total_rate [] t = t
  total_rate (a ∷ as') t = total_rate as' (add t a.award_rate)

  -- len(parts[1]) where the rate's text has one point, and 0 elsewhere
  abbrev pub decimal_len : List String → ℕ
  decimal_len (whole ∷ decimal ∷ []) = text_length decimal
  decimal_len _ = 0

  unfoldable pub max_decimal_len : List (StrategyAward F) → ℕ → ℕ
  max_decimal_len [] m = m
  max_decimal_len (a ∷ as') m =
      max_decimal_len as' (max m (decimal_len (split b'.' (format_float a.award_rate))))

  -- int(math.Round((rate / total) * range)); the loop makes no round for a negative count
  unfoldable pub award_slots : F → F → StrategyAward F → ℕ
  award_slots total range a = pos_part (round_int (mul (div a.award_rate total) range))

  unfoldable pub fill_pool : F → F → List (StrategyAward F) → List ℤ
  fill_pool total range [] = []
  fill_pool total range (a ∷ as') =
      replicate (award_slots total range a) a.award_id ++ fill_pool total range as'

  unfoldable pub award_pool : List (StrategyAward F) → List ℤ
  award_pool awards =
      fill_pool (total_rate awards zero_rate) (pow10 (max_decimal_len awards 0)) awards

  unfoldable pub assemble_with_awards :
      {S : Type 0} → PoolRepo S → String → List (StrategyAward F) → Exec S (Unit {0})
  assemble_with_awards pools id awards =
      let pool = shuffle (award_pool awards) in
      pools.store_strategy_award_pool id (pos (length pool)) (index_from 0 pool)

  -- the awards of one weight dimension
  unfoldable pub awards_in : List ℤ → List (StrategyAward F) → List (StrategyAward F)
  awards_in ids [] = []
  awards_in ids (a ∷ as') =
      let rest = awards_in ids as' in if in_set a.award_id ids then a ∷ rest else rest

  unfoldable pub weight_pool_id : String → String → String
  weight_pool_id id key = concat id (concat "_" key)

  -- the loop over the weight dimensions
  unfoldable pub assemble_weights :
      {S : Type 0}
      → PoolRepo S
      → String
      → List (StrategyAward F)
      → List (String × List ℤ)
      → Exec S Bool
  assemble_weights pools id awards [] = pure true
  assemble_weights pools id awards ((key, ids) ∷ rest) =
      assemble_with_awards pools (weight_pool_id id key) (awards_in ids awards)
      >> assemble_weights pools id awards rest

  module _ {S : Type 0} (repo : Repo F S) where
    open repo use {
      pools, query_strategy_award_list, query_strategy_entity_by_strategy_id, query_strategy_rule,
      query_strategy_id_by_activity_id,
    }

    unfoldable pub assemble_weight_rule : String → ℤ → List (StrategyAward F) → String → Exec S Bool
    assemble_weight_rule id strategy_id awards weight = if str_eq weight "" then pure true else do
      found ← query_strategy_rule strategy_id weight
      rule ← deref found
      weights ← lift (get_rule_weight_values rule)
      assemble_weights pools id awards (range_order weights)

    unfoldable pub assemble_lottery_strategy : ℤ → Exec S Bool
    unfolding assemble_weight_rule
    assemble_lottery_strategy strategy_id = do
      entity ← query_strategy_entity_by_strategy_id strategy_id
      awards ← query_strategy_award_list strategy_id
      strategy ← deref entity
      let id = format_int strategy_id
      assemble_with_awards pools id awards
      assemble_weight_rule id strategy_id awards (get_rule_weight strategy)

    unfoldable pub assemble_lottery_strategy_by_activity_id : ℤ → Exec S Bool
    assemble_lottery_strategy_by_activity_id activity_id = do
      strategy_id ← query_strategy_id_by_activity_id activity_id
      assemble_lottery_strategy strategy_id

module _ {S : Type 0} (pools : PoolRepo S) (secure_random_int : ℤ → Exec S ℤ) where
  open pools use {get_rate_range, get_strategy_award_assemble}

  unfoldable pub get_random_award_id : String → Exec S ℤ
  get_random_award_id id = do
    rate_range ← with_cause rate_range_failed (get_rate_range id)
    if leb_ℤ rate_range (pos 0) then fail rate_range_invalid else do
      random_val ← with_cause random_val_gen_failed (secure_random_int rate_range)
      with_cause award_assemble_failed (get_strategy_award_assemble id random_val)

  unfoldable pub get_random_award_id_with_weight : ℤ → String → Exec S ℤ
  get_random_award_id_with_weight strategy_id weight = get_random_award_id (
      if str_eq weight ""
      then format_int strategy_id
      else concat (format_int strategy_id) (concat "_" weight))
