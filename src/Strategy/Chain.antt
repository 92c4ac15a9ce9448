-- ===== src/Strategy/Chain.antt =====
-- internal/biz/strategy/rule_chain.go: the chain of rules before the draw. `openLogicChain` clones
-- its templates, so a chain is a list of nodes; `next()` is the rest of the list, and a call of
-- `logic` on a nil `next()` panics.
pub mod Weight
pub mod PoolKey
use lucky_market.Base.{
  ℕ, String, Bool, true, false, Option, none, some, List, [], ◌∷◌, map, ◌++◌, str_eq, if◌then◌else◌,
  ◌≡◌, refl,
}
use mathlib.Core.List.{reverse}
use lucky_market.Base.Int.{ℤ, pos, leb_ℤ, ltb_ℤ, eqb_ℤ}
use lucky_market.Base.Outcome.{
  Exec, Outcome, ok, err, panics, pure, fail, panic, lift, deref, ◌>>=◌, ◌>>◌,
  black_list_config_invalid, black_list_config_parse_failed, rule_weight_config_invalid,
  parse_failed,
}
use lucky_market.Text.{comma, space, colon, split, parse_int, format_int}
use lucky_market.Strategy.Model.{
  Strategy, get_rule_models, rule_blacklist, rule_weight, rule_default, contains,
}
use lucky_market.Strategy.Repo.{Repo}
use lucky_market.Strategy.Armory.{get_random_award_id_with_weight}

pub data Node : Type 0 where
  black_list weight default : Node

pub record LogicResult : Type 0 where
  pub award_id : ℤ
  pub logic_model : String

-- logicChainGroup[model]
unfoldable pub logic_chain_group : String → Option Node
logic_chain_group model =
    if str_eq model "rule_blacklist"
    then some black_list
    else if str_eq model "rule_weight"
    then some weight
    else if str_eq model "rule_default"
    then some default
    else none

abbrev pub push_known : Option Node → List Node → List Node
push_known none chain = chain
push_known (some n) chain = n ∷ chain

-- the loop over the models behind the first, and the default node at the end
unfoldable pub append_known : List String → List Node
append_known [] = default ∷ []
append_known (m ∷ ms) = push_known (logic_chain_group m) (append_known ms)

unfoldable pub chain_of : List String → List Node
unfolding append_known
chain_of [] = default ∷ []
chain_of (m ∷ ms) = elim (logic_chain_group m) [
  | none ↦ default ∷ []
  | some n ↦ n ∷ append_known ms
]

-- resMap[key] = value
unfoldable pub weight_set : ℤ → String → List (ℤ × String) → List (ℤ × String)
weight_set k v [] = (k, v) ∷ []
weight_set k v ((j, w) ∷ m) =
    let rest = weight_set k v m in if eqb_ℤ j k then (k, v) ∷ m else (j, w) ∷ rest

-- one group of getAnalyticalValue
abbrev pub weight_group : List String → Outcome (ℤ × String)
weight_group [] = err rule_weight_config_invalid
weight_group (key ∷ []) = err rule_weight_config_invalid
weight_group (key ∷ value ∷ _) = elim (parse_int key) [
  | none ↦ err parse_failed
  | some k ↦ ok (k, value)
]

unfoldable pub analytical_groups : List String → List (ℤ × String) → Outcome (List (ℤ × String))
analytical_groups [] m = ok m
analytical_groups (g ∷ gs) m = elim (str_eq g "") [
  | true ↦ analytical_groups gs m
  | false ↦ elim (weight_group (split colon g)) [
    | ok (k, v) ↦ analytical_groups gs (weight_set k v m)
    | err e ↦ err e
    | panics ↦ panics
  ]
]

unfoldable pub get_analytical_value : String → Outcome (List (ℤ × String))
unfolding analytical_groups weight_set
get_analytical_value value = analytical_groups (split space value) []

abbrev pub keys : List (ℤ × String) → List ℤ
keys = map (λ e. e.0)

-- slices.Sort
unfoldable pub insert : ℤ → List ℤ → List ℤ
insert a [] = a ∷ []
insert a (b ∷ bs) = let rest = insert a bs in if leb_ℤ a b then a ∷ b ∷ bs else b ∷ rest

unfoldable pub sort : List ℤ → List ℤ
unfolding insert
sort [] = []
sort (a ∷ as') = insert a (sort as')

-- the first key of the list that the score reaches
unfoldable pub first_reached : ℤ → List ℤ → Option ℤ
first_reached score [] = none
first_reached score (k ∷ ks) = if leb_ℤ k score then some k else first_reached score ks

-- for i := len(keys) - 1; i >= 0; i--
unfoldable pub reached_weight : ℤ → List ℤ → Option ℤ
unfolding first_reached sort
reached_weight score ks = first_reached score (reverse (sort ks))

module _ {F S : Type 0} (repo : Repo F S) (secure_random_int : ℤ → Exec S ℤ) where
  open repo use {
    pools, query_strategy_entity_by_strategy_id, query_strategy_rule_value, query_strategy_value,
    query_activity_account_total_use_count,
  }

  abbrev draw : ℤ → String → Exec S ℤ
  draw = get_random_award_id_with_weight pools secure_random_int

  unfoldable pub open_logic_chain : ℤ → Exec S (List Node)
  open_logic_chain strategy_id = do
    entity ← query_strategy_entity_by_strategy_id strategy_id
    strategy ← deref entity
    pure (chain_of (get_rule_models strategy))

  unfoldable pub default_logic : ℤ → Exec S LogicResult
  default_logic strategy_id = do
    award_id ← draw strategy_id ""
    pure (record { award_id = award_id; logic_model = rule_default })

  -- the black list behind its award, and the next node for everybody else
  unfoldable pub black_list_parts : List String → String → Exec S LogicResult → Exec S LogicResult
  black_list_parts [] user_id next = fail black_list_config_invalid
  black_list_parts (award ∷ []) user_id next = fail black_list_config_invalid
  black_list_parts (award ∷ users ∷ _) user_id next = elim (parse_int award) [
    | none ↦ fail black_list_config_parse_failed
    | some award_id ↦
        if contains (split comma users) user_id
        then pure (record { award_id = award_id; logic_model = rule_blacklist })
        else next
  ]

  unfoldable pub black_list_logic : String → ℤ → Exec S LogicResult → Exec S LogicResult
  black_list_logic user_id strategy_id next = do
    value ← query_strategy_rule_value strategy_id rule_blacklist
    black_list_parts (split colon value) user_id next

  -- a draw from the pool of the highest weight that the user's score reaches
  unfoldable pub weight_draw : ℤ → Option ℤ → Exec S LogicResult → Exec S LogicResult
  weight_draw strategy_id none next = next
  weight_draw strategy_id (some key) next = do
    award_id ← draw strategy_id (format_int key)
    pure (record { award_id = award_id; logic_model = rule_weight })

  unfoldable pub weight_groups_logic :
      String → ℤ → List (ℤ × String) → Exec S LogicResult → Exec S LogicResult
  weight_groups_logic user_id strategy_id [] next = next
  weight_groups_logic user_id strategy_id (g ∷ gs) next = do
    score ← query_activity_account_total_use_count user_id strategy_id
    weight_draw strategy_id (reached_weight score (keys (g ∷ gs))) next

  unfoldable pub weight_logic : String → ℤ → Exec S LogicResult → Exec S LogicResult
  weight_logic user_id strategy_id next = do
    value ← query_strategy_value strategy_id rule_weight
    groups ← lift (get_analytical_value value)
    weight_groups_logic user_id strategy_id groups next

  unfoldable pub logic : List Node → String → ℤ → Exec S LogicResult
  logic [] user_id strategy_id = panic
  logic (default ∷ _) user_id strategy_id = default_logic strategy_id
  logic (black_list ∷ rest) user_id strategy_id =
      black_list_logic user_id strategy_id (logic rest user_id strategy_id)
  logic (weight ∷ rest) user_id strategy_id =
      weight_logic user_id strategy_id (logic rest user_id strategy_id)

  unfoldable pub raffle_logic_chain : String → ℤ → Exec S LogicResult
  raffle_logic_chain user_id strategy_id = do
    chain ← open_logic_chain strategy_id
    logic chain user_id strategy_id
