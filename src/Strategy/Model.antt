-- ===== src/Strategy/Model.antt =====
-- internal/biz/strategy/model.go: the entities and the rule strings that they carry. A Go map is an
-- association list whose keys are distinct; a nil map is the empty one.
use lucky_market.Base.{
  String, Bool, true, false, ◌||◌, Option, none, some, List, [], ◌∷◌, str_eq, if◌then◌else◌,
}
use lucky_market.Base.Int.{ℤ, pos}
use lucky_market.Base.Outcome.{Outcome, ok, err, panics, rule_weight_value_invalid_format}
use lucky_market.Text.{comma, space, colon, split, parse_int}

abbrev pub rule_blacklist : String
rule_blacklist = "rule_blacklist"

abbrev pub rule_weight : String
rule_weight = "rule_weight"

abbrev pub rule_default : String
rule_default = "rule_default"

abbrev pub rule_lock : String
rule_lock = "rule_lock"

abbrev pub rule_luck_award : String
rule_luck_award = "rule_luck_award"

abbrev pub rule_stock : String
rule_stock = "rule_stock"

-- slices.Contains
unfoldable pub contains : List String → String → Bool
contains [] t = false
contains (s ∷ ss) t = str_eq s t || contains ss t

module _ {ℓ} {V : Type ℓ} where
  -- m[k] = v
  unfoldable pub map_set : String → V → List (String × V) → List (String × V)
  map_set k v [] = (k, v) ∷ []
  map_set k v ((j, w) ∷ m) =
      let rest = map_set k v m in if str_eq j k then (k, v) ∷ m else (j, w) ∷ rest

  -- v, found = m[k]
  unfoldable pub map_get : String → List (String × V) → Option V
  map_get k [] = none
  map_get k ((j, w) ∷ m) = if str_eq j k then some w else map_get k m

pub record Strategy : Type 0 where
  pub strategy_id : ℤ
  pub strategy_desc : String
  pub rule_models : String

unfoldable pub get_rule_models : Strategy → List String
get_rule_models s = if str_eq s.rule_models "" then [] else split comma s.rule_models

unfoldable pub get_rule_weight : Strategy → String
unfolding contains
get_rule_weight s =
    if str_eq s.rule_models ""
    then ""
    else if contains (split comma s.rule_models) "rule_weight"
    then "rule_weight"
    else ""

unfoldable pub get_rule_black_list : Strategy → String
unfolding contains
get_rule_black_list s =
    if str_eq s.rule_models ""
    then ""
    else if contains (split comma s.rule_models) "rule_blacklist"
    then "rule_blacklist"
    else ""

pub record StrategyRule : Type 0 where
  pub strategy_id : ℤ
  pub award_id : ℤ
  pub rule_type : ℤ
  pub rule_model : String
  pub rule_value : String
  pub rule_desc : String

abbrev pub WeightMap : Type 0
WeightMap = List (String × List ℤ)

abbrev pub push_value : Option ℤ → Outcome (List ℤ) → Outcome (List ℤ)
push_value none rest = err rule_weight_value_invalid_format
push_value (some v) (ok vs) = ok (v ∷ vs)
push_value (some v) (err e) = err e
push_value (some v) panics = panics

-- the inner loop of GetRuleWeightValues: empty texts are skipped, the first bad number ends it
unfoldable pub weight_values : List String → Outcome (List ℤ)
weight_values [] = ok []
weight_values (t ∷ ts) =
    let rest = weight_values ts in if str_eq t "" then rest else push_value (parse_int t) rest

-- parts[0], parts[1]: an index out of range panics
abbrev pub weight_entry : List String → Outcome (String × List ℤ)
weight_entry [] = panics
weight_entry (key ∷ []) = panics
weight_entry (key ∷ values ∷ _) = elim (weight_values (split comma values)) [
  | ok vs ↦ ok (key, vs)
  | err e ↦ err e
  | panics ↦ panics
]

-- the outer loop of GetRuleWeightValues
unfoldable pub weight_groups : List String → WeightMap → Outcome WeightMap
unfolding weight_values map_set
weight_groups [] m = ok m
weight_groups (g ∷ gs) m = elim (str_eq g "") [
  | true ↦ weight_groups gs m
  | false ↦ elim (weight_entry (split colon g)) [
    | ok (key, vs) ↦ weight_groups gs (map_set key vs m)
    | err e ↦ err e
    | panics ↦ panics
  ]
]

unfoldable pub get_rule_weight_values : StrategyRule → Outcome WeightMap
unfolding weight_groups split parse_int
get_rule_weight_values r =
    if str_eq "rule_weight" r.rule_model then weight_groups (split space r.rule_value) [] else ok []

-- `F` is Go's float64.
pub record StrategyAward (F : Type 0) : Type 0 where
  pub strategy_id : ℤ
  pub award_id : ℤ
  pub award_title : String
  pub award_subtitle : String
  pub award_count : ℤ
  pub award_count_surplus : ℤ
  pub award_rate : F
  pub sort : ℤ
  pub rule_models : String

pub record RaffleAward : Type 0 where
  pub award_id : ℤ
  pub award_title : String
  pub sort : ℤ

-- RuleLimitType and RuleLogicCheckType are integers in Go, numbered by iota.
abbrev pub equal : ℤ
equal = pos 0

abbrev pub rule_check_allow : ℤ
rule_check_allow = pos 0

abbrev pub rule_check_take_over : ℤ
rule_check_take_over = pos 1

pub record RuleTreeNodeLine : Type 0 where
  pub tree_id : String
  pub rule_node_from : String
  pub rule_node_to : String
  pub rule_limit_type : ℤ
  pub rule_limit_value : ℤ

pub record RuleTreeNode : Type 0 where
  pub tree_id : String
  pub rule_key : String
  pub rule_desc : String
  pub rule_value : String
  pub tree_node_line : List RuleTreeNodeLine

pub record RuleTree : Type 0 where
  pub tree_id : String
  pub tree_name : String
  pub tree_desc : String
  pub tree_root_rule_node : String
  pub node_map : List (String × RuleTreeNode)

pub record RaffleFactor : Type 0 where
  pub activity_id : ℤ
  pub user_id : String
  pub strategy_id : ℤ
