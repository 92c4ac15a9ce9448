-- ===== src/Tests/Runs.antt =====
-- What the definitions compute on small inputs.
use lucky_market.Base.{◌-◌, ◌^◌, String, false, none, some, [], ◌∷◌, ◌≡◌, refl}
use lucky_market.Base.Int.{pos, negsuc, ◌-ℤ◌}
use lucky_market.Base.Outcome.{ok, ◌>>◌}
use lucky_market.Text.{colon, comma, split, parse_int, format_int, digits, scan}
use lucky_market.Strategy.Model.{StrategyRule, get_rule_weight_values}
use lucky_market.Strategy.Chain.{
  black_list, weight, default, logic_chain_group, chain_of, reached_weight,
}
use lucky_market.Strategy.AwardStock.{AwardStock, subtraction_award_stock}

split_parts : split colon "101:user001,user002" ≡ "101" ∷ "user001,user002" ∷ []
unfolding split
split_parts = refl

split_empty : split comma "" ≡ "" ∷ []
unfolding split
split_empty = refl

parse_signs : parse_int "-9223372036854775808" ≡ some (negsuc (2 ^ 63 - 1))
unfolding parse_int digits scan
parse_signs = refl

parse_refused : parse_int "9223372036854775808" ≡ none
unfolding parse_int digits scan
parse_refused = refl

format_test : format_int (negsuc 4059) ≡ "-4060"
unfolding format_int
format_test = refl

chain_test :
    chain_of ("rule_blacklist" ∷ "rule_typo" ∷ "rule_weight" ∷ [])
    ≡ black_list ∷ weight ∷ default ∷ []
unfolding chain_of logic_chain_group
chain_test = refl

weight_test : reached_weight (pos 5500) (pos 6000 ∷ pos 4000 ∷ pos 5000 ∷ []) ≡ some (pos 5000)
unfolding reached_weight
weight_test = refl

rule_of : String → StrategyRule
rule_of v = record {
  strategy_id = pos 100001;
  award_id = pos 0;
  rule_type = pos 1;
  rule_model = "rule_weight";
  rule_value = v;
  rule_desc = "";
}

weight_values_test :
    get_rule_weight_values (rule_of "4000:102,103 5000:104")
    ≡ ok (("4000", pos 102 ∷ pos 103 ∷ []) ∷ ("5000", pos 104 ∷ []) ∷ [])
unfolding get_rule_weight_values rule_of digits scan
weight_values_test = refl

abbrev two_left : AwardStock
two_left = record {
  surplus = some (pos 2);
  locks = [];
  award_count_surplus = some (pos 2);
  faults = [];
}

two_then_none :
    (subtraction_award_stock >> subtraction_award_stock >> subtraction_award_stock) two_left
    ≡ (ok false, record two_left { surplus = some (negsuc 0); locks = pos 0 ∷ pos 1 ∷ [] })
unfolding subtraction_award_stock ◌-ℤ◌
two_then_none = refl
