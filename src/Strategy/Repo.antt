-- ===== src/Strategy/Repo.antt =====
-- internal/biz/strategy/repo.go: what the raffle asks of its storage, over a state `S` of MySQL,
-- Redis and the queue. A pointer that may be nil is an Option; `F` is float64.
use lucky_market.Base.{ℕ, String, Bool, Option, List}
use lucky_market.Base.Int.{ℤ}
use lucky_market.Base.Outcome.{Exec}
use lucky_market.Strategy.Model.{Strategy, StrategyRule, StrategyAward, RuleTree}

-- The three methods of the assembled prize pools.
pub record PoolRepo (S : Type 0) : Type 0 where
  pub store_strategy_award_pool : String → ℤ → List (ℕ × ℤ) → Exec S (Unit {0})
  pub get_rate_range : String → Exec S ℤ
  pub get_strategy_award_assemble : String → ℤ → Exec S ℤ

pub record Repo (F S : Type 0) : Type 0 where
  pub pools : PoolRepo S
  pub query_strategy_award_list : ℤ → Exec S (List (StrategyAward F))
  pub query_strategy_entity_by_strategy_id : ℤ → Exec S (Option Strategy)
  pub query_strategy_rule : ℤ → String → Exec S (Option StrategyRule)
  pub query_strategy_rule_value : ℤ → String → Exec S String
  pub query_strategy_value : ℤ → String → Exec S String
  pub query_strategy_rule_model : ℤ → ℤ → Exec S String
  pub query_rule_tree : String → Exec S (Option RuleTree)
  pub query_strategy_award : ℤ → ℤ → Exec S (Option (StrategyAward F))
  pub query_strategy_id_by_activity_id : ℤ → Exec S ℤ
  pub query_activity_account_total_use_count : String → ℤ → Exec S ℤ
  pub subtraction_award_stock : ℤ → ℤ → Exec S Bool
  pub award_stock_consume_send_queue : ℤ → ℤ → Exec S (Unit {0})

-- float64, the functions of math and strconv on it, math/rand's Shuffle and the order in which a
-- map is ranged over: none of them is code of the program.
pub record Runtime (F : Type 0) : Type 0 where
  pub zero_rate : F
  pub add : F → F → F
  pub div : F → F → F
  pub mul : F → F → F
  -- math.Pow(10, n)
  pub pow10 : ℕ → F
  -- int(math.Round(x))
  pub round_int : F → ℤ
  -- strconv.FormatFloat(x, 'f', -1, 64)
  pub format_float : F → String
  pub shuffle : List ℤ → List ℤ
  pub range_order : List (String × List ℤ) → List (String × List ℤ)
