-- ===== src/Tests/Raffle.antt =====
-- The raffle, on a small strategy.
use lucky_market.Base.{
  ℕ, String, true, none, some, List, [], ◌∷◌, ◌≡◌, ◌≢◌, ◌↔◌, ◌≤◌, ◌<◌, ◌+◌, ◌*◌, refl, arith, inl,
  inr, str_eq, if◌then◌else◌, Bool-cases, sym,
}
use mathlib.Core.Option.{some-injective}
use lucky_market.Base.Int.{ℤ, pos, ◌-ℤ◌}
use lucky_market.Base.Outcome.{Exec, ok, Post}
use lucky_market.Text.{parse_int, format_int, format_nat, split, digits, scan}
use lucky_market.Strategy.Model.{
  Strategy, StrategyAward, RuleTree, RuleTreeNode, RaffleFactor, RuleTreeNodeLine, contains,
  get_rule_models, map_get, equal, rule_check_allow,
}
use lucky_market.Strategy.Repo.{Repo, PoolRepo, Runtime}
use lucky_market.Strategy.Armory.{
  assemble_with_awards, get_random_award_id, get_random_award_id_with_weight, weight_pool_id,
  total_rate, award_pool, length, fill_pool, replicate, award_slots,
}
use lucky_market.Strategy.Chain.{reached_weight}
use lucky_market.Strategy.Chain.Weight.{IsReached, reached_weight_greatest}
use lucky_market.Strategy.Chain.PoolKey.{weight_pool_exactly}
use lucky_market.Strategy.Tree.{process}
use lucky_market.Strategy.Tree.Termination.{IsRanked, process-terminates}
use lucky_market.Strategy.Usecase.{perform_raffle, build_raffle_award}
use lucky_market.Strategy.Usecase.BlackList.{banned, perform_raffle_black_list}
use lucky_market.Strategy.Pools.{PoolStore, redis_pools}
use lucky_market.Strategy.Pools.Draw.{healthy, count, slots_of, assemble_then_draw}
use lucky_market.Strategy.AwardStock.{AwardStock, decr, lock_surplus}
use lucky_market.Strategy.AwardStock.Oversell.{
  System, begin, finish, Reach, here, next, granted_bound,
}
use lucky_market.Strategy.AwardStock.Unset.{grants, unset_grants_nothing}

reached_weight_greatest_example :
    IsReached
      (pos 5500)
      (pos 6000 ∷ pos 4000 ∷ pos 5000 ∷ [])
      (reached_weight (pos 5500) (pos 6000 ∷ pos 4000 ∷ pos 5000 ∷ []))
reached_weight_greatest_example =
    reached_weight_greatest (pos 5500) (pos 6000 ∷ pos 4000 ∷ pos 5000 ∷ [])

-- a rate is a number of slots
abbrev runtime : Runtime ℕ
runtime = record {
  zero_rate = 0;
  add = λ a b. a + b;
  div = λ a b. a;
  mul = λ a b. a * b;
  pow10 = λ n. 1;
  round_int = pos;
  format_float = format_nat;
  shuffle = λ xs. xs;
  range_order = λ xs. xs;
}

abbrev award : ℤ → ℕ → StrategyAward ℕ
award id rate = record {
  strategy_id = pos 100;
  award_id = id;
  award_title = "prize";
  award_subtitle = "";
  award_count = pos 10;
  award_count_surplus = pos 10;
  award_rate = rate;
  sort = pos 1;
  rule_models = "";
}

abbrev awards : List (StrategyAward ℕ)
awards = award (pos 101) 1 ∷ award (pos 102) 2 ∷ []

abbrev third : ℤ → Exec PoolStore ℤ
third n s = (ok (pos 2), s)

assemble_then_draw_example :
    let (r, s) =
      assemble_with_awards runtime redis_pools "100" awards (healthy (λ k. none) (λ k f. none)) in
    (r ≡ ok tt)
    × (get_random_award_id redis_pools third "100" s ≡ (ok (pos 102), s))
    × (0 < slots_of runtime (total_rate runtime awards 0) 1 (pos 102) awards)
    × ((b : ℤ)
        → count b (award_pool runtime awards)
          ≡ slots_of runtime (total_rate runtime awards 0) 1 b awards)
unfolding length award_pool fill_pool replicate award_slots
assemble_then_draw_example =
    assemble_then_draw runtime "100" awards (λ k. none) (λ k f. none) third 2 (pos 102)
      (λ xs b. refl) (omega arith, (omega arith, tt)) (omega arith) refl refl

abbrev stock : AwardStock
stock = record {
  surplus = some (pos 2);
  locks = [];
  award_count_surplus = some (pos 2);
  faults = [];
}

abbrev start : System
start = record { stock = stock; waiting = []; granted = 0; expired = 0 }

one_granted : Reach 2 start (record {
  stock = record stock { surplus = some (pos 1); locks = pos 1 ∷ [] };
  waiting = [];
  granted = 1;
  expired = 0;
})
unfolding decr ◌-ℤ◌ lock_surplus
one_granted = next (next here (begin start)) (
    finish
      (record {
        stock = record stock { surplus = some (pos 1) };
        waiting = pos 1 ∷ [];
        granted = 0;
        expired = 0;
      })
      (pos 1) [] [] refl)

granted_bound_example : 1 ≤ 2
granted_bound_example = granted_bound one_granted (omega arith) refl refl refl refl

unset_grants_nothing_example : grants 3 (record stock { surplus = none }) ≡ 0
unset_grants_nothing_example = unset_grants_nothing 3 (record stock { surplus = none }) refl

abbrev no_pools : PoolRepo ℕ
no_pools = record {
  store_strategy_award_pool = λ id n values s. (ok tt, s);
  get_rate_range = λ id s. (ok (pos 1), s);
  get_strategy_award_assemble = λ id v s. (ok (pos 101), s);
}

abbrev pub last : ℤ → Exec ℕ ℤ
last n s = (ok (pos 0), s)

weight_pool_exactly_example :
    (get_random_award_id_with_weight no_pools last (pos 100) (format_int (pos 4000))
      ≡ get_random_award_id no_pools last
          (weight_pool_id runtime (format_int (pos 100)) (format_int (pos 4000))))
    × ((weight_pool_id runtime (format_int (pos 100)) "04000"
          ≡ weight_pool_id runtime (format_int (pos 100)) (format_int (pos 4000)))
        ↔ ("04000" ≡ format_int (pos 4000)))
weight_pool_exactly_example =
    weight_pool_exactly runtime no_pools last (pos 100) (pos 4000) "04000" (omega arith)

abbrev strategy : Strategy
strategy = record {
  strategy_id = pos 100;
  strategy_desc = "";
  rule_models = "rule_blacklist,rule_weight";
}

-- a storage of one strategy; its state is not looked at
abbrev pub repo : Repo ℕ ℕ
repo = record {
  pools = no_pools;
  query_strategy_award_list = λ id s. (ok awards, s);
  query_strategy_entity_by_strategy_id = λ id s. (ok (some strategy), s);
  query_strategy_rule = λ id model s. (ok none, s);
  query_strategy_rule_value = λ id model s. (ok "101:u1,u2", s);
  query_strategy_value = λ id model s. (ok "", s);
  query_strategy_rule_model = λ id award_id s. (ok "", s);
  query_rule_tree = λ id s. (ok none, s);
  query_strategy_award = λ id award_id s. (ok (some (award award_id 1)), s);
  query_strategy_id_by_activity_id = λ id s. (ok (pos 100), s);
  query_activity_account_total_use_count = λ u id s. (ok (pos 0), s);
  subtraction_award_stock = λ id award_id s. (ok true, s);
  award_stock_consume_send_queue = λ id award_id s. (ok tt, s);
}

abbrev factor : RaffleFactor
factor = record { activity_id = pos 7; user_id = "u2"; strategy_id = pos 100 }

perform_raffle_black_list_example :
    perform_raffle repo last 5 factor 0 ≡ banned repo last (pos 100) (pos 101) 0
unfolding get_rule_models split parse_int digits scan build_raffle_award contains
perform_raffle_black_list_example =
    perform_raffle_black_list repo last 5 factor 0 0 0 strategy ("rule_weight" ∷ []) [] "101:u1,u2"
      "101" "u1,u2" (pos 101) refl refl refl refl refl

abbrev leads_to : String → RuleTreeNodeLine
leads_to name = record {
  tree_id = "t";
  rule_node_from = "rule_lock";
  rule_node_to = name;
  rule_limit_type = equal;
  rule_limit_value = rule_check_allow;
}

abbrev node : String → String → List RuleTreeNodeLine → RuleTreeNode
node key value lines = record {
  tree_id = "t";
  rule_key = key;
  rule_desc = "";
  rule_value = value;
  tree_node_line = lines;
}

abbrev tree : RuleTree
tree = record {
  tree_id = "t";
  tree_name = "lock, then stock";
  tree_desc = "";
  tree_root_rule_node = "rule_lock";
  node_map =
      ("rule_lock", node "rule_lock" "1" (leads_to "rule_stock" ∷ []))
      ∷ ("rule_stock", node "rule_stock" "" [])
      ∷ [];
}

abbrev rank : String → ℕ
rank name = if str_eq "rule_lock" name then 1 else 0

ranked : IsRanked rank tree.node_map
unfolding map_get
ranked name n found = elim (Bool-cases (str_eq "rule_lock" name)) [
  | inl locks ↦
      let first : node "rule_lock" "1" (leads_to "rule_stock" ∷ []) ≡ n =
        some-injective _ n (rw locks at found) in
      rw (locks, sym first) (inr (omega arith), tt)
  | inr other ↦ elim (Bool-cases (str_eq "rule_stock" name)) [
    | inl stocks ↦
        let second : node "rule_stock" "" [] ≡ n =
          some-injective _ n (rw (other, stocks) at found) in
        rw (sym second) tt
    | inr unknown ↦ cc (rw (other, unknown) at found)
  ]
]

process-terminates_example :
    Post (λ r. r ≢ none) (process repo 2 tree (pos 100) (pos 101) 0).0
    × (process repo 2 tree (pos 100) (pos 101) 0 ≡ process repo 9 tree (pos 100) (pos 101) 0)
process-terminates_example =
    process-terminates repo tree (pos 100) (pos 101) rank 2 9 0 ranked (omega arith) (omega arith)
