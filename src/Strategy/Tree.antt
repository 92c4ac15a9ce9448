-- ===== src/Strategy/Tree.antt =====
-- internal/biz/strategy/rule_tree.go: the decision tree behind the default draw. The loop of
-- `process` follows the node names of a configured tree, which may have cycles: `fuel` bounds its
-- rounds, and `ok none` says that they did not suffice.
pub mod Termination
use lucky_market.Base.{
  ℕ, zero, suc, String, Bool, true, false, Option, none, some, List, [], ◌∷◌, str_eq, if◌then◌else◌,
}
use lucky_market.Base.Int.{ℤ, pos, leb_ℤ, eqb_ℤ}
use lucky_market.Base.Outcome.{
  Exec, Outcome, ok, err, panics, pure, fail, panic, lift, deref, ◌>>=◌, ◌>>◌, rule_tree_invalid,
}
use lucky_market.Text.{colon, split, parse_int}
use lucky_market.Strategy.Model.{
  RuleTree, RuleTreeNode, RuleTreeNodeLine, map_get, equal, rule_check_allow, rule_check_take_over,
}
use lucky_market.Strategy.Repo.{Repo}

pub record TreeStrategyAward : Type 0 where
  pub award_id : ℤ
  pub award_rule_value : String

abbrev pub no_award : TreeStrategyAward
no_award = record { award_id = pos 0; award_rule_value = "" }

pub record TreeAction : Type 0 where
  pub rule_logic_check_type : ℤ
  pub award : TreeStrategyAward

abbrev pub action : ℤ → ℤ → String → TreeAction
action check award_id value = record {
  rule_logic_check_type = check;
  award = record { award_id = award_id; award_rule_value = value };
}

-- the comparisons other than EQUAL are empty cases
unfoldable pub decision_logic : ℤ → RuleTreeNodeLine → Bool
decision_logic matter line =
    if eqb_ℤ line.rule_limit_type equal then eqb_ℤ matter line.rule_limit_value else false

unfoldable pub next_line : ℤ → List RuleTreeNodeLine → Outcome String
unfolding decision_logic
next_line matter [] = panics
next_line matter (line ∷ lines) =
    if decision_logic matter line then ok line.rule_node_to else next_line matter lines

unfoldable pub next : ℤ → List RuleTreeNodeLine → Outcome String
unfolding next_line
next matter [] = ok ""
next matter (line ∷ lines) = next_line matter (line ∷ lines)

-- the count of the user's draws is a constant of the source
unfoldable pub lock_logic : ℤ → String → Outcome TreeAction
lock_logic award_id value = elim (parse_int value) [
  | none ↦ panics
  | some count ↦
      if leb_ℤ count (pos 10)
      then ok (action rule_check_allow award_id value)
      else ok (action rule_check_take_over award_id value)
]

unfoldable pub luck_award_parts : List String → Outcome TreeAction
luck_award_parts (luck ∷ value ∷ []) = elim (parse_int luck) [
  | none ↦ panics
  | some award_id ↦ ok (action rule_check_take_over award_id value)
]
luck_award_parts _ = panics

unfoldable pub luck_award_logic : String → Outcome TreeAction
unfolding luck_award_parts
luck_award_logic value = luck_award_parts (split colon value)

pub data RuleNode : Type 0 where
  lock luck_award stock : RuleNode

-- TreeNodeGroup[name]
unfoldable pub tree_node_group : String → Option RuleNode
tree_node_group name =
    if str_eq name "rule_lock"
    then some lock
    else if str_eq name "rule_luck_award"
    then some luck_award
    else if str_eq name "rule_stock"
    then some stock
    else none

-- `err != nil || ruleTree == nil` panics
abbrev pub found_tree : Outcome (Option RuleTree) → Outcome RuleTree
found_tree (ok (some tree)) = ok tree
found_tree (ok none) = panics
found_tree (err e) = panics
found_tree panics = panics

-- newDecisionTreeEngine: what is checked before the engine is built
unfoldable pub new_decision_tree_engine : Option RuleTree → Outcome RuleTree
new_decision_tree_engine none = err rule_tree_invalid
new_decision_tree_engine (some tree) = elim (map_get tree.tree_root_rule_node tree.node_map) [
  | none ↦ err rule_tree_invalid
  | some _ ↦ ok tree
]

module _ {F S : Type 0} (repo : Repo F S) where
  open repo use {
    subtraction_award_stock, award_stock_consume_send_queue, query_strategy_rule_model,
    query_rule_tree,
  }

  unfoldable pub stock_logic : ℤ → ℤ → String → Exec S TreeAction
  stock_logic strategy_id award_id value = do
    status ← subtraction_award_stock strategy_id award_id
    if status
        then (do
          award_stock_consume_send_queue strategy_id award_id
          pure (action rule_check_allow award_id value))
        else pure (action rule_check_take_over award_id value)

  unfoldable pub node_logic : RuleNode → ℤ → ℤ → String → Exec S TreeAction
  unfolding stock_logic lock_logic luck_award_logic
  node_logic lock strategy_id award_id value = lift (lock_logic award_id value)
  node_logic luck_award strategy_id award_id value = lift (luck_award_logic value)
  node_logic stock strategy_id award_id value = stock_logic strategy_id award_id value

  module _ (node_map : List (String × RuleTreeNode)) (strategy_id award_id : ℤ) where
    -- one round: the action of the node and the name of the next one
    unfoldable pub visit : String → Exec S (TreeAction × String)
    visit name = do
      tree_node ← deref (map_get name node_map)
      logic_node ← deref (tree_node_group name)
      act ← node_logic logic_node strategy_id award_id tree_node.rule_value
      following ← lift (next act.rule_logic_check_type tree_node.tree_node_line)
      pure (act, following)

    unfoldable pub process_loop : ℕ → String → TreeStrategyAward → Exec S (Option TreeStrategyAward)
    process_loop zero name award = if str_eq name "" then pure (some award) else pure none
    process_loop (suc fuel) name award =
        if str_eq name ""
        then pure (some award)
        else do (act, following) ← visit name; process_loop fuel following act.award

  unfoldable pub process : ℕ → RuleTree → ℤ → ℤ → Exec S (Option TreeStrategyAward)
  unfolding process_loop
  process fuel tree strategy_id award_id =
      process_loop tree.node_map strategy_id award_id fuel tree.tree_root_rule_node no_award

  -- a tree that cannot be read, or is missing, panics
  unfoldable pub configured_tree : String → Exec S RuleTree
  configured_tree model s = let (r, s') = query_rule_tree model s in (found_tree r, s')

  unfoldable pub raffle_rule_tree : ℕ → ℤ → ℤ → Exec S (Option TreeStrategyAward)
  unfolding configured_tree
  raffle_rule_tree fuel strategy_id award_id = do
    model ← query_strategy_rule_model strategy_id award_id
    if str_eq model ""
        then pure (some (record { award_id = award_id; award_rule_value = "" }))
        else do
          tree ← configured_tree model
          engine ← lift (new_decision_tree_engine (some tree))
          process fuel engine strategy_id award_id
