-- ===== src/Strategy/Tree/Termination.antt =====
-- When the loop of `process` ends, and what its fuel changes.
use lucky_market.Base.{
  ℕ, zero, suc, ◌<◌, String, true, false, none, some, List, [], ◌∷◌, ◌≡◌, ◌≢◌, refl, ◌⊎◌, inl, inr,
  arith, str_eq, eq_iff, Option-cases, Bool-cases, All,
}
use lucky_market.Base.Int.{ℤ}
use lucky_market.Base.Outcome.{Post, Post-all, Post-resume, resume_agree}
use lucky_market.Strategy.Model.{RuleTree, RuleTreeNode, RuleTreeNodeLine, map_get}
use lucky_market.Strategy.Repo.{Repo}
use lucky_market.Strategy.Tree.{
  TreeAction, TreeStrategyAward, next, next_line, decision_logic, tree_node_group, node_logic,
  visit, process_loop, process, no_award,
}

-- A line leads out of the tree, or to a node of a lower rank.
abbrev pub Falls : (String → ℕ) → ℕ → String → Type 0
Falls rank bound name = (name ≡ "") ⊎ (rank name < bound)

abbrev pub IsRanked : (String → ℕ) → List (String × RuleTreeNode) → Type 0
IsRanked rank node_map =
    (name : String) (node : RuleTreeNode)
    → map_get name node_map ≡ some node
    → All (λ line. Falls rank (rank name) line.rule_node_to) node.tree_node_line

next_line-All :
    (P : String → Type 0) (matter : ℤ) (lines : List RuleTreeNodeLine)
    → All (λ line. P line.rule_node_to) lines
    → Post P (next_line matter lines)
unfolding next_line
next_line-All P matter [] h = tt
next_line-All P matter (line ∷ lines) h = elim (Bool-cases (decision_logic matter line)) [
  | inl hit ↦ rw hit h.0
  | inr miss ↦ rw miss (next_line-All P matter lines h.1)
]

next-Falls :
    (rank : String → ℕ) (bound : ℕ) (matter : ℤ) (lines : List RuleTreeNodeLine)
    → All (λ line. Falls rank bound line.rule_node_to) lines
    → Post (Falls rank bound) (next matter lines)
unfolding next
next-Falls rank bound matter [] h = inl refl
next-Falls rank bound matter (line ∷ lines) h =
    next_line-All (Falls rank bound) matter (line ∷ lines) h

-- the loop stops at the empty name
ended : (rank : String → ℕ) (name : String) → Falls rank 0 name → str_eq name "" ≡ true
ended rank name (inl e) = (eq_iff name "").1 e
ended rank name (inr h) = elim h [ ]

still-Falls :
    (rank : String → ℕ) (fuel : ℕ) (name following : String)
    → Falls rank (suc fuel) name
    → str_eq name "" ≡ false
    → Falls rank (rank name) following
    → Falls rank fuel following
still-Falls rank fuel name following (inl e) stop low = cc (stop, (eq_iff name "").1 e)
still-Falls rank fuel name following (inr h) stop (inl e) = inl e
still-Falls rank fuel name following (inr h) stop (inr low) = inr (omega arith)

module _ {F S : Type 0} (repo : Repo F S) (node_map : List (String × RuleTreeNode))
    (strategy_id award_id : ℤ) (rank : String → ℕ) (ranked : IsRanked rank node_map) where
  abbrev Lower : ℕ → TreeAction × String → Type 0
  Lower bound r = Falls rank bound r.1

  visit-Falls :
      (name : String) (s : S)
      → Post (Lower (rank name)) (visit repo node_map strategy_id award_id name s).0
  unfolding visit
  visit-Falls name s = elim (Option-cases (map_get name node_map)) [
    | inl missing ↦ rw missing tt
    | inr (node, found) ↦ rw found (elim (Option-cases (tree_node_group name)) [
      | inl unknown ↦ rw unknown tt
      | inr (kind, known) ↦ rw known (
          Post-resume (λ _. Unit {0}) (Lower (rank name))
            (node_logic repo kind strategy_id award_id node.rule_value s).0 _ _
            (Post-all _ (λ _. tt) _)
            λ act _.
              Post-resume (Falls rank (rank name)) (Lower (rank name))
                (next act.rule_logic_check_type node.tree_node_line) _ _
                (next-Falls rank (rank name) act.rule_logic_check_type node.tree_node_line
                  (ranked name node found))
                (λ following h. h))
    ])
  ]

  process_loop-some :
      (fuel : ℕ) (name : String) (award : TreeStrategyAward) (s : S)
      → Falls rank fuel name
      → Post (λ r. r ≢ none) (process_loop repo node_map strategy_id award_id fuel name award s).0
  unfolding process_loop
  process_loop-some zero name award s h = rw (ended rank name h) (λ e. cc)
  process_loop-some (suc fuel) name award s h = elim (Bool-cases (str_eq name "")) [
    | inl stop ↦ rw stop (λ e. cc)
    | inr on ↦ rw on (
        Post-resume (Lower (rank name)) (λ r. r ≢ none)
          (visit repo node_map strategy_id award_id name s).0 _ _ (visit-Falls name s)
          λ r low. process_loop-some fuel r.1 r.0.award _ (still-Falls rank fuel name r.1 h on low))
  ]

  process_loop-agree :
      (fuel fuel' : ℕ) (name : String) (award : TreeStrategyAward) (s : S)
      → Falls rank fuel name
      → Falls rank fuel' name
      → process_loop repo node_map strategy_id award_id fuel name award s
        ≡ process_loop repo node_map strategy_id award_id fuel' name award s
  unfolding process_loop
  process_loop-agree zero zero name award s h h' = refl
  process_loop-agree zero (suc f') name award s h h' = rw (ended rank name h) refl
  process_loop-agree (suc f) zero name award s h h' = rw (ended rank name h') refl
  process_loop-agree (suc f) (suc f') name award s h h' = elim (Bool-cases (str_eq name "")) [
    | inl stop ↦ rw stop refl
    | inr on ↦ rw on (
        resume_agree (Lower (rank name)) (visit repo node_map strategy_id award_id name s).0 _ _ _
          (visit-Falls name s)
          λ r low.
            process_loop-agree f f' r.1 r.0.award _ (still-Falls rank f name r.1 h on low)
              (still-Falls rank f' name r.1 h' on low))
  ]

-- If every line of a tree leads out of it or to a node of a lower rank, then with more fuel than the
-- rank of the root the run of the tree never ends for lack of fuel, and any two such runs from one
-- state have the same result and the same state.
pub process-terminates :
    {F S : Type 0} (repo : Repo F S) (tree : RuleTree) (strategy_id award_id : ℤ)
    (rank : String → ℕ) (fuel fuel' : ℕ) (s : S)
    → IsRanked rank tree.node_map
    → rank tree.tree_root_rule_node < fuel
    → rank tree.tree_root_rule_node < fuel'
    → Post (λ r. r ≢ none) (process repo fuel tree strategy_id award_id s).0
      × (process repo fuel tree strategy_id award_id s
          ≡ process repo fuel' tree strategy_id award_id s)
unfolding process
process-terminates repo tree strategy_id award_id rank fuel fuel' s ranked h h' = (
  process_loop-some repo tree.node_map strategy_id award_id rank ranked fuel
      tree.tree_root_rule_node no_award s (inr h),
  process_loop-agree repo tree.node_map strategy_id award_id rank ranked fuel fuel'
      tree.tree_root_rule_node no_award s (inr h) (inr h'),
)
