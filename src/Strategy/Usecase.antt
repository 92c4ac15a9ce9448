-- ===== src/Strategy/Usecase.antt =====
-- internal/biz/strategy/strategy_usecase.go. The metrics of PerformRaffle change no state that the
-- program reads; the label that they are given is `raffle_result_from_err`.
pub mod BlackList
use lucky_market.Base.{ℕ, String, Bool, Option, none, some, str_eq, if◌then◌else◌}
use lucky_market.Base.Int.{ℤ}
use lucky_market.Base.Outcome.{Exec, pure, deref, ◌>>=◌, Error, rule_tree_invalid}
use lucky_market.Strategy.Model.{StrategyAward, RaffleAward, RaffleFactor}
use lucky_market.Strategy.Repo.{Repo}
use lucky_market.Strategy.Chain.{LogicResult, raffle_logic_chain}
use lucky_market.Strategy.Tree.{TreeStrategyAward, raffle_rule_tree}

module _ {F S : Type 0} (repo : Repo F S) (secure_random_int : ℤ → Exec S ℤ) where
  open repo use {query_strategy_award}

  unfoldable pub build_raffle_award : ℤ → ℤ → Exec S RaffleAward
  build_raffle_award strategy_id award_id = do
    found ← query_strategy_award strategy_id award_id
    award ← deref found
    pure (record { award_id = award.award_id; award_title = award.award_title; sort = award.sort })

  -- the answer behind the tree; none if its fuel did not suffice
  unfoldable pub build_tree_award : ℤ → Option TreeStrategyAward → Exec S (Option RaffleAward)
  build_tree_award strategy_id none = pure none
  build_tree_award strategy_id (some after) = do
    award ← build_raffle_award strategy_id after.award_id
    pure (some award)

  -- a draw of the default rule goes on through the tree, any other is final
  unfoldable pub finish_raffle : ℕ → ℤ → LogicResult → Exec S (Option RaffleAward)
  finish_raffle fuel strategy_id before =
      if str_eq before.logic_model "rule_default"
      then (do
        after ← raffle_rule_tree repo fuel strategy_id before.award_id
        build_tree_award strategy_id after)
      else (do award ← build_raffle_award strategy_id before.award_id; pure (some award))

  unfoldable pub perform_raffle : ℕ → RaffleFactor → Exec S (Option RaffleAward)
  perform_raffle fuel factor = do
    before ← raffle_logic_chain repo secure_random_int factor.user_id factor.strategy_id
    finish_raffle fuel factor.strategy_id before
