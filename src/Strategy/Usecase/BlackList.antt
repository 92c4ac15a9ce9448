-- ===== src/Strategy/Usecase/BlackList.antt =====
-- A raffle of a strategy whose first rule is the black list.
use lucky_market.Base.{
  ℕ, String, Option, some, List, ◌∷◌, ◌≡◌, refl, inl, inr, Bool-cases, if◌then◌else◌,
}
use lucky_market.Base.Int.{ℤ}
use lucky_market.Base.Outcome.{Exec, ok, ◌>>=◌, pure}
use lucky_market.Text.{comma, colon, split, parse_int}
use lucky_market.Strategy.Model.{
  Strategy, RaffleFactor, RaffleAward, get_rule_models, contains, rule_blacklist,
}
use lucky_market.Strategy.Repo.{Repo}
use lucky_market.Strategy.Chain.{
  chain_of, logic_chain_group, append_known, open_logic_chain, logic, black_list_logic,
  black_list_parts, raffle_logic_chain,
}
use lucky_market.Strategy.Usecase.{build_raffle_award, finish_raffle, perform_raffle}

module _ {F S : Type 0} (repo : Repo F S) (random_int : ℤ → Exec S ℤ) where
  -- the award that the black list names, with no draw and no tree
  abbrev pub banned : ℤ → ℤ → Exec S (Option RaffleAward)
  banned strategy_id award_id =
      build_raffle_award repo random_int strategy_id award_id >>= λ a. pure (some a)

  abbrev pub allowed : ℕ → RaffleFactor → List String → Exec S (Option RaffleAward)
  allowed fuel factor rules =
      logic repo random_int (append_known rules) factor.user_id factor.strategy_id
      >>= finish_raffle repo random_int fuel factor.strategy_id

  -- Where the first rule of the strategy is the black list, its entities can be read and the list is
  -- well formed, a raffle of a listed user answers with the award of the list, read straight from the
  -- storage, and one of any other user goes on with the remaining rules.
  pub perform_raffle_black_list :
      (fuel : ℕ) (factor : RaffleFactor) (s s1 s2 : S) (st : Strategy) (rules parts : List String)
      (value award users : String) (award_id : ℤ)
      → repo.query_strategy_entity_by_strategy_id factor.strategy_id s ≡ (ok (some st), s1)
      → get_rule_models st ≡ "rule_blacklist" ∷ rules
      → repo.query_strategy_rule_value factor.strategy_id rule_blacklist s1 ≡ (ok value, s2)
      → split colon value ≡ award ∷ users ∷ parts
      → parse_int award ≡ some award_id
      → perform_raffle repo random_int fuel factor s ≡ (
          if contains (split comma users) factor.user_id
          then banned factor.strategy_id award_id s2
          else allowed fuel factor rules s2)
  unfolding perform_raffle raffle_logic_chain open_logic_chain chain_of logic_chain_group logic
      black_list_logic black_list_parts finish_raffle
  perform_raffle_black_list fuel factor s s1 s2 st rules parts value award users award_id found
        first read cut number =
      rw (found, first, read, cut)
        (rw (number, black_list_parts)
          (elim (Bool-cases (contains (split comma users) factor.user_id)) [
            | inl listed ↦ rw listed refl
            | inr other ↦ rw other refl
          ]))
