-- ===== src/Tests/Draws.antt =====
-- Draws, over the stores of the tests of orders and of raffles.
use lucky_market.Base.{ℕ, some, ◌≡◌, refl}
use lucky_market.Base.{◌⊎◌, inl, inr, sym, false, str_eq, Bool-cases, if◌then◌else◌}
use lucky_market.Base.Int.{ℤ, pos, eqb_ℤ, eqb_ℤ_iff}
use lucky_market.Activity.Model.{Activity, state_open}
use lucky_market.Base.Outcome.{ok, Post}
use lucky_market.Text.{parse_int, digits, scan, split}
use lucky_market.Activity.Store.{Store, AwardRow}
use lucky_market.Activity.Partake.{Repo, create_order}
use lucky_market.Activity.Partake.Restored.{data_repo}
use lucky_market.Activity.Pending.{cache_get_or_create}
use lucky_market.Award.{save_user_award_record}
use lucky_market.Strategy.Model.{get_rule_models, contains}
use lucky_market.Strategy.Chain.{
  raffle_logic_chain, open_logic_chain, logic, chain_of, logic_chain_group, black_list_logic,
  black_list_parts,
}
use lucky_market.Strategy.Usecase.{perform_raffle, build_raffle_award, finish_raffle}
use lucky_market.Draw.{World, Call, DrawRequest, draw}
use lucky_market.Draw.Awarded.{IsAnswer, draw_records}
use lucky_market.Draw.Queries.{ReadOnly}
use lucky_market.Draw.Reuse.{waiting}
use lucky_market.Draw.Redraw.{redraw_unrecorded}
use lucky_market.Tests.Partake
use lucky_market.Tests.Raffle

abbrev call : Call ℕ
call = record { now = 3; award_time = 4; order_id = "000000000077"; message_id = "m2" }

abbrev request : DrawRequest
request = record { user_id = "u1"; activity_id = pos 7 }

abbrev world : World ℕ ℕ
world = record { store = Partake.store; raffle = 0 }

draw_records_example :
    let (r, w') = draw Partake.calendar Partake.repo Raffle.repo Raffle.last 5 call request world in
    let (created, s1) =
      create_order Partake.calendar Partake.repo
        (record { user_id = "u1"; activity_id = pos 7 })
        3
        "000000000077"
        Partake.store in
    Post (λ reply. IsAnswer call request created s1.tables reply w'.store.tables) r
draw_records_example =
    draw_records Partake.calendar Partake.repo Raffle.repo Raffle.last 5 call request world

-- an award of the pending order
abbrev row : AwardRow ℕ
row = record {
  user_id = "u1";
  activity_id = pos 7;
  strategy_id = pos 100;
  award_id = pos 102;
  award_title = "first";
  award_time = 3;
  award_state = "create";
}

abbrev redrawn : World ℕ ℕ
redrawn = record world {
  store = record Partake.store {
    hashes = λ k. waiting "000000000042" "100";
    tables = record Partake.tables { awards = λ o. some row };
  };
}

-- the zero activity for an id without a row
abbrev zero_activity : Activity ℕ
zero_activity = record {
  activity_id = pos 0;
  activity_name = "";
  activity_desc = "";
  begin_date_time = 0;
  end_date_time = 0;
  strategy_id = pos 0;
  state = "";
}

abbrev answering : Repo ℕ (Store ℕ)
answering = record Partake.repo {
  query_raffle_activity =
      λ n s. (ok (if eqb_ℤ n (pos 7) then Partake.activity else zero_activity), s);
}

answered :
    (n : ℤ)
    → let a = if eqb_ℤ n (pos 7) then Partake.activity else zero_activity in
      (a.activity_id ≡ n) ⊎ (str_eq a.state state_open ≡ false)
answered n = elim (Bool-cases (eqb_ℤ n (pos 7))) [
  | inl same ↦ rw same (inl (sym ((eqb_ℤ_iff n (pos 7)).0 same)))
  | inr other ↦ rw other (inr refl)
]

abbrev read_only : ReadOnly answering
read_only = record {
  reads_activity = λ n s. (refl, refl);
  reads_account = λ u n s. (refl, refl);
  reads_day = λ u n d s. (refl, refl);
  reads_month = λ u n m s. (refl, refl);
  answers_activity = λ n s. answered n;
}

redraw_unrecorded_example :
    (draw Partake.calendar
      (data_repo Partake.calendar 3 "m1" answering)
      Raffle.repo
      Raffle.last
      5
      call
      request
      redrawn).1.store.tables
    ≡ redrawn.store.tables
redraw_unrecorded_example =
    redraw_unrecorded Partake.calendar answering Raffle.repo Raffle.last 5 call request "m1"
      "000000000042" "100" row redrawn read_only refl refl

-- it answers another award than the one that is recorded
redrawn_answer :
    (draw Partake.calendar
      (data_repo Partake.calendar 3 "m1" answering)
      Raffle.repo
      Raffle.last
      5
      call
      request
      redrawn).0
    ≡ ok (some (record { award_id = pos 101; award_title = "prize"; award_index = pos 1 }))
unfolding draw create_order cache_get_or_create parse_int digits scan perform_raffle
    raffle_logic_chain get_rule_models split contains build_raffle_award save_user_award_record
    open_logic_chain logic chain_of logic_chain_group black_list_logic black_list_parts
    finish_raffle
redrawn_answer = refl
