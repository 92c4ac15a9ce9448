-- ===== src/Tests/Partake.antt =====
-- Taking part in a raffle, on small stores.
use lucky_market.Base.{ℕ, true, false, none, some, [], ◌∷◌, ◌≡◌, refl, arith, ltb}
use lucky_market.Base.Int.{pos}
use lucky_market.Base.Outcome.{ok}
use lucky_market.Text.{parse_int, format_int, digits, scan}
use lucky_market.Activity.Model.{
  Calendar, Activity, ActivityAccount, UserRaffleOrder, CreatePartakeOrder, PartakeRaffleActivity,
  order_state_create, sync_state_create, state_open,
}
use lucky_market.Activity.Store.{
  no_hash, eqb_key, pending_raffle_order, AccountRow, OrderRow, Tables, Store,
}
use lucky_market.Activity.Pending.{cache_get_or_create, compensate_pending_raffle_order}
use lucky_market.Activity.Pending.Quota.{IsDeducted, keys_at, cache_get_or_create_deducts}
use lucky_market.Activity.Pending.Retry.{IsRestored, elapse, retry_reuses, compensation_restores}
use lucky_market.Activity.Ledger.{save_create_partake_order_aggregate}
use lucky_market.Activity.Ledger.Charge.{IsSettled}
use lucky_market.Activity.Ledger.Save.{save_settles, save_once}
use lucky_market.Activity.Ledger.Success.{save_succeeds}
use lucky_market.Activity.Order.{save_lite_user_raffle_order, insert_order}
use lucky_market.Activity.Order.Settled.{IsOrderSettled, save_lite_settles}
use lucky_market.Activity.Partake.{Repo, create_order, place_order, build_user_raffle_order}
use lucky_market.Activity.Partake.Guards.{IsDecided, aggregate_of, create_order_guards}
use lucky_market.Award.{UserAwardRecord, save_user_award_record}
use lucky_market.Award.Settled.{IsAwardSettled, award_settles, award_once}
use lucky_market.Activity.Partake.Restored.{data_repo, failed_order_restores}
use lucky_market.Base.Outcome.{err, driver}

abbrev pub calendar : Calendar ℕ
calendar = record { before = ltb; format_day = λ t. "2024-05-01"; format_month = λ t. "2024-05" }

abbrev order : UserRaffleOrder ℕ
order = record {
  user_id = "u1";
  activity_id = pos 7;
  activity_name = "spring";
  strategy_id = pos 100;
  order_id = "000000000042";
  order_time = 3;
  order_state = order_state_create;
}

abbrev account : AccountRow
account = record {
  total_count = pos 3;
  total_count_surplus = pos 2;
  day_count = pos 1;
  day_count_surplus = pos 1;
  month_count = pos 2;
  month_count_surplus = pos 2;
}

abbrev row : OrderRow ℕ
row = record {
  activity_id = pos 7;
  activity_name = "spring";
  strategy_id = pos 100;
  order_time = 3;
  order_state = order_state_create;
  account_sync_state = sync_state_create;
}

abbrev pub tables : Tables ℕ
tables = record {
  orders = λ u o. some row;
  accounts = λ u a. some account;
  months = λ u a m. none;
  days = λ u a d. some (record { count = pos 1; surplus = pos 1 });
  tasks = [];
  awards = λ o. none;
  recharges = λ o. none;
}

abbrev pub store : Store ℕ
store = record {
  counters = λ k. some (pos 2);
  hashes = λ k. no_hash;
  ttls = λ k. none;
  snapshots = λ a u. none;
  tables = tables;
  routed = λ u. true;
  faults = [];
}

abbrev aggregate : CreatePartakeOrder ℕ
aggregate = record {
  user_id = "u1";
  activity_id = pos 7;
  activity_account = none;
  is_exist_account_month = false;
  activity_account_month = none;
  is_exist_account_day = false;
  activity_account_day = none;
  user_raffle_order = some order;
}

cache_get_or_create_deducts_example :
    IsDeducted
      (keys_at calendar 3 order)
      store.counters
      (cache_get_or_create calendar 3 order store)
cache_get_or_create_deducts_example =
    cache_get_or_create_deducts calendar 3 order store (omega arith)

-- a minute later, with every counter expired
retry_reuses_example :
    cache_get_or_create calendar 4 order
      (elapse 60 (λ k. true) (cache_get_or_create calendar 3 order store).1)
    ≡ (ok (order, true), elapse 60 (λ k. true) (cache_get_or_create calendar 3 order store).1)
unfolding cache_get_or_create parse_int format_int digits scan
retry_reuses_example =
    retry_reuses calendar 3 4 order order order store (cache_get_or_create calendar 3 order store).1
      60 (λ k. true) (omega arith) refl refl refl refl refl

-- after half an hour the pending order is gone
expired :
    (elapse 1800 (λ k. true) (cache_get_or_create calendar 3 order store).1).hashes
      (pending_raffle_order (pos 7) "u1")
    ≡ no_hash
unfolding cache_get_or_create eqb_key parse_int format_int digits scan
expired = refl

compensation_restores_example :
    IsRestored calendar order store.counters
      (compensate_pending_raffle_order calendar order
        (cache_get_or_create calendar 3 order store).1).1
unfolding cache_get_or_create parse_int format_int digits scan
compensation_restores_example =
    compensation_restores calendar 3 order order store
      (cache_get_or_create calendar 3 order store).1 (omega arith) refl refl refl refl

save_settles_example :
    IsSettled calendar aggregate tables
      (save_create_partake_order_aggregate calendar aggregate store)
save_settles_example = save_settles calendar aggregate store

save_succeeds_example : (save_create_partake_order_aggregate calendar aggregate store).0 ≡ ok tt
save_succeeds_example =
    save_succeeds calendar aggregate order store row account refl refl refl refl refl refl refl
      (refl, refl, refl, tt, refl)

save_once_example :
    let s1 = (save_create_partake_order_aggregate calendar aggregate store).1 in
    (save_create_partake_order_aggregate calendar aggregate s1).1.tables ≡ s1.tables
unfolding save_create_partake_order_aggregate
save_once_example =
    save_once calendar aggregate store
      (save_create_partake_order_aggregate calendar aggregate store).1 refl refl

-- the second command of the transaction fails
abbrev failing : Store ℕ
failing = record store {
  faults = false ∷ true ∷ [];
  tables = record tables { orders = λ u o. none };
}

save_lite_settles_example :
    IsOrderSettled calendar "m1" aggregate order failing
      (save_lite_user_raffle_order calendar "m1" aggregate failing)
save_lite_settles_example = save_lite_settles calendar "m1" aggregate order failing refl

abbrev pub activity : Activity ℕ
activity = record {
  activity_id = pos 7;
  activity_name = "spring";
  activity_desc = "";
  begin_date_time = 1;
  end_date_time = 9;
  strategy_id = pos 100;
  state = state_open;
}

abbrev user_account : ActivityAccount
user_account = record {
  user_id = "u1";
  activity_id = pos 7;
  total_count = pos 3;
  total_count_surplus = pos 2;
  day_count = pos 1;
  day_count_surplus = pos 1;
  month_count = pos 2;
  month_count_surplus = pos 2;
}

abbrev pub repo : Repo ℕ (Store ℕ)
repo = record {
  query_raffle_activity = λ a s. (ok activity, s);
  query_activity_account = λ u a s. (ok (some user_account), s);
  query_activity_account_day = λ u a d s. (ok none, s);
  query_activity_account_month = λ u a m s. (ok none, s);
  cache_get_or_create_no_used_raffle_order = cache_get_or_create calendar 3;
  save_lite_user_raffle_order = save_lite_user_raffle_order calendar "m1";
}

abbrev partake : PartakeRaffleActivity
partake = record { user_id = "u1"; activity_id = pos 7 }

create_order_guards_example :
    IsDecided calendar 3 activity user_account none none
      (store, store, store, store)
      (place_order calendar repo "u1"
        (pos 7)
        (build_user_raffle_order calendar repo "u1" activity 3 "000000000042")
        (aggregate_of calendar repo partake 3 user_account none none)
        store)
      (create_order calendar repo partake 3 "000000000042" store)
create_order_guards_example =
    create_order_guards calendar repo partake 3 "000000000042" store store store store store
      activity user_account none none refl refl refl refl

abbrev award : UserAwardRecord ℕ
award = record {
  user_id = "u1";
  activity_id = pos 7;
  strategy_id = pos 100;
  order_id = "000000000042";
  award_id = pos 101;
  award_title = "prize";
  award_time = 4;
  award_state = "create";
}

award_settles_example : IsAwardSettled "m2" award store (save_user_award_record "m2" award store)
award_settles_example = award_settles "m2" award store

award_once_example :
    (save_user_award_record "m3" award (save_user_award_record "m2" award store).1).1.tables
    ≡ (save_user_award_record "m2" award store).1.tables
unfolding save_user_award_record
award_once_example =
    award_once "m2" "m3" award store (save_user_award_record "m2" award store).1 refl refl

-- the task of the order cannot be written
abbrev refusing : Store ℕ
refusing = record store {
  tables = record tables { orders = λ u o. none };
  faults = false ∷ false ∷ true ∷ [];
}

failed_order_restores_example :
    let (r, s') =
      place_order calendar (data_repo calendar 3 "m1" repo) "u1" (pos 7) order aggregate refusing in
    (r ≡ err driver) × IsRestored calendar order refusing.counters s'
unfolding cache_get_or_create insert_order parse_int format_int digits scan
failed_order_restores_example =
    failed_order_restores calendar 3 "m1" repo "u1" (pos 7) order order aggregate refusing
      (cache_get_or_create calendar 3 order refusing).1
      (insert_order "m1" aggregate order (cache_get_or_create calendar 3 order refusing).1).1
      (omega arith) refl refl refl refl refl refl
