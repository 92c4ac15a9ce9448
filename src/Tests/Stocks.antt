-- ===== src/Tests/Stocks.antt =====
-- The stock of a sku in MySQL.
use lucky_market.Base.{true, false, some, [], ◌∷◌, map, ◌≡◌, refl, ℕ, none}
use lucky_market.Base.Int.{pos}
use lucky_market.Base.Outcome.{ok}
use lucky_market.Activity.Sku.{SkuStore, assembled_stock_count_key}
use lucky_market.Text.{format_int}
use lucky_market.Activity.Sku.Assembly.{AssemblyQueries, assemble_activity_sku_by_activity_id}
use lucky_market.Activity.Sku.Stocked.{ReadOnly, first_count, kept_or, assembly_stocks}
use lucky_market.Activity.Model.{ActivitySkuStockKey}
use lucky_market.Activity.Sku.Table.{process_task, SkuDb, unreadable, sku_number}
use lucky_market.Activity.Sku.Consumed.{consume, sold_of, consumed_stock}
use lucky_market.Activity.Sku.StockZero.{listen, refusal, IsUntouched, stock_zero_refused}

abbrev key : ActivitySkuStockKey
key = record { sku = pos 9; activity_id = pos 7 }

-- the second command fails
abbrev db : SkuDb
db = record {
  skus =
      record {
        sku = pos 9;
        activity_id = pos 7;
        activity_count_id = pos 1;
        stock_count = pos 2;
        stock_count_surplus = pos 1;
      }
      ∷ [];
  stocks = (pos 9, pos 1) ∷ [];
  queue = some (key ∷ []);
  has_inspector = true;
  faults = false ∷ true ∷ [];
}

consumed_stock_example :
    let (done, s') = consume (key ∷ key ∷ key ∷ []) db in s'.skus ≡ map (sold_of done) db.skus
consumed_stock_example = consumed_stock (key ∷ key ∷ key ∷ []) db

-- two of the jobs succeed, the surplus stays at 0
consumed_keys : (consume (key ∷ key ∷ key ∷ []) db).0 ≡ key ∷ key ∷ []
unfolding consume process_task
consumed_keys = refl

stock_zero_refused_example :
    let (rs, s') = listen (sku_number (pos 9) ∷ unreadable ∷ sku_number (pos 9) ∷ []) db in
    (rs ≡ map refusal (sku_number (pos 9) ∷ unreadable ∷ sku_number (pos 9) ∷ []))
    × IsUntouched db s'
stock_zero_refused_example =
    stock_zero_refused (sku_number (pos 9) ∷ unreadable ∷ sku_number (pos 9) ∷ []) db

abbrev redis : SkuStore
redis = record {
  stocks = λ key. none;
  results = λ activity_id shard user_id. none;
  stock_zero_events = [];
  consume_queue = [];
  json_user = λ user_id. some user_id;
  faults = [];
}

abbrev queries : AssemblyQueries ℕ
queries = record {
  query_activity_sku_by_activity_id = λ n s. (ok (some db.skus), s);
  query_raffle_activity_count_by_activity_count_id = λ n s. (
    ok (
        some (record {
          activity_count_id = n;
          total_count = pos 3;
          day_count = pos 2;
          month_count = pos 0;
        })),
    s,
  );
  query_raffle_activity_by_activity_id = λ n s. (
    ok (
        some (record {
          activity_id = n;
          activity_name = "spring";
          activity_desc = "";
          begin_date_time = 0;
          end_date_time = 9;
          strategy_id = pos 100;
          state = "open";
        })),
    s,
  );
}

abbrev read_only : ReadOnly queries
read_only = record {
  reads_skus = λ n s. refl;
  reads_count = λ n s. refl;
  reads_activity = λ n s. refl;
}

assembly_stocks_example :
    (assemble_activity_sku_by_activity_id queries (pos 7) redis).1.stocks
      (assembled_stock_count_key (pos 9))
    ≡ kept_or none (first_count (assembled_stock_count_key (pos 9)) db.skus)
unfolding assemble_activity_sku_by_activity_id
assembly_stocks_example =
    assembly_stocks queries (pos 7) db.skus redis read_only refl refl refl
      (assembled_stock_count_key (pos 9))

-- the stock count, not the surplus
first_stored : first_count (assembled_stock_count_key (pos 9)) db.skus ≡ some (pos 2)
unfolding assembled_stock_count_key format_int
first_stored = refl
