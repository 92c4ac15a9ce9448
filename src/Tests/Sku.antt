-- ===== src/Tests/Sku.antt =====
-- The stock of a sku.
use lucky_market.Base.{none, some, [], ◌∷◌, ◌≡◌, ◌≤◌, refl, arith, true, false}
use lucky_market.Base.Int.{pos}
use lucky_market.Base.Outcome.{err, parse_failed, ◌>>◌}
use lucky_market.Activity.Sku.{
  SkuStore, assembled_stock_count_key, cache_activity_sku_stock_count,
  subtraction_activity_sku_stock,
}
use lucky_market.Activity.Sku.Bound.{
  IsSubtracted, subtraction_settles, Request, sales, in_stock, sales_bound,
}
use lucky_market.Activity.Sku.Keys.{assembled_stock_unread}

-- two of every sku; the second command fails
abbrev store : SkuStore
store = record {
  stocks = λ k. some (pos 2);
  results = λ a n u. none;
  stock_zero_events = [];
  consume_queue = [];
  json_user = λ user_id. some user_id;
  faults = false ∷ true ∷ [];
}

abbrev request : Request
request = record { activity_id = pos 7; user_id = "u1"; now = pos 1700000000 }

subtraction_settles_example :
    IsSubtracted
      (pos 9)
      "u1"
      store
      (subtraction_activity_sku_stock (pos 9) (pos 7) "u1" (pos 1700000000) store)
subtraction_settles_example = subtraction_settles (pos 9) (pos 7) "u1" (pos 1700000000) store

sales_bound_example :
    sales (pos 9) (request ∷ request ∷ request ∷ request ∷ []) store ≤ in_stock (pos 9) store
sales_bound_example = sales_bound (pos 9) (request ∷ request ∷ request ∷ request ∷ []) store

abbrev fresh : SkuStore
fresh = record store { stocks = λ k. none; faults = [] }

assembled_stock_unread_example :
    ((cache_activity_sku_stock_count (assembled_stock_count_key (pos 9)) (pos 5)
        >> subtraction_activity_sku_stock (pos 9) (pos 7) "u1" (pos 1700000000))
      fresh).0
    ≡ err parse_failed
assembled_stock_unread_example =
    assembled_stock_unread (pos 9) (pos 5) (pos 7) "u1" (pos 1700000000) fresh (omega arith) refl
      refl
