-- ===== src/Activity/Sku/Assembly.antt =====
-- internal/biz/activity/stock.go, assembleActivitySkuByActivityId: the stocks of an activity's skus,
-- copied to Redis. A slice or a pointer that may be nil is an Option.
use lucky_market.Base.{Bool, true, false, Option, none, some, List, [], ◌∷◌}
use lucky_market.Base.Int.{ℤ}
use lucky_market.Base.Outcome.{Exec, ok, pure, ◌>>=◌, ◌>>◌}
use lucky_market.Activity.Model.{Activity, ActivitySku, ActivityCount}
use lucky_market.Activity.Sku.{SkuStore, assembled_stock_count_key, cache_activity_sku_stock_count}

-- the queries of the interface Repo that the assembly calls
pub record AssemblyQueries (T : Type 0) : Type 0 where
  pub query_activity_sku_by_activity_id : ℤ → Exec SkuStore (Option (List ActivitySku))
  pub query_raffle_activity_count_by_activity_count_id : ℤ → Exec SkuStore (Option ActivityCount)
  pub query_raffle_activity_by_activity_id : ℤ → Exec SkuStore (Option (Activity T))

-- the error of the call is dropped
unfoldable pub cache_stock_count : ℤ → ℤ → Exec SkuStore (Unit {0})
unfolding cache_activity_sku_stock_count
cache_stock_count sku count s =
    let (r, s') = cache_activity_sku_stock_count (assembled_stock_count_key sku) count s in
    (ok tt, s')

abbrev pub with_count : Option ActivityCount → Exec SkuStore Bool → Exec SkuStore Bool
with_count none rest = pure false
with_count (some count) rest = rest

abbrev pub is_found : {A : Type 0} → Option A → Bool
is_found none = false
is_found (some a) = true

module _ {T : Type 0} (queries : AssemblyQueries T) where
  -- the loop over the skus, and the query behind it
  unfoldable pub assemble_skus : ℤ → List ActivitySku → Exec SkuStore Bool
  unfolding cache_stock_count
  assemble_skus activity_id [] =
      queries.query_raffle_activity_by_activity_id activity_id >>= λ activity.
      pure (is_found activity)
  assemble_skus activity_id (sku ∷ skus) =
      cache_stock_count sku.sku sku.stock_count
      >> (queries.query_raffle_activity_count_by_activity_count_id sku.activity_count_id
          >>= λ count. with_count count (assemble_skus activity_id skus))

  abbrev pub assemble_found : ℤ → Option (List ActivitySku) → Exec SkuStore Bool
  assemble_found activity_id none = pure false
  assemble_found activity_id (some skus) = assemble_skus activity_id skus

  unfoldable pub assemble_activity_sku_by_activity_id : ℤ → Exec SkuStore Bool
  unfolding assemble_skus
  assemble_activity_sku_by_activity_id activity_id =
      queries.query_activity_sku_by_activity_id activity_id >>= assemble_found activity_id
