-- ===== src/Activity/Sku/Table.antt =====
-- The stock of skus in MySQL: UpdateActivitySkuStock, ClearActivitySkuStock and ClearQueueValue of
-- internal/data/activity_quota.go, the job of internal/job/activity_sku_stock_consume.go and the handler
-- of internal/listener/activity_stock_listener.go.
use lucky_market.Base.{
  Bool, true, false, not, ◌&&◌, Option, none, some, List, [], ◌∷◌, map, if◌then◌else◌,
}
use lucky_market.Base.Int.{ℤ, pos, ◌-ℤ◌, leb_ℤ, eqb_ℤ}
use lucky_market.Base.Outcome.{
  Exec, Outcome, ok, err, panics, pure, fail, panic, ◌>>◌, driver, message,
  clear_activity_sku_stock_error,
}
use lucky_market.Activity.Model.{ActivitySku, ActivitySkuStockKey}
use lucky_market.Activity.Recharge.{Handled, handled}

-- `skus` is raffle_activity_sku; `stocks` is the table raffle_activity_sku_stock, by sku and surplus. A
-- queue that was never used is not found.
pub record SkuDb : Type 0 where
  pub skus : List ActivitySku
  pub stocks : List (ℤ × ℤ)
  pub queue : Option (List ActivitySkuStockKey)
  pub has_inspector : Bool
  pub faults : List Bool

abbrev pub reached : List Bool → SkuDb → Outcome (Unit {0}) × SkuDb
reached [] s = (ok tt, s)
reached (true ∷ fs) s = (err driver, record s { faults = fs })
reached (false ∷ fs) s = (ok tt, record s { faults = fs })

-- a command that reaches its server, or does not
unfoldable pub command : Exec SkuDb (Unit {0})
command s = reached s.faults s

-- … WHERE sku = ? AND stock_count_surplus > 0
unfoldable pub take_unit : ℤ → ActivitySku → ActivitySku
take_unit sku row =
    if eqb_ℤ row.sku sku && not (leb_ℤ row.stock_count_surplus (pos 0))
    then record row { stock_count_surplus = row.stock_count_surplus -ℤ pos 1 }
    else row

unfoldable pub update_activity_sku_stock : ℤ → Exec SkuDb (Unit {0})
unfolding command take_unit
update_activity_sku_stock sku =
    command >> λ s. (ok tt, record s { skus = map (take_unit sku) s.skus })

-- the payload, where it can be read
abbrev pub updated : Outcome (Unit {0}) → Exec SkuDb (Unit {0})
updated (ok u) = pure tt
updated (err e) = fail (message "failed to update activity sku stock")
updated panics = panic

unfoldable pub process_task : Option ActivitySkuStockKey → Exec SkuDb (Unit {0})
unfolding update_activity_sku_stock
process_task none s = fail (message "failed to unmarshal payload") s
process_task (some key) s = let (r, s') = update_activity_sku_stock key.sku s in updated r s'

abbrev pub clear_surplus : ℤ → ℤ × ℤ → ℤ × ℤ
clear_surplus sku (n, surplus) = if eqb_ℤ n sku then (n, pos 0) else (n, surplus)

-- what is compared with nil is the *gorm.DB of the statement, which is none
unfoldable pub clear_activity_sku_stock : ℤ → Exec SkuDb (Unit {0})
unfolding command
clear_activity_sku_stock sku s =
    let (r, s') =
      (command >> (λ t. (ok tt, record t { stocks = map (clear_surplus sku) t.stocks }))) s in
    (err clear_activity_sku_stock_error, s')

-- DeleteQueue; the error for a queue that is not found is taken for success
unfoldable pub clear_queue_value : Exec SkuDb (Unit {0})
unfolding command
clear_queue_value s =
    if s.has_inspector then ((command >> λ t. (ok tt, record t { queue = none })) s) else (ok tt, s)

-- the body of a message: the data is a number, which is cut to an int64, or anything else
pub data StockEvent : Type 0 where
  unreadable : StockEvent
  sku_number : ℤ → StockEvent
  other_data : StockEvent

abbrev pub after_queue : Outcome (Unit {0}) → Exec SkuDb Handled
after_queue (ok u) = pure (handled false none)
after_queue (err e) = pure (handled true (some e))
after_queue panics = panic

abbrev pub after_clear : Outcome (Unit {0}) → Exec SkuDb Handled
after_clear (ok u) s = let (r, s') = clear_queue_value s in after_queue r s'
after_clear (err e) s = (ok (handled true (some e)), s)
after_clear panics s = (panics, s)

-- ActivityStockListener.Handle
unfoldable pub handle_stock_zero : StockEvent → Exec SkuDb Handled
unfolding clear_queue_value clear_activity_sku_stock
handle_stock_zero unreadable s = pure (handled false (some (message "unmarshal failed"))) s
handle_stock_zero other_data s = pure (handled false (some (message "invalid data type for sku"))) s
handle_stock_zero (sku_number sku) s =
    let (r, s') = clear_activity_sku_stock sku s in after_clear r s'
