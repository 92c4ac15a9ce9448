-- ===== src/Activity/Sku/StockZero.antt =====
-- What the listener of the stocks that ran out answers.
use lucky_market.Base.{Bool, true, false, some, List, [], ◌∷◌, map, ◌≡◌, refl, ap, ◌∙◌}
use lucky_market.Base.Outcome.{Outcome, ok, message, clear_activity_sku_stock_error}
use lucky_market.Activity.Recharge.{Handled, handled}
use lucky_market.Activity.Sku.Table.{
  SkuDb, command, StockEvent, unreadable, sku_number, other_data, clear_activity_sku_stock,
  handle_stock_zero,
}

-- messages one after the other, and what the listener answers to each
unfoldable pub listen : List StockEvent → SkuDb → List (Outcome Handled) × SkuDb
listen [] s = ([], s)
listen (e ∷ es) s =
    let (r, s1) = handle_stock_zero e s in let (rs, s') = listen es s1 in (r ∷ rs, s')

-- a message that names a sku is to be delivered again, any other is dropped
abbrev pub refusal : StockEvent → Outcome Handled
refusal unreadable = ok (handled false (some (message "unmarshal failed")))
refusal (sku_number sku) = ok (handled true (some clear_activity_sku_stock_error))
refusal other_data = ok (handled false (some (message "invalid data type for sku")))

abbrev pub IsUntouched : SkuDb → SkuDb → Type 0
IsUntouched s s' = (s'.skus ≡ s.skus) × (s'.queue ≡ s.queue)

answer-IsUntouched :
    (e : StockEvent) (s : SkuDb)
    → let (r, s1) = handle_stock_zero e s in (r ≡ refusal e) × IsUntouched s s1
unfolding handle_stock_zero clear_activity_sku_stock command
answer-IsUntouched unreadable s = (refl, (refl, refl))
answer-IsUntouched other_data s = (refl, (refl, refl))
answer-IsUntouched (sku_number sku) s = go s.faults refl
  where
    go :
        (fs : List Bool)
        → s.faults ≡ fs
        → let (r, s1) = handle_stock_zero (sku_number sku) s in
          (r ≡ refusal (sku_number sku)) × IsUntouched s s1
    go [] e = rw e (refl, (refl, refl))
    go (true ∷ fs) e = rw e (refl, (refl, refl))
    go (false ∷ fs) e = rw e (refl, (refl, refl))

-- Whichever messages arrive and whichever commands fail: the listener refuses every message, asks for
-- each that names a sku again, and leaves the rows of the skus and the queue of the stocks as they were.
pub stock_zero_refused :
    (es : List StockEvent) (s : SkuDb)
    → let (rs, s') = listen es s in (rs ≡ map refusal es) × IsUntouched s s'
unfolding listen
stock_zero_refused [] s = (refl, (refl, refl))
stock_zero_refused (e ∷ es) s =
    let s1 = (handle_stock_zero e s).1 in
    let (answer, (skus, queue)) = answer-IsUntouched e s in
    let (answers, (skus', queue')) = stock_zero_refused es s1 in
    (
      ap (λ r. r ∷ (listen es s1).0) answer ∙ ap (λ rs. refusal e ∷ rs) answers,
      (skus' ∙ skus, queue' ∙ queue),
    )
