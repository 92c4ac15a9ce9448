-- ===== src/Activity/Sku/Consumed.antt =====
-- What the job of the stock of skus leaves in the table.
use lucky_market.Base.{
  ℕ, suc, ◌-◌, Bool, true, false, not, some, List, [], ◌∷◌, map, ◌≡◌, refl, ap, sym, ◌∙◌, inl, inr,
  Bool-cases, if◌then◌else◌, arith,
}
use lucky_market.Base.Int.{ℤ, pos, negsuc, ◌-ℤ◌, leb_ℤ, eqb_ℤ}
use lucky_market.Base.Outcome.{Outcome, ok, err, panics}
use lucky_market.Activity.Model.{ActivitySku, ActivitySkuStockKey}
use lucky_market.Activity.Sku.Table.{
  SkuDb, command, take_unit, update_activity_sku_stock, process_task,
}

-- the jobs of some keys one after the other, and the keys of those that succeeded
abbrev pub with_done :
    Outcome (Unit {0}) → ActivitySkuStockKey → List ActivitySkuStockKey → List ActivitySkuStockKey
with_done (ok u) key done = key ∷ done
with_done (err e) key done = done
with_done panics key done = done

unfoldable pub consume : List ActivitySkuStockKey → SkuDb → List ActivitySkuStockKey × SkuDb
consume [] s = ([], s)
consume (key ∷ keys) s =
    let (r, s1) = process_task (some key) s in
    let (done, s') = consume keys s1 in (with_done r key done, s')

unfoldable pub times : ℤ → List ActivitySkuStockKey → ℕ
times sku [] = 0
times sku (key ∷ keys) = let rest = times sku keys in if eqb_ℤ sku key.sku then suc rest else rest

-- `n` units less, but not below 0
abbrev pub less : ℕ → ℤ → ℤ
less n (pos m) = pos (m - n)
less n (negsuc m) = negsuc m

abbrev pub sold_of : List ActivitySkuStockKey → ActivitySku → ActivitySku
sold_of done row = record row {
  stock_count_surplus = less (times row.sku done) row.stock_count_surplus;
}

less_zero : (n : ℤ) → less 0 n ≡ n
less_zero (pos m) = ap pos (omega arith)
less_zero (negsuc m) = refl

less_step :
    (k : ℕ) (n : ℤ) → less k (if not (leb_ℤ n (pos 0)) then n -ℤ pos 1 else n) ≡ less (suc k) n
unfolding ◌-ℤ◌
less_step k (pos m) = ground arith
less_step k (negsuc m) = ground arith

sold_step :
    (key : ActivitySkuStockKey) (done : List ActivitySkuStockKey) (row : ActivitySku)
    → sold_of done (take_unit key.sku row) ≡ sold_of (key ∷ done) row
unfolding take_unit times
sold_step key done row = elim (Bool-cases (eqb_ℤ row.sku key.sku)) [
  | inr other ↦ rw other refl
  | inl mine ↦ rw mine (
      taken (not (leb_ℤ row.stock_count_surplus (pos 0)))
      ∙ ap (λ n. record row { stock_count_surplus = n })
          (less_step (times row.sku done) row.stock_count_surplus))
]
  where
    taken :
        (b : Bool)
        → sold_of done (
            if b
            then record row { stock_count_surplus = row.stock_count_surplus -ℤ pos 1 }
            else row)
          ≡ record row {
            stock_count_surplus =
                less
                  (times row.sku done)
                  (if b then row.stock_count_surplus -ℤ pos 1 else row.stock_count_surplus);
          }
    taken true = refl
    taken false = refl

map_ext : {A B : Type 0} (f g : A → B) → ((a : A) → f a ≡ g a) → (xs : List A) → map f xs ≡ map g xs
map_ext f g h [] = refl
map_ext f g h (x ∷ xs) = rw (h x, map_ext f g h xs) refl

map-map :
    {A B C : Type 0} (f : B → C) (g : A → B) (xs : List A)
    → map f (map g xs) ≡ map (λ a. f (g a)) xs
map-map f g [] = refl
map-map f g (x ∷ xs) = rw (map-map f g xs) refl

stepped :
    (key : ActivitySkuStockKey) (done : List ActivitySkuStockKey) (rows : List ActivitySku)
    → map (sold_of done) (map (take_unit key.sku) rows) ≡ map (sold_of (key ∷ done)) rows
stepped key done rows =
    map-map (sold_of done) (take_unit key.sku) rows
    ∙ map_ext (λ row. sold_of done (take_unit key.sku row)) (sold_of (key ∷ done))
        (sold_step key done) rows

unsold : (rows : List ActivitySku) → map (sold_of []) rows ≡ rows
unfolding times
unsold [] = refl
unsold (row ∷ rows) =
    ap (λ n. record row { stock_count_surplus = n } ∷ map (sold_of []) rows)
      (less_zero row.stock_count_surplus)
    ∙ ap (λ x. row ∷ x) (unsold rows)

-- Whatever commands fail: behind the jobs of some keys, a row's surplus is smaller by the number of jobs
-- of its sku that succeeded, but not below 0, and nothing else of the rows is changed.
pub consumed_stock :
    (keys : List ActivitySkuStockKey) (s : SkuDb)
    → let (done, s') = consume keys s in s'.skus ≡ map (sold_of done) s.skus
unfolding consume process_task update_activity_sku_stock command
consumed_stock [] s = sym (unsold s.skus)
consumed_stock (key ∷ keys) s = go s.faults refl (consumed_stock keys)
  where
    go :
        (fs : List Bool)
        → s.faults ≡ fs
        → ((s1 : SkuDb) → let (done, s') = consume keys s1 in s'.skus ≡ map (sold_of done) s1.skus)
        → let (done, s') = consume (key ∷ keys) s in s'.skus ≡ map (sold_of done) s.skus
    go [] e rest =
        let s1 : SkuDb = record s { skus = map (take_unit key.sku) s.skus; faults = [] } in
        rw e (rest s1 ∙ stepped key (consume keys s1).0 s.skus)
    go (false ∷ fs) e rest =
        let s1 : SkuDb = record s { skus = map (take_unit key.sku) s.skus; faults = fs } in
        rw e (rest s1 ∙ stepped key (consume keys s1).0 s.skus)
    go (true ∷ fs) e rest = rw e (rest (record s { faults = fs }))
