-- ===== src/Activity/Sku/Stocked.antt =====
-- What an assembly of skus leaves in Redis.
use lucky_market.Base.{
  String, Bool, true, Option, none, some, List, [], ◌∷◌, ◌≡◌, refl, ap, ◌∙◌, inl, inr, str_eq,
  if◌then◌else◌, Bool-cases,
}
use lucky_market.Base.Int.{ℤ}
use lucky_market.Base.Outcome.{Exec, Outcome, ok, err, panics, resume, pure}
use lucky_market.Activity.Model.{ActivitySku, ActivityCount}
use lucky_market.Activity.Sku.{
  SkuStore, call, kept_value, assembled_stock_count_key, cache_activity_sku_stock_count,
}
use lucky_market.Activity.Sku.Assembly.{
  AssemblyQueries, cache_stock_count, with_count, is_found, assemble_skus,
  assemble_activity_sku_by_activity_id,
}

-- the queries write nothing
pub record ReadOnly {T : Type 0} (queries : AssemblyQueries T) : Type 0 where
  pub reads_skus : (n : ℤ) (s : SkuStore) → (queries.query_activity_sku_by_activity_id n s).1 ≡ s
  pub reads_count :
      (n : ℤ) (s : SkuStore) → (queries.query_raffle_activity_count_by_activity_count_id n s).1 ≡ s
  pub reads_activity :
      (n : ℤ) (s : SkuStore) → (queries.query_raffle_activity_by_activity_id n s).1 ≡ s

-- the count of the first of the skus whose stock is assembled under the key
abbrev pub first_count : String → List ActivitySku → Option ℤ
first_count key [] = none
first_count key (row ∷ rows) =
    let rest = first_count key rows in
    if str_eq (assembled_stock_count_key row.sku) key then some row.stock_count else rest

-- what was there, or the other
abbrev pub kept_or : Option ℤ → Option ℤ → Option ℤ
kept_or (some n) other = some n
kept_or none other = other

kept_or-none : (o : Option ℤ) → o ≡ kept_or o none
kept_or-none none = refl
kept_or-none (some n) = refl

kept_value-kept_or : (o : Option ℤ) (n : ℤ) → kept_value o n ≡ kept_or o (some n)
kept_value-kept_or none n = refl
kept_value-kept_or (some old) n = refl

kept_or-kept_or : (a b c : Option ℤ) → kept_or (kept_or a b) c ≡ kept_or a (kept_or b c)
kept_or-kept_or none b c = refl
kept_or-kept_or (some n) b c = refl

-- an assembly of these skus
abbrev IsAssembled : List ActivitySku → SkuStore → Outcome Bool × SkuStore → Type 0
IsAssembled skus s (r, s') =
    s.faults ≡ []
    → r ≡ ok true
    → (key : String) → s'.stocks key ≡ kept_or (s.stocks key) (first_count key skus)

cached :
    (row : ActivitySku) (s : SkuStore)
    → s.faults ≡ []
    → let s1 = (cache_stock_count row.sku row.stock_count s).1 in
      (s1.faults ≡ [])
      × ((key : String) → s1.stocks key ≡ kept_or (s.stocks key) (first_count key (row ∷ [])))
unfolding cache_stock_count cache_activity_sku_stock_count call
cached row s healthy = rw healthy (
  refl,
  λ key. elim (Bool-cases (str_eq (assembled_stock_count_key row.sku) key)) [
    | inl same ↦ rw same (kept_value-kept_or (s.stocks key) row.stock_count)
    | inr other ↦ rw other (kept_or-none (s.stocks key))
  ],
)

first_cons :
    (key : String) (row : ActivitySku) (rows : List ActivitySku)
    → kept_or (first_count key (row ∷ [])) (first_count key rows) ≡ first_count key (row ∷ rows)
first_cons key row rows = elim (Bool-cases (str_eq (assembled_stock_count_key row.sku) key)) [
  | inl same ↦ rw same refl
  | inr other ↦ rw other refl
]

module _ {T : Type 0} (queries : AssemblyQueries T) (read : ReadOnly queries)
    (activity_id : ℤ) where
  after_query :
      {A : Type 0} (skus : List ActivitySku) (m : Exec SkuStore A) (f : A → Exec SkuStore Bool)
      (s : SkuStore)
      → (m s).1 ≡ s
      → ((a : A) → IsAssembled skus s (f a s))
      → IsAssembled skus s (resume (m s).0 f (m s).1)
  after_query {A} skus m f s same h = rw same (go (m s).0)
    where
      go : (r : Outcome A) → IsAssembled skus s (resume r f s)
      go (ok a) = h a
      go (err e) = λ healthy is. cc
      go panics = λ healthy is. cc

  assembled :
      (skus : List ActivitySku) (s : SkuStore)
      → IsAssembled skus s (assemble_skus queries activity_id skus s)
  unfolding assemble_skus cache_stock_count
  assembled [] s =
      after_query [] (queries.query_raffle_activity_by_activity_id activity_id)
        (λ activity. pure (is_found activity)) s (read.reads_activity activity_id s)
        (λ activity healthy is key. kept_or-none (s.stocks key))
  assembled (row ∷ skus) s = joined inner.0 inner.1 (
      after_query skus
        (queries.query_raffle_activity_count_by_activity_count_id row.activity_count_id)
        (λ count. with_count count (assemble_skus queries activity_id skus)) s1
        (read.reads_count row.activity_count_id s1) (rest (assembled skus s1)))
    where
      s1 : SkuStore
      s1 = (cache_stock_count row.sku row.stock_count s).1

      inner : Outcome Bool × SkuStore
      inner =
          resume
            (queries.query_raffle_activity_count_by_activity_count_id row.activity_count_id s1).0
            (λ count. with_count count (assemble_skus queries activity_id skus))
            (queries.query_raffle_activity_count_by_activity_count_id row.activity_count_id s1).1

      rest :
          IsAssembled skus s1 (assemble_skus queries activity_id skus s1)
          → (count : Option ActivityCount)
          → IsAssembled skus s1 (with_count count (assemble_skus queries activity_id skus) s1)
      rest h none = λ healthy is. cc
      rest h (some count) = h

      joined :
          (r : Outcome Bool) (s' : SkuStore)
          → IsAssembled skus s1 (r, s')
          → IsAssembled (row ∷ skus) s (r, s')
      joined r s' later healthy is key =
          let (healthy', first) = cached row s healthy in
          later healthy' is key
          ∙ ap (λ o. kept_or o (first_count key skus)) (first key)
          ∙ kept_or-kept_or (s.stocks key) (first_count key (row ∷ [])) (first_count key skus)
          ∙ ap (kept_or (s.stocks key)) (first_cons key row skus)

-- Where the queries write nothing, and no command fails: behind an assembly of an activity's skus that
-- answers true, Redis has every stock that it had, as it was, and under the key of the assembly of each
-- other sku that the query found the stock count of that sku, of the first with the key; and no other.
pub assembly_stocks :
    {T : Type 0} (queries : AssemblyQueries T) (activity_id : ℤ) (skus : List ActivitySku)
    (s : SkuStore)
    → ReadOnly queries
    → (queries.query_activity_sku_by_activity_id activity_id s).0 ≡ ok (some skus)
    → s.faults ≡ []
    → (assemble_activity_sku_by_activity_id queries activity_id s).0 ≡ ok true
    → (key : String)
    → (assemble_activity_sku_by_activity_id queries activity_id s).1.stocks key
      ≡ kept_or (s.stocks key) (first_count key skus)
unfolding assemble_activity_sku_by_activity_id
assembly_stocks queries activity_id skus s read found healthy true_is = whole healthy true_is
  where
    whole : IsAssembled skus s (assemble_activity_sku_by_activity_id queries activity_id s)
    whole = rw (found, read.reads_skus activity_id s) (assembled queries read activity_id skus s)
