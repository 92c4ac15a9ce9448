-- ===== src/Strategy/Chain/PoolKey.antt =====
-- Which assembled pool the weight rule draws from.
use lucky_market.Base.{
  String, false, none, some, ◌≡◌, ◌↔◌, refl, ap, sym, ◌∙◌, inl, inr, str_eq, eq_iff, Bool-cases,
}
use lucky_market.Base.Int.{ℤ}
use lucky_market.Base.Outcome.{Exec}
use lucky_market.Text.{concat, format_int, parse_int}
use lucky_market.Text.RoundTrip.{IsInt64, parse_int-format_int}
use lucky_market.Strategy.Repo.{PoolRepo, Runtime}
use lucky_market.Strategy.Armory.{
  weight_pool_id, get_random_award_id, get_random_award_id_with_weight,
}

concat-injective : (s t u : String) → concat s t ≡ concat s u → t ≡ u
unfolding concat
concat-injective String.[] t u e = e
concat-injective (String.◌∷◌ c s) t u e = concat-injective s t u (cc e)

format_int_not_empty : (k : ℤ) → IsInt64 k → str_eq (format_int k) "" ≡ false
format_int_not_empty k h = elim (Bool-cases (str_eq (format_int k) "")) [
  | inl e ↦
      let lost : none ≡ some k =
        unfold parse_int in
        (ap parse_int (sym ((eq_iff (format_int k) "").0 e)) ∙ parse_int-format_int k h) in
      cc
  | inr e ↦ e
]

-- For an int64 weight `k` the draw reads the pool whose id is assembled from the text of `k`, and the
-- pool of a configured key text is that pool exactly if the key is that text: a key such as "04000" or
-- "+4000" names the same weight and another pool.
pub weight_pool_exactly :
    {F S : Type 0} (rt : Runtime F) (pools : PoolRepo S) (random_int : ℤ → Exec S ℤ)
    (strategy_id k : ℤ) (key : String)
    → IsInt64 k
    → (get_random_award_id_with_weight pools random_int strategy_id (format_int k)
        ≡ get_random_award_id pools random_int
            (weight_pool_id rt (format_int strategy_id) (format_int k)))
      × ((weight_pool_id rt (format_int strategy_id) key
            ≡ weight_pool_id rt (format_int strategy_id) (format_int k))
          ↔ (key ≡ format_int k))
unfolding get_random_award_id_with_weight weight_pool_id
weight_pool_exactly rt pools random_int strategy_id k key h = (
  rw (format_int_not_empty k h) refl,
  (
    (λ e.
        concat-injective "_" key (format_int k) (
          concat-injective (format_int strategy_id) (concat "_" key) (concat "_" (format_int k))
            e)),
    λ e. ap (λ (t : String). concat (format_int strategy_id) (concat "_" t)) e,
  ),
)
