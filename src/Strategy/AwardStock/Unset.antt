-- ===== src/Strategy/AwardStock/Unset.antt =====
-- The stock counter of an award before anybody sets it.
use lucky_market.Base.{ℕ, zero, suc, ◌≡◌, refl, arith, none, true, Bool}
use lucky_market.Base.Int.{pos, ◌≤ℤ◌, -ℤ_parts}
use lucky_market.Base.Outcome.{Outcome, ok}
use lucky_market.Strategy.AwardStock.{AwardStock, counted, subtraction_award_stock}

abbrev grant : Outcome Bool → ℕ → ℕ
grant (ok true) n = suc n
grant _ n = n

-- Without interleaving: how many of `k` requests in a row are granted.
pub grants : ℕ → AwardStock → ℕ
grants zero s = 0
grants (suc k) s = let (r, s') = subtraction_award_stock s in grant r (grants k s')

below_zero :
    (s : AwardStock)
    → counted s.surplus ≤ℤ pos 0
    → (counted (subtraction_award_stock s).1.surplus ≤ℤ pos 0)
      × (grant (subtraction_award_stock s).0 0 ≡ 0)
unfolding subtraction_award_stock
below_zero s h = ground (arith, -ℤ_parts (counted s.surplus) (pos 1))

grants_below_zero : (k : ℕ) (s : AwardStock) → counted s.surplus ≤ℤ pos 0 → grants k s ≡ 0
unfolding grants
grants_below_zero zero s h = refl
grants_below_zero (suc k) s h =
    let (le, refused) = below_zero s h in
    rw (grants_below_zero k (subtraction_award_stock s).1 le) refused

-- A counter that nobody has set grants nothing: each of any number of requests is refused or fails.
pub unset_grants_nothing : (k : ℕ) (s : AwardStock) → s.surplus ≡ none → grants k s ≡ 0
unset_grants_nothing k s h = grants_below_zero k s (rw h (omega arith))
