-- ===== src/Strategy/AwardStock.antt =====
-- internal/data/strategy.go, SubtractionAwardStock and UpdateStrategyAwardStock: the stock of one
-- award of one strategy. In Redis it is a counter, nil until somebody sets it, and one lock for each
-- value that the counter went through; the lock's key ends in that value. In MySQL it is a row.
pub mod Oversell
pub mod Unset
use lucky_market.Base.{
  ℕ, zero, suc, ◌-◌, String, Bool, true, false, ◌||◌, Option, none, some, List, [], ◌∷◌,
  if◌then◌else◌, ltb, ◌≡◌, refl,
}
use lucky_market.Base.Int.{ℤ, pos, negsuc, ◌-ℤ◌, ltb_ℤ, eqb_ℤ}
use lucky_market.Base.Outcome.{Exec, Outcome, ok, err, pure, fail, ◌>>=◌, ◌>>◌, driver, message}

pub record AwardStock : Type 0 where
  -- Redis: the key of GetStrategyAwardCountKey
  pub surplus : Option ℤ
  -- Redis: the values whose lock key exists
  pub locks : List ℤ
  -- MySQL: award_count_surplus, if the row exists
  pub award_count_surplus : Option ℤ
  pub faults : List Bool

abbrev pub after_fault : List Bool → AwardStock → Outcome (Unit {0}) × AwardStock
after_fault [] s = (ok tt, s)
after_fault (true ∷ fs) s = (err driver, record s { faults = fs })
after_fault (false ∷ fs) s = (ok tt, record s { faults = fs })

-- a command that reaches its server, or does not
unfoldable pub call : Exec AwardStock (Unit {0})
call s = after_fault s.faults s

-- DECR takes a missing key for 0
abbrev pub counted : Option ℤ → ℤ
counted none = pos 0
counted (some n) = n

unfoldable pub decremented : Option ℤ → ℤ
decremented n = counted n -ℤ pos 1

unfoldable pub decr : Exec AwardStock ℤ
unfolding call decremented
decr =
    call >> λ s. (ok (decremented s.surplus), record s { surplus = some (decremented s.surplus) })

unfoldable pub is_locked : ℤ → List ℤ → Bool
is_locked v [] = false
is_locked v (w ∷ ws) = eqb_ℤ w v || is_locked v ws

-- SETNX of the lock of the value `v`; it expires after 24 hours, which is a step of its own in Oversell
unfoldable pub take_lock : ℤ → AwardStock → Outcome Bool × AwardStock
unfolding is_locked
take_lock v s =
    if is_locked v s.locks then (ok false, s) else (ok true, record s { locks = v ∷ s.locks })

unfoldable pub set_nx : ℤ → Exec AwardStock Bool
unfolding call take_lock
set_nx v = call >> take_lock v

unfoldable pub lock_surplus : ℤ → Exec AwardStock Bool
unfolding set_nx
lock_surplus surplus = if ltb_ℤ surplus (pos 0) then pure false else set_nx surplus

unfoldable pub subtraction_award_stock : Exec AwardStock Bool
unfolding decr lock_surplus
subtraction_award_stock = do surplus ← decr; lock_surplus surplus

-- UPDATE … SET award_count_surplus = award_count_surplus - 1 WHERE award_count_surplus > 0
abbrev pub consumed : Option ℤ → Option ℤ
consumed none = none
consumed (some n) = if ltb_ℤ (pos 0) n then some (n -ℤ pos 1) else none

abbrev pub consume_row : Option ℤ → AwardStock → Outcome (Unit {0}) × AwardStock
consume_row none s = (err (message "no stock to consume or record not found"), s)
consume_row (some n) s = (ok tt, record s { award_count_surplus = some n })

unfoldable pub update_strategy_award_stock : Exec AwardStock (Unit {0})
unfolding call
update_strategy_award_stock = call >> λ s. consume_row (consumed s.award_count_surplus) s
