-- ===== src/Auth/Defaults.antt =====
-- The defaults of the options of internal/server/middleware/auth.go.
use lucky_market.Base.{Bool, true, false, ◌≡◌, refl}
use lucky_market.Auth.{
  Time, AuthOptions, or_true, session_defaults, gateway_defaults, with_defaults,
}

or_true-true : (b : Bool) → or_true b ≡ true
or_true-true true = refl
or_true-true false = refl

-- whatever the options say, a session and a gateway info need a device and an expiration
pub with_defaults-required :
    {W K : Type 0} (t : Time) (o : AuthOptions W K)
    → ((with_defaults t o).session.require_device ≡ true)
      × ((with_defaults t o).session.require_expires ≡ true)
      × ((with_defaults t o).gateway.require_device ≡ true)
      × ((with_defaults t o).gateway.require_expires ≡ true)
unfolding with_defaults session_defaults gateway_defaults
with_defaults-required t o = (
  or_true-true o.session.require_device,
  or_true-true o.session.require_expires,
  or_true-true o.gateway.require_device,
  or_true-true o.gateway.require_expires,
)
