-- ===== src/Strategy/Pools.antt =====
-- internal/data/strategy.go, the assembled prize pools in Redis: StoreStrategyAwardPool,
-- GetRateRange and GetStrategyAwardAssemble. A hash is a function from fields to texts. Each call
-- of Redis takes the next entry of `faults`, and fails where it says so; expiry is not modelled.
pub mod Draw
use lucky_market.Base.{
  ℕ, String, Bool, true, false, Option, none, some, List, [], ◌∷◌, str_eq, if◌then◌else◌,
}
use lucky_market.Base.Int.{ℤ, pos}
use lucky_market.Base.Outcome.{
  Exec, Outcome, ok, err, pure, fail, lift, ◌>>=◌, ◌>>◌, cache_miss, driver, parse_failed,
}
use lucky_market.Text.{format_int, parse_int}
use lucky_market.Strategy.Repo.{PoolRepo}

abbrev pub Hash : Type 0
Hash = String → Option String

pub record PoolStore : Type 0 where
  pub ranges : String → Option ℤ
  pub tables : String → Hash
  pub faults : List Bool

abbrev pub after_fault : List Bool → PoolStore → Outcome (Unit {0}) × PoolStore
after_fault [] s = (ok tt, s)
after_fault (true ∷ fs) s = (err driver, record s { faults = fs })
after_fault (false ∷ fs) s = (ok tt, record s { faults = fs })

-- a command that reaches Redis, or does not
unfoldable pub redis_call : Exec PoolStore (Unit {0})
redis_call s = after_fault s.faults s

module _ {ℓ} {V : Type ℓ} where
  abbrev pub put : String → V → (String → V) → String → V
  put k v m j = if str_eq k j then v else m j

-- HSET key field value …
unfoldable pub hset : List (ℕ × ℤ) → Hash → Hash
hset [] h = h
hset ((k, v) ∷ values) h = put (format_int (pos k)) (some (format_int v)) (hset values h)

unfoldable pub set_range : String → ℤ → Exec PoolStore (Unit {0})
unfolding redis_call
set_range id range = redis_call >> λ s. (ok tt, record s { ranges = put id (some range) s.ranges })

-- HSET with no field is an error of Redis
unfoldable pub set_table : String → List (ℕ × ℤ) → Exec PoolStore (Unit {0})
unfolding redis_call hset
set_table id [] = fail driver
set_table id (v ∷ values) = redis_call >> λ s.
    (ok tt, record s { tables = put id (hset (v ∷ values) (s.tables id)) s.tables })

unfoldable pub store_strategy_award_pool : String → ℤ → List (ℕ × ℤ) → Exec PoolStore (Unit {0})
unfolding set_range set_table
store_strategy_award_pool id range values = set_range id range >> set_table id values

abbrev pub or_miss {ℓ} : {A : Type ℓ} → Option A → Outcome A
or_miss none = err cache_miss
or_miss (some a) = ok a

unfoldable pub get_rate_range : String → Exec PoolStore ℤ
unfolding redis_call
get_rate_range id = redis_call >> λ s. (or_miss (s.ranges id), s)

abbrev pub parsed : Option ℤ → Outcome ℤ
parsed none = err parse_failed
parsed (some i) = ok i

unfoldable pub get_strategy_award_assemble : String → ℤ → Exec PoolStore ℤ
unfolding redis_call
get_strategy_award_assemble id random_val = do
  redis_call
  text ← (λ s. (or_miss (s.tables id (format_int random_val)), s))
  lift (parsed (parse_int text))

unfoldable pub redis_pools : PoolRepo PoolStore
redis_pools = record {
  store_strategy_award_pool = store_strategy_award_pool;
  get_rate_range = get_rate_range;
  get_strategy_award_assemble = get_strategy_award_assemble;
}
