-- ===== src/Base/Outcome.antt =====
-- What a call returns: a value, one of the program's errors, or a panic. Stateful code is an
-- action: what was written before an error stays written, so the state comes back beside it.
use Prim.Native.String.{String}
use mathlib.Core.Path.{◌≡◌, refl}
use mathlib.Core.Option.{Option, none, some}

-- The error values of the error.go files; `duplicate_entry` is MySQL's error for a unique index, as
-- gorm passes it on: it is opened without TranslateError, so that gorm.ErrDuplicatedKey is never
-- returned; `driver` is an error of MySQL, Redis or a queue, and `message` one that is built by
-- fmt.Errorf or errors.New.
pub data Error : Type 0 where
  rule_tree_invalid rate_range_failed rate_range_invalid random_val_gen_failed : Error
  award_assemble_failed black_list_config_invalid black_list_config_parse_failed : Error
  rule_weight_config_invalid rule_weight_value_invalid_format : Error
  activity_state_error activity_time_error activity_quota_error : Error
  activity_account_day_count_surplus_not_enough : Error
  activity_account_month_count_surplus_not_enough : Error
  activity_stock_error activity_sku_stock_error invalid_params : Error
  db_router_error db_index_duplicate duplicate_entry record_not_found
        clear_activity_sku_stock_error :
      Error
  cache_miss parse_failed driver : Error
  message : String → Error

pub data Outcome {ℓ} (A : Type ℓ) : Type ℓ where
  ok : A → Outcome A
  err : Error → Outcome A
  panics : Outcome A

abbrev pub Exec {ℓ} : Type ℓ → Type ℓ → Type ℓ
Exec S A = S → Outcome A × S

module _ {ℓ} {S A : Type ℓ} where
  abbrev pub pure : A → Exec S A
  pure a s = (ok a, s)

  abbrev pub fail : Error → Exec S A
  fail e s = (err e, s)

  abbrev pub panic : Exec S A
  panic s = (panics, s)

  -- a value that was computed without the state
  abbrev pub lift : Outcome A → Exec S A
  lift r s = (r, s)

  -- a nil pointer that is dereferenced panics
  abbrev pub deref : Option A → Exec S A
  deref none = panic
  deref (some a) = pure a

module _ {ℓ} {S A B : Type ℓ} where
  abbrev pub resume : Outcome A → (A → Exec S B) → Exec S B
  resume (ok a) f s = f a s
  resume (err e) f s = (err e, s)
  resume panics f s = (panics, s)

  infixl 5 ◌>>=◌ ◌>>◌
  abbrev pub ◌>>=◌ : Exec S A → (A → Exec S B) → Exec S B
  ◌>>=◌ m f s = let (r, s') = m s in resume r f s'

  abbrev pub ◌>>◌ : Exec S A → Exec S B → Exec S B
  m >> n = m >>= λ _. n

-- `return ErrX.WithCause(err)`: an error of the call is replaced.
abbrev pub as_error {ℓ} : {A : Type ℓ} → Error → Outcome A → Outcome A
as_error e (ok a) = ok a
as_error e (err _) = err e
as_error e panics = panics

abbrev pub with_cause {ℓ} : {S A : Type ℓ} → Error → Exec S A → Exec S A
with_cause e m s = let (r, s') = m s in (as_error e r, s')

-- What holds of the value, if one is returned.
abbrev pub Post {ℓ κ} : {A : Type ℓ} → (A → Type κ) → Outcome A → Type κ
Post P (ok a) = P a
Post P (err e) = Unit
Post P panics = Unit

pub Post-all {ℓ κ} : {A : Type ℓ} (P : A → Type κ) → ((a : A) → P a) → (r : Outcome A) → Post P r
Post-all P h (ok a) = h a
Post-all P h (err e) = tt
Post-all P h panics = tt

module _ {ℓ κ μ} {S A B : Type ℓ} (P : A → Type κ) (Q : B → Type μ) where
  pub Post-resume :
      (r : Outcome A) (f : A → Exec S B) (s : S)
      → Post P r
      → ((a : A) → P a → Post Q (f a s).0)
      → Post Q (resume r f s).0
  Post-resume (ok a) f s p h = h a p
  Post-resume (err e) f s p h = tt
  Post-resume panics f s p h = tt

module _ {ℓ κ} {S A B : Type ℓ} (P : A → Type κ) where
  -- two continuations that agree on what can be returned
  pub resume_agree :
      (r : Outcome A) (f g : A → Exec S B) (s : S)
      → Post P r
      → ((a : A) → P a → f a s ≡ g a s)
      → resume r f s ≡ resume r g s
  resume_agree (ok a) f g s p h = h a p
  resume_agree (err e) f g s p h = refl
  resume_agree panics f g s p h = refl
