-- ===== src/Activity/Store/Runs.antt =====
-- What a statement of a transaction did to the tables, if it succeeded.
use lucky_market.Base.{ℕ, Bool, true, false, Option, none, some, List, [], ◌∷◌, ◌≡◌, refl}
use lucky_market.Base.Outcome.{
  Exec, Outcome, ok, err, panics, Error, Post, resume, pure, ◌>>=◌, ◌>>◌,
}
use lucky_market.Activity.Store.{
  Tables, Store, call, after_fault, select, first, or_missing, update, insert, change_row, add_row,
  refuse_if, transaction, settle,
}

abbrev pub affected : {A : Type 0} → Option A → ℕ
affected none = 0
affected (some a) = 1

-- `P before value after`, whenever the statement returns a value
pub record Runs {T A : Type 0} (P : Tables T → A → Tables T → Type 0) (m : Exec (Store T) A)
    : Type 0 where
  pub runs : (s : Store T) → let (r, s') = m s in Post (λ a. P s.tables a s'.tables) r

abbrev pub failed : {A : Type 0} → Outcome A → Bool
failed (ok a) = false
failed (err e) = true
failed panics = true

module _ {T : Type 0} where
  abbrev pub changed : {A : Type 0} → (A → Tables T → Tables T) → Option A → Tables T → Tables T
  changed g none t = t
  changed g (some a) t = g a t

  abbrev pub Then :
      {A B : Type 0}
      → (Tables T → A → Tables T → Type 0)
      → (A → Tables T → B → Tables T → Type 0)
      → Tables T
      → B
      → Tables T
      → Type 0
  Then {A} P Q t b t' = (a : A) × (t1 : Tables T) × P t a t1 × Q a t1 b t'

  pub >>=-Runs :
      {A B : Type 0} {P : Tables T → A → Tables T → Type 0}
      {Q : A → Tables T → B → Tables T → Type 0} {m : Exec (Store T) A} {n : A → Exec (Store T) B}
      → Runs P m
      → ((a : A) → Runs (Q a) (n a))
      → Runs (Then P Q) (m >>= n)
  >>=-Runs {A} {B} {P} {Q} {m} {n} f g = record { runs = λ s. go s (m s).0 (m s).1 (f.runs s) }
    where
      after :
          (s : Store T) (a : A) (s1 : Store T) (r : Outcome B) (s2 : Store T)
          → P s.tables a s1.tables
          → Post (λ b. Q a s1.tables b s2.tables) r
          → Post (λ b. Then P Q s.tables b s2.tables) r
      after s a s1 (ok b) s2 p q = (a, s1.tables, p, q)
      after s a s1 (err e) s2 p q = tt
      after s a s1 panics s2 p q = tt

      go :
          (s : Store T) (r : Outcome A) (s1 : Store T)
          → Post (λ a. P s.tables a s1.tables) r
          → let (r', s') = resume r n s1 in Post (λ b. Then P Q s.tables b s'.tables) r'
      go s (ok a) s1 p = after s a s1 (n a s1).0 (n a s1).1 p ((g a).runs s1)
      go s (err e) s1 p = tt
      go s panics s1 p = tt

  pub call-Runs : Runs {T = T} (λ t u t'. t' ≡ t) call
  unfolding call
  call-Runs = record { runs = λ s. go s s.faults }
    where
      go :
          (s : Store T) (fs : List Bool)
          → let (r, s') = after_fault fs s in Post (λ a. s'.tables ≡ s.tables) r
      go s [] = refl
      go s (true ∷ fs) = tt
      go s (false ∷ fs) = refl

  pub pure-Runs : Runs {T = T} (λ t u t'. t' ≡ t) (pure tt)
  pure-Runs = record { runs = λ s. refl }

  -- a command whose effect is a function of the state that its server sees
  after_call :
      {A : Type 0} {P : Tables T → A → Tables T → Type 0} {f : Exec (Store T) A}
      → Runs P f
      → Runs P (call >> f)
  unfolding call
  after_call {A} {P} {f} h = record { runs = λ s. go s s.faults }
    where
      go :
          (s : Store T) (fs : List Bool)
          → let (r, s') = after_fault fs s in
            let (r', s'') = resume r (λ _. f) s' in Post (λ a. P s.tables a s''.tables) r'
      go s [] = h.runs s
      go s (true ∷ fs) = tt
      go s (false ∷ fs) = h.runs (record s { faults = fs })

  pub select-Runs :
      {A : Type 0} (f : Tables T → A) → Runs (λ t a t'. (f t ≡ a) × (t' ≡ t)) (select f)
  unfolding select
  select-Runs f = after_call (record { runs = λ s. (refl, refl) })

  pub first-Runs :
      {A : Type 0} (f : Tables T → Option A) → Runs (λ t a t'. (f t ≡ some a) × (t' ≡ t)) (first f)
  unfolding first
  first-Runs {A} f = after_call (record { runs = λ s. go (f s.tables) s })
    where
      go :
          (o : Option A) (s : Store T)
          → Post (λ a. (o ≡ some a) × (s.tables ≡ s.tables)) (or_missing o)
      go none s = tt
      go (some a) s = (refl, refl)

  pub update-Runs :
      {A : Type 0} (f : Tables T → Option A) (g : A → Tables T → Tables T)
      → Runs (λ t n t'. (n ≡ affected (f t)) × (t' ≡ changed g (f t) t)) (update f g)
  unfolding update
  update-Runs {A} f g = after_call (record { runs = λ s. go (f s.tables) s })
    where
      go :
          (o : Option A) (s : Store T)
          → let (r, s') = change_row g o s in
            Post (λ n. (n ≡ affected o) × (s'.tables ≡ changed g o s.tables)) r
      go none s = (refl, refl)
      go (some a) s = (refl, refl)

  pub insert-Runs :
      {A : Type 0} (f : Tables T → Option A) (g : Tables T → Tables T)
      → Runs (λ t u t'. t' ≡ g t) (insert f g)
  unfolding insert
  insert-Runs {A} f g = after_call (record { runs = λ s. go (f s.tables) s })
    where
      go :
          (o : Option A) (s : Store T)
          → let (r, s') = add_row g o s in Post (λ u. s'.tables ≡ g s.tables) r
      go none s = refl
      go (some a) s = tt

  -- the row that is inserted was not there
  pub insert-new-Runs :
      {A : Type 0} (f : Tables T → Option A) (g : Tables T → Tables T)
      → Runs (λ t u t'. (f t ≡ none) × (t' ≡ g t)) (insert f g)
  unfolding insert
  insert-new-Runs {A} f g = after_call (record { runs = λ s. go (f s.tables) s })
    where
      go :
          (o : Option A) (s : Store T)
          → let (r, s') = add_row g o s in Post (λ u. (o ≡ none) × (s'.tables ≡ g s.tables)) r
      go none s = (refl, refl)
      go (some a) s = tt

  pub refuse_if-Runs :
      (b : Bool) (e : Error) → Runs {T = T} (λ t u t'. (b ≡ false) × (t' ≡ t)) (refuse_if b e)
  refuse_if-Runs true e = record { runs = λ s. tt }
  refuse_if-Runs false e = record { runs = λ s. (refl, refl) }

  pub weaken-Runs :
      {A : Type 0} {P Q : Tables T → A → Tables T → Type 0} {m : Exec (Store T) A}
      → Runs P m
      → ((t : Tables T) (a : A) (t' : Tables T) → P t a t' → Q t a t')
      → Runs Q m
  weaken-Runs {A} {P} {Q} {m} f h = record { runs = λ s. go s (m s).0 (f.runs s) }
    where
      go :
          (s : Store T) (r : Outcome A)
          → Post (λ a. P s.tables a (m s).1.tables) r
          → Post (λ a. Q s.tables a (m s).1.tables) r
      go s (ok a) p = h s.tables a (m s).1.tables p
      go s (err e) p = tt
      go s panics p = tt

  -- a transaction that succeeds did what its body did, and one that fails did nothing
  pub transaction-Runs :
      {P : Tables T → Unit {0} → Tables T → Type 0} (body : Exec (Store T) (Unit {0}))
      → Runs P body
      → Runs (λ t u t'. P t tt t') (transaction body)
  unfolding transaction
  transaction-Runs {P} body h = record {
    runs =
        λ s. go s ((body >> call) s).0 ((body >> call) s).1 ((>>=-Runs h (λ u. call-Runs)).runs s);
  }
    where
      go :
          (s : Store T) (r : Outcome (Unit {0})) (s' : Store T)
          → Post (λ b. Then P (λ u t c t'. t' ≡ t) s.tables b s'.tables) r
          → let (r', s'') = settle s.tables r s' in Post (λ u. P s.tables tt s''.tables) r'
      go s (ok u) s' (v, t1, p, same) = rw same p
      go s (err e) s' p = tt
      go s panics s' p = tt

  pub transaction-atomic :
      (body : Exec (Store T) (Unit {0})) (s : Store T)
      → let (r, s') = transaction body s in failed r ≡ true → s'.tables ≡ s.tables
  unfolding transaction
  transaction-atomic body s = go ((body >> call) s).0 ((body >> call) s).1
    where
      go :
          (r : Outcome (Unit {0})) (s' : Store T)
          → let (r', s'') = settle s.tables r s' in failed r' ≡ true → s''.tables ≡ s.tables
      go (ok u) s' e = cc
      go (err e) s' h = refl
      go panics s' h = refl
