-- ===== src/Strategy/Chain/Weight.antt =====
-- Which of the configured weights the weight rule finds.
use mathlib.Core.List.{reverse, reverse-cons}
use lucky_market.Base.{
  false, Option, none, some, List, [], ◌∷◌, ◌++◌, ◌≡◌, refl, ◌⊎◌, inl, inr, arith, Bool-cases, All,
  All-append, ◌<◌, ◌+◌,
}
use lucky_market.Base.Int.{ℤ, ◌≤ℤ◌, leb_ℤ, pos_part, neg_part}
use lucky_market.Strategy.Chain.{insert, sort, first_reached, reached_weight}

abbrev pub Elem : ℤ → List ℤ → Type 0
Elem k [] = ⊥
Elem k (x ∷ xs) = (k ≡ x) ⊎ Elem k xs

abbrev pub ◌<ℤ◌ : ℤ → ℤ → Type 0
◌<ℤ◌ a b = pos_part a + neg_part b < pos_part b + neg_part a

-- What `score` reaches among `ks`: nothing, or the greatest key that is at most `score`.
abbrev pub IsReached : ℤ → List ℤ → Option ℤ → Type 0
IsReached score ks none = All (λ j. ◌<ℤ◌ score j) ks
IsReached score ks (some k) = Elem k ks × (k ≤ℤ score) × All (λ j. j ≤ℤ score → j ≤ℤ k) ks

abbrev Ascending : List ℤ → Type 0
Ascending [] = Unit
Ascending (x ∷ xs) = All (λ y. x ≤ℤ y) xs × Ascending xs

abbrev Descending : List ℤ → Type 0
Descending [] = Unit
Descending (x ∷ xs) = All (λ y. y ≤ℤ x) xs × Descending xs

All-map : {P Q : ℤ → Type 0} → ((a : ℤ) → P a → Q a) → (xs : List ℤ) → All P xs → All Q xs
All-map f [] h = tt
All-map f (x ∷ xs) h = (f x h.0, All-map f xs h.1)

All_self : (xs : List ℤ) → All (λ j. Elem j xs) xs
All_self [] = tt
All_self (x ∷ xs) = (inl refl, All-map (λ a e. inr e) xs (All_self xs))

module _ (P : ℤ → Type 0) where
  All-insert : (a : ℤ) (bs : List ℤ) → P a → All P bs → All P (insert a bs)
  unfolding insert
  All-insert a [] p h = (p, tt)
  All-insert a (b ∷ bs) p h = elim (Bool-cases (leb_ℤ a b)) [
    | inl first ↦ rw first (p, (h.0, h.1))
    | inr later ↦ rw later (h.0, All-insert a bs p h.1)
  ]

  insert-All : (a : ℤ) (bs : List ℤ) → All P (insert a bs) → P a × All P bs
  unfolding insert
  insert-All a [] h = h
  insert-All a (b ∷ bs) h = elim (Bool-cases (leb_ℤ a b)) [
    | inl first ↦ let h' : All P (a ∷ b ∷ bs) = rw first at h in h'
    | inr later ↦
        let h' : All P (b ∷ insert a bs) = rw later at h in
        let (p, q) = insert-All a bs h'.1 in (p, (h'.0, q))
  ]

  All-sort : (xs : List ℤ) → All P xs → All P (sort xs)
  unfolding sort
  All-sort [] h = tt
  All-sort (x ∷ xs) h = All-insert x (sort xs) h.0 (All-sort xs h.1)

  sort-All : (xs : List ℤ) → All P (sort xs) → All P xs
  unfolding sort
  sort-All [] h = tt
  sort-All (x ∷ xs) h = let (p, q) = insert-All x (sort xs) h in (p, sort-All xs q)

  append-All : (xs ys : List ℤ) → All P (xs ++ ys) → All P xs × All P ys
  append-All [] ys h = (tt, h)
  append-All (x ∷ xs) ys h = let (p, q) = append-All xs ys h.1 in ((h.0, p), q)

  All-reverse : (xs : List ℤ) → All P xs → All P (reverse xs)
  All-reverse [] h = tt
  All-reverse (x ∷ xs) h =
      rw (reverse-cons x xs) (All-append P (reverse xs) (x ∷ []) (All-reverse xs h.1) (h.0, tt))

  reverse-All : (xs : List ℤ) → All P (reverse xs) → All P xs
  reverse-All [] h = tt
  reverse-All (x ∷ xs) h =
      let (p, q) = append-All (reverse xs) (x ∷ []) (rw (reverse-cons x xs) at h) in
      (q.0, reverse-All xs p)

  -- what holds of every key holds of the one that is found
  first_reached-All :
      (score : ℤ) (ks : List ℤ) (k : ℤ) → first_reached score ks ≡ some k → All P ks → P k
  unfolding first_reached
  first_reached-All score [] k e h = cc
  first_reached-All score (x ∷ ks) k e h = elim (Bool-cases (leb_ℤ x score)) [
    | inl hit ↦ let e' : some x ≡ some k = rw hit at e in let same : x ≡ k = cc in rw (← same) h.0
    | inr miss ↦ first_reached-All score ks k (rw miss at e) h.1
  ]

first_reached-le : (score : ℤ) (ks : List ℤ) (k : ℤ) → first_reached score ks ≡ some k → k ≤ℤ score
unfolding first_reached
first_reached-le score [] k e = cc
first_reached-le score (x ∷ ks) k e = elim (Bool-cases (leb_ℤ x score)) [
  | inl hit ↦
      let e' : some x ≡ some k = rw hit at e in
      let same : x ≡ k = cc in let le : x ≤ℤ score = ground arith in rw (← same) le
  | inr miss ↦ first_reached-le score ks k (rw miss at e)
]

-- in a descending list the first key that is reached is the greatest of them
first_reached-greatest :
    (score : ℤ) (ks : List ℤ) (k : ℤ)
    → Descending ks
    → first_reached score ks ≡ some k
    → All (λ j. j ≤ℤ score → j ≤ℤ k) ks
unfolding first_reached
first_reached-greatest score [] k d e = tt
first_reached-greatest score (x ∷ ks) k d e = elim (Bool-cases (leb_ℤ x score)) [
  | inl hit ↦
      let e' : some x ≡ some k = rw hit at e in
      let same : x ≡ k = cc in
      ((λ h. via x x k same (le_self x)), All-map (λ a le _. via a x k same le) ks d.0)
  | inr miss ↦
      (λ h. absurd (above x score miss h), first_reached-greatest score ks k d.1 (rw miss at e))
]
  where
    via : (a x k : ℤ) → x ≡ k → a ≤ℤ x → a ≤ℤ k
    via a x k same le = rw (← same) le

    le_self : (x : ℤ) → x ≤ℤ x
    le_self x = omega arith

    above : (x score : ℤ) → leb_ℤ x score ≡ false → x ≤ℤ score → ⊥
    above x score m h = ground arith

first_reached-none :
    (score : ℤ) (ks : List ℤ) → first_reached score ks ≡ none → All (λ j. ◌<ℤ◌ score j) ks
unfolding first_reached
first_reached-none score [] e = tt
first_reached-none score (x ∷ ks) e = elim (Bool-cases (leb_ℤ x score)) [
  | inl hit ↦ let e' : some x ≡ none = rw hit at e in cc
  | inr miss ↦
      (let lt : ◌<ℤ◌ score x = ground arith in lt, first_reached-none score ks (rw miss at e))
]

insert-Ascending : (a : ℤ) (bs : List ℤ) → Ascending bs → Ascending (insert a bs)
unfolding insert
insert-Ascending a [] h = (tt, tt)
insert-Ascending a (b ∷ bs) h = elim (Bool-cases (leb_ℤ a b)) [
  | inl first ↦
      let le : a ≤ℤ b = ground arith in
      rw first ((le, All-map (λ c le'. trans a b c le le') bs h.0), h)
  | inr later ↦
      let le : b ≤ℤ a = ground arith in
      rw later (All-insert (λ y. b ≤ℤ y) a bs le h.0, insert-Ascending a bs h.1)
]
  where
    trans : (a b c : ℤ) → a ≤ℤ b → b ≤ℤ c → a ≤ℤ c
    trans a b c h k = omega arith

sort-Ascending : (xs : List ℤ) → Ascending (sort xs)
unfolding sort
sort-Ascending [] = tt
sort-Ascending (x ∷ xs) = insert-Ascending x (sort xs) (sort-Ascending xs)

append-Descending :
    (xs : List ℤ) (x : ℤ) → Descending xs → All (λ y. x ≤ℤ y) xs → Descending (xs ++ x ∷ [])
append-Descending [] x d h = (tt, tt)
append-Descending (y ∷ ys) x d h =
    (All-append (λ z. z ≤ℤ y) ys (x ∷ []) d.0 (h.0, tt), append-Descending ys x d.1 h.1)

reverse-Descending : (xs : List ℤ) → Ascending xs → Descending (reverse xs)
reverse-Descending [] h = tt
reverse-Descending (x ∷ xs) h = rw (reverse-cons x xs) (
    append-Descending (reverse xs) x (reverse-Descending xs h.1) (All-reverse (λ y. x ≤ℤ y) xs h.0))

-- what holds of the keys in the order of the loop holds of them in any order
unsorted : (P : ℤ → Type 0) (ks : List ℤ) → All P (reverse (sort ks)) → All P ks
unsorted P ks h = sort-All P ks (reverse-All P (sort ks) h)

-- Whatever the order of the keys, the weight rule finds the greatest key that the score reaches, and
-- finds none only if the score lies below every key.
pub reached_weight_greatest :
    (score : ℤ) (ks : List ℤ) → IsReached score ks (reached_weight score ks)
unfolding reached_weight
reached_weight_greatest score ks = found (first_reached score ks') refl
  where
    ks' : List ℤ
    ks' = reverse (sort ks)

    found : (r : Option ℤ) → first_reached score ks' ≡ r → IsReached score ks r
    found none e = unsorted (λ j. ◌<ℤ◌ score j) ks (first_reached-none score ks' e)
    found (some k) e = (
      first_reached-All (λ j. Elem j ks) score ks' k e
          (All-reverse (λ j. Elem j ks) (sort ks) (All-sort (λ j. Elem j ks) ks (All_self ks))),
      first_reached-le score ks' k e,
      unsorted (λ j. j ≤ℤ score → j ≤ℤ k) ks
          (first_reached-greatest score ks' k (reverse-Descending (sort ks) (sort-Ascending ks)) e),
    )
