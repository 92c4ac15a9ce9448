-- ===== src/Activity/Sku/Bound.antt =====
-- What a request does to the stock of a sku, and how many are sold.
use lucky_market.Base.{
  ℕ, ◌+◌, ◌≤◌, String, Bool, true, false, Option, none, some, List, [], ◌∷◌, ◌≡◌, refl, ap, ◌∙◌,
  ◌⊎◌, inl, inr, arith, str_eq, eq_refl, Bool-cases, if◌then◌else◌,
}
use lucky_market.Base.Int.{ℤ, pos, ◌-ℤ◌, ◌≤ℤ◌, leb_ℤ, eqb_ℤ, pos_part, -ℤ_parts}
use lucky_market.Base.Outcome.{Outcome, ok, err, panics, resume, parse_failed, driver}
use lucky_market.Activity.Model.{ActivityResult}
use lucky_market.Activity.Sku.{
  SkuStore, call, after_fault, get_activity_sku_stock_count_key, store_result, set_stock,
  lua_subtract, published, publish_stock_zero, read_reply, result_of_status,
  subtraction_activity_sku_stock, shard_of, sold,
}

-- one of the stock is taken, and no other stock is changed
abbrev pub IsOneTaken : ℤ → ℤ → SkuStore → SkuStore → Type 0
IsOneTaken sku stock s s' =
    (pos 1 ≤ℤ stock)
    × ((key : String)
        → s'.stocks key ≡ (
            if str_eq (get_activity_sku_stock_count_key sku) key
            then some (stock -ℤ pos 1)
            else s.stocks key))

-- A sale takes one of a stock of at least one; a credit is given for a stock that is used up; an error
-- of a command, or for a stock that is not there, leaves all stocks; where the text of the result is no
-- JSON, the request fails, and has taken one of a stock of at least one.
abbrev pub IsSubtracted : ℤ → String → SkuStore → Outcome ActivityResult × SkuStore → Type 0
IsSubtracted sku user_id s (ok result, s') =
    (stock : ℤ) × (s.stocks (get_activity_sku_stock_count_key sku) ≡ some stock)
    × (s.json_user user_id ≡ some result.user_id)
    × (IsOneTaken sku stock s s' × (result.status ≡ pos 1)
        ⊎ (stock ≤ℤ pos 0) × (result.status ≡ pos 2) × (s'.stocks ≡ s.stocks))
IsSubtracted sku user_id s (err e, s') =
    (s'.stocks ≡ s.stocks)
      × ((e ≡ driver)
          ⊎ (s.stocks (get_activity_sku_stock_count_key sku) ≡ none)
          ⊎ ((stock : ℤ) × (s.stocks (get_activity_sku_stock_count_key sku) ≡ some stock)
              × (s.json_user user_id ≡ none)
              × (stock ≤ℤ pos 0)))
    ⊎ ((stock : ℤ) × (s.stocks (get_activity_sku_stock_count_key sku) ≡ some stock)
        × (s.json_user user_id ≡ none)
        × (e ≡ parse_failed)
        × IsOneTaken sku stock s s')
IsSubtracted sku user_id s (panics, s') = ⊥

module _ (sku activity_id : ℤ) (user_id : String) (now : ℤ) where
  published_stocks : (s : SkuStore) → (publish_stock_zero sku s).1.stocks ≡ s.stocks
  unfolding publish_stock_zero call
  published_stocks s = go s.faults
    where
      go :
          (fs : List Bool)
          → (let (r, s') = after_fault fs s in published sku r s').stocks ≡ s.stocks
      go [] = refl
      go (true ∷ fs) = refl
      go (false ∷ fs) = refl

  abbrev after_sale : ℤ → SkuStore → SkuStore
  after_sale stock s =
      store_result activity_id (shard_of 0 user_id) user_id (sold user_id sku now)
        (set_stock (get_activity_sku_stock_count_key sku) (stock -ℤ pos 1) s)

  script-IsSubtracted :
      (o : Option ℤ) (s : SkuStore)
      → s.stocks (get_activity_sku_stock_count_key sku) ≡ o
      → let (reply, s') = lua_subtract o sku activity_id user_id now s in
        IsSubtracted sku user_id s (read_reply sku reply s')
  unfolding lua_subtract read_reply result_of_status store_result set_stock
  script-IsSubtracted none s e = inl (refl, inr (inl e))
  script-IsSubtracted (some stock) s e = go (s.json_user user_id) refl
    where
      go :
          (o : Option String)
          → s.json_user user_id ≡ o
          → let (reply, s') = lua_subtract (some stock) sku activity_id user_id now s in
            IsSubtracted sku user_id s (read_reply sku reply s')
      go none u = elim (Bool-cases (leb_ℤ stock (pos 0))) [
        | inl out ↦ rw (out, u) (inl (refl, inr (inr (stock, e, u, ground arith))))
        | inr more ↦ rw (more, u) (inr (stock, e, u, refl, (ground arith, λ key. refl)))
      ]
      go (some user) u = elim (Bool-cases (leb_ℤ stock (pos 0))) [
        | inl out ↦ rw (out, u) (stock, e, u, inr (ground arith, refl, refl))
        | inr more ↦
            rw (more, u)
              (elim (Bool-cases (eqb_ℤ (stock -ℤ pos 1) (pos 0))) [
                | inl last ↦ rw last (
                  stock,
                  e,
                  u,
                  inl (
                    (ground arith, λ key. ap (λ f. f key) (published_stocks (after_sale stock s))),
                    refl,
                  ),
                )
                | inr left ↦ rw left (stock, e, u, inl ((ground arith, λ key. refl), refl))
              ])
      ]

-- Whatever commands fail, and whatever the user's id is: a request that answers a sale has taken
-- one of a stock of at least one, and one that answers a credit found none left and took none;
-- where the id makes the text of the result no JSON, the request fails, and has taken one of a
-- stock of at least one all the same; any other that fails took none.
pub subtraction_settles :
    (sku activity_id : ℤ) (user_id : String) (now : ℤ) (s : SkuStore)
    → IsSubtracted sku user_id s (subtraction_activity_sku_stock sku activity_id user_id now s)
unfolding subtraction_activity_sku_stock call
subtraction_settles sku activity_id user_id now s = go s.faults
  where
    go :
        (fs : List Bool)
        → IsSubtracted sku user_id s (
            let (r, s1) = after_fault fs s in
            resume r
              (λ _ s2.
                let (reply, s3) =
                  lua_subtract
                    (s2.stocks (get_activity_sku_stock_count_key sku))
                    sku
                    activity_id
                    user_id
                    now
                    s2 in
                read_reply sku reply s3)
              s1)
    go [] =
        script-IsSubtracted sku activity_id user_id now
          (s.stocks (get_activity_sku_stock_count_key sku)) s refl
    go (true ∷ fs) = inl (refl, inl refl)
    go (false ∷ fs) =
        script-IsSubtracted sku activity_id user_id now
          (s.stocks (get_activity_sku_stock_count_key sku)) (record s { faults = fs }) refl

-- A request for the sku: activity, user and time.
pub record Request : Type 0 where
  pub activity_id : ℤ
  pub user_id : String
  pub now : ℤ

abbrev pub sale : Outcome ActivityResult → ℕ
sale (ok result) = if eqb_ℤ result.status (pos 1) then 1 else 0
sale (err e) = 0
sale panics = 0

-- how many of the requests, in this order, are sold
unfoldable pub sales : ℤ → List Request → SkuStore → ℕ
sales sku [] s = 0
sales sku (q ∷ qs) s =
    let (r, s') = subtraction_activity_sku_stock sku q.activity_id q.user_id q.now s in
    sale r + sales sku qs s'

-- the stock of the sku, none of it if there is no key
abbrev pub amount : Option ℤ → ℕ
amount none = 0
amount (some n) = pos_part n

abbrev pub in_stock : ℤ → SkuStore → ℕ
in_stock sku s = amount (s.stocks (get_activity_sku_stock_count_key sku))

one_taken :
    (sku stock : ℤ) (s s' : SkuStore)
    → s.stocks (get_activity_sku_stock_count_key sku) ≡ some stock
    → IsOneTaken sku stock s s'
    → 1 + in_stock sku s' ≤ in_stock sku s
one_taken sku stock s s' e (left, stocks) =
    let key = get_activity_sku_stock_count_key sku in
    let before : in_stock sku s ≡ pos_part stock = ap amount e in
    let taken : s'.stocks key ≡ some (stock -ℤ pos 1) = stocks key ∙ rw (eq_refl key) refl in
    let after : in_stock sku s' ≡ pos_part (stock -ℤ pos 1) = ap amount taken in
    rw (before, after) (ground (arith, -ℤ_parts stock (pos 1)))

one_sale :
    (sku : ℤ) (user_id : String) (s : SkuStore) (r : Outcome ActivityResult) (s' : SkuStore)
    → IsSubtracted sku user_id s (r, s')
    → sale r + in_stock sku s' ≤ in_stock sku s
one_sale sku user_id s (err e) s' (inl (same, why)) = rw same (omega arith)
one_sale sku user_id s (err e) s' (inr (stock, found, lost, failed, taken)) =
    omega (arith, one_taken sku stock s s' found taken)
one_sale sku user_id s panics s' same = elim same [ ]
one_sale sku user_id s (ok result) s' (stock, e, user, inr (out, credit, same)) =
    rw (same, credit) (omega arith)
one_sale sku user_id s (ok result) s' (stock, e, user, inl (taken, success)) =
    let sold_one : sale (ok result) ≡ 1 = rw success refl in
    rw sold_one (one_taken sku stock s s' e taken)

-- However many requests for a sku come, and whichever commands fail, no more are sold than were in
-- stock.
pub sales_bound : (sku : ℤ) (qs : List Request) (s : SkuStore) → sales sku qs s ≤ in_stock sku s
unfolding sales
sales_bound sku [] s = omega arith
sales_bound sku (q ∷ qs) s =
    let run = subtraction_activity_sku_stock sku q.activity_id q.user_id q.now s in
    omega (
      arith,
      one_sale sku q.user_id s run.0 run.1
          (subtraction_settles sku q.activity_id q.user_id q.now s),
      sales_bound sku qs run.1,
    )
