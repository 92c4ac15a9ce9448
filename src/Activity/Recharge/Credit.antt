-- ===== src/Activity/Recharge/Credit.antt =====
-- What a recharge leaves in the tables.
use lucky_market.Base.{
  ℕ, zero, suc, String, true, false, Option, none, some, ◌≡◌, refl, arith, ap, ◌∙◌, inl, inr,
  str_eq, ◌==◌, Bool-cases, if◌then◌else◌,
}
use lucky_market.Base.Int.{ℤ, pos, ◌+ℤ◌, eqb_ℤ}
use lucky_market.Base.Outcome.{Outcome, ok, err, panics, Post, ◌>>=◌}
use lucky_market.Activity.Model.{Calendar, CreateQuotaOrder}
use lucky_market.Activity.Store.{
  AccountRow, PeriodRow, Tables, Store, update, insert, transaction, put_account, put_period,
}
use lucky_market.Activity.Store.Runs.{
  Runs, affected, changed, failed, >>=-Runs, pure-Runs, update-Runs, insert-Runs, insert-new-Runs,
  weaken-Runs, transaction-Runs, transaction-atomic,
}
use lucky_market.Activity.Recharge.{
  recharge_row, add_recharge, raise_account, new_account, raise_period, new_period, set_day,
  set_month, unless_updated, save_account, save_day, save_month, save_order_body, save_order,
}

suc-zero : (n : ℕ) → (suc n == 0) ≡ false
suc-zero n = ground arith

-- the counts of the order, added to those of the account, or the first of it
abbrev pub account_with : {T : Type 0} → CreateQuotaOrder T → Option AccountRow → AccountRow
account_with agg none = record {
  total_count = agg.total_count;
  total_count_surplus = agg.total_count;
  day_count = agg.day_count;
  day_count_surplus = agg.day_count;
  month_count = agg.month_count;
  month_count_surplus = agg.month_count;
}
account_with agg (some row) = record {
  total_count = row.total_count +ℤ agg.total_count;
  total_count_surplus = row.total_count_surplus +ℤ agg.total_count;
  day_count = row.day_count +ℤ agg.day_count;
  day_count_surplus = row.day_count_surplus +ℤ agg.day_count;
  month_count = row.month_count +ℤ agg.month_count;
  month_count_surplus = row.month_count_surplus +ℤ agg.month_count;
}

abbrev pub period_with : ℤ → Option PeriodRow → PeriodRow
period_with n none = record { count = n; surplus = n }
period_with n (some row) = record { count = row.count +ℤ n; surplus = row.surplus +ℤ n }

-- the order, and its counts in the account and in the rows of its month and day
abbrev pub credited : {T : Type 0} → Calendar T → CreateQuotaOrder T → Tables T → Tables T
credited cal agg t =
    let order = agg.activity_order in
    let day = cal.format_day order.order_time in
    let month = cal.format_month order.order_time in
    record t {
      recharges = λ n.
          if str_eq order.out_business_no n
          then some (record {
            user_id = order.user_id;
            sku = order.sku;
            activity_id = order.activity_id;
            activity_name = order.activity_name;
            strategy_id = order.strategy_id;
            order_id = order.order_id;
            order_time = order.order_time;
            total_count = order.total_count;
            day_count = order.day_count;
            month_count = order.month_count;
            state = order.state;
          })
          else t.recharges n;
      accounts =
          put_account agg.user_id agg.activity_id
            (some (account_with agg (t.accounts agg.user_id agg.activity_id))) t.accounts;
      days =
          if eqb_ℤ agg.day_count (pos 0)
          then t.days
          else put_period agg.user_id agg.activity_id day
              (some (period_with agg.day_count (t.days agg.user_id agg.activity_id day))) t.days;
      months =
          if eqb_ℤ agg.month_count (pos 0)
          then t.months
          else put_period agg.user_id agg.activity_id month
              (some (period_with agg.month_count (t.months agg.user_id agg.activity_id month)))
              t.months;
    }

abbrev pub IsCredited :
    {T : Type 0} → Calendar T → CreateQuotaOrder T → Tables T → Tables T → Type 0
IsCredited cal agg t t' =
    (t.recharges agg.activity_order.out_business_no ≡ none) × (t' ≡ credited cal agg t)

module _ {T : Type 0} where
  -- the row that `f` reads, changed or added
  abbrev upserted :
      {A : Type 0}
      → (A → Tables T → Tables T)
      → (Tables T → Tables T)
      → Option A
      → Tables T
      → Tables T
  upserted g h none t = h t
  upserted g h (some a) t = g a t

  abbrev Created : (Tables T → Tables T) → ℕ → Tables T → Unit {0} → Tables T → Type 0
  Created h zero t u t' = t' ≡ h t
  Created h (suc n) t u t' = t' ≡ t

  unless_updated-Runs :
      {A : Type 0} (f : Tables T → Option A) (h : Tables T → Tables T) (n : ℕ)
      → Runs (Created h n) (unless_updated (insert f h) n)
  unless_updated-Runs f h zero = insert-Runs f h
  unless_updated-Runs f h (suc n) = rw (suc-zero n) pure-Runs

  upserted_by :
      {A : Type 0} (g : A → Tables T → Tables T) (h : Tables T → Tables T) (o : Option A) (n : ℕ)
      (t t1 t' : Tables T)
      → n ≡ affected o
      → t1 ≡ changed g o t
      → Created h n t1 tt t'
      → t' ≡ upserted g h o t
  upserted_by g h none zero t t1 t' count step last = last ∙ ap h step
  upserted_by g h none (suc n) t t1 t' count step last = cc
  upserted_by g h (some a) zero t t1 t' count step last = cc
  upserted_by g h (some a) (suc n) t t1 t' count step last = last ∙ step

  upsert-Runs :
      {A : Type 0} (f : Tables T → Option A) (g : A → Tables T → Tables T) (h : Tables T → Tables T)
      → Runs (λ t u t'. t' ≡ upserted g h (f t) t) (update f g >>= unless_updated (insert f h))
  upsert-Runs f g h =
      weaken-Runs (>>=-Runs (update-Runs f g) (unless_updated-Runs f h))
        (λ t u t' (n, t1, (count, step), last). upserted_by g h (f t) n t t1 t' count step last)

  module _ (agg : CreateQuotaOrder T) where
    abbrev with_account : Option AccountRow → Tables T → Tables T
    with_account o t = record t {
      accounts = put_account agg.user_id agg.activity_id (some (account_with agg o)) t.accounts;
    }

    same_account :
        (o : Option AccountRow) (t : Tables T)
        → upserted (raise_account agg) (new_account agg) o t ≡ with_account o t
    unfolding raise_account new_account
    same_account none t = refl
    same_account (some row) t = refl

    save_account-Runs :
        Runs
          (λ t u t'. t' ≡ with_account (t.accounts agg.user_id agg.activity_id) t)
          (save_account agg)
    unfolding save_account
    save_account-Runs = weaken-Runs (upsert-Runs _ _ _) (λ t u t' e. e ∙ same_account _ t)

    abbrev with_day : String → Option PeriodRow → Tables T → Tables T
    with_day day o t = record t {
      days =
          if eqb_ℤ agg.day_count (pos 0)
          then t.days
          else put_period agg.user_id agg.activity_id day (some (period_with agg.day_count o))
              t.days;
    }

    abbrev with_month : String → Option PeriodRow → Tables T → Tables T
    with_month month o t = record t {
      months =
          if eqb_ℤ agg.month_count (pos 0)
          then t.months
          else put_period agg.user_id agg.activity_id month (some (period_with agg.month_count o))
              t.months;
    }

    save_day-Runs :
        (day : String)
        → Runs
            (λ t u t'. t' ≡ with_day day (t.days agg.user_id agg.activity_id day) t)
            (save_day agg day)
    unfolding save_day
    save_day-Runs day = elim (Bool-cases (eqb_ℤ agg.day_count (pos 0))) [
      | inl e ↦ rw e pure-Runs
      | inr e ↦ rw e (weaken-Runs (upsert-Runs _ _ _) (λ t u t' h. h ∙ same _ t))
    ]
      where
        same :
            (o : Option PeriodRow) (t : Tables T)
            → upserted
                (λ row. set_day agg day (raise_period agg.day_count row))
                (set_day agg day (new_period agg.day_count))
                o
                t
              ≡ record t {
                days =
                    put_period agg.user_id agg.activity_id day
                      (some (period_with agg.day_count o))
                      t.days;
              }
        same none t = refl
        same (some row) t = refl

    save_month-Runs :
        (month : String)
        → Runs
            (λ t u t'. t' ≡ with_month month (t.months agg.user_id agg.activity_id month) t)
            (save_month agg month)
    unfolding save_month
    save_month-Runs month = elim (Bool-cases (eqb_ℤ agg.month_count (pos 0))) [
      | inl e ↦ rw e pure-Runs
      | inr e ↦ rw e (weaken-Runs (upsert-Runs _ _ _) (λ t u t' h. h ∙ same _ t))
    ]
      where
        same :
            (o : Option PeriodRow) (t : Tables T)
            → upserted
                (λ row. set_month agg month (raise_period agg.month_count row))
                (set_month agg month (new_period agg.month_count))
                o
                t
              ≡ record t {
                months =
                    put_period agg.user_id agg.activity_id month
                      (some (period_with agg.month_count o))
                      t.months;
              }
        same none t = refl
        same (some row) t = refl

    abbrev accounted : Tables T → Tables T
    accounted t = with_account (t.accounts agg.user_id agg.activity_id) t

    abbrev daily : Calendar T → Tables T → Tables T
    daily cal t =
        let day = cal.format_day agg.activity_order.order_time in
        with_day day (t.days agg.user_id agg.activity_id day) t

    abbrev monthly : Calendar T → Tables T → Tables T
    monthly cal t =
        let month = cal.format_month agg.activity_order.order_time in
        with_month month (t.months agg.user_id agg.activity_id month) t

    save_order_body-Runs :
        (cal : Calendar T) → Runs (λ t u t'. IsCredited cal agg t t') (save_order_body cal agg)
    unfolding save_order_body add_recharge recharge_row
    save_order_body-Runs cal =
        weaken-Runs
          (>>=-Runs
            (>>=-Runs
              (>>=-Runs (insert-new-Runs _ (add_recharge agg.activity_order))
                (λ u. save_account-Runs))
              (λ u. save_day-Runs _))
            (λ u. save_month-Runs _))
          (λ t u t' (u3, t3, (u2, t2, (u1, t1, (new, e1), e2), e3), e4).
            (new, e4 ∙ ap (monthly cal) (e3 ∙ ap (daily cal) (e2 ∙ ap accounted e1))))

abbrev pub IsOrderSettled :
    {T : Type 0} → Calendar T → CreateQuotaOrder T → Store T → Outcome (Unit {0}) × Store T → Type 0
IsOrderSettled cal agg s (ok u, s') = IsCredited cal agg s.tables s'.tables
IsOrderSettled cal agg s (err e, s') = s'.tables ≡ s.tables
IsOrderSettled cal agg s (panics, s') = s'.tables ≡ s.tables

-- Whatever commands fail: an order for quota that succeeds is the first under its out_business_no, is
-- recorded, and adds its counts to the user's account and, where they are not 0, to the rows of the
-- order's day and month, a row that is missing being started with the counts of the order alone; an
-- order that fails changes no table.
pub save_order_settles :
    {T : Type 0} (cal : Calendar T) (agg : CreateQuotaOrder T) (s : Store T)
    → IsOrderSettled cal agg s (save_order cal agg s)
unfolding save_order
save_order_settles {T} cal agg s = elim (Bool-cases (s.routed agg.user_id)) [
  | inr lost ↦ rw lost refl
  | inl routed ↦ rw routed (
      go (transaction (save_order_body cal agg) s).0 (transaction (save_order_body cal agg) s).1
        ((transaction-Runs (save_order_body cal agg) (save_order_body-Runs agg cal)).runs s)
        (transaction-atomic (save_order_body cal agg) s))
]
  where
    go :
        (r : Outcome (Unit {0})) (s' : Store T)
        → Post (λ u. IsCredited cal agg s.tables s'.tables) r
        → (failed r ≡ true → s'.tables ≡ s.tables)
        → IsOrderSettled cal agg s (r, s')
    go (ok u) s' credit atomic = credit
    go (err e) s' credit atomic = atomic refl
    go panics s' credit atomic = atomic refl
