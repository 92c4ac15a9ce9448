-- ===== src/Activity/Recharge/Once.antt =====
-- A rebate that is delivered more than once.
use lucky_market.Base.{
  String, ◌||◌, Option, none, some, List, [], ◌∷◌, ◌≡◌, refl, ap, sym, ◌∙◌, ◌⊎◌, inl, inr, str_eq,
  eq_refl, All, Bool-cases,
}
use lucky_market.Base.Int.{ℤ}
use lucky_market.Base.Outcome.{Exec, Outcome, ok, err, panics, resume, pure, deref, ◌>>=◌, ◌>>◌}
use lucky_market.Activity.Model.{
  Calendar, Activity, ActivitySku, ActivityCount, SkuRecharge, CreateQuotaOrder,
}
use lucky_market.Activity.Store.{RechargeRow, Tables, Store}
use lucky_market.Activity.Recharge.{
  QuotaQueries, recharge_row, RebateMessage, build_order_aggregate, save_order, save_built,
  create_raffle_activity_order, after_order, recharge_sku, handle,
}
use lucky_market.Activity.Recharge.Credit.{credited, IsCredited, IsOrderSettled, save_order_settles}

-- nothing, or the credit of one order under `b`, which had none
abbrev pub IsStep : {T : Type 0} → Calendar T → String → Tables T → Tables T → Type 0
IsStep {T} cal b t t' =
    (t' ≡ t)
    ⊎ ((agg : CreateQuotaOrder T) × (agg.activity_order.out_business_no ≡ b)
        × IsCredited cal agg t t')

record Quiet {T A : Type 0} (m : Exec (Store T) A) : Type 0 where
  quiet : (s : Store T) → (m s).1.tables ≡ s.tables

record Steps {T A : Type 0} (cal : Calendar T) (b : String) (m : Exec (Store T) A) : Type 0 where
  steps : (s : Store T) → IsStep cal b s.tables (m s).1.tables

-- the queries write no table
pub record ReadOnly {T : Type 0} (queries : QuotaQueries T) : Type 0 where
  pub reads_sku : (n : ℤ) (s : Store T) → (queries.query_activity_sku n s).1.tables ≡ s.tables
  pub reads_activity :
      (n : ℤ) (s : Store T) → (queries.query_raffle_activity_by_activity_id n s).1.tables ≡ s.tables
  pub reads_count :
      (n : ℤ) (s : Store T)
      → (queries.query_raffle_activity_count_by_activity_count_id n s).1.tables ≡ s.tables

module _ {T : Type 0} (cal : Calendar T) (b : String) where
  still : (t t1 t2 : Tables T) → t1 ≡ t → IsStep cal b t1 t2 → IsStep cal b t t2
  still t t1 t2 same (inl e) = inl (e ∙ same)
  still t t1 t2 same (inr (agg, key, (new, credit))) = inr (
    agg,
    key,
    (
      ap (λ x. x.recharges agg.activity_order.out_business_no) (sym same) ∙ new,
      credit ∙ ap (credited cal agg) same,
    ),
  )

  >>=-Steps :
      {A B : Type 0} {m : Exec (Store T) A} {n : A → Exec (Store T) B}
      → Quiet m
      → ((a : A) → Steps cal b (n a))
      → Steps cal b (m >>= n)
  >>=-Steps {A} {B} {m} {n} q h = record { steps = λ s. go s (m s).0 (m s).1 (q.quiet s) }
    where
      go :
          (s : Store T) (r : Outcome A) (s1 : Store T)
          → s1.tables ≡ s.tables
          → IsStep cal b s.tables (resume r n s1).1.tables
      go s (ok a) s1 e = still _ _ _ e ((h a).steps s1)
      go s (err x) s1 e = inl e
      go s panics s1 e = inl e

  deref-Quiet : {A : Type 0} (o : Option A) → Quiet {T = T} (deref o)
  deref-Quiet none = record { quiet = λ s. refl }
  deref-Quiet (some a) = record { quiet = λ s. refl }

  save_order-Steps :
      (agg : CreateQuotaOrder T) (order_id : String)
      → agg.activity_order.out_business_no ≡ b
      → Steps cal b (save_order cal agg >> pure order_id)
  save_order-Steps agg order_id key = record {
    steps =
        λ s. go s (save_order cal agg s).0 (save_order cal agg s).1 (save_order_settles cal agg s);
  }
    where
      go :
          (s : Store T) (r : Outcome (Unit {0})) (s1 : Store T)
          → IsOrderSettled cal agg s (r, s1)
          → IsStep cal b s.tables (resume r (λ u. pure order_id) s1).1.tables
      go s (ok u) s1 credit = inr (agg, key, credit)
      go s (err x) s1 same = inl same
      go s panics s1 same = inl same

  module _ (queries : QuotaQueries T) (reads : ReadOnly queries) where
    sku-Quiet : (n : ℤ) → Quiet (queries.query_activity_sku n >>= deref)
    sku-Quiet n = record {
      quiet = λ s.
          go s (queries.query_activity_sku n s).0 (queries.query_activity_sku n s).1
            (reads.reads_sku n s);
    }
      where
        go :
            (s : Store T) (r : Outcome (Option ActivitySku)) (s1 : Store T)
            → s1.tables ≡ s.tables
            → (resume r deref s1).1.tables ≡ s.tables
        go s (ok none) s1 e = e
        go s (ok (some a)) s1 e = e
        go s (err x) s1 e = e
        go s panics s1 e = e

    activity-Quiet : (n : ℤ) → Quiet (queries.query_raffle_activity_by_activity_id n)
    activity-Quiet n = record { quiet = reads.reads_activity n }

    count-Quiet : (n : ℤ) → Quiet (queries.query_raffle_activity_count_by_activity_count_id n)
    count-Quiet n = record { quiet = reads.reads_count n }

    built :
        (order_id : String) (now : T) (recharge : SkuRecharge) (sku : ActivitySku) (a : Activity T)
        (c : ActivityCount)
        → recharge.out_business_no ≡ b
        → let agg = build_order_aggregate cal queries order_id now recharge sku a c in
          agg.activity_order.out_business_no ≡ b
    unfolding build_order_aggregate
    built order_id now recharge sku a c key = key

    save_built-Steps :
        (order_id : String) (now : T) (recharge : SkuRecharge) (sku : ActivitySku)
        (a : Option (Activity T)) (c : Option ActivityCount)
        → recharge.out_business_no ≡ b
        → Steps cal b (save_built cal queries order_id now recharge sku a c)
    unfolding save_built
    save_built-Steps order_id now recharge sku a c key = >>=-Steps (deref-Quiet a) (λ a'.
        >>=-Steps (deref-Quiet c) (λ c'.
          save_order-Steps (build_order_aggregate cal queries order_id now recharge sku a' c')
            order_id (built order_id now recharge sku a' c' key)))

    create-Steps :
        (order_id : String) (now : T) (recharge : SkuRecharge)
        → recharge.out_business_no ≡ b
        → Steps cal b (create_raffle_activity_order cal queries order_id now recharge)
    unfolding create_raffle_activity_order
    create-Steps order_id now recharge key =
        elim (Bool-cases (str_eq recharge.user_id "" || str_eq recharge.out_business_no "")) [
          | inl e ↦ rw e (record { steps = λ s. inl refl })
          | inr e ↦ rw e (
              >>=-Steps (sku-Quiet recharge.sku) (λ k.
                >>=-Steps (activity-Quiet k.activity_id) (λ a.
                  >>=-Steps (count-Quiet k.activity_count_id)
                    (λ c. save_built-Steps order_id now recharge k a c key))))
        ]

    after_order-tables :
        (r : Outcome String) (s : Store T) → (after_order cal queries r s).1.tables ≡ s.tables
    after_order-tables (ok o) s = refl
    after_order-tables (err e) s = refl
    after_order-tables panics s = refl

    recharge-Steps :
        (order_id : String) (now : T) (msg : RebateMessage) (sku : Option ℤ)
        → msg.biz_id ≡ b
        → Steps cal b (recharge_sku cal queries order_id now msg sku)
    unfolding recharge_sku
    recharge-Steps order_id now msg none key = record { steps = λ s. inl refl }
    recharge-Steps order_id now msg (some sku) key = record {
      steps = λ s. rw (after_order-tables _ _) ((create-Steps order_id now _ key).steps s);
    }

    handle-Steps :
        (order_id : String) (now : T) (msg : RebateMessage)
        → msg.biz_id ≡ b
        → Steps cal b (handle cal queries order_id now (some msg))
    unfolding handle
    handle-Steps order_id now msg key = elim (Bool-cases (str_eq msg.rebate_type "sku")) [
      | inl e ↦ rw e (recharge-Steps order_id now msg _ key)
      | inr e ↦ rw e (record { steps = λ s. inl refl })
    ]

-- a delivery of a message: what the consumer draws for it, and the message
abbrev pub Delivery : Type 0 → Type 0
Delivery T = String × T × RebateMessage

abbrev pub HasBiz : {T : Type 0} → String → Delivery T → Type 0
HasBiz b (order_id, now, msg) = msg.biz_id ≡ b

module _ {T : Type 0} (cal : Calendar T) (queries : QuotaQueries T) where
  unfoldable pub deliver : List (Delivery T) → Store T → Store T
  unfolding handle
  deliver [] s = s
  deliver ((order_id, now, msg) ∷ rest) s =
      deliver rest (handle cal queries order_id now (some msg) s).1

  recharged :
      (agg : CreateQuotaOrder T) (t : Tables T)
      → (row : RechargeRow T) × ((credited cal agg t).recharges agg.activity_order.out_business_no
          ≡ some row)
  unfolding recharge_row
  recharged agg t =
      (recharge_row agg.activity_order, rw (eq_refl agg.activity_order.out_business_no) refl)

  join-IsStep :
      (b : String) (t t1 t2 : Tables T) → IsStep cal b t t1 → IsStep cal b t1 t2 → IsStep cal b t t2
  join-IsStep b t t1 t2 (inl e) s = still cal b t t1 t2 e s
  join-IsStep b t t1 t2 (inr (agg, key, (new, credit))) (inl e) = inr (agg, key, (new, e ∙ credit))
  join-IsStep b t t1 t2 (inr (agg, key, (new, credit))) (inr (agg', key', (new', credit'))) =
      let (row, found) = recharged agg t in
      absurd (
        let p = ap (λ x. x.recharges b) credit in
        let q : t1.recharges b ≡ none = ap t1.recharges (sym key') ∙ new' in
        let r : (credited cal agg t).recharges b ≡ some row =
          ap (credited cal agg t).recharges (sym key) ∙ found in
        cc (p, q, r))

  -- Where the queries of the configuration write no table: however often messages with one biz_id are
  -- delivered, whatever they say and whichever commands fail, the tables are left as they were or with
  -- the credit of a single order, the first under that biz_id.
  pub rebate_once :
      (b : String) (deliveries : List (Delivery T)) (s : Store T)
      → ReadOnly queries
      → All (HasBiz b) deliveries
      → IsStep cal b s.tables (deliver deliveries s).tables
  unfolding deliver
  rebate_once b [] s reads same = inl refl
  rebate_once b ((order_id, now, msg) ∷ rest) s reads (key, same) =
      join-IsStep b s.tables (handle cal queries order_id now (some msg) s).1.tables _
        ((handle-Steps cal b queries reads order_id now msg key).steps s)
        (rebate_once b rest (handle cal queries order_id now (some msg) s).1 reads same)
