-- ===== src/Rebate/Saved.antt =====
-- What SaveUserRebateOrder leaves.
use mathlib.Core.Path.{subst}
use lucky_market.Base.{
  String, Bool, true, false, List, [], ◌∷◌, ◌++◌, ◌≡◌, ◌≢◌, refl, ap, ◌∙◌, ◌⊎◌, inl, inr,
  Bool-cases, if◌then◌else◌,
}
use lucky_market.Base.Outcome.{Outcome, ok, err, panics, resume, driver, duplicate_entry}
use lucky_market.Activity.Recharge.{RebateMessage}
use lucky_market.Rebate.{
  BehaviorRebateOrder, BehaviorRebate, RebateRow, RebateStore, after_fault, call, has_biz,
  insert_orders, order_row, settle, save_orders, rebate_message, publish_orders,
  save_user_rebate_order,
}

abbrev pub row_of : BehaviorRebateOrder → RebateRow
row_of order = record {
  user_id = order.user_id;
  order_id = order.order_id;
  behavior_type = order.behavior_type;
  out_business_no = order.out_business_no;
  rebate_desc = order.rebate_desc;
  rebate_type = order.rebate_type;
  rebate_config = order.rebate_config;
  biz_id = order.biz_id;
}

abbrev pub message_of : BehaviorRebateOrder → RebateMessage
message_of order = record {
  user_id = order.user_id;
  rebate_desc = order.rebate_desc;
  rebate_type = order.rebate_type;
  rebate_config = order.rebate_config;
  biz_id = order.biz_id;
}

-- the orders, added to the rows
abbrev pub written : List RebateRow → List BehaviorRebateOrder → List RebateRow
written rows [] = rows
written rows (o ∷ os) = written (rows ++ row_of o ∷ []) os

-- no biz_id of the orders is in the rows, or used by an order before
abbrev pub IsFresh : List RebateRow → List BehaviorRebateOrder → Type 0
IsFresh rows [] = Unit
IsFresh rows (o ∷ os) = (has_biz o.biz_id rows ≡ false) × IsFresh (rows ++ row_of o ∷ []) os

-- the messages of some of the orders, in their order, behind those that were sent
abbrev pub IsPublished : List BehaviorRebateOrder → List RebateMessage → List RebateMessage → Type 0
IsPublished [] before after = after ≡ before
IsPublished (o ∷ os) before after =
    IsPublished os (before ++ message_of o ∷ []) after ⊎ IsPublished os before after

abbrev pub all_sent : List BehaviorRebateOrder → List RebateMessage → List RebateMessage
all_sent [] before = before
all_sent (o ∷ os) before = all_sent os (before ++ message_of o ∷ [])

abbrev pub IsRebateSaved :
    List BehaviorRebateOrder → RebateStore → Outcome (Unit {0}) × RebateStore → Type 0
IsRebateSaved orders s (ok u, s') =
    IsFresh s.rows orders
    × (s'.rows ≡ written s.rows orders)
    × IsPublished orders s.sent s'.sent
    × (s.faults ≡ [] → s'.sent ≡ all_sent orders s.sent)
IsRebateSaved orders s (err e, s') = (s'.rows ≡ s.rows) × (s'.sent ≡ s.sent)
IsRebateSaved orders s (panics, s') = ⊥

abbrev IsWritten :
    List BehaviorRebateOrder → RebateStore → Outcome (Unit {0}) × RebateStore → Type 0
IsWritten orders s (ok u, s') =
    IsFresh s.rows orders
    × (s'.rows ≡ written s.rows orders)
    × (s'.sent ≡ s.sent)
    × (s.faults ≡ [] → s'.faults ≡ [])
IsWritten orders s (err e, s') = s'.sent ≡ s.sent
IsWritten orders s (panics, s') = ⊥

abbrev with_faults : List Bool → RebateStore → RebateStore
with_faults fs s = record s { faults = fs }

-- a command goes through or fails, and takes its entry of the faults, if there is one
pub call-cases :
    (s : RebateStore)
    → (fs : List Bool) × ((call s ≡ (ok tt, record s { faults = fs })) × (s.faults ≡ [] → fs ≡ [])
        ⊎ (call s ≡ (err driver, record s { faults = fs })) × (s.faults ≢ []))
unfolding call
call-cases s = go s.faults refl
  where
    go :
        (l : List Bool)
        → s.faults ≡ l
        → (fs : List Bool) × ((after_fault s.faults s ≡ (ok tt, record s { faults = fs }))
              × (s.faults ≡ [] → fs ≡ [])
            ⊎ (after_fault s.faults s ≡ (err driver, record s { faults = fs })) × (s.faults ≢ []))
    go [] e = ([], inl (rw e refl, λ h. refl))
    go (true ∷ fs) e = (fs, inr (rw e refl, λ h. cc))
    go (false ∷ fs) e = (fs, inl (rw e refl, λ h. absurd (cc)))

insert_ok :
    (o : BehaviorRebateOrder) (os : List BehaviorRebateOrder) (s s1 : RebateStore)
    → call s ≡ (ok tt, s1)
    → insert_orders (o ∷ os) s ≡ (
        if has_biz o.biz_id s1.rows
        then (err duplicate_entry, s1)
        else insert_orders os (record s1 { rows = s1.rows ++ row_of o ∷ [] }))
unfolding insert_orders order_row
insert_ok o os s s1 e = rw e refl

insert_err :
    (o : BehaviorRebateOrder) (os : List BehaviorRebateOrder) (s s1 : RebateStore)
    → call s ≡ (err driver, s1)
    → insert_orders (o ∷ os) s ≡ (err driver, s1)
unfolding insert_orders
insert_err o os s s1 e = rw e refl

insert_orders-IsWritten :
    (orders : List BehaviorRebateOrder) (s : RebateStore)
    → IsWritten orders s (insert_orders orders s)
unfolding insert_orders
insert_orders-IsWritten [] s = (tt, refl, refl, λ h. h)
insert_orders-IsWritten (o ∷ os) s = step (insert_orders-IsWritten os) (call-cases s)
  where
    written_rest :
        (fs : List Bool) (r : Outcome (Unit {0}) × RebateStore)
        → has_biz o.biz_id s.rows ≡ false
        → (s.faults ≡ [] → fs ≡ [])
        → IsWritten os (record s { faults = fs; rows = s.rows ++ row_of o ∷ [] }) r
        → IsWritten (o ∷ os) s r
    written_rest fs (ok u, s') new quiet (fresh, rows, sent, rest) =
        ((new, fresh), rows, sent, λ h. rest (quiet h))
    written_rest fs (err e, s') new quiet sent = sent
    written_rest fs (panics, s') new quiet h = h

    step :
        ((s' : RebateStore) → IsWritten os s' (insert_orders os s'))
        → (fs : List Bool) × ((call s ≡ (ok tt, record s { faults = fs }))
              × (s.faults ≡ [] → fs ≡ [])
            ⊎ (call s ≡ (err driver, record s { faults = fs })) × (s.faults ≢ []))
        → IsWritten (o ∷ os) s (insert_orders (o ∷ os) s)
    step ih (fs, inr (e, hit)) = rw (insert_err o os s _ e) refl
    step ih (fs, inl (e, quiet)) =
        rw (insert_ok o os s _ e) (elim (Bool-cases (has_biz o.biz_id s.rows)) [
          | inl known ↦ rw known refl
          | inr new ↦ rw new (written_rest fs _ new quiet (ih _))
        ])

publish_ok :
    (o : BehaviorRebateOrder) (os : List BehaviorRebateOrder) (s s1 : RebateStore)
    → call s ≡ (ok tt, s1)
    → publish_orders (o ∷ os) s
      ≡ publish_orders os (record s1 { sent = s1.sent ++ message_of o ∷ [] })
unfolding publish_orders rebate_message
publish_ok o os s s1 e = rw e refl

publish_err :
    (o : BehaviorRebateOrder) (os : List BehaviorRebateOrder) (s s1 : RebateStore)
    → call s ≡ (err driver, s1)
    → publish_orders (o ∷ os) s ≡ publish_orders os s1
unfolding publish_orders
publish_err o os s s1 e = rw e refl

abbrev IsSent : List BehaviorRebateOrder → RebateStore → RebateStore → Type 0
IsSent orders s s' =
    (s'.rows ≡ s.rows)
    × IsPublished orders s.sent s'.sent
    × (s.faults ≡ [] → s'.sent ≡ all_sent orders s.sent)

publish_orders-IsSent :
    (orders : List BehaviorRebateOrder) (s : RebateStore)
    → IsSent orders s (publish_orders orders s)
unfolding publish_orders
publish_orders-IsSent [] s = (refl, refl, λ h. refl)
publish_orders-IsSent (o ∷ os) s = step (publish_orders-IsSent os) (call-cases s)
  where
    step :
        ((s' : RebateStore) → IsSent os s' (publish_orders os s'))
        → (fs : List Bool) × ((call s ≡ (ok tt, record s { faults = fs }))
              × (s.faults ≡ [] → fs ≡ [])
            ⊎ (call s ≡ (err driver, record s { faults = fs })) × (s.faults ≢ []))
        → IsSent (o ∷ os) s (publish_orders (o ∷ os) s)
    step ih (fs, inr (e, hit)) =
        rw (publish_err o os s _ e)
          (let (rows, sent, all) = ih (with_faults fs s) in (rows, inr sent, λ h. absurd (hit h)))
    step ih (fs, inl (e, quiet)) = rw (publish_ok o os s _ e) (
        let (rows, sent, all) = ih (record s { faults = fs; sent = s.sent ++ message_of o ∷ [] }) in
        (rows, inl sent, λ h. all (quiet h)))

abbrev IsKept : List BehaviorRebateOrder → RebateStore → Outcome (Unit {0}) × RebateStore → Type 0
IsKept orders s (ok u, s') =
    IsFresh s.rows orders
    × (s'.rows ≡ written s.rows orders)
    × (s'.sent ≡ s.sent)
    × (s.faults ≡ [] → s'.faults ≡ [])
IsKept orders s (err e, s') = (s'.rows ≡ s.rows) × (s'.sent ≡ s.sent)
IsKept orders s (panics, s') = ⊥

save_orders-IsKept :
    (orders : List BehaviorRebateOrder) (s : RebateStore) → IsKept orders s (save_orders orders s)
unfolding save_orders
save_orders-IsKept orders s =
    go (insert_orders orders s).0 (insert_orders orders s).1 (insert_orders-IsWritten orders s)
  where
    commit :
        (s1 : RebateStore)
        → IsWritten orders s (ok tt, s1)
        → (fs : List Bool) × ((call s1 ≡ (ok tt, record s1 { faults = fs }))
              × (s1.faults ≡ [] → fs ≡ [])
            ⊎ (call s1 ≡ (err driver, record s1 { faults = fs })) × (s1.faults ≢ []))
        → IsKept orders s (let (r, s') = call s1 in settle s.rows r s')
    commit s1 (fresh, rows, sent, quiet) (fs, inl (e, q)) =
        rw e (fresh, rows, sent, λ h. q (quiet h))
    commit s1 (fresh, rows, sent, quiet) (fs, inr (e, q)) = rw e (refl, sent)

    go :
        (r : Outcome (Unit {0})) (s1 : RebateStore)
        → IsWritten orders s (r, s1)
        → IsKept orders s (let (r', s') = resume r (λ _. call) s1 in settle s.rows r' s')
    go (ok u) s1 w = commit s1 w (call-cases s1)
    go (err e) s1 sent = (refl, sent)
    go panics s1 h = h

-- Whatever commands fail: where the rebates of a behaviour are saved, no biz_id of them was taken, all are
-- written, and their messages are published in their order, some of which may get lost and none where no
-- command fails; where the save fails, as it does for a biz_id that was taken, nothing is written and
-- nothing published. It never panics.
pub save_user_rebate_order_settles :
    (user_id : String) (aggregate : BehaviorRebate) (s : RebateStore)
    → IsRebateSaved aggregate.behavior_rebate_orders s (save_user_rebate_order user_id aggregate s)
unfolding save_user_rebate_order
save_user_rebate_order_settles user_id aggregate s = elim (Bool-cases (s.routed user_id)) [
  | inr lost ↦ rw lost (refl, refl)
  | inl routed ↦
      rw routed (go (save_orders orders s).0 (save_orders orders s).1 (save_orders-IsKept orders s))
]
  where
    orders : List BehaviorRebateOrder
    orders = aggregate.behavior_rebate_orders

    go :
        (r : Outcome (Unit {0})) (s1 : RebateStore)
        → IsKept orders s (r, s1)
        → IsRebateSaved orders s (resume r (λ _ s'. (ok tt, publish_orders orders s')) s1)
    go (ok u) s1 (fresh, rows, sent, quiet) =
        let (kept, some_sent, all) = publish_orders-IsSent orders s1 in
        (
          fresh,
          kept ∙ rows,
          subst (λ x. IsPublished orders x (publish_orders orders s1).sent) sent some_sent,
          λ h. all (quiet h) ∙ ap (all_sent orders) sent,
        )
    go (err e) s1 kept = kept
    go panics s1 h = h
