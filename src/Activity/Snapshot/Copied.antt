-- ===== src/Activity/Snapshot/Copied.antt =====
-- What the assembly of an account leaves in Redis.
use mathlib.Core.Path.{subst}
use lucky_market.Base.{
  String, Bool, true, false, ◌&&◌, Option, some, List, [], ◌∷◌, ◌≡◌, refl, ap, sym, ◌∙◌, str_eq,
  eq_refl, if◌then◌else◌,
}
use lucky_market.Base.Int.{ℤ, eqb_ℤ, eqb_ℤ_iff}
use lucky_market.Base.Outcome.{Exec, Outcome, ok, err, panics, Post, resume}
use lucky_market.Activity.Model.{Calendar, ActivityAccount}
use lucky_market.Activity.Store.{
  Key, total_surplus, day_surplus, month_surplus, eqb_key, Store, call,
}
use lucky_market.Activity.Snapshot.{
  cache_activity_account_snapshot, query_activity_account_entity,
  assemble_activity_account_by_user_id,
}
use lucky_market.Activity.Snapshot.View.{IsView, query_account-IsView}

-- the counters of the account in Redis, by their keys
abbrev pub counter_of : String → String → ActivityAccount → (Key → Option ℤ) → Key → Option ℤ
counter_of month day account before k =
    if eqb_key (day_surplus account.activity_id account.user_id day) k
    then some account.day_count_surplus
    else if eqb_key (month_surplus account.activity_id account.user_id month) k
    then some account.month_count_surplus
    else if eqb_key (total_surplus account.activity_id account.user_id) k
    then some account.total_count_surplus
    else before k

abbrev pub IsCopied : {T : Type 0} → String → String → ActivityAccount → Store T → Store T → Type 0
IsCopied month day account s s' =
    (s'.counters ≡ counter_of month day account s.counters)
    × (s'.hashes ≡ s.hashes)
    × (s'.tables ≡ s.tables)
    × (s'.snapshots account.activity_id account.user_id ≡ some account)

module _ {T : Type 0} (month day : String) (account : ActivityAccount) where
  copied :
      (s : Store T)
      → let (r, s') = cache_activity_account_snapshot month day account s in
        Post (λ u. IsCopied month day account s s') r
  unfolding cache_activity_account_snapshot call
  copied s = go s.faults refl
    where
      mine :
          (eqb_ℤ account.activity_id account.activity_id && str_eq account.user_id account.user_id)
          ≡ true
      mine =
          rw ((eqb_ℤ_iff account.activity_id account.activity_id).1 refl, eq_refl account.user_id)
            refl

      go :
          (fs : List Bool)
          → s.faults ≡ fs
          → let (r, s') = cache_activity_account_snapshot month day account s in
            Post (λ u. IsCopied month day account s s') r
      go [] f = rw f (refl, refl, refl, rw mine refl)
      go (true ∷ fs) f = rw f tt
      go (false ∷ []) f = rw f (refl, refl, refl, rw mine refl)
      go (false ∷ true ∷ fs) f = rw f tt
      go (false ∷ false ∷ []) f = rw f (refl, refl, refl, rw mine refl)
      go (false ∷ false ∷ true ∷ fs) f = rw f tt
      go (false ∷ false ∷ false ∷ []) f = rw f (refl, refl, refl, rw mine refl)
      go (false ∷ false ∷ false ∷ true ∷ fs) f = rw f tt
      go (false ∷ false ∷ false ∷ false ∷ fs) f = rw f (refl, refl, refl, rw mine refl)

-- the three counters of a user, as the view has them, and the copy of the view
abbrev pub IsCached : {T : Type 0} → String → String → ActivityAccount → Store T → Type 0
IsCached month day view s =
    (s.counters (total_surplus view.activity_id view.user_id) ≡ some view.total_count_surplus)
    × (s.counters (month_surplus view.activity_id view.user_id month)
        ≡ some view.month_count_surplus)
    × (s.counters (day_surplus view.activity_id view.user_id day) ≡ some view.day_count_surplus)
    × (s.snapshots view.activity_id view.user_id ≡ some view)

module _ {T : Type 0} (month day : String) (view : ActivityAccount) where
  copied-IsCached : (s s' : Store T) → IsCopied month day view s s' → IsCached month day view s'
  unfolding eqb_key
  copied-IsCached s s' (counters, hashes, tables, snapshot) = (
    at (total_surplus view.activity_id view.user_id) ∙ rw (a, eq_refl view.user_id) refl,
    at (month_surplus view.activity_id view.user_id month)
        ∙ rw (a, eq_refl view.user_id, eq_refl month) refl,
    at (day_surplus view.activity_id view.user_id day)
        ∙ rw (a, eq_refl view.user_id, eq_refl day) refl,
    snapshot,
  )
    where
      at : (k : Key) → s'.counters k ≡ counter_of month day view s.counters k
      at k = ap (λ c. c k) counters

      a : eqb_ℤ view.activity_id view.activity_id ≡ true
      a = (eqb_ℤ_iff view.activity_id view.activity_id).1 refl

-- Whatever commands fail: an assembly of an account that succeeds sets the counters of the user's total
-- quota, and of the month and day of its later time, to what MySQL says of the month and day of its
-- first, whatever the counters were and whatever orders are pending.
pub assembly_sets_counters :
    {T : Type 0} (cal : Calendar T) (now later : T) (user_id : String) (activity_id : ℤ)
    (s : Store T)
    → let (r, s') = assemble_activity_account_by_user_id cal now later user_id activity_id s in
      Post
        (λ u.
          (view : ActivityAccount) × IsView user_id activity_id
            (cal.format_month now)
            (cal.format_day now)
            s.tables
            view
            s'.tables
          × IsCached (cal.format_month later) (cal.format_day later) view s')
        r
unfolding assemble_activity_account_by_user_id
assembly_sets_counters {T} cal now later user_id activity_id s =
    go (query s).0 (query s).1
      (query_account-IsView user_id activity_id (cal.format_month now) (cal.format_day now) s)
  where
    query : Exec (Store T) ActivityAccount
    query =
        query_activity_account_entity user_id activity_id (cal.format_month now)
          (cal.format_day now)

    snap : ActivityAccount → Exec (Store T) (Unit {0})
    snap = cache_activity_account_snapshot (cal.format_month later) (cal.format_day later)

    after :
        (view : ActivityAccount) (s1 : Store T) (r : Outcome (Unit {0})) (s' : Store T)
        → IsView user_id activity_id
            (cal.format_month now)
            (cal.format_day now)
            s.tables
            view
            s1.tables
        → Post (λ u. IsCopied (cal.format_month later) (cal.format_day later) view s1 s') r
        → Post
            (λ u.
              (view : ActivityAccount) × IsView user_id activity_id
                (cal.format_month now)
                (cal.format_day now)
                s.tables
                view
                s'.tables
              × IsCached (cal.format_month later) (cal.format_day later) view s')
            r
    after view s1 (ok u) s' is (counters, hashes, tables, snapshot) = (
      view,
      subst (IsView user_id activity_id (cal.format_month now) (cal.format_day now) s.tables view)
          (sym tables) is,
      copied-IsCached (cal.format_month later) (cal.format_day later) view s1 s'
          (counters, hashes, tables, snapshot),
    )
    after view s1 (err e) s' is c = tt
    after view s1 panics s' is c = tt

    go :
        (r : Outcome ActivityAccount) (s1 : Store T)
        → Post
            (λ view.
              IsView user_id activity_id
                (cal.format_month now)
                (cal.format_day now)
                s.tables
                view
                s1.tables)
            r
        → let (r', s') = resume r snap s1 in
          Post
            (λ u.
              (view : ActivityAccount) × IsView user_id activity_id
                (cal.format_month now)
                (cal.format_day now)
                s.tables
                view
                s'.tables
              × IsCached (cal.format_month later) (cal.format_day later) view s')
            r'
    go (ok view) s1 is =
        after view s1 (snap view s1).0 (snap view s1).1 is
          (copied (cal.format_month later) (cal.format_day later) view s1)
    go (err e) s1 is = tt
    go panics s1 is = tt
