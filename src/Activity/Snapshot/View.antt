-- ===== src/Activity/Snapshot/View.antt =====
-- What the query of an account answers.
use lucky_market.Base.{
  String, Bool, true, false, Option, none, some, List, [], ◌∷◌, ◌≡◌, refl, ap, ◌∙◌, inl, inr,
  Bool-cases,
}
use lucky_market.Base.Int.{ℤ}
use lucky_market.Base.Outcome.{Post, pure}
use lucky_market.Activity.Model.{ActivityAccount}
use lucky_market.Activity.Store.{
  AccountRow, PeriodRow, Tables, Store, call, first, insert, put_period,
}
use lucky_market.Activity.Store.Runs.{Runs, >>=-Runs, first-Runs, weaken-Runs}
use lucky_market.Activity.Snapshot.{
  create_row, find_or_create, account_entity, start_month, start_day, query_routed,
  query_activity_account_entity,
}

-- the row, or the one that it is started with
abbrev pub row_or : PeriodRow → Option PeriodRow → PeriodRow
row_or row none = row
row_or row (some r) = r

abbrev pub started_with : {A : Type 0} → A → A → Option PeriodRow → A
started_with new old none = new
started_with new old (some r) = old

module _ {T : Type 0} where
  module _ (f : Tables T → Option PeriodRow) (set : PeriodRow → Tables T → Tables T)
      (row : PeriodRow) where
    abbrev IsFound : Tables T → PeriodRow → Tables T → Type 0
    IsFound t r t' = (r ≡ row_or row (f t)) × (t' ≡ started_with (set row t) t (f t))

    find_or_create-Runs : Runs IsFound (find_or_create f set row)
    unfolding find_or_create first insert call
    find_or_create-Runs = record { runs = λ s. go s s.faults (f s.tables) refl refl }
      where
        go :
            (s : Store T) (fs : List Bool) (o : Option PeriodRow)
            → s.faults ≡ fs
            → f s.tables ≡ o
            → Post
                (λ r. IsFound s.tables r (find_or_create f set row s).1.tables)
                (find_or_create f set row s).0
        go s [] (some r) e h = rw (e, h) (refl, refl)
        go s [] none e h = rw (e, h) (rw (h, create_row) (refl, refl))
        go s (true ∷ fs) o e h = rw e tt
        go s (false ∷ fs) (some r) e h = rw (e, h) (refl, refl)
        go s (false ∷ []) none e h = rw (e, h) (rw h (refl, refl))
        go s (false ∷ true ∷ fs) none e h = rw (e, h) tt
        go s (false ∷ false ∷ fs) none e h = rw (e, h) (rw h (refl, refl))

abbrev pub first_month : AccountRow → PeriodRow
first_month account = record { count = account.month_count; surplus = account.month_count_surplus }

abbrev pub first_day : AccountRow → PeriodRow
first_day account = record { count = account.day_count; surplus = account.day_count_surplus }

-- the totals of the account, and the counts of its rows of the month and the day; a row that is missing
-- is started with what the account says
abbrev pub IsView :
    {T : Type 0} → String → ℤ → String → String → Tables T → ActivityAccount → Tables T → Type 0
IsView user_id activity_id month day t view t' =
    (account : AccountRow) × (t.accounts user_id activity_id ≡ some account)
    × (view ≡ record {
      user_id = user_id;
      activity_id = activity_id;
      total_count = account.total_count;
      total_count_surplus = account.total_count_surplus;
      day_count = (row_or (first_day account) (t.days user_id activity_id day)).count;
      day_count_surplus = (row_or (first_day account) (t.days user_id activity_id day)).surplus;
      month_count = (row_or (first_month account) (t.months user_id activity_id month)).count;
      month_count_surplus =
          (row_or (first_month account) (t.months user_id activity_id month)).surplus;
    })
    × (t' ≡ record t {
      months =
          started_with (put_period user_id activity_id month (some (first_month account)) t.months)
            t.months (t.months user_id activity_id month);
      days =
          started_with (put_period user_id activity_id day (some (first_day account)) t.days) t.days
            (t.days user_id activity_id day);
    })

module _ {T : Type 0} (user_id : String) (activity_id : ℤ) (month day : String) where
  join :
      (t : Tables T) (m d : PeriodRow) (om od : Option PeriodRow)
      → (let t1 = started_with (start_month user_id activity_id month m t) t om in
          started_with (start_day user_id activity_id day d t1) t1 od)
        ≡ record t {
          months =
              started_with (put_period user_id activity_id month (some m) t.months) t.months om;
          days = started_with (put_period user_id activity_id day (some d) t.days) t.days od;
        }
  join t m d none none = refl
  join t m d none (some od) = refl
  join t m d (some om) none = refl
  join t m d (some om) (some od) = refl

  abbrev monthly : AccountRow → Tables T → Tables T
  monthly account t =
      started_with (start_month user_id activity_id month (first_month account) t) t
        (t.months user_id activity_id month)

  abbrev daily : AccountRow → Tables T → Tables T
  daily account t =
      started_with (start_day user_id activity_id day (first_day account) t) t
        (t.days user_id activity_id day)

  days_kept :
      (m : PeriodRow) (t : Tables T) (o : Option PeriodRow)
      → (started_with (start_month user_id activity_id month m t) t o).days ≡ t.days
  days_kept m t none = refl
  days_kept m t (some r) = refl

  assembled :
      (t t1 t2 t3 t' : Tables T) (view : ActivityAccount) (account : AccountRow) (m d : PeriodRow)
      → t.accounts user_id activity_id ≡ some account
      → t1 ≡ t
      → m ≡ row_or (first_month account) (t1.months user_id activity_id month)
      → t2 ≡ monthly account t1
      → d ≡ row_or (first_day account) (t2.days user_id activity_id day)
      → t3 ≡ daily account t2
      → view ≡ account_entity user_id activity_id account m d
      → t' ≡ t3
      → IsView user_id activity_id month day t view t'
  unfolding account_entity
  assembled t t1 t2 t3 t' view account m d found same mr mt dr dt is last =
      let to_monthly : t2 ≡ monthly account t = mt ∙ ap (monthly account) same in
      let kept : t2.days ≡ t.days =
        ap (λ (x : Tables T). x.days) to_monthly ∙ days_kept (first_month account) t _ in
      let m_is : m ≡ row_or (first_month account) (t.months user_id activity_id month) =
        mr
        ∙ ap (λ (x : Tables T). row_or (first_month account) (x.months user_id activity_id month))
            same in
      let d_is : d ≡ row_or (first_day account) (t.days user_id activity_id day) =
        dr
        ∙ ap
            (λ (x : String → ℤ → String → Option PeriodRow).
              row_or (first_day account) (x user_id activity_id day))
            kept in
      (
        account,
        found,
        is
            ∙ ap (λ x. account_entity user_id activity_id account x d) m_is
            ∙ ap
                (λ x.
                  account_entity user_id activity_id account
                    (row_or (first_month account) (t.months user_id activity_id month)) x)
                d_is,
        last
            ∙ dt
            ∙ ap (daily account) to_monthly
            ∙ ap
                (λ (x : String → ℤ → String → Option PeriodRow).
                  started_with
                    (start_day user_id activity_id day (first_day account) (monthly account t))
                    (monthly account t) (x user_id activity_id day))
                (days_kept (first_month account) t _)
            ∙ join t (first_month account) (first_day account) _ _,
      )

  answer-Runs : {A : Type 0} (a : A) → Runs {T = T} (λ t x t'. (x ≡ a) × (t' ≡ t)) (pure a)
  answer-Runs a = record { runs = λ s. (refl, refl) }

  query_routed-Runs :
      Runs {T = T}
        (IsView user_id activity_id month day)
        (query_routed user_id activity_id month day)
  unfolding query_routed account_entity
  query_routed-Runs =
      weaken-Runs
        (>>=-Runs (first-Runs (λ t. t.accounts user_id activity_id)) (λ account.
          >>=-Runs
            (find_or_create-Runs (λ t. t.months user_id activity_id month)
              (start_month user_id activity_id month)
              (record { count = account.month_count; surplus = account.month_count_surplus }))
            (λ m.
              >>=-Runs
                (find_or_create-Runs (λ t. t.days user_id activity_id day)
                  (start_day user_id activity_id day)
                  (record { count = account.day_count; surplus = account.day_count_surplus }))
                (λ d. answer-Runs (account_entity user_id activity_id account m d)))))
        (λ t view t' (account, t1, (found, same), (m, t2, (mr, mt), (d, t3, (dr, dt), (is, last)))).
          assembled t t1 t2 t3 t' view account m d found same mr mt dr dt is last)

-- Whatever commands fail: a query of an account that succeeds answers the totals of its row, and the
-- counts of its rows of the month and of the day; a row that is missing is answered, and created, with
-- what the account says, and nothing else is written.
pub query_account-IsView :
    {T : Type 0} (user_id : String) (activity_id : ℤ) (month day : String) (s : Store T)
    → let (r, s') = query_activity_account_entity user_id activity_id month day s in
      Post (λ view. IsView user_id activity_id month day s.tables view s'.tables) r
unfolding query_activity_account_entity
query_account-IsView user_id activity_id month day s = elim (Bool-cases (s.routed user_id)) [
  | inr lost ↦ rw lost tt
  | inl routed ↦ rw routed ((query_routed-Runs user_id activity_id month day).runs s)
]
