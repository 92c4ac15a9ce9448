-- ===== src/Draw/Queries.antt =====
-- The queries of CreateOrder, which write nothing that a draw reads.
use lucky_market.Base.{
  ◌⊎◌, str_eq, String, Bool, true, false, Option, none, some, ◌≡◌, refl, ◌∙◌, if◌then◌else◌,
}
use lucky_market.Base.Int.{ℤ, pos, leb_ℤ}
use lucky_market.Base.Outcome.{Exec, Outcome, ok, err, panics, resume, Post, ◌>>=◌}
use lucky_market.Activity.Model.{state_open, Calendar, Activity, ActivityAccount}
use lucky_market.Activity.Store.{Store}
use lucky_market.Activity.Partake
use lucky_market.Activity.Partake.{
  create_order, order_for_activity, do_filter_account, filter_account, filter_periods, place_order,
  build_user_raffle_order, day_spent, month_spent,
}
use lucky_market.Activity.Partake.Restored.{data_repo}

-- what a query leaves
abbrev pub IsKept : {T : Type 0} → Store T → Store T → Type 0
IsKept s s' = (s'.tables ≡ s.tables) × (s'.hashes ≡ s.hashes)

-- the queries write neither a table nor a pending order, and what they answer for an activity is that
-- activity or none that is open, as the zero activity for an unknown id
pub record ReadOnly {T : Type 0} (repo : Partake.Repo T (Store T)) : Type 0 where
  pub reads_activity : (n : ℤ) (s : Store T) → IsKept s (repo.query_raffle_activity n s).1
  pub reads_account :
      (u : String) (n : ℤ) (s : Store T) → IsKept s (repo.query_activity_account u n s).1
  pub reads_day :
      (u : String) (n : ℤ) (d : String) (s : Store T)
      → IsKept s (repo.query_activity_account_day u n d s).1
  pub reads_month :
      (u : String) (n : ℤ) (m : String) (s : Store T)
      → IsKept s (repo.query_activity_account_month u n m s).1
  pub answers_activity :
      (n : ℤ) (s : Store T)
      → Post
          (λ (a : Activity T). (a.activity_id ≡ n) ⊎ (str_eq a.state state_open ≡ false))
          (repo.query_raffle_activity n s).0

module _ {T : Type 0} where
  IsKept-then :
      {A B : Type 0} (m : Exec (Store T) A) (f : A → Exec (Store T) B) (s : Store T)
      → IsKept s (m s).1
      → ((a : A) (s1 : Store T) → IsKept s1 (f a s1).1)
      → IsKept s ((m >>= f) s).1
  IsKept-then {A} m f s first next = go (m s).0 (m s).1 first
    where
      go : (r : Outcome A) (s1 : Store T) → IsKept s s1 → IsKept s (resume r f s1).1
      go (ok a) s1 (tables, hashes) =
          let (tables', hashes') = next a s1 in (tables' ∙ tables, hashes' ∙ hashes)
      go (err e) s1 kept = kept
      go panics s1 kept = kept

  IsKept-if :
      {A : Type 0} (b : Bool) (m n : Exec (Store T) A) (s : Store T)
      → IsKept s (m s).1
      → IsKept s (n s).1
      → IsKept s ((if b then m else n) s).1
  IsKept-if true m n s hm hn = hm
  IsKept-if false m n s hm hn = hn

  module _ (cal : Calendar T) (repo : Partake.Repo T (Store T)) (read : ReadOnly repo) where
    pub filter-IsKept :
        (user_id : String) (activity_id : ℤ) (now : T) (s : Store T)
        → IsKept s (do_filter_account cal repo user_id activity_id now s).1
    unfolding do_filter_account filter_account filter_periods
    filter-IsKept user_id activity_id now s =
        IsKept-then (repo.query_activity_account user_id activity_id)
          (filter_account cal repo user_id activity_id now) s
          (read.reads_account user_id activity_id s) behind
      where
        behind :
            (a : Option ActivityAccount) (s1 : Store T)
            → IsKept s1 (filter_account cal repo user_id activity_id now a s1).1
        behind none s1 = (refl, refl)
        behind (some account) s1 =
            IsKept-if (leb_ℤ account.total_count_surplus (pos 0)) _ _ s1 (refl, refl)
              (IsKept-then
                (repo.query_activity_account_day user_id activity_id (cal.format_day now)) _ s1
                (read.reads_day user_id activity_id (cal.format_day now) s1)
                (λ d s2.
                  IsKept-if (day_spent d) _ _ s2 (refl, refl)
                    (IsKept-then
                      (repo.query_activity_account_month user_id activity_id (cal.format_month now))
                      _ s2 (read.reads_month user_id activity_id (cal.format_month now) s2)
                      (λ m s3. IsKept-if (month_spent m) _ _ s3 (refl, refl) (refl, refl)))))

pub data_repo-ReadOnly :
    {T : Type 0} (cal : Calendar T) (now : T) (message_id : String)
    (repo : Partake.Repo T (Store T))
    → ReadOnly repo
    → ReadOnly (data_repo cal now message_id repo)
data_repo-ReadOnly cal now message_id repo read = record {
  reads_activity = read.reads_activity;
  reads_account = read.reads_account;
  reads_day = read.reads_day;
  reads_month = read.reads_month;
  answers_activity = read.answers_activity;
}
