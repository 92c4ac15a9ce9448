-- ===== src/Activity/Store.antt =====
-- The Redis keys and the MySQL rows of one shard that taking part reads and writes. Each command
-- takes the next entry of `faults`, and fails where it says so. A unique index makes a table a
-- function of its key. Expiry of keys is not modelled.
pub mod Runs
use lucky_market.Base.{
  ℕ, String, Bool, true, false, ◌&&◌, ◌||◌, Option, none, some, List, [], ◌∷◌, str_eq,
  if◌then◌else◌,
}
use lucky_market.Base.Int.{ℤ, eqb_ℤ}
use lucky_market.Base.Outcome.{
  Exec, Outcome, ok, err, panics, Error, pure, fail, ◌>>=◌, ◌>>◌, driver, record_not_found,
  duplicate_entry,
}
use lucky_market.Activity.Model.{ActivityAccount}

-- The key functions of internal/data/keys.go, on what they format: their formats are injective, the
-- identifier standing before the first underscore and the date, of fixed length, at the end.
pub data Key : Type 0 where
  total_surplus : ℤ → String → Key
  day_surplus : ℤ → String → String → Key
  month_surplus : ℤ → String → String → Key
  pending_raffle_order : ℤ → String → Key

unfoldable pub eqb_key : Key → Key → Bool
eqb_key (total_surplus a u) (total_surplus b v) = eqb_ℤ a b && str_eq u v
eqb_key (day_surplus a u d) (day_surplus b v e) = eqb_ℤ a b && (str_eq u v && str_eq d e)
eqb_key (month_surplus a u d) (month_surplus b v e) = eqb_ℤ a b && (str_eq u v && str_eq d e)
eqb_key (pending_raffle_order a u) (pending_raffle_order b v) = eqb_ℤ a b && str_eq u v
eqb_key _ _ = false

-- The hash of a pending order: order id, strategy id and state.
pub record PendingHash : Type 0 where
  pub oid : Option String
  pub sid : Option String
  pub st : Option String

abbrev pub no_hash : PendingHash
no_hash = record { oid = none; sid = none; st = none }

pub record AccountRow : Type 0 where
  pub total_count : ℤ
  pub total_count_surplus : ℤ
  pub day_count : ℤ
  pub day_count_surplus : ℤ
  pub month_count : ℤ
  pub month_count_surplus : ℤ

-- A row of raffle_activity_account_month or raffle_activity_account_day.
pub record PeriodRow : Type 0 where
  pub count : ℤ
  pub surplus : ℤ

pub record OrderRow (T : Type 0) : Type 0 where
  pub activity_id : ℤ
  pub activity_name : String
  pub strategy_id : ℤ
  pub order_time : T
  pub order_state : String
  pub account_sync_state : String

-- The JSON text of a task's message, by what it carries.
pub data Message : Type 0 where
  save_order : String → String → Message
  send_award : String → ℤ → String → Message

pub record TaskRow : Type 0 where
  pub user_id : String
  pub topic : String
  pub message_id : String
  pub message : Message
  pub state : String

-- A row of user_award_record.
pub record AwardRow (T : Type 0) : Type 0 where
  pub user_id : String
  pub activity_id : ℤ
  pub strategy_id : ℤ
  pub award_id : ℤ
  pub award_title : String
  pub award_time : T
  pub award_state : String

-- A row of raffle_activity_order: a recharge.
pub record RechargeRow (T : Type 0) : Type 0 where
  pub user_id : String
  pub sku : ℤ
  pub activity_id : ℤ
  pub activity_name : String
  pub strategy_id : ℤ
  pub order_id : String
  pub order_time : T
  pub total_count : ℤ
  pub day_count : ℤ
  pub month_count : ℤ
  pub state : String

pub record Tables (T : Type 0) : Type 0 where
  -- user_raffle_order, by user and order id
  pub orders : String → String → Option (OrderRow T)
  -- raffle_activity_account, by user and activity
  pub accounts : String → ℤ → Option AccountRow
  pub months : String → ℤ → String → Option PeriodRow
  pub days : String → ℤ → String → Option PeriodRow
  pub tasks : List TaskRow
  -- user_award_record, by its order id
  pub awards : String → Option (AwardRow T)
  -- raffle_activity_order, by its out_business_no
  pub recharges : String → Option (RechargeRow T)

pub record Store (T : Type 0) : Type 0 where
  pub counters : Key → Option ℤ
  pub hashes : Key → PendingHash
  -- the seconds after which a hash expires
  pub ttls : Key → Option ℕ
  -- the cached account of an activity and a user
  pub snapshots : ℤ → String → Option ActivityAccount
  pub tables : Tables T
  -- whether the router has a database for a user
  pub routed : String → Bool
  pub faults : List Bool

module _ {V : Type 0} where
  abbrev pub put_key : Key → V → (Key → V) → Key → V
  put_key k v m j = if eqb_key k j then v else m j

  abbrev pub put_order : String → String → V → (String → String → V) → String → String → V
  put_order u o v m u' o' = if str_eq u u' && str_eq o o' then v else m u' o'

  abbrev pub put_account : String → ℤ → V → (String → ℤ → V) → String → ℤ → V
  put_account u a v m u' a' = if str_eq u u' && eqb_ℤ a a' then v else m u' a'

  abbrev pub put_period :
      String → ℤ → String → V → (String → ℤ → String → V) → String → ℤ → String → V
  put_period u a p v m u' a' p' =
      if str_eq u u' && (eqb_ℤ a a' && str_eq p p') then v else m u' a' p'

abbrev pub or_missing : {A : Type 0} → Option A → Outcome A
or_missing none = err record_not_found
or_missing (some a) = ok a

module _ {T : Type 0} where
  abbrev pub after_fault : List Bool → Store T → Outcome (Unit {0}) × Store T
  after_fault [] s = (ok tt, s)
  after_fault (true ∷ fs) s = (err driver, record s { faults = fs })
  after_fault (false ∷ fs) s = (ok tt, record s { faults = fs })

  -- a command that reaches its server, or does not
  unfoldable pub call : Exec (Store T) (Unit {0})
  call s = after_fault s.faults s

  -- a query, and one that must find its row
  unfoldable pub select : {A : Type 0} → (Tables T → A) → Exec (Store T) A
  unfolding call
  select f = call >> λ s. (ok (f s.tables), s)

  unfoldable pub first : {A : Type 0} → (Tables T → Option A) → Exec (Store T) A
  unfolding call
  first f = call >> λ s. (or_missing (f s.tables), s)

  -- a statement that writes
  unfoldable pub execute : (Tables T → Tables T) → Exec (Store T) (Unit {0})
  unfolding call
  execute f = call >> λ s. (ok tt, record s { tables = f s.tables })

  abbrev pub change_row : {A : Type 0} → (A → Tables T → Tables T) → Option A → Exec (Store T) ℕ
  change_row g none s = (ok 0, s)
  change_row g (some a) s = (ok 1, record s { tables = g a s.tables })

  abbrev pub add_row : {A : Type 0} → (Tables T → Tables T) → Option A → Exec (Store T) (Unit {0})
  add_row g none s = (ok tt, record s { tables = g s.tables })
  add_row g (some a) s = (err duplicate_entry, s)

  -- an UPDATE of the row that `f` reads: how many rows it changed
  unfoldable pub update :
      {A : Type 0} → (Tables T → Option A) → (A → Tables T → Tables T) → Exec (Store T) ℕ
  unfolding call
  update f g = call >> λ s. change_row g (f s.tables) s

  -- an INSERT of a row that `f` reads, which a unique index refuses if there is one
  unfoldable pub insert :
      {A : Type 0} → (Tables T → Option A) → (Tables T → Tables T) → Exec (Store T) (Unit {0})
  unfolding call
  insert f g = call >> λ s. add_row g (f s.tables) s

  abbrev pub refuse_if : Bool → Error → Exec (Store T) (Unit {0})
  refuse_if true e = fail e
  refuse_if false e = pure tt

  -- what a transaction leaves: the old tables, unless its body and the commit succeeded
  abbrev pub settle : Tables T → Outcome (Unit {0}) → Store T → Outcome (Unit {0}) × Store T
  settle old (ok u) s = (ok u, s)
  settle old (err e) s = (err e, record s { tables = old })
  settle old panics s = (panics, record s { tables = old })

  -- db.Transaction(body)
  unfoldable pub transaction : Exec (Store T) (Unit {0}) → Exec (Store T) (Unit {0})
  unfolding call
  transaction body s = let (r, s') = (body >> call) s in settle s.tables r s'
