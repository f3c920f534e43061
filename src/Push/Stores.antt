-- ===== src/Push/Stores.antt =====
-- The stores of server/src/push: device tokens (pushTokenStore.ts), preferences (pushPrefStore.ts) and
-- quiet hours (pushQuietHoursStore.ts), and pending receipts (pushReceiptStore.ts). A table is the list of its rows, in the order in which they came in.
use hyper_solid.Prelude.{
  ℕ, String, Bool, true, false, not, ◌&&◌, Option, none, some, get_or, List, [], ◌∷◌, keep, Dict,
  lookup, insert, string_eq, ◌==◌, if◌then◌else◌, ◌≡◌, ◌↔◌, Eq, arith,
}
use hyper_solid.Push.Notifier.{PushCategory, fills, alerts, lifecycle}
use hyper_solid.Push.QuietHours.{QuietHours, is_within_quiet_hours}

pub record TokenRow (N : Type 0) : Type 0 where
  pub token : String
  pub owner : String
  pub platform : Option String
  pub locale : Option String
  pub created_at : N
  pub updated_at : N

module _ {N : Type 0} (lower : String → String) where
  -- `INSERT INTO push_tokens ... ON CONFLICT(token) DO UPDATE SET ...`
  unfoldable pub register :
      String → String → Option String → Option String → N → List (TokenRow N) → List (TokenRow N)
  register owner token platform locale now [] =
      record {
        token = token;
        owner = lower owner;
        platform = platform;
        locale = locale;
        created_at = now;
        updated_at = now;
      }
      ∷ []
  register owner token platform locale now (row ∷ rows) =
      let rest = register owner token platform locale now rows in
      if row.token == token
      then record row {
        owner = lower owner;
        platform = platform;
        locale = locale;
        updated_at = now;
      }
        ∷ rows
      else row ∷ rest

  abbrev pub is_row : String → String → TokenRow N → Bool
  is_row owner token row = row.token == token && row.owner == lower owner

  unfoldable pub unregister : String → String → List (TokenRow N) → List (TokenRow N)
  unregister owner token rows = keep (λ row. not (is_row owner token row)) rows

  unfoldable pub tokens_for_owner : String → List (TokenRow N) → List (TokenRow N)
  tokens_for_owner owner rows = keep (λ row. row.owner == lower owner) rows

unfoldable pub delete_token : {N : Type 0} → String → List (TokenRow N) → List (TokenRow N)
delete_token token rows = keep (λ row. not (row.token == token)) rows

pub record PrefRow (N : Type 0) : Type 0 where
  pub owner : String
  pub category : PushCategory
  pub enabled : Bool
  pub updated_at : N

pub record PushPrefs : Type 0 where
  pub fills : Bool
  pub alerts : Bool
  pub lifecycle : Bool

-- `Partial<PushPrefs>`
pub record SomePrefs : Type 0 where
  pub fills : Option Bool
  pub alerts : Option Bool
  pub lifecycle : Option Bool

abbrev pub same_category : PushCategory → PushCategory → Bool
same_category fills fills = true
same_category alerts alerts = true
same_category lifecycle lifecycle = true
same_category _ _ = false

pub same_category_iff : (c d : PushCategory) → (same_category c d ≡ true) ↔ (c ≡ d)
same_category_iff fills fills = ground arith
same_category_iff fills alerts = ground arith
same_category_iff fills lifecycle = ground arith
same_category_iff alerts fills = ground arith
same_category_iff alerts alerts = ground arith
same_category_iff alerts lifecycle = ground arith
same_category_iff lifecycle fills = ground arith
same_category_iff lifecycle alerts = ground arith
same_category_iff lifecycle lifecycle = ground arith

instance abbrev pub category_eq : Eq PushCategory
category_eq = record { same_iff = same_category_iff; same = same_category }

module _ {N : Type 0} (lower : String → String) where
  abbrev pub is_pref : String → PushCategory → PrefRow N → Bool
  is_pref owner category row = row.owner == lower owner && row.category == category

  abbrev pub first_pref : String → PushCategory → List (PrefRow N) → Option Bool
  first_pref owner category [] = none
  first_pref owner category (row ∷ rows) =
      if is_pref owner category row then some row.enabled else first_pref owner category rows

  -- No row is on.
  unfoldable pub is_enabled : String → PushCategory → List (PrefRow N) → Bool
  is_enabled owner category rows = get_or (first_pref owner category rows) true

  unfoldable pub get_prefs : String → List (PrefRow N) → PushPrefs
  unfolding is_enabled
  get_prefs owner rows = record {
    fills = is_enabled owner fills rows;
    alerts = is_enabled owner alerts rows;
    lifecycle = is_enabled owner lifecycle rows;
  }

  -- `INSERT INTO push_prefs ... ON CONFLICT(owner, category) DO UPDATE SET ...`
  abbrev pub upsert_pref : String → PushCategory → Bool → N → List (PrefRow N) → List (PrefRow N)
  upsert_pref owner category on now [] =
      record { owner = lower owner; category = category; enabled = on; updated_at = now } ∷ []
  upsert_pref owner category on now (row ∷ rows) =
      if is_pref owner category row
      then record row { enabled = on; updated_at = now } ∷ rows
      else row ∷ upsert_pref owner category on now rows

  abbrev pub set_if_given :
      String → PushCategory → Option Bool → N → List (PrefRow N) → List (PrefRow N)
  set_if_given owner category none now rows = rows
  set_if_given owner category (some on) now rows = upsert_pref owner category on now rows

  unfoldable pub set_prefs : String → SomePrefs → N → List (PrefRow N) → List (PrefRow N)
  set_prefs owner prefs now rows =
      set_if_given owner lifecycle prefs.lifecycle now
        (set_if_given owner alerts prefs.alerts now (set_if_given owner fills prefs.fills now rows))

abbrev pub default_hours : QuietHours
default_hours = record { enabled = false; start = 0; stop = 0; tz = "UTC" }

module _ (lower : String → String) where
  unfoldable pub get_hours : String → Dict String QuietHours → QuietHours
  get_hours owner table = get_or (lookup (lower owner) table) default_hours

  unfoldable pub set_hours : String → QuietHours → Dict String QuietHours → Dict String QuietHours
  set_hours owner qh table = insert (lower owner) qh table

  unfoldable pub is_quiet_now : (ℕ → String → Option ℕ) → String → ℕ → Dict String QuietHours → Bool
  unfolding get_hours
  is_quiet_now minute_of_day owner now_ms table =
      is_within_quiet_hours minute_of_day (get_hours owner table) now_ms
