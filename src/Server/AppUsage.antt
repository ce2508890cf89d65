-- ===== src/Server/AppUsage.antt =====
-- crates/server/src/app_usage.rs, lines 14-124 and 301-305: the app totals that an agent reports. A
-- `NaiveDate` is a parameter. The source remembers the users it has looked up, which no entry
-- changes; times of first and last sight are left out.
use Prim.Native.Char.{code}
use screenguard.Prelude.{
  eq_nat, eq_string, eq_pair, ℕ, zero, suc, ◌+◌, Bool, false, not, ◌&&◌, ◌||◌, Option, none, some,
  List, [], ◌∷◌, String, ◌==◌, if◌then◌else◌, or_default, any, filter, ltb, leb, min, ◌>>=◌,
}
use screenguard.Prelude.Dict.{Dict, get, insert}
use screenguard.Apps.Chars.{all_chars, is_empty, is_control, is_digit, is_lower, is_upper, len}
use screenguard.Apps.Id.{AppId, parse, display, is_app}
use screenguard.Text.{trim}
use screenguard.Text.Decimal.{join}
use screenguard.Server.Db.{AgentUser, Db, get_agent_user}

abbrev pub max_seconds_per_day : ℕ
max_seconds_per_day = 86400

-- `NaiveDate`: its print, the next day, and the order.
pub record Calendar (D : Type 0) : Type 0 where
  pub print : D → String
  pub succ_opt : D → Option D
  pub later : D → D → Bool

pub record AppUsageEntry (D : Type 0) : Type 0 where
  pub local_uid : ℕ
  pub date : D
  pub app_id : String
  pub display_name : String
  pub icon : Option String
  pub categories : List String
  pub seconds_total : ℕ

pub record GroupUsageEntry (D : Type 0) : Type 0 where
  pub local_uid : ℕ
  pub date : D
  pub group_id : String
  pub seconds_total : ℕ

pub record AppUsageSync (D : Type 0) : Type 0 where
  pub entries : List (AppUsageEntry D)
  pub groups : List (GroupUsageEntry D)

pub record Ingested : Type 0 where
  pub stored : ℕ
  pub rejected : ℕ

-- The columns of `app_catalog` besides its key.
pub record CatalogApp : Type 0 where
  pub display_name : String
  pub icon : Option String
  pub categories : String

-- The user, the day, and the app or the group.
abbrev pub UsageKey : Type 0
UsageKey = (String × String) × String

-- The tables that a sync reads and writes; a row of `app_groups` has its id and profile.
pub record Tables : Type 0 where
  pub db : Db
  pub app_groups : List (String × String)
  pub app_usage : Dict UsageKey ℕ
  pub app_catalog : Dict String CatalogApp
  pub app_group_usage : Dict UsageKey ℕ

abbrev pub group_exists : List (String × String) → String → String → Bool
group_exists rows profile id = any (λ (g : String × String). g.0 == id && g.1 == profile) rows

-- The characters that are kept of a text, at most `max`.
abbrev pub kept_chars : ℕ → String → String
kept_chars zero s = String.[]
kept_chars (suc max) String.[] = String.[]
kept_chars (suc max) (String.◌∷◌ c s) =
    let rest = kept_chars max s in
    let same = kept_chars (suc max) s in if is_control (code c) then same else String.◌∷◌ c rest

unfoldable pub clean : String → ℕ → Option String
clean s max = let t = trim (kept_chars max s) in if is_empty t then none else some t

abbrev pub is_category_char : ℕ → Bool
is_category_char c = is_lower c || is_upper c || is_digit c || c == b'-' || c == b'_'

abbrev pub is_category : String → Bool
is_category s = not (is_empty s) && leb (len s) 64 && all_chars is_category_char s

abbrev pub take : ℕ → List String → List String
take zero xs = []
take (suc n) [] = []
take (suc n) (x ∷ xs) = x ∷ take n xs

-- The larger of the stored and the new total stays.
abbrev pub larger : ℕ → Option ℕ → ℕ
larger seconds none = seconds
larger seconds (some old) = if ltb old seconds then seconds else old

unfoldable pub keep_larger : Dict UsageKey ℕ → UsageKey → ℕ → Dict UsageKey ℕ
keep_larger rows key seconds = insert rows key (larger seconds (get rows key))

abbrev pub one_stored : Ingested → Ingested
one_stored r = record r { stored = r.stored + 1 }

abbrev pub one_rejected : Ingested → Ingested
one_rejected r = record r { rejected = r.rejected + 1 }

abbrev pub app_of : String → Option AppId
app_of id = parse id >>= λ app. if is_app app then some app else none

abbrev pub clean_icon : Option String → Option String
clean_icon none = none
clean_icon (some i) = clean i 512

module _ {D : Type 0} ⦃c : Calendar D⦄ (agent : String) (today : D) where
  abbrev pub in_future : D → Bool
  in_future date = c.later date (or_default today (c.succ_opt today))

  abbrev pub catalog_app : AppId → AppUsageEntry D → CatalogApp
  catalog_app app e = record {
    display_name = or_default app.name (clean e.display_name 200);
    icon = clean_icon e.icon;
    categories = join ";" (take 20 (filter is_category e.categories));
  }

  abbrev pub store_app : Tables → AppUsageEntry D → AppId → String → Tables
  store_app t e app user = record t {
    app_usage =
        keep_larger t.app_usage ((user, c.print e.date), display app)
          (min e.seconds_total max_seconds_per_day);
    app_catalog = insert t.app_catalog (display app) (catalog_app app e);
  }

  -- The row of `app_usage` that an entry is for, unless it is rejected.
  abbrev pub accepted_app : Db → AppUsageEntry D → Option (AppId × String)
  accepted_app db e = app_of e.app_id >>= λ app.
      if in_future e.date
      then none
      else (get_agent_user db agent e.local_uid >>= λ (u : AgentUser). some (app, u.id))

  abbrev pub add_app :
      Tables → Ingested → AppUsageEntry D → Option (AppId × String) → Tables × Ingested
  add_app t r e none = (t, one_rejected r)
  add_app t r e (some a) = (store_app t e a.0 a.1, one_stored r)

  unfoldable pub ingest_entries : Tables → Ingested → List (AppUsageEntry D) → Tables × Ingested
  ingest_entries t r [] = (t, r)
  ingest_entries t r (e ∷ entries) =
      let after = add_app t r e (accepted_app t.db e) in ingest_entries after.0 after.1 entries

  abbrev pub known_group : List (String × String) → String → Option String → Bool
  known_group rows id none = false
  known_group rows id (some profile) = group_exists rows profile id

  -- The user of a group's entry, unless it is rejected.
  abbrev pub accepted_group : Db → List (String × String) → GroupUsageEntry D → Option String
  accepted_group db rows g = get_agent_user db agent g.local_uid >>= λ (u : AgentUser).
      if known_group rows g.group_id u.profile_id && not (in_future g.date) then some u.id else none

  abbrev pub add_group : Tables → Ingested → GroupUsageEntry D → Option String → Tables × Ingested
  add_group t r g none = (t, one_rejected r)
  add_group t r g (some user) = (
    record t {
      app_group_usage =
          keep_larger t.app_group_usage ((user, c.print g.date), g.group_id)
            (min g.seconds_total max_seconds_per_day);
    },
    one_stored r,
  )

  unfoldable pub ingest_groups : Tables → Ingested → List (GroupUsageEntry D) → Tables × Ingested
  ingest_groups t r [] = (t, r)
  ingest_groups t r (g ∷ groups) =
      let after = add_group t r g (accepted_group t.db t.app_groups g) in
      ingest_groups after.0 after.1 groups

  unfoldable pub ingest : Tables → AppUsageSync D → Tables × Ingested
  ingest t sync =
      let apps = ingest_entries t (record { stored = 0; rejected = 0 }) sync.entries in
      ingest_groups apps.0 apps.1 sync.groups
