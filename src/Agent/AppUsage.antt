-- ===== src/Agent/AppUsage.antt =====
-- crates/agent/src/db.rs, lines 486-648: the seconds of apps and groups per day, and their sync marks.
-- The rows of a query come in the order of the table; ORDER BY sets only the order of sending.
use Prim.Native.String.{compare as compare_str}
use Prim.Native.Nat.{Ordering}
use screenguard.Prelude.{
  eq_nat, eq_string, eq_pair, ℕ, ◌+◌, Bool, true, false, not, ◌&&◌, ◌||◌, Option, none, some, List,
  [], ◌∷◌, String, ◌==◌, if◌then◌else◌, or_default,
}
use screenguard.Prelude.Dict.{Dict, get, insert, retain}
use screenguard.Models.{GroupUsage}
use screenguard.Agent.Tables.{AppUsage, GroupSeconds, Elsewhere, DayKey, Db}

pub record AppUsageRow : Type 0 where
  pub local_uid : ℕ
  pub date : String
  pub app_id : String
  pub display_name : String
  pub icon : Option String
  pub categories : String
  pub seconds : ℕ

pub record GroupUsageRow : Type 0 where
  pub local_uid : ℕ
  pub date : String
  pub group_id : String
  pub seconds : ℕ

abbrev pub text_lt : String → String → Bool
text_lt s t = elim (compare_str s t) [ Ordering.lt ↦ true | _ ↦ false ]

abbrev pub app_seconds : Option AppUsage → ℕ
app_seconds none = 0
app_seconds (some row) = row.seconds

unfoldable pub add_app_usage : Db → ℕ → String → String → String → Option String → String → ℕ → Db
add_app_usage db uid date app name icon categories seconds =
    let total = app_seconds (get db.app_usage_log ((uid, date), app)) + seconds in
    record db {
      app_usage_log =
          insert db.app_usage_log ((uid, date), app)
            (record {
              display_name = name;
              icon = icon;
              categories = categories;
              seconds = total;
              synced = false;
            });
    }

-- No date is `~` or later.
abbrev pub is_due : Option String → String → Bool → Bool
is_due resend_since date synced = not synced || not (text_lt date (or_default "~" resend_since))

unfoldable pub due_apps : Option String → Dict DayKey AppUsage → List AppUsageRow
due_apps resend_since [] = []
due_apps resend_since ((((uid, date), app), row) ∷ rows) =
    let rest = due_apps resend_since rows in
    if is_due resend_since date row.synced
    then record {
      local_uid = uid;
      date = date;
      app_id = app;
      display_name = row.display_name;
      icon = row.icon;
      categories = row.categories;
      seconds = row.seconds;
    }
      ∷ rest
    else rest

unfoldable pub get_unsynced_app_usage : Db → Option String → List AppUsageRow
get_unsynced_app_usage db resend_since = due_apps resend_since db.app_usage_log

abbrev pub marked_app : ℕ → AppUsage → AppUsage
marked_app sent row = if row.seconds == sent then record row { synced = true } else row

abbrev pub update {ℓ} : {V : Type ℓ} → (V → V) → Dict DayKey V → DayKey → Option V → Dict DayKey V
update f rows key none = rows
update f rows key (some row) = insert rows key (f row)

-- Only a row that still holds the total that was sent is marked.
unfoldable pub mark_app_usage_synced : Db → AppUsageRow → Db
mark_app_usage_synced db r = record db {
  app_usage_log =
      update (marked_app r.seconds) db.app_usage_log ((r.local_uid, r.date), r.app_id)
        (get db.app_usage_log ((r.local_uid, r.date), r.app_id));
}

abbrev pub keeps_from {ℓ} : {V : Type ℓ} → String → DayKey → V → Bool
keeps_from before key row = not (text_lt key.0.1 before)

unfoldable pub prune_app_usage : Db → String → Db
prune_app_usage db before = record db {
  app_usage_log = retain (keeps_from before) db.app_usage_log;
}

abbrev pub group_seconds : Option GroupSeconds → ℕ
group_seconds none = 0
group_seconds (some row) = row.seconds

unfoldable pub add_group_usage : Db → ℕ → String → String → ℕ → Db
add_group_usage db uid date group seconds =
    let total = group_seconds (get db.group_usage_log ((uid, date), group)) + seconds in
    record db {
      group_usage_log =
          insert db.group_usage_log ((uid, date), group)
            (record { seconds = total; synced = false });
    }

unfoldable pub due_groups : Option String → Dict DayKey GroupSeconds → List GroupUsageRow
due_groups resend_since [] = []
due_groups resend_since ((((uid, date), group), row) ∷ rows) =
    let rest = due_groups resend_since rows in
    if is_due resend_since date row.synced
    then record { local_uid = uid; date = date; group_id = group; seconds = row.seconds } ∷ rest
    else rest

unfoldable pub get_unsynced_group_usage : Db → Option String → List GroupUsageRow
get_unsynced_group_usage db resend_since = due_groups resend_since db.group_usage_log

abbrev pub marked_group : ℕ → GroupSeconds → GroupSeconds
marked_group sent row = if row.seconds == sent then record row { synced = true } else row

unfoldable pub mark_group_usage_synced : Db → GroupUsageRow → Db
mark_group_usage_synced db r = record db {
  group_usage_log =
      update (marked_group r.seconds) db.group_usage_log ((r.local_uid, r.date), r.group_id)
        (get db.group_usage_log ((r.local_uid, r.date), r.group_id));
}

unfoldable pub prune_group_usage : Db → String → Db
prune_group_usage db before = record db {
  group_usage_log = retain (keeps_from before) db.group_usage_log;
}

abbrev pub day_groups : ℕ → String → Dict DayKey GroupSeconds → Dict String ℕ
day_groups uid date [] = []
day_groups uid date ((((u, d), group), row) ∷ rows) =
    let rest = day_groups uid date rows in
    if u == uid && d == date then (group, row.seconds) ∷ rest else rest

unfoldable pub get_group_usage : Db → ℕ → String → Dict String ℕ
get_group_usage db uid date = day_groups uid date db.group_usage_log

-- INSERT fails for a group that the message names twice.
abbrev pub insert_elsewhere :
    ℕ
    → String
    → List GroupUsage
    → Dict (ℕ × String) Elsewhere
    → Option (Dict (ℕ × String) Elsewhere)
insert_elsewhere uid date [] rows = some rows
insert_elsewhere uid date (u ∷ usage) rows = elim (get rows (uid, u.group_id)) [
  | none ↦
      insert_elsewhere uid date usage
        (insert rows (uid, u.group_id) (record { date = date; seconds = u.used_seconds }))
  | some row ↦ none
]

abbrev pub is_other_user : ℕ → ℕ × String → Elsewhere → Bool
is_other_user uid key row = not (key.0 == uid)

abbrev pub with_elsewhere : Db → Option (Dict (ℕ × String) Elsewhere) → Option Db
with_elsewhere db none = none
with_elsewhere db (some rows) = some (record db { cached_group_elsewhere = rows })

unfoldable pub save_group_elsewhere : Db → ℕ → String → List GroupUsage → Option Db
save_group_elsewhere db uid date usage =
    with_elsewhere db
      (insert_elsewhere uid date usage (retain (is_other_user uid) db.cached_group_elsewhere))

abbrev pub day_elsewhere : ℕ → String → Dict (ℕ × String) Elsewhere → Dict String ℕ
day_elsewhere uid date [] = []
day_elsewhere uid date (((u, group), row) ∷ rows) =
    let rest = day_elsewhere uid date rows in
    if u == uid && row.date == date then (group, row.seconds) ∷ rest else rest

unfoldable pub get_group_elsewhere : Db → ℕ → String → Dict String ℕ
get_group_elsewhere db uid date = day_elsewhere uid date db.cached_group_elsewhere
