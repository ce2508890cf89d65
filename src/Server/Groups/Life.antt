-- ===== src/Server/Groups/Life.antt =====
-- crates/server/src/app_groups.rs, lines 14-20, 80-185 and 317-319: groups are created, renamed and
-- deleted, and a profile gets its predefined ones. The fresh ids are a supply; an insert succeeds, since
-- its id is fresh.
use screenguard.Prelude.{
  eq_nat, eq_string, eq_pair, ℕ, suc, Bool, true, false, not, ◌&&◌, Option, none, some, List, [],
  ◌∷◌, ◌++◌, String, ◌==◌, if◌then◌else◌, any, find, filter, map,
}
use screenguard.Prelude.Dict.{Dict, retain}
use screenguard.Prelude.Int.{ℤ, pos}
use screenguard.Apps.Groups.{GroupRule, RuleKind, category, prefix}
use screenguard.Server.Db.{is_profile}
use screenguard.Server.AppUsage.{UsageKey}
use screenguard.Server.Groups.{
  Group, GroupRow, RuleRecord, Store, Listing, add_rule, clean_name, is_builtin, list_groups,
  own_groups,
}
use screenguard.Server.Groups.Limits.{GroupLimit, GroupAdjustment, replace_limits}

-- The tables of groups, and how many ids of the supply are used.
pub record GroupTables : Type 0 where
  pub store : Store
  pub limits : List GroupLimit
  pub adjustments : List GroupAdjustment
  pub usage : Dict UsageKey ℕ
  pub used_ids : ℕ

-- A predefined group: its key, its name and its rules.
pub record Builtin : Type 0 where
  pub key : String
  pub name : String
  pub rules : List (RuleKind × String)

abbrev pub builtin_groups : List Builtin
builtin_groups =
    record {
      key = "games";
      name = "Games";
      rules = (category, "Game") ∷ (prefix, "steam:") ∷ (prefix, "minecraft:") ∷ [];
    }
    ∷ record { key = "browsers"; name = "Web browsers"; rules = (category, "WebBrowser") ∷ [] }
    ∷ record { key = "blocked"; name = "Blocked"; rules = [] }
    ∷ []

abbrev pub is_group : String → String → GroupRow → Bool
is_group profile id g = g.id == id && is_profile profile g.profile_id

unfoldable pub delete_group_rows : GroupTables → String → GroupTables
delete_group_rows t id = record t {
  store = record t.store {
    groups = filter (λ (g : GroupRow). not (g.id == id)) t.store.groups;
    rules = filter (λ (r : RuleRecord). not (r.group_id == id)) t.store.rules;
  };
  limits = filter (λ (l : GroupLimit). not (l.group_id == id)) t.limits;
  adjustments = filter (λ (a : GroupAdjustment). not (a.group_id == id)) t.adjustments;
  usage = retain (λ key seconds. not (key.1 == id)) t.usage;
}

-- The tables, and whether the profile has the group.
unfoldable pub delete_group : GroupTables → String → String → GroupTables × Bool
delete_group t profile id =
    if any (is_group profile id) t.store.groups then (delete_group_rows t id, true) else (t, false)

abbrev pub delete_groups : GroupTables → List String → GroupTables
delete_groups t [] = t
delete_groups t (id ∷ ids) = delete_groups (delete_group_rows t id) ids

unfoldable pub delete_profile_groups : GroupTables → String → GroupTables
delete_profile_groups t profile =
    delete_groups t (map (λ (g : GroupRow). g.id) (own_groups t.store profile))

abbrev pub renamed : String → String → String → List GroupRow → List GroupRow
renamed profile id name [] = []
renamed profile id name (g ∷ groups) =
    let rest = renamed profile id name groups in
    if is_group profile id g then record g { name = name } ∷ rest else g ∷ rest

-- `none` is the error of a name that is refused.
unfoldable pub rename_group : GroupTables → String → String → String → GroupTables × Option Bool
rename_group t profile id name = elim (clean_name name) [
  | none ↦ (t, none)
  | some kept ↦ (
    record t { store = record t.store { groups = renamed profile id kept t.store.groups } },
    some (any (is_group profile id) t.store.groups),
  )
]

module _ ⦃w : Listing⦄ where
  unfoldable pub get_group : GroupTables → String → String → Option Group
  get_group t profile id = find (λ (g : Group). g.id == id) (list_groups t.store profile)

abbrev pub has_builtin : String → GroupTables → String → Bool
has_builtin profile t key =
    any (λ (g : GroupRow). is_builtin key g.builtin && is_profile profile g.profile_id)
      t.store.groups

abbrev pub only_key : Option String → Builtin → Bool
only_key none b = true
only_key (some key) b = key == b.key

abbrev pub no_minutes : List (ℕ × ℤ)
no_minutes =
    (0, pos 0) ∷ (1, pos 0) ∷ (2, pos 0) ∷ (3, pos 0) ∷ (4, pos 0) ∷ (5, pos 0) ∷ (6, pos 0) ∷ []

abbrev pub with_no_minutes : GroupTables → String → String → GroupTables
with_no_minutes t profile group = record t {
  limits = (replace_limits t.limits profile group no_minutes).0;
}

module _ (ids : ℕ → String) where
  unfoldable pub create_group_with :
      GroupTables → String → String → Option String → GroupTables × String
  create_group_with t profile name builtin =
      let id = ids t.used_ids in
      (
        record t {
          store = record t.store {
            groups =
                t.store.groups
                ++ (record { id = id; profile_id = some profile; name = name; builtin = builtin }
                    ∷ []);
          };
          used_ids = suc t.used_ids;
        },
        id,
      )

  -- `none` is the error of a name that is refused.
  unfoldable pub create_group : GroupTables → String → String → GroupTables × Option String
  create_group t profile name = elim (clean_name name) [
    | none ↦ (t, none)
    | some kept ↦ let made = create_group_with t profile kept none in (made.0, some made.1)
  ]

  abbrev pub add_rules : GroupTables → String → List (RuleKind × String) → GroupTables
  add_rules t group [] = t
  add_rules t group (r ∷ rules) =
      let rule : GroupRule = record { kind = r.0; value = r.1; exclude = false } in
      add_rules
        (record t {
          store = record t.store { rules = (add_rule t.store.rules (ids t.used_ids) group rule).0 };
          used_ids = suc t.used_ids;
        })
        group rules

  abbrev pub filled : GroupTables × String → String → Builtin → GroupTables
  filled made profile b =
      let t = add_rules made.0 made.1 b.rules in
      let closed = with_no_minutes t profile made.1 in if b.key == "blocked" then closed else t

  abbrev pub seed_one : GroupTables → String → Builtin → GroupTables
  seed_one t profile b =
      let made = filled (create_group_with t profile b.name (some b.key)) profile b in
      if has_builtin profile t b.key then t else made

  abbrev pub seed_all : GroupTables → String → List Builtin → GroupTables
  seed_all t profile [] = t
  seed_all t profile (b ∷ builtins) = seed_all (seed_one t profile b) profile builtins

  -- All predefined groups that are missing, or only one of them.
  unfoldable pub seed : GroupTables → String → Option String → GroupTables
  seed t profile only = seed_all t profile (filter (only_key only) builtin_groups)

  unfoldable pub seed_builtin : GroupTables → String → GroupTables
  unfolding seed
  seed_builtin t profile = seed t profile none

  unfoldable pub seed_blocked : GroupTables → String → GroupTables
  unfolding seed
  seed_blocked t profile = seed t profile (some "blocked")
