-- ===== src/Server/Ingest.antt =====
-- A sync of app totals that comes again changes no total.
use screenguard.Prelude.{
  eq_nat, eq_string, eq_pair, ==_eq, ==_ne, ==_cases, ℕ, ◌≡◌, refl, sym, ◌∙◌, ap, Option, none,
  some, List, [], ◌∷◌, String, ◌==◌, if◌then◌else◌, arith, min, inl, inr,
}
use screenguard.Prelude.Dict.{Dict, get, get-insert}
use screenguard.Apps.Id.{AppId, display}
use screenguard.Server.Db.{Db}
use screenguard.Server.AppUsage.{
  max_seconds_per_day, Calendar, AppUsageEntry, GroupUsageEntry, AppUsageSync, Ingested, UsageKey,
  Tables, larger, keep_larger, accepted_app, add_app, ingest_entries, accepted_group, add_group,
  ingest_groups, ingest,
}

-- A stored total with a total that is offered, if there is one.
abbrev pub merge : Option ℕ → Option ℕ → Option ℕ
merge o none = o
merge o (some v) = some (larger v o)

merge_id : (a : Option ℕ) → merge none a ≡ a
merge_id none = refl
merge_id (some v) = refl

merge_assoc : (a b c : Option ℕ) → merge (merge a b) c ≡ merge a (merge b c)
merge_assoc a b none = refl
merge_assoc a none (some w) = refl
merge_assoc none (some v) (some w) = refl
merge_assoc (some u) (some v) (some w) = ground arith

merge_comm : (a b : Option ℕ) → merge a b ≡ merge b a
merge_comm none b = merge_id b
merge_comm (some u) none = refl
merge_comm (some u) (some v) = ground arith

pub merge_twice : (a b : Option ℕ) → merge (merge a b) b ≡ merge a b
merge_twice a none = refl
merge_twice none (some v) = ground arith
merge_twice (some u) (some v) = ground arith

-- A total that an offer does not raise is not raised by it later.
pub merge_later : (a b c : Option ℕ) → merge a b ≡ a → merge (merge a c) b ≡ merge a c
merge_later a b c h =
    merge_assoc a c b
    ∙ ap (merge a) (merge_comm c b)
    ∙ sym (merge_assoc a b c)
    ∙ ap (λ o. merge o c) h

get-keep_larger :
    (m : Dict UsageKey ℕ) (key : UsageKey) (seconds : ℕ) (k : UsageKey)
    → get (keep_larger m key seconds) k ≡ merge (get m k) (if key == k then some seconds else none)
unfolding keep_larger
get-keep_larger m key seconds k = elim (==_cases key k) [
  | inl e ↦
      rw get-insert (rw (==_eq key k e) (ap (λ (j : UsageKey). some (larger seconds (get m j))) e))
  | inr n ↦ rw get-insert (rw (==_ne key k n) refl)
]

module _ {D : Type 0} ⦃c : Calendar D⦄ (agent : String) (today : D) where
  abbrev pub app_offer : UsageKey → AppUsageEntry D → Option (AppId × String) → Option ℕ
  app_offer k e none = none
  app_offer k e (some a) =
      if ((a.1, c.print e.date), display a.0) == k
      then some (min e.seconds_total max_seconds_per_day)
      else none

  abbrev pub group_offer : UsageKey → GroupUsageEntry D → Option String → Option ℕ
  group_offer k g none = none
  group_offer k g (some user) =
      if ((user, c.print g.date), g.group_id) == k
      then some (min g.seconds_total max_seconds_per_day)
      else none

  -- The largest total that the accepted entries of a sync have for a row.
  abbrev pub best_app : Db → UsageKey → List (AppUsageEntry D) → Option ℕ
  best_app db k [] = none
  best_app db k (e ∷ entries) =
      merge (app_offer k e (accepted_app agent today db e)) (best_app db k entries)

  abbrev pub best_group :
      Db → List (String × String) → UsageKey → List (GroupUsageEntry D) → Option ℕ
  best_group db rows k [] = none
  best_group db rows k (g ∷ groups) =
      merge (group_offer k g (accepted_group agent today db rows g)) (best_group db rows k groups)

  -- What one entry of an app leaves.
  record AppAdded (t : Tables) (e : AppUsageEntry D) (o : Option (AppId × String)) (u : Tables)
      : Type 0 where
    db : u.db ≡ t.db
    app_groups : u.app_groups ≡ t.app_groups
    usage : (k : UsageKey) → get u.app_usage k ≡ merge (get t.app_usage k) (app_offer k e o)
    group_usage : u.app_group_usage ≡ t.app_group_usage

  add_app-AppAdded :
      (t : Tables) (r : Ingested) (e : AppUsageEntry D) (o : Option (AppId × String))
      → AppAdded t e o (add_app agent today t r e o).0
  add_app-AppAdded t r e none = record {
    db = refl;
    app_groups = refl;
    usage = λ k. refl;
    group_usage = refl;
  }
  add_app-AppAdded t r e (some a) = record {
    db = refl;
    app_groups = refl;
    usage = λ k. get-keep_larger t.app_usage _ _ k;
    group_usage = refl;
  }

  -- What a sync leaves: the tables that decide what is accepted, and the totals of both kinds.
  record AppsStored (t : Tables) (entries : List (AppUsageEntry D)) (u : Tables) : Type 0 where
    db : u.db ≡ t.db
    app_groups : u.app_groups ≡ t.app_groups
    usage : (k : UsageKey) → get u.app_usage k ≡ merge (get t.app_usage k) (best_app t.db k entries)
    group_usage : u.app_group_usage ≡ t.app_group_usage

  ingest_entries-AppsStored :
      (t : Tables) (r : Ingested) (entries : List (AppUsageEntry D))
      → AppsStored t entries (ingest_entries agent today t r entries).0
  unfolding ingest_entries
  ingest_entries-AppsStored t r [] = record {
    db = refl;
    app_groups = refl;
    usage = λ k. refl;
    group_usage = refl;
  }
  ingest_entries-AppsStored t r (e ∷ entries) =
      let o = accepted_app agent today t.db e in
      let after = add_app agent today t r e o in
      let one = add_app-AppAdded t r e o in
      let rest = ingest_entries-AppsStored after.0 after.1 entries in
      record {
        db = rest.db ∙ one.db;
        app_groups = rest.app_groups ∙ one.app_groups;
        usage = λ k.
            rest.usage k
            ∙ ap (λ d. merge (get after.0.app_usage k) (best_app d k entries)) one.db
            ∙ ap (λ v. merge v (best_app t.db k entries)) (one.usage k)
            ∙ merge_assoc (get t.app_usage k) (app_offer k e o) (best_app t.db k entries);
        group_usage = rest.group_usage ∙ one.group_usage;
      }

  record GroupAdded (t : Tables) (g : GroupUsageEntry D) (o : Option String) (u : Tables)
      : Type 0 where
    db : u.db ≡ t.db
    app_groups : u.app_groups ≡ t.app_groups
    usage :
        (k : UsageKey)
        → get u.app_group_usage k ≡ merge (get t.app_group_usage k) (group_offer k g o)
    app_usage : u.app_usage ≡ t.app_usage

  add_group-GroupAdded :
      (t : Tables) (r : Ingested) (g : GroupUsageEntry D) (o : Option String)
      → GroupAdded t g o (add_group agent today t r g o).0
  add_group-GroupAdded t r g none = record {
    db = refl;
    app_groups = refl;
    usage = λ k. refl;
    app_usage = refl;
  }
  add_group-GroupAdded t r g (some user) = record {
    db = refl;
    app_groups = refl;
    usage = λ k. get-keep_larger t.app_group_usage _ _ k;
    app_usage = refl;
  }

  record GroupsStored (t : Tables) (groups : List (GroupUsageEntry D)) (u : Tables) : Type 0 where
    db : u.db ≡ t.db
    app_groups : u.app_groups ≡ t.app_groups
    usage :
        (k : UsageKey)
        → get u.app_group_usage k
          ≡ merge (get t.app_group_usage k) (best_group t.db t.app_groups k groups)
    app_usage : u.app_usage ≡ t.app_usage

  ingest_groups-GroupsStored :
      (t : Tables) (r : Ingested) (groups : List (GroupUsageEntry D))
      → GroupsStored t groups (ingest_groups agent today t r groups).0
  unfolding ingest_groups
  ingest_groups-GroupsStored t r [] = record {
    db = refl;
    app_groups = refl;
    usage = λ k. refl;
    app_usage = refl;
  }
  ingest_groups-GroupsStored t r (g ∷ groups) =
      let o = accepted_group agent today t.db t.app_groups g in
      let after = add_group agent today t r g o in
      let one = add_group-GroupAdded t r g o in
      let rest = ingest_groups-GroupsStored after.0 after.1 groups in
      record {
        db = rest.db ∙ one.db;
        app_groups = rest.app_groups ∙ one.app_groups;
        usage = λ k.
            rest.usage k
            ∙ ap
                (λ d.
                  merge (get after.0.app_group_usage k) (best_group d after.0.app_groups k groups))
                one.db
            ∙ ap (λ d. merge (get after.0.app_group_usage k) (best_group t.db d k groups))
                one.app_groups
            ∙ ap (λ v. merge v (best_group t.db t.app_groups k groups)) (one.usage k)
            ∙ merge_assoc (get t.app_group_usage k) (group_offer k g o)
                (best_group t.db t.app_groups k groups);
        app_usage = rest.app_usage ∙ one.app_usage;
      }

  -- What a whole sync leaves.
  pub record Stored (t : Tables) (sync : AppUsageSync D) (u : Tables) : Type 0 where
    pub db : u.db ≡ t.db
    pub app_groups : u.app_groups ≡ t.app_groups
    pub apps :
        (k : UsageKey)
        → get u.app_usage k ≡ merge (get t.app_usage k) (best_app t.db k sync.entries)
    pub groups :
        (k : UsageKey)
        → get u.app_group_usage k
          ≡ merge (get t.app_group_usage k) (best_group t.db t.app_groups k sync.groups)

  pub ingest-Stored :
      (t : Tables) (sync : AppUsageSync D) → Stored t sync (ingest agent today t sync).0
  unfolding ingest
  ingest-Stored t sync =
      let a = ingest_entries-AppsStored t (record { stored = 0; rejected = 0 }) sync.entries in
      let mid = ingest_entries agent today t (record { stored = 0; rejected = 0 }) sync.entries in
      let g = ingest_groups-GroupsStored mid.0 mid.1 sync.groups in
      record {
        db = g.db ∙ a.db;
        app_groups = g.app_groups ∙ a.app_groups;
        apps = λ k. ap (λ (m : Dict UsageKey ℕ). get m k) g.app_usage ∙ a.usage k;
        groups = λ k.
            g.usage k
            ∙ ap
                (λ d.
                  merge (get mid.0.app_group_usage k) (best_group d mid.0.app_groups k sync.groups))
                a.db
            ∙ ap (λ d. merge (get mid.0.app_group_usage k) (best_group t.db d k sync.groups))
                a.app_groups
            ∙ ap
                (λ (m : Dict UsageKey ℕ).
                  merge (get m k) (best_group t.db t.app_groups k sync.groups))
                a.group_usage;
      }
