-- ===== src/Server/Resend.antt =====
-- An agent sends its totals again after a lost connection; the server has them already.
use screenguard.Prelude.{eq_nat, eq_string, eq_pair, ◌≡◌, ◌∙◌, ap, List, [], ◌∷◌, String}
use screenguard.Prelude.Dict.{get}
use screenguard.Server.AppUsage.{Calendar, AppUsageSync, UsageKey, Tables, ingest}
use screenguard.Server.Ingest.{merge, merge_twice, merge_later, best_app, best_group, ingest-Stored}

module _ {D : Type 0} ⦃c : Calendar D⦄ (agent : String) (today : D) where
  -- The totals of a sync raise nothing.
  record Absorbs (t : Tables) (sync : AppUsageSync D) (u : Tables) : Type 0 where
    db : u.db ≡ t.db
    app_groups : u.app_groups ≡ t.app_groups
    apps :
        (k : UsageKey)
        → merge (get u.app_usage k) (best_app agent today t.db k sync.entries) ≡ get u.app_usage k
    groups :
        (k : UsageKey)
        → merge (get u.app_group_usage k) (best_group agent today t.db t.app_groups k sync.groups)
          ≡ get u.app_group_usage k

  ingest-Absorbs :
      (t : Tables) (sync : AppUsageSync D) → Absorbs t sync (ingest agent today t sync).0
  ingest-Absorbs t sync =
      let s = ingest-Stored agent today t sync in
      record {
        db = s.db;
        app_groups = s.app_groups;
        apps = λ k.
            rw (s.apps k)
              (merge_twice (get t.app_usage k) (best_app agent today t.db k sync.entries));
        groups = λ k. rw (s.groups k) (
            merge_twice (get t.app_group_usage k)
              (best_group agent today t.db t.app_groups k sync.groups));
      }

  later-Absorbs :
      (t : Tables) (sync : AppUsageSync D) (u : Tables) (other : AppUsageSync D)
      → Absorbs t sync u
      → Absorbs t sync (ingest agent today u other).0
  later-Absorbs t sync u other h =
      let s = ingest-Stored agent today u other in
      record {
        db = s.db ∙ h.db;
        app_groups = s.app_groups ∙ h.app_groups;
        apps = λ k. rw (s.apps k) (
            merge_later (get u.app_usage k) (best_app agent today t.db k sync.entries)
              (best_app agent today u.db k other.entries) (h.apps k));
        groups = λ k. rw (s.groups k) (
            merge_later (get u.app_group_usage k)
              (best_group agent today t.db t.app_groups k sync.groups)
              (best_group agent today u.db u.app_groups k other.groups) (h.groups k));
      }

  abbrev pub ingest_all : Tables → List (AppUsageSync D) → Tables
  ingest_all t [] = t
  ingest_all t (sync ∷ syncs) = ingest_all (ingest agent today t sync).0 syncs

  ingest_all-Absorbs :
      (t : Tables) (sync : AppUsageSync D) (u : Tables) (others : List (AppUsageSync D))
      → Absorbs t sync u
      → Absorbs t sync (ingest_all u others)
  ingest_all-Absorbs t sync u [] h = h
  ingest_all-Absorbs t sync u (other ∷ others) h =
      ingest_all-Absorbs t sync (ingest agent today u other).0 others
        (later-Absorbs t sync u other h)

  again :
      (t : Tables) (sync : AppUsageSync D) (u : Tables) (k : UsageKey)
      → Absorbs t sync u
      → (get (ingest agent today u sync).0.app_usage k ≡ get u.app_usage k)
        × (get (ingest agent today u sync).0.app_group_usage k ≡ get u.app_group_usage k)
  again t sync u k h =
      let s = ingest-Stored agent today u sync in
      (
        s.apps k
            ∙ ap (λ d. merge (get u.app_usage k) (best_app agent today d k sync.entries)) h.db
            ∙ h.apps k,
        s.groups k
            ∙ ap
                (λ d.
                  merge (get u.app_group_usage k)
                    (best_group agent today d u.app_groups k sync.groups))
                h.db
            ∙ ap
                (λ d. merge (get u.app_group_usage k) (best_group agent today t.db d k sync.groups))
                h.app_groups
            ∙ h.groups k,
      )

  -- A sync of app and group totals that an agent sends again, on the same day and with any other
  -- syncs of it in between, changes no total of any app or group: the larger total stays, so that
  -- what is sent after a lost connection is never counted twice.
  pub ingest_again :
      (t : Tables) (sync : AppUsageSync D) (others : List (AppUsageSync D)) (k : UsageKey)
      → (get (ingest agent today (ingest_all t (sync ∷ others)) sync).0.app_usage k
          ≡ get (ingest_all t (sync ∷ others)).app_usage k)
        × (get (ingest agent today (ingest_all t (sync ∷ others)) sync).0.app_group_usage k
            ≡ get (ingest_all t (sync ∷ others)).app_group_usage k)
  ingest_again t sync others k =
      again t sync (ingest_all t (sync ∷ others)) k
        (ingest_all-Absorbs t sync (ingest agent today t sync).0 others (ingest-Absorbs t sync))
