-- ===== src/Agent/Obeys.antt =====
-- What an answer of the server leaves behind.
use screenguard.Prelude.{
  eq_nat, eq_string, eq_pair, ==_ne, ==_eq, ==_cases, ℕ, ◌≡◌, refl, ap, ◌∙◌, subst, Bool, true,
  false, Option, none, some, List, [], ◌∷◌, String, ◌==◌, if◌then◌else◌, or_default, contains,
  arith, Bool-cases, inl, inr,
}
use screenguard.Prelude.Dict.{get, get-insert, get-remove}
use screenguard.Prelude.Int.{ℤ}
use screenguard.Times.{NaiveTime}
use screenguard.Models.{EnforceAction, allow, warn, lock}
use screenguard.Agent.Tables.{Db, ServerRemaining}
use screenguard.Agent.AppUsage.{save_group_elsewhere, with_elsewhere}
use screenguard.Agent.State.{upsert_server_remaining, get_server_remaining}
use screenguard.Agent.Lock.{action_named, evaluate_enforcement}
use screenguard.Agent.Armed.{
  enforce_str, Armed, set_insert, set_remove, arm, disarm, fire_threshold_notifications, obey,
  obey_all, store_answer, store_answers, remaining_update,
}
use screenguard.Server.Remaining.{RemainingEntry}

abbrev pub is_lock : EnforceAction → Bool
is_lock allow = false
is_lock warn = false
is_lock lock = true

contains-set_insert :
    (uids : List ℕ) (uid v : ℕ)
    → contains (set_insert uids uid) v ≡ (if uid == v then true else contains uids v)
contains-set_insert uids uid v = elim (Bool-cases (contains uids uid)) [
  | inl y ↦ rw y (elim (==_cases uid v) [
    | inl e ↦ rw (==_eq uid v e) (subst (λ w. contains uids w ≡ true) e y)
    | inr n ↦ rw (==_ne uid v n) refl
  ])
  | inr y ↦ rw y (ground (arith, eq_nat.same_iff uid v))
]

contains-set_remove :
    (uids : List ℕ) (uid v : ℕ)
    → contains (set_remove uids uid) v ≡ (if uid == v then false else contains uids v)
contains-set_remove [] uid v = ground arith
contains-set_remove (u ∷ uids) uid v = ground (
  arith,
  contains-set_remove uids uid v,
  eq_nat.same_iff u uid,
  eq_nat.same_iff uid v,
  eq_nat.same_iff u v,
)

obey-locked :
    (s : Armed) (uid : ℕ) (action : EnforceAction) (remaining : ℤ) (v : ℕ)
    → contains (obey s uid action remaining).0.locked_uids v
      ≡ (if uid == v then is_lock action else contains s.locked_uids v)
unfolding obey arm disarm fire_threshold_notifications
obey-locked s uid lock remaining v = contains-set_insert s.locked_uids uid v
obey-locked s uid warn remaining v = contains-set_remove s.locked_uids uid v
obey-locked s uid allow remaining v = contains-set_remove s.locked_uids uid v

obey-db :
    (s : Armed) (uid : ℕ) (action : EnforceAction) (remaining : ℤ)
    → (obey s uid action remaining).0.db ≡ s.db
unfolding obey arm disarm fire_threshold_notifications
obey-db s uid lock remaining = refl
obey-db s uid warn remaining = refl
obey-db s uid allow remaining = refl

obey-thresholds :
    (s : Armed) (uid : ℕ) (action : EnforceAction) (remaining : ℤ) (v : ℕ)
    → (uid == v) ≡ false
    → get (obey s uid action remaining).0.notified_thresholds v ≡ get s.notified_thresholds v
unfolding obey arm disarm fire_threshold_notifications
obey-thresholds s uid lock remaining v n = refl
obey-thresholds s uid warn remaining v n = rw get-insert (rw n refl)
obey-thresholds s uid allow remaining v n = rw get-remove (rw n refl)

action_named-enforce_str : (action : EnforceAction) → action_named (enforce_str action) ≡ action
unfolding action_named enforce_str
action_named-enforce_str allow = refl
action_named-enforce_str warn = refl
action_named-enforce_str lock = refl

-- Only the two tables of the answers differ.
abbrev pub SameElse : Db → Db → Type 0
SameElse before after = after ≡ record before {
  server_remaining = after.server_remaining;
  cached_group_elsewhere = after.cached_group_elsewhere;
}

with_elsewhere-SameElse :
    (db : Db) (o : Option _) → SameElse db (or_default db (with_elsewhere db o))
with_elsewhere-SameElse db none = refl
with_elsewhere-SameElse db (some rows) = refl

SameElse-trans : (a b c : Db) → SameElse a b → SameElse b c → SameElse a c
SameElse-trans a b c h k =
    k
    ∙ ap
        (λ (x : Db). record x {
          server_remaining = c.server_remaining;
          cached_group_elsewhere = c.cached_group_elsewhere;
        })
        h

with_elsewhere-remaining :
    (db : Db) (o : Option _)
    → (or_default db (with_elsewhere db o)).server_remaining ≡ db.server_remaining
with_elsewhere-remaining db none = refl
with_elsewhere-remaining db (some rows) = refl

module _ {T : Type 0} where
  -- The last answer for a user, or what was before.
  abbrev pub last_answer :
      ℕ → Option (RemainingEntry T) → List (RemainingEntry T) → Option (RemainingEntry T)
  last_answer uid before [] = before
  last_answer uid before (entry ∷ entries) =
      last_answer uid (if entry.local_uid == uid then some entry else before) entries

  abbrev locked_by : Bool → Option (RemainingEntry T) → Bool
  locked_by before none = before
  locked_by before (some entry) = is_lock entry.enforce

  obey_all-locked :
      (s : Armed) (before : Option (RemainingEntry T)) (b : Bool)
      (entries : List (RemainingEntry T)) (v : ℕ)
      → contains s.locked_uids v ≡ locked_by b before
      → contains (obey_all s entries).0.locked_uids v ≡ locked_by b (last_answer v before entries)
  unfolding obey_all
  obey_all-locked s before b [] v h = h
  obey_all-locked s before b (entry ∷ entries) v h =
      obey_all-locked (obey s entry.local_uid entry.enforce entry.remaining_minutes).0
        (if entry.local_uid == v then some entry else before) b entries v
        (obey-locked s entry.local_uid entry.enforce entry.remaining_minutes v ∙ ground (arith, h))

  obey_all-db : (s : Armed) (entries : List (RemainingEntry T)) → (obey_all s entries).0.db ≡ s.db
  unfolding obey_all
  obey_all-db s [] = refl
  obey_all-db s (entry ∷ entries) =
      obey_all-db (obey s entry.local_uid entry.enforce entry.remaining_minutes).0 entries
      ∙ obey-db s entry.local_uid entry.enforce entry.remaining_minutes

  obey_all-thresholds :
      (s : Armed) (entries : List (RemainingEntry T)) (v : ℕ) (before : Option (RemainingEntry T))
      → last_answer v before entries ≡ none
      → (before ≡ none)
        × (get (obey_all s entries).0.notified_thresholds v ≡ get s.notified_thresholds v)
  unfolding obey_all
  obey_all-thresholds s [] v before h = (h, refl)
  obey_all-thresholds s (entry ∷ entries) v before h =
      let (mine, rest) =
        obey_all-thresholds (obey s entry.local_uid entry.enforce entry.remaining_minutes).0 entries
          v (if entry.local_uid == v then some entry else before) h in
      let other : (entry.local_uid == v) ≡ false = ground (arith, mine) in
      (
        ground (arith, mine),
        rest ∙ obey-thresholds s entry.local_uid entry.enforce entry.remaining_minutes v other,
      )

  abbrev pub row_for : RemainingEntry T → ServerRemaining
  row_for entry = record {
    remaining_minutes = entry.remaining_minutes;
    enforce = enforce_str entry.enforce;
  }

  abbrev stored_by : Option ServerRemaining → Option (RemainingEntry T) → Option ServerRemaining
  stored_by before none = before
  stored_by before (some entry) = some (row_for entry)

  get-store_answer :
      (today : String) (db : Db) (entry : RemainingEntry T) (v : ℕ)
      → get_server_remaining (store_answer today db entry) v
        ≡ (if entry.local_uid == v then some (row_for entry) else get_server_remaining db v)
  unfolding get_server_remaining upsert_server_remaining save_group_elsewhere
  get-store_answer today db entry v = rw with_elsewhere-remaining (rw get-insert refl)

  store_answer-SameElse :
      (today : String) (db : Db) (entry : RemainingEntry T)
      → SameElse db (store_answer today db entry)
  unfolding upsert_server_remaining save_group_elsewhere
  store_answer-SameElse today db entry =
      let stored =
        upsert_server_remaining db entry.local_uid entry.remaining_minutes
          (enforce_str entry.enforce) in
      SameElse-trans db stored (store_answer today db entry) refl (with_elsewhere-SameElse stored _)

  store_answers-SameElse :
      (today : String) (db : Db) (entries : List (RemainingEntry T))
      → SameElse db (store_answers today db entries)
  unfolding store_answers
  store_answers-SameElse today db [] = refl
  store_answers-SameElse today db (entry ∷ entries) =
      let first = store_answer today db entry in
      SameElse-trans db first (store_answers today first entries)
        (store_answer-SameElse today db entry) (store_answers-SameElse today first entries)

  store_answers-remaining :
      (today : String) (db : Db) (before : Option (RemainingEntry T)) (o : Option ServerRemaining)
      (entries : List (RemainingEntry T)) (v : ℕ)
      → get_server_remaining db v ≡ stored_by o before
      → get_server_remaining (store_answers today db entries) v
        ≡ stored_by o (last_answer v before entries)
  unfolding store_answers
  store_answers-remaining today db before o [] v h = h
  store_answers-remaining today db before o (entry ∷ entries) v h =
      store_answers-remaining today (store_answer today db entry)
        (if entry.local_uid == v then some entry else before) o entries v
        (get-store_answer today db entry v ∙ ground (arith, h))

abbrev pub answer_in : Option ServerRemaining → Option String
answer_in none = none
answer_in (some row) = some row.enforce

module _ {T C : Type 0} ⦃c : NaiveTime C⦄ (today : String) (weekday : ℕ) (now : C) where
  -- What holds after an answer for a user whom it does not name, or names.
  abbrev pub Obeyed : ℕ → Armed → Armed → Option (RemainingEntry T) → Type 0
  Obeyed uid s after none =
      (contains after.locked_uids uid ≡ contains s.locked_uids uid)
      × (get_server_remaining after.db uid ≡ get_server_remaining s.db uid)
      × (get after.notified_thresholds uid ≡ get s.notified_thresholds uid)
  Obeyed uid s after (some entry) =
      (contains after.locked_uids uid ≡ is_lock entry.enforce)
      × (evaluate_enforcement uid after.db (answer_in (get_server_remaining after.db uid)) true
            today weekday now
          ≡ entry.enforce)

  read-Obeyed :
      (uid : ℕ) (s after : Armed) (o : Option (RemainingEntry T))
      → contains after.locked_uids uid ≡ locked_by (contains s.locked_uids uid) o
      → get_server_remaining after.db uid ≡ stored_by (get_server_remaining s.db uid) o
      → (o ≡ none → get after.notified_thresholds uid ≡ get s.notified_thresholds uid)
      → Obeyed uid s after o
  unfolding evaluate_enforcement
  read-Obeyed uid s after none l r t = (l, r, t refl)
  read-Obeyed uid s after (some entry) l r t = (l, rw r (action_named-enforce_str entry.enforce))

  -- After an answer of the server, for every user that it names (by the last entry, if there are
  -- several): the lock is armed exactly if the entry says so, and the decision with a connection,
  -- which reads the stored answer, is that of the entry. For a user whom it does not name, the armed
  -- lock, the stored answer and the thresholds that were shown stay as they were. No table of the
  -- database changes but those of the answers and of the group time spent elsewhere.
  pub remaining_update-Obeyed :
      (s : Armed) (entries : List (RemainingEntry T)) (uid : ℕ)
      → Obeyed uid s (remaining_update today s entries).0 (last_answer uid none entries)
        × SameElse s.db (remaining_update today s entries).0.db
  unfolding remaining_update
  remaining_update-Obeyed s entries uid =
      let stored = record s { db = store_answers today s.db entries } in
      (
        read-Obeyed uid s (obey_all stored entries).0 (last_answer uid none entries)
            (obey_all-locked stored none (contains s.locked_uids uid) entries uid refl)
            (rw (obey_all-db stored entries) (
              store_answers-remaining today s.db none (get_server_remaining s.db uid) entries uid
                refl))
            (λ e. (obey_all-thresholds stored entries uid none e).1),
        rw (obey_all-db stored entries) (store_answers-SameElse today s.db entries),
      )
