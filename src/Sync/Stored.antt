-- ===== src/Sync/Stored.antt =====
-- What a usage sync does to one row of the server's `daily_usage`.
use screenguard.Prelude.{
  eq_nat, eq_string, eq_pair, ==_refl, ==_ne, ==_cases, ℕ, ◌≡◌, ◌≢◌, refl, sym, ◌∙◌, ap, subst,
  true, Option, none, some, List, [], ◌∷◌, String, ◌==◌, if◌then◌else◌, arith, All, Bool-cases, inl,
  inr, Option-cases,
}
use screenguard.Prelude.Dict.{
  Dict, get, insert, get-insert, get-cons, get-nil, IsDict, insert-IsDict,
}
use screenguard.Prelude.Int.{ℤ, as_i64}
use screenguard.Agent.Tables.{UsageRow, Db as AgentDb}
use screenguard.Agent.Db.{add_usage_seconds, mark_usage_synced, on_row}
use screenguard.Agent.State.{due_usage}
use screenguard.Server.Db.{
  AgentUser, Db as ServerDb, get_agent_user, reconcile_usage_seconds, raise,
}
use screenguard.Sync.{UsageEntry, mark_all, entries_of, store_entry, store_usage}
use screenguard.Sync.Marks.{Key}

module _ (reprint : String → Option String) where
  -- The text of a date is read as itself.
  abbrev pub IsDate : String → Type 0
  IsDate date = reprint date ≡ some date

  abbrev pub AllDates : Dict Key UsageRow → Type 0
  AllDates rows = All (λ (r : Key × UsageRow). IsDate r.0.1) rows

  pub insert-AllDates :
      (m : Dict Key UsageRow) (key : Key) (row : UsageRow)
      → IsDate key.1
      → AllDates m
      → AllDates (insert m key row)
  unfolding insert
  insert-AllDates [] key row d h = (d, tt)
  insert-AllDates ((k, r) ∷ m) key row d h = elim (Bool-cases (k == key)) [
    | inl e ↦ rw e (d, h.1)
    | inr e ↦ rw e (h.0, insert-AllDates m key row d h.1)
  ]

  none_ne : {row : UsageRow} → none ≢ some row
  none_ne p = ground arith

  cons_there :
      (k : Key) (r : UsageRow) (m : Dict Key UsageRow) (key : Key)
      → k ≢ key
      → get m key ≡ get ((k, r) ∷ m) key
  cons_there k r m key n = rw get-cons (rw (==_ne k key n) refl)

  cons_here :
      (k : Key) (r : UsageRow) (m : Dict Key UsageRow) (key : Key)
      → k ≡ key
      → get ((k, r) ∷ m) key ≡ some r
  cons_here k r m key e = rw get-cons (rw e (rw (==_refl key) refl))

  -- A row that is there has a date.
  AllDates-get :
      (m : Dict Key UsageRow) (key : Key) (row : UsageRow)
      → get m key ≡ some row
      → AllDates m
      → IsDate key.1
  AllDates-get [] key row g h = absurd (none_ne (sym (get-nil {V = UsageRow} key) ∙ g))
  AllDates-get ((k, r) ∷ m) key row g h = elim (==_cases k key) [
    | inl e ↦ subst (λ (j : Key). IsDate j.1) e h.0
    | inr n ↦ AllDates-get m key row (cons_there k r m key n ∙ g) h.1
  ]

  -- The agent's rows have a key each, and dates.
  pub record IsTidy (rows : Dict Key UsageRow) : Type 0 where
    pub keys : IsDict rows
    pub dates : AllDates rows

  insert-IsTidy :
      (m : Dict Key UsageRow) (key : Key) (row : UsageRow)
      → IsDate key.1
      → IsTidy m
      → IsTidy (insert m key row)
  insert-IsTidy m key row d h = record {
    keys = insert-IsDict m key row h.keys;
    dates = insert-AllDates m key row d h.dates;
  }

  pub add_usage_seconds-IsTidy :
      (db : AgentDb) (uid : ℕ) (date : String) (secs : ℕ)
      → IsDate date
      → IsTidy db.usage_log
      → IsTidy (add_usage_seconds db uid date secs).usage_log
  unfolding add_usage_seconds
  add_usage_seconds-IsTidy db uid date secs d h = insert-IsTidy db.usage_log (uid, date) _ d h

  pub on_row-IsTidy :
      (f : UsageRow → UsageRow) (db : AgentDb) (key : Key)
      → IsTidy db.usage_log
      → IsTidy (on_row f db key (get db.usage_log key)).usage_log
  on_row-IsTidy f db key h = elim (Option-cases (get db.usage_log key)) [
    | inl n ↦ rw n h
    | inr p ↦
        rw p.1 (insert-IsTidy db.usage_log key _ (AllDates-get db.usage_log key p.0 p.1 h.dates) h)
  ]

  mark-IsTidy :
      (db : AgentDb) (uid : ℕ) (date : String)
      → IsTidy db.usage_log
      → IsTidy (mark_usage_synced db uid date).usage_log
  unfolding mark_usage_synced
  mark-IsTidy db uid date h = on_row-IsTidy (λ row. record row { synced = true }) db (uid, date) h

  pub mark_all-IsTidy :
      (db : AgentDb) (rows : List (Key × ℕ))
      → IsTidy db.usage_log
      → IsTidy (mark_all db rows).usage_log
  unfolding mark_all
  mark_all-IsTidy db [] h = h
  mark_all-IsTidy db (((uid, date), secs) ∷ rows) h =
      mark_all-IsTidy (mark_usage_synced db uid date) rows (mark-IsTidy db uid date h)

-- Only the user `uid` of the agent has the row of `agent_users` with the id `id`.
pub record IsOwner (agent : String) (uid : ℕ) (id : String) (db : ServerDb) : Type 0 where
  pub user : AgentUser
  pub found : get_agent_user db agent uid ≡ some user
  pub is_id : user.id ≡ id
  pub only : (v : ℕ) (b : AgentUser) → get_agent_user db agent v ≡ some b → b.id ≡ id → v ≡ uid

-- The stored seconds after the entry of the agent's row, if it is due.
abbrev pub synced_with : Option UsageRow → Option ℤ → Option ℤ
synced_with none v = v
synced_with (some row) v = if row.synced then v else some (raise (as_i64 row.used_seconds) v)

module _ (agent : String) (uid : ℕ) (id : String) (date : String) where
  store-IsOwner :
      (db : ServerDb) (e : UsageEntry) (o : Option AgentUser)
      → IsOwner agent uid id db
      → IsOwner agent uid id (store_entry db e o)
  unfolding reconcile_usage_seconds get_agent_user
  store-IsOwner db e none h = h
  store-IsOwner db e (some b) h = record {
    user = h.user;
    found = h.found;
    is_id = h.is_id;
    only = h.only;
  }

  pub store_usage-IsOwner :
      (db : ServerDb) (entries : List UsageEntry)
      → IsOwner agent uid id db
      → IsOwner agent uid id (store_usage agent db entries)
  unfolding store_usage
  store_usage-IsOwner db [] h = h
  store_usage-IsOwner db (e ∷ entries) h =
      store_usage-IsOwner (store_entry db e (get_agent_user db agent e.local_uid)) entries
        (store-IsOwner db e (get_agent_user db agent e.local_uid) h)

  get-store_self :
      (db : ServerDb) (e : UsageEntry)
      → IsOwner agent uid id db
      → e.local_uid ≡ uid
      → e.date ≡ date
      → get (store_entry db e (get_agent_user db agent e.local_uid)).daily_usage (id, date)
        ≡ some (raise (as_i64 e.used_seconds) (get db.daily_usage (id, date)))
  unfolding reconcile_usage_seconds
  get-store_self db e h p q = rw p (
      rw h.found
        (rw h.is_id (rw q (rw get-insert (rw (==_refl {A = String × String} (id, date)) refl)))))

  get-store_other :
      (db : ServerDb) (e : UsageEntry)
      → IsOwner agent uid id db
      → ◌≢◌ {A = Key} (e.local_uid, e.date) (uid, date)
      → get (store_entry db e (get_agent_user db agent e.local_uid)).daily_usage (id, date)
        ≡ get db.daily_usage (id, date)
  unfolding reconcile_usage_seconds
  get-store_other db e h n = elim (Option-cases (get_agent_user db agent e.local_uid)) [
    | inl q ↦ rw q refl
    | inr p ↦ rw p.1 (
        rw get-insert (
          rw
            (==_ne {A = String × String} (p.0.id, e.date) (id, date)
              (λ q. n (
                rw (h.only e.local_uid p.0 p.1 (ap (λ (t : String × String). t.0) q))
                  (rw (ap (λ (t : String × String). t.1) q) refl))))
            refl))
  ]

  pub get-store_due :
      (reprint : String → Option String) (db : ServerDb) (rows : Dict Key UsageRow)
      → IsOwner agent uid id db
      → IsTidy reprint rows
      → get (store_usage agent db (entries_of reprint (due_usage rows))).daily_usage (id, date)
        ≡ synced_with (get rows (uid, date)) (get db.daily_usage (id, date))
  unfolding store_usage
  get-store_due reprint db [] o h = rw get-nil refl
  get-store_due reprint db (((v, d), row) ∷ rows) o h =
      let rest : IsTidy reprint rows = record { keys = h.keys.1; dates = h.dates.1 } in
      let key : Key = (uid, date) in
      let e : UsageEntry = record { local_uid = v; date = d; used_seconds = row.used_seconds } in
      let db2 = store_entry db e (get_agent_user db agent v) in
      let o2 = store-IsOwner db e (get_agent_user db agent v) o in
      elim (==_cases {A = Key} (v, d) key) [
        | inl p ↦
            let gone = subst (λ (k : Key). get rows k ≡ none) p h.keys.0 in
            rw (cons_here reprint (v, d) row rows key p) (elim (Bool-cases row.synced) [
              | inl y ↦ rw y (rw (get-store_due reprint db rows o rest) (rw gone refl))
              | inr y ↦ rw y (
                  rw h.dates.0 (
                    rw (get-store_due reprint db2 rows o2 rest) (
                      rw gone (
                        get-store_self db e o (ap (λ (k : Key). k.0) p)
                          (ap (λ (k : Key). k.1) p)))))
            ])
        | inr n ↦
            rw (sym (cons_there reprint (v, d) row rows key n)) (elim (Bool-cases row.synced) [
              | inl y ↦ rw y (get-store_due reprint db rows o rest)
              | inr y ↦ rw y (
                  rw h.dates.0 (
                    get-store_due reprint db2 rows o2 rest
                    ∙ ap (synced_with (get rows key)) (get-store_other db e o n)))
            ])
      ]
