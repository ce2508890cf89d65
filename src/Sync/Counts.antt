-- ===== src/Sync/Counts.antt =====
-- What one user of a heartbeat does to the two totals.
use screenguard.Prelude.{
  eq_nat, eq_string, eq_pair, ==_ne, ==_eq, ==_cases, ℕ, ◌+◌, ◌≤◌, ◌≡◌, ◌⊎◌, ◌≢◌, refl, sym, ◌∙◌,
  ap, Bool, true, Option, none, some, List, String, if◌then◌else◌, arith, Bool-cases, inl, inr,
  Option-cases, ltb,
}
use screenguard.Prelude.Dict.{get, get-insert}
use screenguard.Prelude.Int.{pos, ◌+ℤ◌}
use screenguard.Times.{NaiveTime}
use screenguard.Models.{GroupUsage}
use screenguard.Agent.Tables.{Db as AgentDb}
use screenguard.Agent.Db.{add_usage_seconds, used_in}
use screenguard.Server.Db.{
  AgentUser, Db as ServerDb, get_agent_user, add_usage_seconds as add_server,
}
use screenguard.Server.Windows.{Zones}
use screenguard.Server.Remaining.{Moment, counted, answer}
use screenguard.Sync.Marks.{Key}
use screenguard.Sync.Stored.{IsDate, IsTidy, IsOwner, add_usage_seconds-IsTidy}
use screenguard.Sync.Totals.{value, more, more-Linked_lost, more-Linked_heard, IsLinked}

module _ (agent : String) (uid : ℕ) (id date : String) (reprint : String → Option String) where
  -- One user of a heartbeat on the agent.
  abbrev pub count_one : AgentDb → String → ℕ → ℕ → AgentDb
  count_one a today v secs = if ltb 0 secs then add_usage_seconds a v today secs else a

  get-count_other :
      (a : AgentDb) (today : String) (v secs : ℕ)
      → ◌≢◌ {A = Key} (v, today) (uid, date)
      → get (count_one a today v secs).usage_log (uid, date) ≡ get a.usage_log (uid, date)
  unfolding add_usage_seconds
  get-count_other a today v secs n = elim (Bool-cases (ltb 0 secs)) [
    | inl y ↦ rw y (rw get-insert (rw (==_ne {A = Key} (v, today) (uid, date) n) refl))
    | inr y ↦ rw y refl
  ]

  get-count_self :
      (a : AgentDb) (today : String) (v secs : ℕ)
      → Path Key (v, today) (uid, date)
      → ltb 0 secs ≡ true
      → get (count_one a today v secs).usage_log (uid, date)
        ≡ more (get a.usage_log (uid, date)) secs
  unfolding add_usage_seconds
  get-count_self a today v secs e y =
      rw y (rw get-insert (rw (==_eq {A = Key} (v, today) (uid, date) e) (rw e refl)))

  count-IsTidy :
      (a : AgentDb) (today : String) (v secs : ℕ)
      → IsDate reprint today
      → IsTidy reprint a.usage_log
      → IsTidy reprint (count_one a today v secs).usage_log
  count-IsTidy a today v secs d h = elim (Bool-cases (ltb 0 secs)) [
    | inl y ↦ rw y (add_usage_seconds-IsTidy reprint a v today secs d h)
    | inr y ↦ rw y h
  ]

  pub used-count_one :
      (a : AgentDb) (today : String) (v secs : ℕ)
      → used_in (get (count_one a today v secs).usage_log (uid, date))
        ≤ used_in (get a.usage_log (uid, date)) + secs
  unfolding add_usage_seconds
  used-count_one a today v secs = elim (==_cases {A = Key} (v, today) (uid, date)) [
    | inl e ↦ elim (Bool-cases (ltb 0 secs)) [
      | inl y ↦ rw (get-count_self a today v secs e y) (omega arith)
      | inr y ↦ rw y (omega arith)
    ]
    | inr n ↦ rw (get-count_other a today v secs n) (omega arith)
  ]

  pub count-IsLinked_lost :
      (exact : Bool) (a : AgentDb) (s : ServerDb) (today : String) (v secs : ℕ)
      → IsDate reprint today
      → IsLinked agent uid id date reprint exact a s
      → IsLinked agent uid id date reprint exact (count_one a today v secs) s
  count-IsLinked_lost exact a s today v secs d h = record {
    tidy = count-IsTidy a today v secs d h.tidy;
    owner = h.owner;
    linked = elim (==_cases {A = Key} (v, today) (uid, date)) [
      | inl e ↦ elim (Bool-cases (ltb 0 secs)) [
        | inl y ↦ rw (get-count_self a today v secs e y) (
            more-Linked_lost exact (get a.usage_log (uid, date)) (get s.daily_usage (id, date)) secs
              h.linked)
        | inr y ↦ rw y h.linked
      ]
      | inr n ↦ rw (get-count_other a today v secs n) h.linked
    ];
  }

  -- One user of a heartbeat on the server.
  module _ {T : Type 0} ⦃c : NaiveTime T⦄ ⦃z : Zones T⦄ (first last : T)
      (admin_tz agent_tz : String) (elsewhere : String → List GroupUsage) (at : Moment T) where
    abbrev pub answered : ServerDb → ℕ → ℕ → ServerDb
    answered s v secs =
        (answer first last admin_tz agent_tz elsewhere agent at s v secs
          (get_agent_user s agent v)).0

    -- The seconds are stored, for a user with a profile, or the database stays.
    answer_cases :
        (s : ServerDb) (v secs : ℕ) (o : Option AgentUser)
        → ((answer first last admin_tz agent_tz elsewhere agent at s v secs o).0 ≡ s)
          ⊎ ((b : AgentUser) × (o ≡ some b)
              × ((answer first last admin_tz agent_tz elsewhere agent at s v secs o).0
                  ≡ counted at.today s b.id secs))
    answer_cases s v secs none = inl refl
    answer_cases s v secs (some b) = elim (Option-cases b.profile_id) [
      | inl n ↦ inl (rw n refl)
      | inr p ↦ inr (b, refl, rw p.1 refl)
    ]

    counted-IsOwner :
        (s : ServerDb) (today user : String) (secs : ℕ)
        → IsOwner agent uid id s
        → IsOwner agent uid id (counted today s user secs)
    unfolding counted add_server get_agent_user
    counted-IsOwner s today user secs h = elim (Bool-cases (ltb 0 secs)) [
      | inl y ↦ rw y (record { user = h.user; found = h.found; is_id = h.is_id; only = h.only })
      | inr y ↦ rw y h
    ]

    abbrev id_in : Option AgentUser → String
    id_in none = ""
    id_in (some b) = b.id

    owner_id :
        (s : ServerDb) (b : AgentUser)
        → IsOwner agent uid id s
        → get_agent_user s agent uid ≡ some b
        → b.id ≡ id
    owner_id s b h p = ap id_in (sym p ∙ h.found) ∙ h.is_id

    get-counted_other :
        (s : ServerDb) (today user : String) (secs : ℕ)
        → ◌≢◌ {A = String × String} (user, today) (id, date)
        → get (counted today s user secs).daily_usage (id, date) ≡ get s.daily_usage (id, date)
    unfolding counted add_server
    get-counted_other s today user secs n = elim (Bool-cases (ltb 0 secs)) [
      | inl y ↦
          rw y (rw get-insert (rw (==_ne {A = String × String} (user, today) (id, date) n) refl))
      | inr y ↦ rw y refl
    ]

    get-counted_self :
        (s : ServerDb) (today user : String) (secs : ℕ)
        → Path (String × String) (user, today) (id, date)
        → ltb 0 secs ≡ true
        → get (counted today s user secs).daily_usage (id, date)
          ≡ some (value (get s.daily_usage (id, date)) +ℤ pos secs)
    unfolding counted add_server
    get-counted_self s today user secs e y =
        rw y
          (rw get-insert (rw (==_eq {A = String × String} (user, today) (id, date) e) (rw e refl)))

    counted-IsLinked :
        (exact : Bool) (a : AgentDb) (s : ServerDb) (v secs : ℕ) (b : AgentUser)
        → get_agent_user s agent v ≡ some b
        → IsDate reprint at.today
        → IsLinked agent uid id date reprint exact a s
        → IsLinked agent uid id date reprint exact
            (count_one a at.today v secs)
            (counted at.today s b.id secs)
    unfolding counted
    counted-IsLinked exact a s v secs b p d h = record {
      tidy = count-IsTidy a at.today v secs d h.tidy;
      owner = counted-IsOwner s at.today b.id secs h.owner;
      linked = elim (==_cases {A = Key} (v, at.today) (uid, date)) [
        | inl e ↦
            let own = owner_id s b h.owner (rw (sym (ap (λ (k : Key). k.0) e)) p) in
            elim (Bool-cases (ltb 0 secs)) [
              | inl y ↦ rw (get-count_self a at.today v secs e y) (
                  rw
                    (get-counted_self s at.today b.id secs
                      (rw own (rw (ap (λ (k : Key). k.1) e) refl)) y)
                    (more-Linked_heard exact (get a.usage_log (uid, date))
                      (get s.daily_usage (id, date)) secs h.linked))
              | inr y ↦ rw y h.linked
            ]
        | inr n ↦ rw (get-count_other a at.today v secs n) (
            rw
              (get-counted_other s at.today b.id secs (λ q. n (
                rw (h.owner.only v b p (ap (λ (t : String × String). t.0) q))
                  (rw (ap (λ (t : String × String). t.1) q) refl))))
              h.linked)
      ];
    }

    pub count-IsLinked_heard :
        (exact : Bool) (a : AgentDb) (s : ServerDb) (v secs : ℕ)
        → IsDate reprint at.today
        → IsLinked agent uid id date reprint exact a s
        → IsLinked agent uid id date reprint exact (count_one a at.today v secs) (answered s v secs)
    count-IsLinked_heard exact a s v secs d h =
        elim (answer_cases s v secs (get_agent_user s agent v)) [
          | inl p ↦ rw p (count-IsLinked_lost exact a s at.today v secs d h)
          | inr p ↦ rw p.2 (counted-IsLinked exact a s v secs p.0 p.1 d h)
        ]
