-- ===== src/Sync/Agree.antt =====
-- The totals of an agent and of the server over a run.
use screenguard.Prelude.{
  eq_nat, eq_string, eq_pair, ℕ, ◌+◌, ◌<◌, ◌≤◌, ◌≡◌, ◌≢◌, refl, subst, Bool, true, false, ◌&&◌,
  Option, none, some, List, [], ◌∷◌, String, arith,
}
use screenguard.Prelude.Dict.{get, get_or, get-nil}
use screenguard.Prelude.Int.{pos, two63, ◌≤ℤ◌}
use screenguard.Times.{NaiveTime}
use screenguard.Models.{GroupUsage}
use screenguard.Agent.Tables.{UsageRow, Db as AgentDb}
use screenguard.Agent.Db.{used_in, get_usage_seconds}
use screenguard.Server.Db.{Db as ServerDb}
use screenguard.Server.Windows.{Zones}
use screenguard.Server.Remaining.{Moment, calculate_remaining_for_agent}
use screenguard.Agent.State.{get_unsynced_usage}
use screenguard.Sync.{
  count_seconds, send_usage_sync, World, Event, heartbeat, usage_sync, midnight, heard, step, run,
}
use screenguard.Agent.Config.{get_managed_uids}
use screenguard.Agent.Armed.{reset_all}
use screenguard.Sync.Midnight.{row-reset, reset-IsLinked}
use screenguard.Sync.Marks.{marked, get-mark_due}
use screenguard.Sync.Stored.{IsDate, IsOwner}
use screenguard.Sync.Totals.{
  Linked, Linked-le, IsLinked, sync-IsLinked_heard, sync-IsLinked_lost, marked-Linked_eq, send-db,
  and_false,
}
use screenguard.Sync.Counts.{count_one, count-IsLinked_lost, count-IsLinked_heard, used-count_one}

-- The seconds of heartbeats.
abbrev pub seconds_of : List (ℕ × ℕ) → ℕ
seconds_of [] = 0
seconds_of ((uid, secs) ∷ users) = secs + seconds_of users

abbrev pub seconds_in : List Event → ℕ
seconds_in [] = 0
seconds_in (heartbeat delivered today server_today users ∷ events) =
    seconds_of users + seconds_in events
seconds_in (usage_sync delivered ∷ events) = seconds_in events
seconds_in (midnight yesterday ∷ events) = seconds_in events

-- No usage sync is lost.
abbrev pub all_arrive : List Event → Bool
all_arrive [] = true
all_arrive (heartbeat delivered today server_today users ∷ events) = all_arrive events
all_arrive (usage_sync delivered ∷ events) = delivered && all_arrive events
all_arrive (midnight yesterday ∷ events) = all_arrive events

-- Heartbeats are counted for dates, the server's date is then the agent's, and the reset of the day
-- `date` is still to come.
abbrev pub IsWithin : (String → Option String) → String → List Event → Type 0
IsWithin reprint date [] = Unit
IsWithin reprint date (heartbeat delivered today server_today users ∷ events) =
    (IsDate reprint today × (server_today ≡ today)) × IsWithin reprint date events
IsWithin reprint date (usage_sync delivered ∷ events) = IsWithin reprint date events
IsWithin reprint date (midnight yesterday ∷ events) =
    (yesterday ≢ date) × IsWithin reprint date events

module _ {T : Type 0} ⦃c : NaiveTime T⦄ ⦃z : Zones T⦄ (first last : T) (admin_tz agent_tz : String)
    (elsewhere : String → List GroupUsage) (agent : String) (at : Moment T)
    (reprint : String → Option String) (uid : ℕ) (id date : String) where
  beat-IsLinked_lost :
      (exact : Bool) (a : AgentDb) (s : ServerDb) (today : String) (users : List (ℕ × ℕ))
      → IsDate reprint today
      → IsLinked agent uid id date reprint exact a s
      → IsLinked agent uid id date reprint exact (count_seconds a today users) s
  unfolding count_seconds
  beat-IsLinked_lost exact a s today [] d h = h
  beat-IsLinked_lost exact a s today ((v, secs) ∷ users) d h =
      beat-IsLinked_lost exact (count_one agent uid id date reprint a today v secs) s today users d
        (count-IsLinked_lost agent uid id date reprint exact a s today v secs d h)

  beat-IsLinked_stored :
      (exact : Bool) (a : AgentDb) (s : ServerDb) (today : String) (users : List (ℕ × ℕ))
      → IsDate reprint today
      → IsLinked agent uid id date reprint exact a s
      → IsLinked agent uid id date reprint exact
          (count_seconds a today users)
          (heard first last admin_tz agent_tz elsewhere agent at reprint s today users)
  unfolding count_seconds calculate_remaining_for_agent
  beat-IsLinked_stored exact a s today [] d h = h
  beat-IsLinked_stored exact a s today ((v, secs) ∷ users) d h =
      beat-IsLinked_stored exact (count_one agent uid id date reprint a today v secs) _ today users
        d
        (count-IsLinked_heard agent uid id date reprint first last admin_tz agent_tz elsewhere
          (record at { today = today }) exact a s v secs d h)

  used-count_seconds :
      (a : AgentDb) (today : String) (users : List (ℕ × ℕ))
      → used_in (get (count_seconds a today users).usage_log (uid, date))
        ≤ used_in (get a.usage_log (uid, date)) + seconds_of users
  unfolding count_seconds
  used-count_seconds a today [] = omega arith
  used-count_seconds a today ((v, secs) ∷ users) =
      let one = used-count_one agent uid id date reprint a today v secs in
      let rest =
        used-count_seconds (count_one agent uid id date reprint a today v secs) today users in
      omega arith

  used-marked : (r : Option UsageRow) → used_in (marked r) ≡ used_in r
  used-marked none = refl
  used-marked (some row) = refl

  row-sync :
      (a : AgentDb)
      → get (send_usage_sync reprint a).0.usage_log (uid, date)
        ≡ marked (get a.usage_log (uid, date))
  unfolding send_usage_sync
  row-sync a =
      rw (send-db agent uid id date reprint a (get_unsynced_usage a)) (get-mark_due a (uid, date))

  used-sync :
      (a : AgentDb)
      → used_in (get (send_usage_sync reprint a).0.usage_log (uid, date))
        ≡ used_in (get a.usage_log (uid, date))
  used-sync a = rw (row-sync a) (used-marked (get a.usage_log (uid, date)))

  used-reset :
      (a : AgentDb) (yesterday : String) (uids : List ℕ)
      → yesterday ≢ date
      → used_in (get (reset_all a yesterday uids).usage_log (uid, date))
        ≡ used_in (get a.usage_log (uid, date))
  used-reset a yesterday uids n = rw (row-reset a yesterday uids uid date n) refl

  abbrev runs : World → List Event → World
  runs = run first last admin_tz agent_tz elsewhere agent at reprint

  abbrev steps : World → Event → World
  steps = step first last admin_tz agent_tz elsewhere agent at reprint

  and_true : (b : Bool) → (b && true) ≡ b
  and_true b = ground arith

  -- What a run keeps: exactness goes with the first sync that is lost.
  run-IsLinked :
      (exact : Bool) (w : World) (events : List Event)
      → IsWithin reprint date events
      → used_in (get w.agent_db.usage_log (uid, date)) + seconds_in events < two63
      → IsLinked agent uid id date reprint exact w.agent_db w.server_db
      → IsLinked agent uid id date reprint
          (exact && all_arrive events)
          (runs w events).agent_db
          (runs w events).server_db
  run-IsLinked exact w [] d b h = rw (and_true exact) h
  run-IsLinked exact w (heartbeat true today server_today users ∷ events) d b h =
      let more = used-count_seconds w.agent_db today users in
      let stored = beat-IsLinked_stored exact w.agent_db w.server_db today users d.0.0 h in
      run-IsLinked exact (steps w (heartbeat true today server_today users)) events d.1
        (omega arith) (rw (d.0.1) stored)
  run-IsLinked exact w (heartbeat false today server_today users ∷ events) d b h =
      let more = used-count_seconds w.agent_db today users in
      run-IsLinked exact (steps w (heartbeat false today server_today users)) events d.1
        (omega arith) (beat-IsLinked_lost exact w.agent_db w.server_db today users d.0.0 h)
  run-IsLinked exact w (midnight yesterday ∷ events) d b h =
      let uids = get_managed_uids w.agent_db in
      let same = used-reset w.agent_db yesterday uids d.0 in
      run-IsLinked exact (steps w (midnight yesterday)) events d.1 (omega arith)
        (reset-IsLinked agent uid id date reprint exact w.agent_db w.server_db yesterday uids d.0 h)
  run-IsLinked exact w (usage_sync true ∷ events) d b h =
      let same = used-sync w.agent_db in
      run-IsLinked exact (steps w (usage_sync true)) events d (omega arith)
        (sync-IsLinked_heard agent uid id date reprint exact w.agent_db w.server_db (omega arith) h)
  run-IsLinked exact w (usage_sync false ∷ events) d b h =
      let same = used-sync w.agent_db in
      rw (and_false exact) (
        run-IsLinked false (steps w (usage_sync false)) events d (omega arith)
          (sync-IsLinked_lost agent uid id date reprint exact w.agent_db w.server_db h))

  used-run :
      (w : World) (events : List Event)
      → IsWithin reprint date events
      → used_in (get (runs w events).agent_db.usage_log (uid, date))
        ≤ used_in (get w.agent_db.usage_log (uid, date)) + seconds_in events
  used-run w [] d = omega arith
  used-run w (heartbeat delivered today server_today users ∷ events) d =
      let one = used-count_seconds w.agent_db today users in
      let rest = used-run (steps w (heartbeat delivered today server_today users)) events d.1 in
      omega arith
  used-run w (usage_sync delivered ∷ events) d =
      let one = used-sync w.agent_db in
      let rest = used-run (steps w (usage_sync delivered)) events d in omega arith
  used-run w (midnight yesterday ∷ events) d =
      let one = used-reset w.agent_db yesterday (get_managed_uids w.agent_db) d.0 in
      let rest = used-run (steps w (midnight yesterday)) events d.1 in omega arith

  -- The agent has counted nothing yet, and the server has nothing for the user and the day.
  pub record IsFresh (w : World) : Type 0 where
    pub owner : IsOwner agent uid id w.server_db
    pub unused : w.agent_db.usage_log ≡ []
    pub unstored : get w.server_db.daily_usage (id, date) ≡ none

  fresh-IsLinked :
      (w : World) → IsFresh w → IsLinked agent uid id date reprint true w.agent_db w.server_db
  fresh-IsLinked w f = record {
    tidy = rw f.unused (record { keys = tt; dates = tt });
    owner = f.owner;
    linked = rw f.unused (rw get-nil f.unstored);
  }

  fresh-used :
      (w : World) (n : ℕ)
      → IsFresh w
      → n < two63
      → used_in (get w.agent_db.usage_log (uid, date)) + n < two63
  fresh-used w n f b = rw f.unused (rw get-nil (omega arith))

  -- The run's part of the invariant.
  run_keeps :
      (w : World) (events : List Event)
      → IsFresh w
      → IsWithin reprint date events
      → seconds_in events < two63
      → IsLinked agent uid id date reprint
          (all_arrive events)
          (runs w events).agent_db
          (runs w events).server_db
  run_keeps w events f d b =
      run-IsLinked true w events d (fresh-used w (seconds_in events) f b) (fresh-IsLinked w f)

  -- From a fresh start, whatever heartbeats, usage syncs and midnights come, in any order, and
  -- whichever messages are lost, the server never has more seconds of a user's day than the agent
  -- counted: the total that a sync repeats is not added to what the heartbeats have brought. It holds
  -- until the agent resets that day at midnight, if the server's date is the agent's at each
  -- heartbeat. The users of the agent have ids of their own, and the seconds stay below 2^63.
  pub run_never_more :
      (w : World) (events : List Event)
      → IsFresh w
      → IsWithin reprint date events
      → seconds_in events < two63
      → get_or (pos 0) (runs w events).server_db.daily_usage (id, date)
        ≤ℤ pos (get_usage_seconds (runs w events).agent_db uid date)
  unfolding get_usage_seconds
  run_never_more w events f d b =
      Linked-le (all_arrive events) (get (runs w events).agent_db.usage_log (uid, date))
        (get (runs w events).server_db.daily_usage (id, date)) (run_keeps w events f d b).linked

  -- From a fresh start, if no usage sync is lost, though any heartbeat may be, the next sync makes
  -- the server's seconds of a user's day those that the agent counted. It holds until the agent
  -- resets that day at midnight, if the server's date is the agent's at each heartbeat. The users of
  -- the agent have ids of their own, and the seconds stay below 2^63.
  pub run_catches_up :
      (w : World) (events : List Event)
      → IsFresh w
      → IsWithin reprint date events
      → seconds_in events < two63
      → all_arrive events ≡ true
      → get_or (pos 0) (steps (runs w events) (usage_sync true)).server_db.daily_usage (id, date)
        ≡ pos (get_usage_seconds (steps (runs w events) (usage_sync true)).agent_db uid date)
  unfolding get_usage_seconds
  run_catches_up w events f d b e =
      let a = (runs w events).agent_db in
      let h =
        subst (λ x. IsLinked agent uid id date reprint x a (runs w events).server_db) e
          (run_keeps w events f d b) in
      let bound = used-run w events d in
      let start = fresh-used w (seconds_in events) f b in
      let next =
        sync-IsLinked_heard agent uid id date reprint true a (runs w events).server_db (omega arith)
          h in
      rw (used-sync a) (
        marked-Linked_eq (get a.usage_log (uid, date)) _ (
          subst
            (λ r.
              Linked true r
                (get (steps (runs w events) (usage_sync true)).server_db.daily_usage (id, date)))
            (row-sync a) next.linked))
