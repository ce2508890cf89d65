-- ===== src/Agent/Counting.antt =====
-- The timers of screen time follow the states of the sessions.
use screenguard.Prelude.{
  eq_nat, eq_string, ==_refl, ==_ne, ==_cases, ℕ, ◌≡◌, ◌≢◌, refl, sym, ◌∙◌, subst, Bool, true,
  false, not, ◌&&◌, Option, none, some, List, [], ◌∷◌, String, if◌then◌else◌, or_default, arith,
  Bool-cases, inl, inr, Option-cases,
}
use screenguard.Prelude.Dict.{
  Dict, get, insert, remove, IsDict, get-insert, get-remove, get-cons, get-nil, insert-IsDict,
  remove-IsDict, contains_key,
}
use screenguard.Agent.Tables.{Db}
use screenguard.Agent.Timer.{update_usage_timer, or_insert}
use screenguard.Agent.Sessions.{
  SessionUsageState, SessionEvent, startup_snapshot, session_started, session_ended, state_changed,
  prepare_for_sleep, unknown_state, uid_counts_usage, SessionStates, uid_is_counting, Sessions,
  set_state, without, drop_session, timer_after, timer_after_end, stopped, restarted,
  is_known_session, handle_session_event,
}

abbrev pub runs : Option (Option ℕ) → Bool
runs none = false
runs (some none) = false
runs (some (some since)) = true

abbrev pub is_running : Sessions → ℕ → Bool
is_running s uid = runs (get s.active_since uid)

-- While the computer is awake a timer runs exactly if it should; while it sleeps, only if it should.
abbrev pub Follows : Bool → Bool → Bool → Type 0
Follows true running counting = running ≡ counting
Follows false running counting = (running && counting) ≡ running

abbrev pub is_awake : Bool → SessionEvent → Bool
is_awake awake (startup_snapshot sessions) = awake
is_awake awake (session_started uid session_id) = awake
is_awake awake (session_ended uid session_id) = awake
is_awake awake (state_changed uid session_id state) = awake
is_awake awake (prepare_for_sleep suspend) = not suspend

pub record IsValid (awake : Bool) (s : Sessions) : Type 0 where
  pub states : IsDict s.session_states
  pub timers : (uid : ℕ) → Follows awake (is_running s uid) (uid_is_counting s.session_states uid)

quiet-Follows : (awake counting : Bool) → counting ≡ false → Follows awake false counting
quiet-Follows true counting h = sym h
quiet-Follows false counting h = refl

runs-or_insert :
    (uid : ℕ) (m : Dict ℕ (Option ℕ)) (o : Option (Option ℕ))
    → get m uid ≡ o
    → runs (get (or_insert m uid o) uid) ≡ runs (get m uid)
runs-or_insert uid m none h = rw get-insert (rw (==_refl uid) (rw h refl))
runs-or_insert uid m (some timer) h = refl

get-or_insert :
    (uid : ℕ) (m : Dict ℕ (Option ℕ)) (v : ℕ)
    → uid ≢ v
    → (o : Option (Option ℕ)) → get (or_insert m uid o) v ≡ get m v
get-or_insert uid m v n none = rw get-insert (rw (==_ne uid v n) refl)
get-or_insert uid m v n (some timer) = refl

runs-update_self :
    (awake : Bool) (now uid : ℕ) (was is : Bool) (m : Dict ℕ (Option ℕ))
    → Follows awake (runs (get m uid)) was
    → Follows awake (runs (get (update_usage_timer now uid was is m) uid)) is
unfolding update_usage_timer
runs-update_self true now uid false true m h = rw get-insert (rw (==_refl uid) refl)
runs-update_self false now uid false true m h = rw get-insert (rw (==_refl uid) refl)
runs-update_self true now uid true false m h = rw get-insert (rw (==_refl uid) refl)
runs-update_self false now uid true false m h = rw get-insert (rw (==_refl uid) refl)
runs-update_self true now uid false false m h = runs-or_insert uid m (get m uid) refl ∙ h
runs-update_self false now uid false false m h = rw (runs-or_insert uid m (get m uid) refl) h
runs-update_self true now uid true true m h = h
runs-update_self false now uid true true m h = ground arith

runs-update_other :
    (now uid : ℕ) (was is : Bool) (m : Dict ℕ (Option ℕ)) (v : ℕ)
    → uid ≢ v
    → get (update_usage_timer now uid was is m) v ≡ get m v
unfolding update_usage_timer
runs-update_other now uid false true m v n = rw get-insert (rw (==_ne uid v n) refl)
runs-update_other now uid true false m v n = rw get-insert (rw (==_ne uid v n) refl)
runs-update_other now uid false false m v n = get-or_insert uid m v n (get m uid)
runs-update_other now uid true true m v n = refl

get-stopped : (m : Dict ℕ (Option ℕ)) (k : ℕ) → runs (get (stopped m) k) ≡ false
unfolding get
get-stopped [] k = refl
get-stopped ((j, t) ∷ m) k = ground (arith, get-stopped m k)

-- What a restart makes of a user's timer.
abbrev restart_of :
    ℕ → Option (Dict String SessionUsageState) → Option (Option ℕ) → Option (Option ℕ)
restart_of now none o = o
restart_of now (some own) o = some (if uid_counts_usage own then some now else none)

get-restarted :
    (now : ℕ) (states : SessionStates) (acc : Dict ℕ (Option ℕ)) (k : ℕ)
    → IsDict states
    → get (restarted now states acc) k ≡ restart_of now (get states k) (get acc k)
get-restarted now [] acc k h = rw get-nil refl
get-restarted now ((uid, own) ∷ states) acc k h =
    rw
      (get-restarted now states (insert acc uid (if uid_counts_usage own then some now else none)) k
        h.1)
      (rw get-insert (
        rw get-cons (elim (==_cases uid k) [
          | inl e ↦ rw (sym e) (rw (==_refl uid) (rw h.0 refl))
          | inr e ↦ rw (==_ne uid k e) refl
        ])))

runs-restart :
    (now : ℕ) (o : Option (Dict String SessionUsageState))
    → runs (restart_of now o none) ≡ uid_counts_usage (or_default [] o)
unfolding uid_counts_usage
runs-restart now none = refl
runs-restart now (some own) = ground arith

without-IsDict :
    (states : SessionStates) (uid : ℕ) (own : Dict String SessionUsageState)
    → IsDict states
    → IsDict (without states uid own)
without-IsDict states uid [] h = remove-IsDict states uid h
without-IsDict states uid (s ∷ rest) h = insert-IsDict states uid (s ∷ rest) h

get-without :
    (states : SessionStates) (uid : ℕ) (own : Dict String SessionUsageState) (v : ℕ)
    → uid ≢ v
    → get (without states uid own) v ≡ get states v
get-without states uid [] v n = rw get-remove (rw (==_ne uid v n) refl)
get-without states uid (s ∷ rest) v n = rw get-insert (rw (==_ne uid v n) refl)

drop_session-IsDict :
    (states : SessionStates) (uid : ℕ) (session_id : String)
    (o : Option (Dict String SessionUsageState))
    → IsDict states
    → IsDict (drop_session states uid session_id o)
drop_session-IsDict states uid session_id none h = h
drop_session-IsDict states uid session_id (some own) h =
    without-IsDict states uid (remove own session_id) h

get-drop_session :
    (states : SessionStates) (uid : ℕ) (session_id : String)
    (o : Option (Dict String SessionUsageState)) (v : ℕ)
    → uid ≢ v
    → get (drop_session states uid session_id o) v ≡ get states v
get-drop_session states uid session_id none v n = refl
get-drop_session states uid session_id (some own) v n =
    get-without states uid (remove own session_id) v n

-- Only the user of an event has states that change.
abbrev SameElsewhere : ℕ → SessionStates → SessionStates → Type 0
SameElsewhere uid before after = (v : ℕ) → uid ≢ v → get after v ≡ get before v

absent-counting :
    (states : SessionStates) (uid : ℕ)
    → contains_key states uid ≡ false
    → uid_is_counting states uid ≡ false
unfolding uid_is_counting uid_counts_usage
absent-counting states uid h = elim (Option-cases (get states uid)) [
  | inl n ↦ rw n refl
  | inr p ↦ ground (arith, p.1)
]

restarted-Follows :
    (now : ℕ) (states : SessionStates) (v : ℕ)
    → IsDict states
    → runs (get (restarted now states []) v) ≡ uid_is_counting states v
unfolding uid_is_counting
restarted-Follows now states v h =
    rw (get-restarted now states [] v h) (rw get-nil (runs-restart now (get states v)))

asleep-Follows : (counting : Bool) → Follows false false counting
asleep-Follows counting = refl

module _ (awake : Bool) (now uid : ℕ) (before after : SessionStates) (m : Dict ℕ (Option ℕ))
    (same : SameElsewhere uid before after)
    (h : (v : ℕ) → Follows awake (runs (get m v)) (uid_is_counting before v)) where
  other-Follows :
      (t : Dict ℕ (Option ℕ)) (v : ℕ)
      → uid ≢ v
      → get t v ≡ get m v
      → Follows awake (runs (get t v)) (uid_is_counting after v)
  unfolding uid_is_counting
  other-Follows t v n g = rw g (rw (same v n) (h v))

  timer_after-Follows :
      (v : ℕ)
      → Follows awake (runs (get (timer_after now uid before after m) v)) (uid_is_counting after v)
  timer_after-Follows v = elim (==_cases uid v) [
    | inl e ↦
        subst
          (λ w.
            Follows awake (runs (get (timer_after now uid before after m) w))
              (uid_is_counting after w))
          e
          (runs-update_self awake now uid (uid_is_counting before uid) (uid_is_counting after uid) m
            (h uid))
    | inr n ↦
        other-Follows (timer_after now uid before after m) v n
          (runs-update_other now uid (uid_is_counting before uid) (uid_is_counting after uid) m v n)
  ]

  timer_after_end-Follows :
      (v : ℕ)
      → Follows awake
          (runs (get (timer_after_end now uid before after m) v))
          (uid_is_counting after v)
  timer_after_end-Follows v = elim (Bool-cases (contains_key after uid)) [
    | inl c ↦ rw c (timer_after-Follows v)
    | inr c ↦ rw c (elim (==_cases uid v) [
      | inl e ↦
          subst (λ w. Follows awake (runs (get (remove m uid) w)) (uid_is_counting after w)) e
            (rw get-remove (
              rw (==_refl uid)
                (quiet-Follows awake (uid_is_counting after uid) (absent-counting after uid c))))
      | inr n ↦ other-Follows (remove m uid) v n (rw get-remove (rw (==_ne uid v n) refl))
    ])
  ]

set_state-IsDict :
    (states : SessionStates) (uid : ℕ) (session_id : String) (state : SessionUsageState)
    → IsDict states
    → IsDict (set_state states uid session_id state)
set_state-IsDict states uid session_id state h =
    insert-IsDict states uid (insert (or_default [] (get states uid)) session_id state) h

get-set_state :
    (states : SessionStates) (uid : ℕ) (session_id : String) (state : SessionUsageState)
    → SameElsewhere uid states (set_state states uid session_id state)
get-set_state states uid session_id state v n = rw get-insert (rw (==_ne uid v n) refl)

handle_session_event-IsValid :
    (awake : Bool) (now : ℕ) (s : Sessions) (event : SessionEvent)
    → IsValid awake s
    → IsValid (is_awake awake event) (handle_session_event now s event)
unfolding handle_session_event
handle_session_event-IsValid awake now s (startup_snapshot sessions) h = record {
  states = h.states;
  timers = h.timers;
}
handle_session_event-IsValid awake now s (session_started uid session_id) h = record {
  states = set_state-IsDict s.session_states uid session_id unknown_state h.states;
  timers =
      timer_after-Follows awake now uid s.session_states
        (set_state s.session_states uid session_id unknown_state) s.active_since
        (get-set_state s.session_states uid session_id unknown_state) h.timers;
}
handle_session_event-IsValid awake now s (session_ended uid session_id) h = record {
  states = drop_session-IsDict s.session_states uid session_id (get s.session_states uid) h.states;
  timers =
      timer_after_end-Follows awake now uid s.session_states
        (drop_session s.session_states uid session_id (get s.session_states uid)) s.active_since
        (get-drop_session s.session_states uid session_id (get s.session_states uid)) h.timers;
}
handle_session_event-IsValid awake now s (state_changed uid session_id state) h =
    elim (Bool-cases (is_known_session s.session_states uid session_id)) [
      | inl k ↦ rw k (record {
        states = set_state-IsDict s.session_states uid session_id state h.states;
        timers =
            timer_after-Follows awake now uid s.session_states
              (set_state s.session_states uid session_id state) s.active_since
              (get-set_state s.session_states uid session_id state) h.timers;
      })
      | inr k ↦ rw k h
    ]
handle_session_event-IsValid awake now s (prepare_for_sleep true) h = record {
  states = h.states;
  timers = λ v. rw get-stopped (asleep-Follows (uid_is_counting s.session_states v));
}
handle_session_event-IsValid awake now s (prepare_for_sleep false) h = record {
  states = h.states;
  timers = λ v. restarted-Follows now s.session_states v h.states;
}

abbrev pub run : Sessions → List (ℕ × SessionEvent) → Sessions
run s [] = s
run s ((now, event) ∷ events) = run (handle_session_event now s event) events

abbrev pub awake_after : Bool → List (ℕ × SessionEvent) → Bool
awake_after awake [] = awake
awake_after awake ((now, event) ∷ events) = awake_after (is_awake awake event) events

run-IsValid :
    (awake : Bool) (s : Sessions) (events : List (ℕ × SessionEvent))
    → IsValid awake s
    → IsValid (awake_after awake events) (run s events)
run-IsValid awake s [] h = h
run-IsValid awake s ((now, event) ∷ events) h =
    run-IsValid (is_awake awake event) (handle_session_event now s event) events
      (handle_session_event-IsValid awake now s event h)

-- Before the first event.
abbrev pub initial : Db → Sessions
initial db = record { db = db; session_states = []; active_since = [] }

-- After any events from the start, while the computer is awake, the timer of a user runs exactly if
-- one of the user's sessions is active, unlocked and not idle; while it sleeps, a timer runs only if
-- there is such a session.
pub run-Follows :
    (db : Db) (events : List (ℕ × SessionEvent)) (uid : ℕ)
    → Follows
        (awake_after true events)
        (is_running (run (initial db) events) uid)
        (uid_is_counting (run (initial db) events).session_states uid)
unfolding uid_is_counting uid_counts_usage get
run-Follows db events uid =
    (run-IsValid true (initial db) events (record { states = tt; timers = λ v. refl })).timers uid
