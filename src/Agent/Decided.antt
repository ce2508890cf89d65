-- ===== src/Agent/Decided.antt =====
-- The requests that are kept: few, and none that a parent has decided.
use screenguard.Prelude.{
  eq_nat, eq_string, eq_pair, ℕ, suc, ◌≤◌, ◌≡◌, refl, Bool, not, ◌&&◌, ◌||◌, Option, none, some,
  List, [], ◌∷◌, ◌==◌, if◌then◌else◌, arith, length, any, map, ltb, Bool-cases, inl, inr, contains,
}
use screenguard.Prelude.Dict.{
  Dict, get, insert, retain, IsDict, kept, get-retain, retain-IsDict, insert-IsDict,
}
use screenguard.Apps.Id.{AppId}
use screenguard.Models.{UserConfig, AppApprovalConfig}
use screenguard.Closing.Targets.{Target, Shown}
use screenguard.Agent.Requests.{
  AppRequest, max_outstanding_requests, RequestKey, Requests, waits_for_parent, key_of, request_for,
  ask, ask_parents, resend, decides, drop_decided, tell_decided,
}

-- Some user of the push decides the request.
abbrev pub decided_by : {T : Type 0} → List (UserConfig T) → RequestKey → Bool
decided_by users key = any (λ (u : UserConfig _). decides u.local_uid u.app_approval key) users

kept_twice :
    (f : RequestKey → Bool) (key : RequestKey) (d : Bool) (o : Option AppRequest)
    → (if d then none else kept (λ k r. not (f k)) key o) ≡ (if f key || d then none else o)
kept_twice f key d none = ground arith
kept_twice f key d (some r) = ground arith

-- A push takes away what it decides.
drop_decided_iff :
    {T : Type 0} (rows : Dict RequestKey AppRequest) (users : List (UserConfig T))
    (key : RequestKey)
    → IsDict rows
    → get (drop_decided rows users) key ≡ (if decided_by users key then none else get rows key)
unfolding drop_decided
drop_decided_iff rows [] key h = refl
drop_decided_iff rows (u ∷ users) key h =
    rw
      (drop_decided_iff (retain (λ k r. not (decides u.local_uid u.app_approval k)) rows) users key
        (retain-IsDict _ rows h))
      (rw (get-retain (λ k r. not (decides u.local_uid u.app_approval k)) rows key h)
        (kept_twice (decides u.local_uid u.app_approval) key (decided_by users key) (get rows key)))

-- The queue has its keys once each, and room is kept.
abbrev pub IsQueue : Requests → Type 0
IsQueue r = IsDict r.outstanding × (length r.outstanding ≤ max_outstanding_requests)

length-insert :
    (m : Dict RequestKey AppRequest) (k : RequestKey) (v : AppRequest)
    → length (insert m k v) ≤ suc (length m)
unfolding insert
length-insert [] k v = omega arith
length-insert ((j, w) ∷ m) k v = elim (Bool-cases (j == k)) [
  | inl y ↦ rw y (omega arith)
  | inr y ↦ let rest = length-insert m k v in rw y (omega arith)
]

length-map : {A B : Type 0} (f : A → B) (xs : List A) → length (map f xs) ≡ length xs
length-map f [] = refl
length-map f (x ∷ xs) = rw (length-map f xs) refl

length-retain :
    (p : RequestKey → AppRequest → Bool) (m : Dict RequestKey AppRequest)
    → length (retain p m) ≤ length m
unfolding retain
length-retain p [] = omega arith
length-retain p ((j, w) ∷ m) = elim (Bool-cases (p j w)) [
  | inl y ↦ let rest = length-retain p m in rw y (omega arith)
  | inr y ↦ let rest = length-retain p m in rw y (omega arith)
]

module _ (sends : AppRequest → Bool) (names : Dict (ℕ × AppId) Shown) (is_online : Bool) where
  ask-IsQueue : (r : Requests) (t : Target) → IsQueue r → IsQueue (ask sends names is_online r t).0
  ask-IsQueue r t h = elim (Bool-cases (ltb (length r.outstanding) max_outstanding_requests)) [
    | inl y ↦
        let grown = length-insert r.outstanding (key_of t) in
        rw y (
          insert-IsDict r.outstanding (key_of t) _ h.0,
          ground (arith, grown (request_for sends names is_online t), y, h.1),
        )
    | inr y ↦ rw y h
  ]

  ask_parents-IsQueue :
      (r : Requests) (targets : List Target)
      → IsQueue r
      → IsQueue (ask_parents sends names is_online r targets).0
  unfolding ask_parents
  ask_parents-IsQueue r [] h = h
  ask_parents-IsQueue r (t ∷ targets) h =
      elim (Bool-cases (waits_for_parent t.reason && not (contains r.requested (key_of t)))) [
        | inl y ↦
            rw y (ask_parents-IsQueue (ask sends names is_online r t).0 targets (ask-IsQueue r t h))
        | inr y ↦ rw y (ask_parents-IsQueue r targets h)
      ]

drop_decided-IsQueue :
    {T : Type 0} (r : Requests) (users : List (UserConfig T))
    → IsQueue r
    → IsQueue (record r { outstanding = drop_decided r.outstanding users })
unfolding drop_decided
drop_decided-IsQueue r [] h = h
drop_decided-IsQueue r (u ∷ users) h =
    let p = λ (k : RequestKey) (req : AppRequest). not (decides u.local_uid u.app_approval k) in
    let less = length-retain p r.outstanding in
    drop_decided-IsQueue (record r { outstanding = retain p r.outstanding }) users
      (retain-IsDict p r.outstanding h.0, ground (arith, less, h.1))

-- What happens to the requests: apps that are to be closed, a new connection, a push.
pub data Event (T : Type 0) : Type 0 where
  asked : (AppRequest → Bool) → Dict (ℕ × AppId) Shown → Bool → List Target → Event T
  connected : Event T
  configured : (ℕ → Option AppApprovalConfig) → List (UserConfig T) → Event T

abbrev pub no_requests : Requests
no_requests = record { requested = []; outstanding = [] }

module _ {T : Type 0} where
  abbrev pub step : Requests → Event T → Requests
  step r (asked sends names is_online targets) = (ask_parents sends names is_online r targets).0
  step r connected = (resend r).0
  step r (configured old users) = record {
    requested = (tell_decided old r.requested users).0;
    outstanding = drop_decided r.outstanding users;
  }

  step-IsQueue : (r : Requests) (e : Event T) → IsQueue r → IsQueue (step r e)
  unfolding resend
  step-IsQueue r (asked sends names is_online targets) h =
      ask_parents-IsQueue sends names is_online r targets h
  step-IsQueue r connected h = h
  step-IsQueue r (configured old users) h = drop_decided-IsQueue r users h

  abbrev pub run : Requests → List (Event T) → Requests
  run r [] = r
  run r (e ∷ events) = run (step r e) events

  run-IsQueue : (r : Requests) (events : List (Event T)) → IsQueue r → IsQueue (run r events)
  run-IsQueue r [] h = h
  run-IsQueue r (e ∷ events) h = run-IsQueue (step r e) events (step-IsQueue r e h)

  -- From the start, after any apps that were closed, new connections and pushes, at most 50 requests
  -- are kept; a further push takes exactly those away that it decides (the app is approved or
  -- denied for the user, or the user's mode is off) and keeps every other one as it was; and a new
  -- connection sends as many requests as are kept.
  pub run_requests :
      (events : List (Event T)) (old : ℕ → Option AppApprovalConfig) (users : List (UserConfig T))
      (key : RequestKey)
      → (length (run no_requests events).outstanding ≤ max_outstanding_requests)
        × (get (step (run no_requests events) (configured old users)).outstanding key
            ≡ (if decided_by users key then none else get (run no_requests events).outstanding key))
        × (length (resend (run no_requests events)).1 ≡ length (run no_requests events).outstanding)
  unfolding resend
  run_requests events old users key =
      let q = run-IsQueue no_requests events (tt, omega arith) in
      (
        q.1,
        drop_decided_iff (run no_requests events).outstanding users key q.0,
        length-map _ (run no_requests events).outstanding,
      )
