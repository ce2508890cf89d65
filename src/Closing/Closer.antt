-- ===== src/Closing/Closer.antt =====
-- crates/agent/src/app_enforce.rs, lines 153-274: `Closer`, which warns, asks and kills. What a
-- signal does to a process is not this program's, so `alive` may depend on every signal sent before.
use screenguard.Prelude.{
  eq_nat, eq_string, eq_pair, ℕ, ◌-◌, ◌*◌, String, List, [], ◌∷◌, ◌++◌, Option, none, some, Bool,
  false, ◌||◌, contains, map, if◌then◌else◌, ltb, leb,
}
use screenguard.Prelude.Dict.{Dict, get, insert, remove, retain}
use screenguard.Apps.Id.{AppId}
use screenguard.Usage.Accounting.{Duration, Instant, second}
use screenguard.Closing.Targets.{Reason, immediate, Target}

abbrev pub grace : Duration
grace = 10 * second

abbrev pub relaunch_window : Duration
relaunch_window = 60 * second

-- `GRACE.as_secs()`
abbrev pub grace_secs : ℕ
grace_secs = 10

-- A call of `Signals::term` or `Signals::kill`: the process id and its start time.
pub data Signal : Type 0 where
  term kill : ℕ → ℕ → Signal

-- `Signals::alive`, after the signals sent so far (the latest first).
abbrev pub Alive : Type 0
Alive = List Signal → ℕ → ℕ → Bool

pub record Notice : Type 0 where
  pub uid : ℕ
  pub app_id : AppId
  pub group_name : String
  pub app_name : String
  pub reason : Reason
  pub closes_in : ℕ

pub data Stage : Type 0 where
  warned termed : Instant → Stage

pub record Closer : Type 0 where
  pub stage : Dict (ℕ × ℕ) Stage
  pub told : Dict (ℕ × String) Instant

-- What a call of `enforce` writes: the maps, the notices (in order), the signals (latest first).
pub record Progress : Type 0 where
  pub closer : Closer
  pub open closer use *
  pub notices : List Notice
  pub sent : List Signal

unfoldable pub new : Closer
new = record { stage = []; told = [] }

-- `now.duration_since(at) < window`; the difference of two `Instant`s stops at 0.
abbrev pub within : Duration → Instant → Instant → Bool
within window now at = ltb (now - at) window

-- `at.is_some_and(|at| now.duration_since(*at) < RELAUNCH_WINDOW)`
abbrev pub recent : Instant → Option Instant → Bool
recent now none = false
recent now (some at) = within relaunch_window now at

abbrev pub key_of : Target → ℕ × ℕ
key_of t = (t.pid, t.start_ticks)

abbrev pub told_key : Target → ℕ × String
told_key t = (t.uid, t.key)

abbrev pub set_stage : Target → Stage → Progress → Progress
set_stage t st s = record s {
  closer = record s.closer { stage = insert s.closer.stage (key_of t) st };
}

abbrev pub send : Signal → Progress → Progress
send sig s = record s { sent = sig ∷ s.sent }

-- SIGTERM goes to the top process of an app only.
abbrev pub send_term : Target → Progress → Progress
send_term t s = if t.top then send (term t.pid t.start_ticks) s else s

unfoldable pub notice_of : Target → Bool → Notice
notice_of t at_once = record {
  uid = t.uid;
  app_id = t.app_id;
  group_name = t.group_name;
  app_name = t.app_name;
  reason = t.reason;
  closes_in = if at_once then 0 else grace_secs;
}

abbrev pub tell : Instant → Target → Bool → Progress → Progress
tell now t at_once s = record s {
  closer = record s.closer { told = insert s.closer.told (told_key t) now };
  notices = s.notices ++ notice_of t at_once ∷ [];
}

-- A target that is seen for the first time.
unfoldable pub first_seen : Instant → Target → Bool → Progress → Progress
first_seen now t recently s =
    let at_once = immediate t.reason || recently in
    let s' = if recently then s else tell now t at_once s in
    if at_once then set_stage t (termed now) (send_term t s') else set_stage t (warned now) s'

unfoldable pub on_stage : Instant → Target → Option Stage → Progress → Progress
on_stage now t none s = first_seen now t (recent now (get s.closer.told (told_key t))) s
on_stage now t (some (warned at)) s =
    if leb grace (now - at) then set_stage t (termed now) (send_term t s) else s
on_stage now t (some (termed at)) s =
    if leb grace (now - at) then send (kill t.pid t.start_ticks) s else s

-- The body of the loop over the targets.
unfoldable pub advance : Alive → Instant → Target → Progress → Progress
advance alive now t s =
    if alive s.sent t.pid t.start_ticks
    then on_stage now t (get s.closer.stage (key_of t)) s
    else record s { closer = record s.closer { stage = remove s.closer.stage (key_of t) } }

unfoldable pub advance_all : Alive → Instant → List Target → Progress → Progress
advance_all alive now [] s = s
advance_all alive now (t ∷ ts) s = advance_all alive now ts (advance alive now t s)

-- The two `retain`s at the start.
unfoldable pub forget : Instant → List Target → Closer → Closer
forget now ts c = record {
  stage = retain (λ k st. contains (map key_of ts) k) c.stage;
  told = retain (λ k at. within (relaunch_window * 10) now at) c.told;
}

unfoldable pub enforce : Alive → Instant → List Target → List Signal → Closer → Progress
enforce alive now ts sent c =
    advance_all alive now ts (record { closer = forget now ts c; notices = []; sent = sent })
