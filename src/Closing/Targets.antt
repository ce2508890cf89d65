-- ===== src/Closing/Targets.antt =====
-- crates/agent/src/app_enforce.rs, lines 26-151: the processes to close. `Shown` is that of
-- crates/agent/src/app_ident.rs.
use screenguard.Prelude.{
  eq_nat, eq_string, eq_pair, ℕ, ◌==◌, String, List, [], ◌∷◌, Option, none, some, Bool, true, false,
  not, ◌&&◌, ◌||◌, contains, find, map, if◌then◌else◌, ltb, ◌>>=◌,
}
use screenguard.Prelude.Dict.{Dict, get, insert}
use screenguard.Apps.Chars.{contains_str}
use screenguard.Apps.Id.{AppId, display, eq_app_id}
use screenguard.Apps.Groups.{assign_group}
use screenguard.Models.{AppApprovalConfig, AppGroupConfig}
use screenguard.Limits.Status.{GroupStatus, blocked, exhausted}

-- A running process that belongs to an app.
pub record RunningProc : Type 0 where
  pub pid : ℕ
  pub ppid : ℕ
  pub autostart : Bool
  pub start_ticks : ℕ
  pub uid : ℕ
  pub app_id : AppId
  pub comm : String
  pub exe : Option String

-- Why an app gets closed.
pub data Reason : Type 0 where
  limit block needs_approval denied : Reason

unfoldable pub immediate : Reason → Bool
immediate limit = false
immediate _ = true

pub record Target : Type 0 where
  pub pid : ℕ
  pub start_ticks : ℕ
  pub top : Bool
  pub uid : ℕ
  pub app_id : AppId
  pub key : String
  pub group_name : String
  pub app_name : String
  pub reason : Reason

pub record Shown : Type 0 where
  pub name : String
  pub icon : Option String
  pub categories : List String

-- The name of this program: its own processes are never closed.
abbrev pub own : String → Bool
own s = contains_str s "screenguard"

abbrev pub own_exe : Option String → Bool
own_exe none = false
own_exe (some s) = own s

abbrev pub same_group : Option String → String → Bool
same_group none id = false
same_group (some g) id = id == g

abbrev pub push : Option Target → List Target → List Target
push none out = out
push (some t) out = t ∷ out

module _ (status : Dict ℕ (List GroupStatus)) (groups : Dict ℕ (List AppGroupConfig))
    (approval : Dict ℕ AppApprovalConfig) (names : Dict (ℕ × AppId) Shown) (managed : List ℕ) where
  unfoldable pub shown_of : RunningProc → Option Shown
  shown_of p = get names (p.uid, p.app_id)

  unfoldable pub app_name_of : RunningProc → String
  app_name_of p = elim (shown_of p) [ none ↦ p.app_id.name | some s ↦ s.name ]

  unfoldable pub categories_of : RunningProc → List String
  categories_of p = elim (shown_of p) [ none ↦ [] | some s ↦ s.categories ]

  -- The guards at the top of the loop.
  unfoldable pub skipped : RunningProc → Bool
  skipped p = ltb p.uid 1000 || not (contains managed p.uid) || (own p.comm || own_exe p.exe)

  -- The approval list that rules the process out.
  unfoldable pub unapproved : RunningProc → Option AppApprovalConfig
  unapproved p = get approval p.uid >>= λ (a : AppApprovalConfig).
      if not p.autostart && not (contains a.approved (display p.app_id)) then some a else none

  unfoldable pub approval_target : RunningProc → AppApprovalConfig → Target
  approval_target p a = record {
    pid = p.pid;
    start_ticks = p.start_ticks;
    top = true;
    uid = p.uid;
    app_id = p.app_id;
    key = display p.app_id;
    group_name = "";
    app_name = app_name_of p;
    reason = if contains a.denied (display p.app_id) then denied else needs_approval;
  }

  unfoldable pub limit_target : RunningProc → GroupStatus → Target
  limit_target p s = record {
    pid = p.pid;
    start_ticks = p.start_ticks;
    top = true;
    uid = p.uid;
    app_id = p.app_id;
    key = s.group_id;
    group_name = s.name;
    app_name = app_name_of p;
    reason = if blocked s then block else limit;
  }

  -- The one group of the process's app.
  unfoldable pub group_of : RunningProc → List AppGroupConfig → Option String
  group_of p gs =
      assign_group (map (λ (g : AppGroupConfig). (g.id, g.rules)) gs) (display p.app_id)
        (categories_of p)

  -- The first exhausted group of the status list that is the app's group.
  unfoldable pub hit : RunningProc → List GroupStatus → List AppGroupConfig → Option GroupStatus
  hit p st gs = find (λ (s : GroupStatus). exhausted s && same_group (group_of p gs) s.group_id) st

  unfoldable pub limited : RunningProc → Option GroupStatus
  limited p = get status p.uid >>= λ (st : List GroupStatus).
      get groups p.uid >>= λ (gs : List AppGroupConfig). hit p st gs

  -- The body of the loop over the processes: the target pushed, if any.
  unfoldable pub target_of : RunningProc → Option Target
  target_of p =
      let by_limit : Option Target = elim (limited p) [
        | none ↦ none
        | some s ↦ some (limit_target p s)
      ] in
      let chosen : Option Target = elim (unapproved p) [
        | none ↦ by_limit
        | some a ↦ some (approval_target p a)
      ] in
      if skipped p then none else chosen

  unfoldable pub chosen_targets : List RunningProc → List Target
  chosen_targets [] = []
  chosen_targets (p ∷ procs) = push (target_of p) (chosen_targets procs)

-- `collect` into a map: a later entry of a key replaces an earlier one.
module _ {ℓ} {V : Type ℓ} (value : RunningProc → V) where
  unfoldable pub by_pid_from : Dict ℕ V → List RunningProc → Dict ℕ V
  by_pid_from m [] = m
  by_pid_from m (p ∷ procs) = by_pid_from (insert m p.pid (value p)) procs

abbrev pub same_app : Option AppId → AppId → Bool
same_app none a = false
same_app (some b) a = b == a

module _ (procs : List RunningProc) (out : List Target) where
  unfoldable pub of_app : Dict ℕ AppId
  of_app = by_pid_from (λ p. p.app_id) [] procs

  unfoldable pub parents : Dict ℕ ℕ
  parents = by_pid_from (λ p. p.ppid) [] procs

  unfoldable pub targeted : List ℕ
  targeted = map (λ (t : Target). t.pid) out

  -- A target whose parent is a target of the same app is a helper, not the top.
  unfoldable pub mark_top : Target → Target
  mark_top t = elim (get parents t.pid) [
    | none ↦ t
    | some pp ↦ record t { top = not (contains targeted pp && same_app (get of_app pp) t.app_id) }
  ]

unfoldable pub targets :
    List RunningProc
    → Dict ℕ (List GroupStatus)
    → Dict ℕ (List AppGroupConfig)
    → Dict ℕ AppApprovalConfig
    → Dict (ℕ × AppId) Shown
    → List ℕ
    → List Target
targets procs status groups approval names managed =
    let out = chosen_targets status groups approval names managed procs in
    map (mark_top procs out) out
