-- ===== src/Closing/Unapproved.antt =====
-- No process of an app that is not approved is left running.
use screenguard.Prelude.{
  eq_nat, eq_string, eq_pair, ℕ, ◌≤◌, ◌≡◌, ap, ◌∙◌, List, [], ◌∷◌, Option, none, some, true, false,
  contains, map, arith, Any, here, there,
}
use screenguard.Prelude.Dict.{Dict, get}
use screenguard.Apps.Id.{AppId, display, eq_app_id}
use screenguard.Models.{AppApprovalConfig, AppGroupConfig}
use screenguard.Limits.Status.{GroupStatus}
use screenguard.Closing.Targets.{
  RunningProc, Target, Shown, own, own_exe, skipped, unapproved, approval_target, push, target_of,
  chosen_targets, mark_top, targets, immediate,
}
use screenguard.Closing.Chosen.{mark_top_lem}

-- The target closes the process at once.
abbrev pub ClosesAtOnce : RunningProc → Target → Type 0
ClosesAtOnce p t = (t.pid ≡ p.pid) × (t.start_ticks ≡ p.start_ticks) × (immediate t.reason ≡ true)

module _ (status : Dict ℕ (List GroupStatus)) (groups : Dict ℕ (List AppGroupConfig))
    (approval : Dict ℕ AppApprovalConfig) (names : Dict (ℕ × AppId) Shown) (managed : List ℕ) where
  push-Any :
      (p : RunningProc) (o : Option Target) {out : List Target}
      → Any (ClosesAtOnce p) out
      → Any (ClosesAtOnce p) (push o out)
  push-Any p none h = h
  push-Any p (some t) h = there h

  Any-mark_top :
      (p : RunningProc) (procs : List RunningProc) (out ts : List Target)
      → Any (ClosesAtOnce p) ts
      → Any (ClosesAtOnce p) (map (mark_top procs out) ts)
  Any-mark_top p procs out [] h = elim h [ ]
  Any-mark_top p procs out (t ∷ ts) (here c) =
      let (b, e) = mark_top_lem procs out t in here (rw e c)
  Any-mark_top p procs out (t ∷ ts) (there m) = there (Any-mark_top p procs out ts m)

  skipped-false :
      (p : RunningProc)
      → 1000 ≤ p.uid
      → contains managed p.uid ≡ true
      → own p.comm ≡ false
      → own_exe p.exe ≡ false
      → skipped status groups approval names managed p ≡ false
  unfolding skipped
  skipped-false p ordinary child comm exe = ground arith

  unapproved-target_of :
      (p : RunningProc) (a : AppApprovalConfig)
      → skipped status groups approval names managed p ≡ false
      → get approval p.uid ≡ some a
      → p.autostart ≡ false
      → contains a.approved (display p.app_id) ≡ false
      → target_of status groups approval names managed p
        ≡ some (approval_target status groups approval names managed p a)
  unfolding target_of unapproved
  unapproved-target_of p a go asked manual unlisted = ground (arith, asked)

  approval_target-ClosesAtOnce :
      (p : RunningProc) (a : AppApprovalConfig)
      → ClosesAtOnce p (approval_target status groups approval names managed p a)
  unfolding approval_target immediate
  approval_target-ClosesAtOnce p a = ground arith

  chosen-ClosesAtOnce :
      (procs : List RunningProc) (p : RunningProc) (t : Target)
      → Any (λ (q : RunningProc). q ≡ p) procs
      → target_of status groups approval names managed p ≡ some t
      → ClosesAtOnce p t
      → Any (ClosesAtOnce p) (chosen_targets status groups approval names managed procs)
  unfolding chosen_targets
  chosen-ClosesAtOnce [] p t m chosen c = elim m [ ]
  chosen-ClosesAtOnce (q ∷ procs) p t (here e) chosen c =
      rw (ap (target_of status groups approval names managed) e ∙ chosen, push) (here c)
  chosen-ClosesAtOnce (q ∷ procs) p t (there m) chosen c =
      push-Any p (target_of status groups approval names managed q)
        (chosen-ClosesAtOnce procs p t m chosen c)

  -- While a child's profile asks for approval, every process of an ordinary account that is managed,
  -- not of this program, not started with the session, and of an app that is not approved, has a
  -- target that closes it at once.
  pub unapproved_closed :
      (procs : List RunningProc) (p : RunningProc) (a : AppApprovalConfig)
      → Any (λ (q : RunningProc). q ≡ p) procs
      → 1000 ≤ p.uid
      → contains managed p.uid ≡ true
      → own p.comm ≡ false
      → own_exe p.exe ≡ false
      → get approval p.uid ≡ some a
      → p.autostart ≡ false
      → contains a.approved (display p.app_id) ≡ false
      → Any (ClosesAtOnce p) (targets procs status groups approval names managed)
  unfolding targets
  unapproved_closed procs p a among ordinary child comm exe asked manual unlisted =
      let out = chosen_targets status groups approval names managed procs in
      Any-mark_top p procs out out (
        chosen-ClosesAtOnce procs p (approval_target status groups approval names managed p a) among
          (unapproved-target_of p a (skipped-false p ordinary child comm exe) asked manual unlisted)
          (approval_target-ClosesAtOnce p a))
