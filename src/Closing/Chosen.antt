-- ===== src/Closing/Chosen.antt =====
-- Only processes of managed children are closed, each for a reason; and none that must go is left.
use screenguard.Prelude.{
  eq_nat, eq_string, eq_pair, eq_iff, ℕ, ◌≤◌, ◌≡◌, refl, sym, ap, subst, Any-map, ◌⊎◌, inl, inr,
  String, List, [], ◌∷◌, Option, none, some, Bool, true, false, not, ◌&&◌, contains, find, map,
  if◌then◌else◌, arith, All, Any, here, there, Option-cases, Bool-cases,
}
use screenguard.Prelude.Dict.{Dict, get}
use screenguard.Apps.Id.{AppId, display, eq_app_id}
use screenguard.Models.{AppApprovalConfig, AppGroupConfig}
use screenguard.Prelude.Int.{pos, ◌≤ℤ◌}
use screenguard.Limits.Status.{GroupStatus, blocked, exhausted}
use screenguard.Closing.Targets.{
  RunningProc, limit, block, needs_approval, denied, Target, Shown, own, own_exe, skipped,
  unapproved, approval_target, limit_target, limited, group_of, hit, push, target_of,
  chosen_targets, mark_top, targets, parents, targeted, of_app, same_app, same_group,
}

-- A property of the element that `find` gives.
pub find_passes {ℓ} :
    {A : Type ℓ} (p : A → Bool) (xs : List A) (x : A) → find p xs ≡ some x → p x ≡ true
find_passes p [] x h = cc
find_passes p (y ∷ xs) x h = ground (arith, ap p, find_passes p xs x)

find-Any {ℓ} :
    {A : Type ℓ} (p : A → Bool) (xs : List A) (x : A)
    → find p xs ≡ some x
    → Any (λ (y : A). y ≡ x) xs
find-Any p [] x h = cc
find-Any p (y ∷ xs) x h = elim (Bool-cases (p y)) [
  | inl e ↦ here (let same : some y ≡ some x = rw e at h in cc (same))
  | inr e ↦ there (find-Any p xs x (rw e at h))
]

-- Marking the top process changes nothing else of a target.
pub mark_top_lem :
    (procs : List RunningProc) (out : List Target) (t : Target)
    → (b : Bool) × (mark_top procs out t ≡ record t { top = b })
unfolding mark_top
mark_top_lem procs out t = elim (Option-cases (get (parents procs out) t.pid)) [
  | inl n ↦ (t.top, rw (n, mark_top))
  | inr (pp, e) ↦ (
    not (contains (targeted procs out) pp && same_app (get (of_app procs out) pp) t.app_id),
    rw (e, mark_top),
  )
]

same_group_lem : (o : Option String) (id : String) → same_group o id ≡ true → o ≡ some id
same_group_lem none id h = cc
same_group_lem (some g) id h = ground (arith, eq_iff id g)

module _ (status : Dict ℕ (List GroupStatus)) (groups : Dict ℕ (List AppGroupConfig))
    (approval : Dict ℕ AppApprovalConfig) (names : Dict (ℕ × AppId) Shown) (managed : List ℕ) where
  -- The profile asks for approval, and the app was neither approved nor started with the session.
  pub record IsUnapproved (p : RunningProc) (t : Target) : Type 0 where
    pub config : AppApprovalConfig
    pub asked : get approval p.uid ≡ some config
    pub manual : p.autostart ≡ false
    pub unlisted : contains config.approved (display p.app_id) ≡ false
    pub key : t.key ≡ display p.app_id
    pub why :
        t.reason ≡ (if contains config.denied (display p.app_id) then denied else needs_approval)

  -- The app's one group has a limit that day, a status in the user's list, and no seconds left in it.
  pub record IsOverLimit (p : RunningProc) (t : Target) : Type 0 where
    pub limits : List GroupStatus
    pub configs : List AppGroupConfig
    pub group : GroupStatus
    pub known : get status p.uid ≡ some limits
    pub configured : get groups p.uid ≡ some configs
    pub listed : Any (λ (s : GroupStatus). s ≡ group) limits
    pub over : group.remaining_seconds ≤ℤ pos 0
    pub member : group_of status groups approval names managed p configs ≡ some group.group_id
    pub key : t.key ≡ group.group_id
    pub why : t.reason ≡ (if blocked group then block else limit)

  -- The target is that process: a managed child's, not of a system account nor of this program.
  pub record IsTargetOf (t : Target) (p : RunningProc) : Type 0 where
    pub pid : t.pid ≡ p.pid
    pub start : t.start_ticks ≡ p.start_ticks
    pub uid : t.uid ≡ p.uid
    pub app : t.app_id ≡ p.app_id
    pub ordinary : 1000 ≤ p.uid
    pub child : contains managed p.uid ≡ true
    pub foreign : (own p.comm ≡ false) × (own_exe p.exe ≡ false)
    pub reason : IsUnapproved p t ⊎ IsOverLimit p t

  unapproved_lem :
      (p : RunningProc) (a : AppApprovalConfig)
      → unapproved status groups approval names managed p ≡ some a
      → (get approval p.uid ≡ some a)
        × (p.autostart ≡ false)
        × (contains a.approved (display p.app_id) ≡ false)
  unfolding unapproved
  unapproved_lem p a h = ground arith

  limited_lem :
      (p : RunningProc) (s : GroupStatus)
      → limited status groups approval names managed p ≡ some s
      → (st : List GroupStatus) × (gs : List AppGroupConfig) × (get status p.uid ≡ some st)
        × (get groups p.uid ≡ some gs)
        × (hit status groups approval names managed p st gs ≡ some s)
  unfolding limited
  limited_lem p s h = ground arith

  hit_lem :
      (p : RunningProc) (st : List GroupStatus) (gs : List AppGroupConfig) (s : GroupStatus)
      → hit status groups approval names managed p st gs ≡ some s
      → (s.remaining_seconds ≤ℤ pos 0)
        × (group_of status groups approval names managed p gs ≡ some s.group_id)
        × Any (λ (x : GroupStatus). x ≡ s) st
  unfolding hit exhausted
  hit_lem p st gs s h =
      let own = group_of status groups approval names managed p gs in
      let test = λ (x : GroupStatus). exhausted x && same_group own x.group_id in
      let passes : (exhausted s && same_group own s.group_id) ≡ true = find_passes test st s h in
      let over : exhausted s ≡ true = ground (arith, passes) in
      (
        ground (arith, over),
        ground (arith, passes, same_group_lem own s.group_id),
        find-Any test st s h,
      )

  skipped_lem :
      (p : RunningProc)
      → skipped status groups approval names managed p ≡ false
      → (1000 ≤ p.uid)
        × (contains managed p.uid ≡ true)
        × (own p.comm ≡ false)
        × (own_exe p.exe ≡ false)
  unfolding skipped
  skipped_lem p h = ground arith

  approval_target-IsTargetOf :
      (p : RunningProc) (a : AppApprovalConfig)
      → skipped status groups approval names managed p ≡ false
      → unapproved status groups approval names managed p ≡ some a
      → IsTargetOf (approval_target status groups approval names managed p a) p
  unfolding approval_target
  approval_target-IsTargetOf p a go h =
      let (ordinary, child, comm, exe) = skipped_lem p go in
      let (asked, manual, unlisted) = unapproved_lem p a h in
      record {
        pid = refl;
        start = refl;
        uid = refl;
        app = refl;
        ordinary = ordinary;
        child = child;
        foreign = (comm, exe);
        reason = inl (record {
          config = a;
          asked = asked;
          manual = manual;
          unlisted = unlisted;
          key = refl;
          why = refl;
        });
      }

  limit_target-IsTargetOf :
      (p : RunningProc) (s : GroupStatus)
      → skipped status groups approval names managed p ≡ false
      → limited status groups approval names managed p ≡ some s
      → IsTargetOf (limit_target status groups approval names managed p s) p
  unfolding limit_target
  limit_target-IsTargetOf p s go h =
      let (ordinary, child, comm, exe) = skipped_lem p go in
      let (st, gs, known, configured, found) = limited_lem p s h in
      let (over, member, listed) = hit_lem p st gs s found in
      record {
        pid = refl;
        start = refl;
        uid = refl;
        app = refl;
        ordinary = ordinary;
        child = child;
        foreign = (comm, exe);
        reason = inr (record {
          limits = st;
          configs = gs;
          group = s;
          listed = listed;
          known = known;
          configured = configured;
          over = over;
          member = member;
          key = refl;
          why = refl;
        });
      }

  target_of-IsTargetOf :
      (p : RunningProc) (t : Target)
      → target_of status groups approval names managed p ≡ some t
      → IsTargetOf t p
  unfolding target_of
  target_of-IsTargetOf p t h =
      let go : skipped status groups approval names managed p ≡ false = ground arith in
      elim (Option-cases (unapproved status groups approval names managed p)) [
        | inr (a, e) ↦
            subst (λ (x : Target). IsTargetOf x p) (ground (arith, e))
              (approval_target-IsTargetOf p a go e)
        | inl n ↦ elim (Option-cases (limited status groups approval names managed p)) [
          | inr (s, e) ↦
              subst (λ (x : Target). IsTargetOf x p) (ground (arith, e, n))
                (limit_target-IsTargetOf p s go e)
          | inl m ↦ ground (arith, n, m)
        ]
      ]

  All-weaken :
      (p : RunningProc) (procs : List RunningProc) (out : List Target)
      → All (λ (t : Target). Any (IsTargetOf t) procs) out
      → All (λ (t : Target). Any (IsTargetOf t) (p ∷ procs)) out
  All-weaken p procs [] h = tt
  All-weaken p procs (t ∷ out) h = (there h.0, All-weaken p procs out h.1)

  push-All :
      (p : RunningProc) (procs : List RunningProc) (o : Option Target)
      → ((t : Target) → o ≡ some t → IsTargetOf t p)
      → (out : List Target) → All (λ (t : Target). Any (IsTargetOf t) procs) out
      → All (λ (t : Target). Any (IsTargetOf t) (p ∷ procs)) (push o out)
  push-All p procs none f out h = All-weaken p procs out h
  push-All p procs (some t) f out h = (here (f t refl), All-weaken p procs out h)

  All-map :
      (procs : List RunningProc) (f : Target → Target)
      → ((t : Target) (p : RunningProc) → IsTargetOf t p → IsTargetOf (f t) p)
      → (out : List Target) → All (λ (t : Target). Any (IsTargetOf t) procs) out
      → All (λ (t : Target). Any (IsTargetOf t) procs) (map f out)
  All-map procs f keep [] h = tt
  All-map procs f keep (t ∷ out) h =
      (Any-map (IsTargetOf t) (IsTargetOf (f t)) (keep t) h.0, All-map procs f keep out h.1)

  chosen_targets-IsTargetOf :
      (procs : List RunningProc)
      → All
          (λ (t : Target). Any (IsTargetOf t) procs)
          (chosen_targets status groups approval names managed procs)
  unfolding chosen_targets
  chosen_targets-IsTargetOf [] = tt
  chosen_targets-IsTargetOf (p ∷ procs) =
      push-All p procs (target_of status groups approval names managed p) (target_of-IsTargetOf p)
        (chosen_targets status groups approval names managed procs)
        (chosen_targets-IsTargetOf procs)

  retop-reason :
      (t : Target) (p : RunningProc) (b : Bool)
      → IsUnapproved p t ⊎ IsOverLimit p t
      → IsUnapproved p (record t { top = b }) ⊎ IsOverLimit p (record t { top = b })
  retop-reason t p b (inl u) = inl (record {
    config = u.config;
    asked = u.asked;
    manual = u.manual;
    unlisted = u.unlisted;
    key = u.key;
    why = u.why;
  })
  retop-reason t p b (inr o) = inr (record {
    limits = o.limits;
    configs = o.configs;
    group = o.group;
    listed = o.listed;
    known = o.known;
    configured = o.configured;
    over = o.over;
    member = o.member;
    key = o.key;
    why = o.why;
  })

  mark_top-IsTargetOf :
      (procs : List RunningProc) (out : List Target) (t : Target) (p : RunningProc)
      → IsTargetOf t p
      → IsTargetOf (mark_top procs out t) p
  mark_top-IsTargetOf procs out t p c =
      let (b, e) = mark_top_lem procs out t in
      subst (λ (x : Target). IsTargetOf x p) (sym e)
        (record {
          pid = c.pid;
          start = c.start;
          uid = c.uid;
          app = c.app;
          ordinary = c.ordinary;
          child = c.child;
          foreign = c.foreign;
          reason = retop-reason t p b c.reason;
        })

  -- Every target is one of the processes, run by a managed child and not by a system account nor of
  -- this program; and it is closed either because the profile asks for approval and the app, not
  -- started with the session, is not approved (denied or not decided yet), or because its app's one
  -- group is in the user's list of that day's limits with no seconds left (blocked or used up).
  pub targets-IsTargetOf :
      (procs : List RunningProc)
      → All
          (λ (t : Target). Any (IsTargetOf t) procs)
          (targets procs status groups approval names managed)
  unfolding targets
  targets-IsTargetOf procs =
      let out = chosen_targets status groups approval names managed procs in
      All-map procs (mark_top procs out) (mark_top-IsTargetOf procs out) out
        (chosen_targets-IsTargetOf procs)
