-- ===== src/Server/Groups/Rules.antt =====
-- crates/server/src/app_groups.rs: which rules a listing shows, and what adding and deleting rules
-- does to the tests on them.
use screenguard.Prelude.{
  eq_string, ==_eq, ◌≡◌, refl, sym, ap, ◌∙◌, Bool, true, false, not, ◌&&◌, List, [], ◌∷◌, String,
  ◌==◌, any, arith, Bool-cases, inl, inr, filter_fewer, any-append, any_ext,
}
use screenguard.Server.Groups.{RuleRecord, delete_rule, with_rule, same_rule}

-- No two rows share their rule or their id (the `UNIQUE` constraint and the primary key).
abbrev pub same_key : RuleRecord → RuleRecord → Bool
same_key r x = same_rule r.group_id r.kind r.value r.exclude x

abbrev pub IsTable : List RuleRecord → Type 0
IsTable [] = Unit
IsTable (r ∷ rules) =
    (any (same_key r) rules ≡ false)
    × (any (λ (x : RuleRecord). x.id == r.id) rules ≡ false)
    × IsTable rules

same_rule-same_key :
    (group kind value : String) (exclude : Bool) (r x : RuleRecord)
    → same_rule group kind value exclude r ≡ true
    → same_key r x ≡ same_rule group kind value exclude x
same_rule-same_key group kind value exclude r x h = cc (
  flag,
  ap (λ k. x.kind == k) same_kind,
  ap (λ k. x.group_id == k) same_group,
  ap (λ k. x.value == k) same_value,
)
  where
    flag : r.exclude ≡ exclude
    flag = ground arith

    same_group : r.group_id ≡ group
    same_group = ground (arith, eq_string.same_iff r.group_id group)

    same_kind : r.kind ≡ kind
    same_kind = ground (arith, eq_string.same_iff r.kind kind)

    same_value : r.value ≡ value
    same_value = ground (arith, eq_string.same_iff r.value value)

any_both :
    (p q : RuleRecord → Bool) (rules : List RuleRecord)
    → any p rules ≡ false
    → any (λ r. p r && q r) rules ≡ false
any_both p q [] h = refl
any_both p q (r ∷ rules) h = ground (arith, any_both p q rules)

-- Once a rule's row is deleted, the rule is gone.
pub entry-delete_rule :
    (rules : List RuleRecord) (group kind value id : String) (exclude : Bool)
    → IsTable rules
    → any (λ r. same_rule group kind value exclude r && r.id == id) rules ≡ true
    → any (same_rule group kind value exclude) (delete_rule rules group id) ≡ false
unfolding delete_rule
entry-delete_rule [] group kind value id exclude t h = refl
entry-delete_rule (r ∷ rules) group kind value id exclude t h =
    elim (Bool-cases (same_rule group kind value exclude r)) [
      | inl same ↦
          let gone : any (same_rule group kind value exclude) rules ≡ false =
            any_ext _ _ rules (λ x. sym (same_rule-same_key group kind value exclude r x same))
            ∙ t.0 in
          ground (
            arith,
            same,
            gone,
            filter_fewer (same_rule group kind value exclude)
                (λ (x : RuleRecord). not (x.id == id && x.group_id == group)) rules gone,
            any_both (same_rule group kind value exclude) (λ x. x.id == id) rules gone,
          )
      | inr other ↦ ground (arith, other, entry-delete_rule rules group kind value id exclude t.2)
    ]

-- Every row of `xs` is one of `ys`.
abbrev pub Within : List RuleRecord → List RuleRecord → Type 0
Within xs ys = (p : RuleRecord → Bool) → any p xs ≡ true → any p ys ≡ true

pub Within-any :
    (p : RuleRecord → Bool) (xs ys : List RuleRecord)
    → Within xs ys
    → any p ys ≡ false
    → any p xs ≡ false
Within-any p xs ys within h = ground (arith, within p)

pub delete_rule-IsTable :
    (rules : List RuleRecord) (group id : String)
    → IsTable rules
    → IsTable (delete_rule rules group id)
unfolding delete_rule
delete_rule-IsTable [] group id t = tt
delete_rule-IsTable (r ∷ rules) group id t =
    let kept = delete_rule-IsTable rules group id t.2 in
    let test : RuleRecord → Bool = λ x. not (x.id == id && x.group_id == group) in
    ground (
      arith,
      kept,
      filter_fewer (same_key r) test rules t.0,
      filter_fewer (λ (x : RuleRecord). x.id == r.id) test rules t.1,
    )

pub delete_rule-Within :
    (rules : List RuleRecord) (group id : String) → Within (delete_rule rules group id) rules
unfolding delete_rule
delete_rule-Within rules group id p h =
    ground
      (arith, filter_fewer p (λ (r : RuleRecord). not (r.id == id && r.group_id == group)) rules)

-- The rule that is added is there, its opposite is not there if it was not, and a test that the new
-- row fails has no new row.
pub with_rule_lem :
    (rules : List RuleRecord) (fresh group kind value : String) (exclude : Bool)
    → any (same_rule group kind value exclude) (with_rule rules fresh group kind value exclude)
      ≡ true
unfolding with_rule
with_rule_lem rules fresh group kind value exclude =
    elim (Bool-cases (any (same_rule group kind value exclude) rules)) [
      | inl there ↦ rw there there
      | inr new ↦ rw new (
          rw any-append
            (ground (arith, ==_eq group group refl, ==_eq kind kind refl, ==_eq value value refl)))
    ]

pub with_rule_fewer :
    (p : RuleRecord → Bool) (rules : List RuleRecord) (fresh group kind value : String)
    (exclude : Bool)
    → any p rules ≡ false
    → p (record { id = fresh; group_id = group; kind = kind; value = value; exclude = exclude })
      ≡ false
    → any p (with_rule rules fresh group kind value exclude) ≡ false
unfolding with_rule
with_rule_fewer p rules fresh group kind value exclude h n =
    elim (Bool-cases (any (same_rule group kind value exclude) rules)) [
      | inl there ↦ rw there h
      | inr new ↦ rw new (
          rw any-append (
            ground (
              arith,
              n,
              filter_fewer p (λ r. not (same_rule group kind value (not exclude) r)) rules h,
            )))
    ]
