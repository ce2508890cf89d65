-- ===== src/Server/Groups/Seeded.antt =====
-- crates/server/src/app_groups.rs, `seed`: the predefined groups of a profile are made once.
use screenguard.Prelude.{
  eq_nat, eq_string, ℕ, ◌≡◌, refl, true, Option, List, [], ◌∷◌, String, ◌==◌, any-append, arith,
  filter, All, ==_refl, Bool-cases, inl, inr,
}
use screenguard.Apps.Groups.{RuleKind}
use screenguard.Server.Groups.Life.{
  GroupTables, Builtin, has_builtin, create_group_with, add_rules, filled, seed_one, seed_all, seed,
  only_key, builtin_groups,
}

module _ (ids : ℕ → String) where
  add_rules_groups :
      (rules : List (RuleKind × String)) (t : GroupTables) (group : String)
      → (add_rules ids t group rules).store.groups ≡ t.store.groups
  add_rules_groups [] t group = refl
  add_rules_groups (r ∷ rules) t group =
      add_rules_groups rules (add_rules ids t group (r ∷ [])) group

  filled_groups :
      (made : GroupTables × String) (profile : String) (b : Builtin)
      → (filled ids made profile b).store.groups ≡ made.0.store.groups
  filled_groups made profile b =
      let same = add_rules_groups b.rules made.0 made.1 in
      elim (Bool-cases (b.key == "blocked")) [ inl y ↦ rw y same | inr n ↦ rw n same ]

  -- A predefined group that is there stays, and one that was asked for is there.
  seed_one_keeps :
      (t : GroupTables) (profile key : String) (b : Builtin)
      → has_builtin profile t key ≡ true
      → has_builtin profile (seed_one ids t profile b) key ≡ true
  unfolding create_group_with
  seed_one_keeps t profile key b h = elim (Bool-cases (has_builtin profile t b.key)) [
    | inl y ↦ rw y h
    | inr n ↦ rw n (rw filled_groups (rw any-append (ground (arith, h))))
  ]

  seed_one_makes :
      (t : GroupTables) (profile : String) (b : Builtin)
      → has_builtin profile (seed_one ids t profile b) b.key ≡ true
  unfolding create_group_with
  seed_one_makes t profile b = elim (Bool-cases (has_builtin profile t b.key)) [
    | inl y ↦ rw y y
    | inr n ↦
        rw n (rw filled_groups (rw any-append (ground (arith, ==_refl b.key, ==_refl profile))))
  ]

  seed_all_keeps :
      (builtins : List Builtin) (t : GroupTables) (profile key : String)
      → has_builtin profile t key ≡ true
      → has_builtin profile (seed_all ids t profile builtins) key ≡ true
  seed_all_keeps [] t profile key h = h
  seed_all_keeps (b ∷ builtins) t profile key h =
      seed_all_keeps builtins (seed_one ids t profile b) profile key
        (seed_one_keeps t profile key b h)

  seed_all_makes :
      (builtins : List Builtin) (t : GroupTables) (profile : String)
      → All
          (λ (b : Builtin). has_builtin profile (seed_all ids t profile builtins) b.key ≡ true)
          builtins
  seed_all_makes [] t profile = tt
  seed_all_makes (b ∷ builtins) t profile = (
    seed_all_keeps builtins (seed_one ids t profile b) profile b.key (seed_one_makes t profile b),
    seed_all_makes builtins (seed_one ids t profile b) profile,
  )

  seed_all_idle :
      (builtins : List Builtin) (t : GroupTables) (profile : String)
      → All (λ (b : Builtin). has_builtin profile t b.key ≡ true) builtins
      → seed_all ids t profile builtins ≡ t
  seed_all_idle [] t profile h = refl
  seed_all_idle (b ∷ builtins) t profile h = rw h.0 (seed_all_idle builtins t profile h.1)

  -- After a profile is given its predefined groups, all of them or only the one that was asked for, it
  -- has each, and giving them again changes nothing.
  pub seed_twice :
      (t : GroupTables) (profile : String) (only : Option String)
      → All
          (λ (b : Builtin). has_builtin profile (seed ids t profile only) b.key ≡ true)
          (filter (only_key only) builtin_groups)
        × (seed ids (seed ids t profile only) profile only ≡ seed ids t profile only)
  unfolding seed
  seed_twice t profile only =
      let there = seed_all_makes (filter (only_key only) builtin_groups) t profile in
      (there, seed_all_idle (filter (only_key only) builtin_groups) _ profile there)
