-- ===== src/Examples/Groups.antt =====
-- The app groups of a child, a new app, and the push of the child's configuration.
use screenguard.Prelude.Sort.{sort_by}
use screenguard.Prelude.{
  eq_nat, eq_string, eq_pair, ◌≡◌, refl, true, false, none, some, [], ◌∷◌, is_some, All, filter,
}
use screenguard.Apps.Id.{parse, parse_parts, from_prefix, valid_name}
use screenguard.Apps.Groups.{assign_group, explicit, group_matches, hits}
use screenguard.Server.Groups.{
  Store, Listing, group_of, list_groups, listed, before, add_rule, with_rule, valid_value,
  delete_rule,
}
use screenguard.Server.Groups.Board.{done, is_this, set_membership, move, move_app, leave_others}
use screenguard.Server.Groups.Rules.{IsTable}
use screenguard.Server.Groups.Shown.{barred}
use screenguard.Server.Groups.Kept.{set_membership-IsTable}
use screenguard.Text.Decimal.{to_string}
use screenguard.Server.Groups.Life.{
  GroupTables, Builtin, has_builtin, seed, only_key, builtin_groups,
}
use screenguard.Server.Groups.Seeded.{seed_twice}
use screenguard.Server.Groups.Moves.{set_membership-in_this}

instance abbrev pub listing : Listing
listing = record {
  to_lowercase = λ s. s;
  order_by = λ rules. rules;
  any-order_by = λ p rules. refl;
}

abbrev pub store : Store
store = record {
  groups =
      record { id = "b"; profile_id = some "p"; name = "Blocked"; builtin = some "blocked" }
      ∷ record { id = "g"; profile_id = some "p"; name = "Games"; builtin = some "games" }
      ∷ record { id = "x"; profile_id = some "q"; name = "Games"; builtin = some "games" }
      ∷ [];
  rules =
      record { id = "1"; group_id = "g"; kind = "category"; value = "Game"; exclude = false }
      ∷ record {
        id = "2";
        group_id = "g";
        kind = "app_id";
        value = "desktop:chess";
        exclude = false;
      }
      ∷ record {
        id = "3";
        group_id = "b";
        kind = "app_id";
        value = "desktop:chess";
        exclude = true;
      }
      ∷ record {
        id = "4";
        group_id = "x";
        kind = "app_id";
        value = "desktop:chess";
        exclude = false;
      }
      ∷ [];
}

-- A game that the games name goes into the Blocked group, out of which it was taken.
moved_rules :
    (set_membership store "5" "p" "b" "desktop:chess" ("Game" ∷ []) true).0.rules
    ≡ record { id = "1"; group_id = "g"; kind = "category"; value = "Game"; exclude = false }
      ∷ record {
        id = "4";
        group_id = "x";
        kind = "app_id";
        value = "desktop:chess";
        exclude = false;
      }
      ∷ record {
        id = "5";
        group_id = "b";
        kind = "app_id";
        value = "desktop:chess";
        exclude = false;
      }
      ∷ []
unfolding set_membership move move_app leave_others list_groups listed sort_by before group_of
    assign_group explicit group_matches hits add_rule with_rule valid_value delete_rule parse
    parse_parts from_prefix valid_name
moved_rules = refl

pub store-IsTable : IsTable store.rules
store-IsTable = (refl, refl, (refl, refl, (refl, refl, (refl, refl, tt))))

pub chess_valid : is_some (parse "desktop:chess") ≡ true
unfolding parse parse_parts from_prefix valid_name
chess_valid = refl

not_barred : barred store.rules "b" "desktop:chess" ("Game" ∷ []) ≡ false
unfolding hits
not_barred = refl

set_membership-in_this_example :
    let after = set_membership store "5" "p" "b" "desktop:chess" ("Game" ∷ []) true in
    (after.1 ≡ done)
    × (is_this "b" (group_of (list_groups after.0 "p") "desktop:chess" ("Game" ∷ [])) ≡ true)
set_membership-in_this_example =
    set_membership-in_this store "5" "p" "b" "desktop:chess" ("Game" ∷ []) true store-IsTable refl
      chess_valid refl not_barred

set_membership-IsTable_example :
    IsTable (set_membership store "5" "p" "b" "desktop:chess" ("Game" ∷ []) true).0.rules
set_membership-IsTable_example =
    set_membership-IsTable store "5" "p" "b" "desktop:chess" ("Game" ∷ []) true store-IsTable refl

abbrev groups : GroupTables
groups = record { store = store; limits = []; adjustments = []; usage = []; used_ids = 0 }

seed_twice_example :
    All
      (λ (b : Builtin). has_builtin "p" (seed to_string groups "p" none) b.key ≡ true)
      (filter (only_key none) builtin_groups)
    × (seed to_string (seed to_string groups "p" none) "p" none ≡ seed to_string groups "p" none)
seed_twice_example = seed_twice to_string groups "p" none
