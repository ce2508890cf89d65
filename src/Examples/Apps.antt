-- ===== src/Examples/Apps.antt =====
-- App ids and groups at concrete inputs, some of them from the tests of crates/common/src/apps.rs.
use screenguard.Prelude.{◌≡◌, refl, ◌↔◌, List, [], ◌∷◌, none, some, false}
use screenguard.Apps.Id.{
  steam, desktop, wine, AppId, prefix, from_prefix, valid_name, display, parse, new, IsValid,
  parse_iff,
}
use screenguard.Apps.Groups.{
  GroupRule, app_id, category, hits, group_matches, explicit, Group, assign_group,
}
use screenguard.Apps.Groups
use screenguard.Apps.Assign.{Assigned, assign_group_iff}

abbrev dota : AppId
dota = record { kind = steam; name = "570" }

parses : parse "steam:570" ≡ some dota
unfolding parse from_prefix valid_name
parses = refl

parses_kinds :
    (parse "desktop:wine-Programs-Game Name"
      ≡ some (record { kind = desktop; name = "wine-Programs-Game Name" }))
    × (parse "wine:game launcher.exe" ≡ some (record { kind = wine; name = "game launcher.exe" }))
unfolding parse from_prefix valid_name
parses_kinds = (refl, refl)

rejects :
    (parse "desktop:" ≡ none)
    × (parse ":foo" ≡ none)
    × (parse "steam:57a" ≡ none)
    × (parse "desktop:../etc/passwd" ≡ none)
    × (parse "Desktop:foo" ≡ none)
unfolding parse from_prefix valid_name
rejects = (refl, refl, refl, refl, refl)

prints : display dota ≡ "steam:570"
unfolding display prefix
prints = refl

new_rejects : new steam "abc" ≡ none
unfolding new parse from_prefix valid_name display prefix
new_rejects = refl

parse_iff_example : (parse "steam:570" ≡ some dota) ↔ ((display dota ≡ "steam:570") × IsValid dota)
parse_iff_example = parse_iff "steam:570" dota

abbrev games : Group
games = (
  "games",
  record { kind = category; value = "Game"; exclude = false }
      ∷ record { kind = Groups.prefix; value = "steam:"; exclude = false }
      ∷ [],
)

abbrev school : Group
school = ("school", record { kind = app_id; value = "steam:570"; exclude = false } ∷ [])

abbrev two_groups : List Group
two_groups = games ∷ school ∷ []

explicit_wins : assign_group two_groups "steam:570" [] ≡ some "school"
unfolding assign_group explicit group_matches hits
explicit_wins = refl

first_match : assign_group two_groups "steam:730" [] ≡ some "games"
unfolding assign_group explicit group_matches hits
first_match = refl

assign_group_iff_example :
    (assign_group two_groups "steam:570" [] ≡ some "school")
    ↔ Assigned "steam:570" [] two_groups "school"
assign_group_iff_example = assign_group_iff "steam:570" [] two_groups "school"
