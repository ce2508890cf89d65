-- ===== src/Examples/Approvals.antt =====
-- A new app that a child starts, and what the parents decide of it.
use screenguard.Prelude.{eq_string, eq_pair, ◌≡◌, refl, true, false, some, [], ◌∷◌, if◌then◌else◌}
use screenguard.Prelude.Dict.{get, contains_key}
use screenguard.Apps.Groups.{hits}
use screenguard.Server.Groups.{group_of, list_groups}
use screenguard.Server.Groups.Board.{is_this}
use screenguard.Server.Groups.Shown.{barred}
use screenguard.Server.Approvals.{Approvals, app_categories, blocked_group, request, decide, config}
use screenguard.Server.Approvals.Blocked.{request-is_this, decide-is_this, Tells, config-Tells}
use screenguard.Examples.Ingest.{tables}
use screenguard.Examples.Groups.{listing, store, store-IsTable, chess_valid}

-- The child of profile `p` has asked for a browser before.
abbrev pub approvals : Approvals
approvals = record {
  tables = tables;
  store = store;
  modes = ("p", true) ∷ [];
  approvals = (("p", "desktop:firefox"), "pending") ∷ (("q", "desktop:chess"), "denied") ∷ [];
}

has_blocked : blocked_group approvals.store "p" ≡ some "b"
unfolding blocked_group
has_blocked = refl

not_barred :
    barred approvals.store.rules "b" "desktop:chess" (app_categories approvals "desktop:chess")
    ≡ false
unfolding hits app_categories get
not_barred = refl

request-is_this_example :
    let after = request "5" approvals "p" "desktop:chess" in
    if contains_key approvals.approvals ("p", "desktop:chess")
    then after ≡ (approvals, some false)
    else (after.1 ≡ some true)
      × (is_this "b" (
            group_of
              (list_groups after.0.store "p")
              "desktop:chess"
              (app_categories approvals "desktop:chess"))
          ≡ true)
      × (get after.0.approvals ("p", "desktop:chess") ≡ some "pending")
request-is_this_example =
    request-is_this "5" approvals "p" "b" "desktop:chess" store-IsTable has_blocked chess_valid refl
      not_barred

decide-is_this_example :
    let after = decide "5" approvals "p" "desktop:chess" true in
    (after.1 ≡ true)
    × (is_this "b" (
          group_of
            (list_groups after.0.store "p")
            "desktop:chess"
            (app_categories approvals "desktop:chess"))
        ≡ false)
    × (get after.0.approvals ("p", "desktop:chess") ≡ some "approved")
decide-is_this_example =
    decide-is_this "5" approvals "p" "b" "desktop:chess" true store-IsTable has_blocked chess_valid
      refl not_barred

config-Tells_example : Tells approvals "p" "desktop:chess" (config approvals "p")
unfolding get
config-Tells_example = config-Tells approvals "p" "desktop:chess" (refl, (refl, tt))
