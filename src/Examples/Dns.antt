-- ===== src/Examples/Dns.antt =====
-- The blocklist at names from the comment and the tests of crates/agent/src/dns_proxy.rs.
use screenguard.Prelude.{◌≡◌, ◌↔◌, refl, true, false, [], ◌∷◌, Any}
use screenguard.Prelude.{
  eq_nat, ℕ, ◌==◌, ◌≢◌, Option, some, none, ◌++◌, map, if◌then◌else◌, arith, List, [], ◌∷◌, String,
  ◌≡◌, refl,
}
use screenguard.Text.Decimal.{join}
use screenguard.Dns.Query.{
  out_of_fuel, split_at, make_nxdomain, parse_labels, parse_qname, handle_query,
}
use screenguard.Dns.Answers.{query_for, parse_labels_ends, handle_query-encode}
use screenguard.Dns.{trim_dots, is_blocked, Below, is_blocked_iff}

names :
    (is_blocked "youtube.com" ("youtube.com" ∷ []) ≡ true)
    × (is_blocked "www.youtube.com." ("youtube.com" ∷ []) ≡ true)
    × (is_blocked "fakeyoutube.com" ("youtube.com" ∷ []) ≡ false)
    × (is_blocked "com" ("youtube.com" ∷ []) ≡ false)
unfolding is_blocked
names = (refl, refl, refl, refl)

is_blocked_iff_example :
    (is_blocked "www.youtube.com" ("youtube.com" ∷ []) ≡ true)
    ↔ Any (λ b. Below (trim_dots b) (trim_dots "www.youtube.com")) ("youtube.com" ∷ [])
is_blocked_iff_example = is_blocked_iff "www.youtube.com" ("youtube.com" ∷ [])

-- A query for `ab.c`, the letters by their codes.
abbrev letters : List ℕ → String
letters [] = String.[]
letters (b ∷ bytes) =
    String.◌∷◌ (if b == 97 then "a" else if b == 98 then "b" else "c") (letters bytes)

abbrev header : List ℕ
header = 1 ∷ 2 ∷ 1 ∷ 0 ∷ 0 ∷ 1 ∷ 0 ∷ 0 ∷ 0 ∷ 0 ∷ 0 ∷ 1 ∷ []

abbrev refuse : List ℕ → Option (List ℕ)
refuse query = none

asked :
    (parse_qname letters (query_for header ((97 ∷ 98 ∷ []) ∷ (99 ∷ []) ∷ []) []) ≡ some "ab.c")
    × (parse_qname letters (header ++ (192 ∷ 12 ∷ [])) ≡ none)
    × (make_nxdomain (1 ∷ 2 ∷ 1 ∷ 0 ∷ 0 ∷ 1 ∷ 0 ∷ 0 ∷ 0 ∷ 0 ∷ 0 ∷ 1 ∷ 7 ∷ [])
        ≡ 1 ∷ 2 ∷ 129 ∷ 3 ∷ 0 ∷ 1 ∷ 0 ∷ 0 ∷ 0 ∷ 0 ∷ 0 ∷ 0 ∷ 7 ∷ [])
unfolding parse_qname parse_labels split_at make_nxdomain
asked = (refl, refl, refl)

parse_labels_ends_example : parse_labels letters 4 (2 ∷ 97 ∷ 98 ∷ []) ≢ out_of_fuel
parse_labels_ends_example = parse_labels_ends letters 4 (2 ∷ 97 ∷ 98 ∷ []) (omega arith)

handle_query-encode_example :
    handle_query letters refuse
      (query_for header ((97 ∷ 98 ∷ []) ∷ (99 ∷ []) ∷ []) (0 ∷ 1 ∷ []))
      ("c" ∷ [])
    ≡ (if is_blocked (join "." (map letters ((97 ∷ 98 ∷ []) ∷ (99 ∷ []) ∷ []))) ("c" ∷ [])
        then some (make_nxdomain (query_for header ((97 ∷ 98 ∷ []) ∷ (99 ∷ []) ∷ []) (0 ∷ 1 ∷ [])))
        else refuse (query_for header ((97 ∷ 98 ∷ []) ∷ (99 ∷ []) ∷ []) (0 ∷ 1 ∷ [])))
handle_query-encode_example =
    handle_query-encode letters refuse header (97 ∷ 98 ∷ []) ((99 ∷ []) ∷ []) (0 ∷ 1 ∷ [])
      ("c" ∷ []) refl (omega arith, omega arith) ((omega arith, omega arith), tt)
