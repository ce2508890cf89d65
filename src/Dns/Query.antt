-- ===== src/Dns/Query.antt =====
-- crates/agent/src/dns_proxy.rs, lines 138-153 and 170-210: the handling of a query. A packet is the
-- list of its bytes. `label_text` is `String::from_utf8_lossy` and `to_lowercase`, and `forward` the
-- answer of the other server.
use screenguard.Prelude.{
  eq_nat, ℕ, zero, suc, ◌+◌, ◌/◌, ◌%◌, Bool, Option, none, some, List, [], ◌∷◌, String, ◌==◌,
  length, ltb, if◌then◌else◌,
}
use screenguard.Text.Decimal.{join}
use screenguard.Dns.{is_blocked}

-- How the loop over the labels ends; `out_of_fuel` is no end of the code.
pub data Labels : Type 0 where
  parsed : List String → Labels
  malformed out_of_fuel : Labels

abbrev pub drop : ℕ → List ℕ → List ℕ
drop zero bytes = bytes
drop (suc n) [] = []
drop (suc n) (b ∷ bytes) = drop n bytes

abbrev pub with_byte : ℕ → Option (List ℕ × List ℕ) → Option (List ℕ × List ℕ)
with_byte b none = none
with_byte b (some p) = some (b ∷ p.0, p.1)

-- `get(pos..pos + len)`, and what follows.
unfoldable pub split_at : ℕ → List ℕ → Option (List ℕ × List ℕ)
split_at zero bytes = some ([], bytes)
split_at (suc n) [] = none
split_at (suc n) (b ∷ bytes) = with_byte b (split_at n bytes)

-- `len & 0xC0 == 0xC0`
abbrev pub is_pointer : ℕ → Bool
is_pointer len = len / 64 % 4 == 3

abbrev pub set_at : ℕ → ℕ → List ℕ → List ℕ
set_at n value [] = []
set_at zero value (b ∷ bytes) = value ∷ bytes
set_at (suc n) value (b ∷ bytes) = b ∷ set_at n value bytes

-- `|= 0x80`
abbrev pub with_high_bit : ℕ → ℕ
with_high_bit b = if b / 128 % 2 == 1 then b else b + 128

abbrev pub set_response : List ℕ → List ℕ
set_response (a ∷ b ∷ flags ∷ bytes) = a ∷ b ∷ with_high_bit flags ∷ bytes
set_response bytes = bytes

unfoldable pub make_nxdomain : List ℕ → List ℕ
make_nxdomain query = set_at 11 0 (
    set_at 10 0
      (set_at 9 0 (set_at 8 0 (set_at 7 0 (set_at 6 0 (set_at 3 3 (set_response query)))))))

module _ (label_text : List ℕ → String) where
  abbrev pub with_label : List ℕ → Labels → Labels
  with_label label (parsed labels) = parsed (label_text label ∷ labels)
  with_label label malformed = malformed
  with_label label out_of_fuel = out_of_fuel

  abbrev pub at_label : (List ℕ → Labels) → Option (List ℕ × List ℕ) → Labels
  at_label next none = malformed
  at_label next (some p) = with_label p.0 (next p.1)

  -- The loop, from the byte at `pos`.
  unfoldable pub parse_labels : ℕ → List ℕ → Labels
  parse_labels zero bytes = out_of_fuel
  parse_labels (suc fuel) [] = malformed
  parse_labels (suc fuel) (len ∷ bytes) =
      if len == 0
      then parsed []
      else if is_pointer len
      then malformed
      else at_label (parse_labels fuel) (split_at len bytes)

  abbrev pub name_of : Labels → Option String
  name_of (parsed []) = none
  name_of (parsed (l ∷ labels)) = some (join "." (l ∷ labels))
  name_of malformed = none
  name_of out_of_fuel = none

  unfoldable pub parse_qname : List ℕ → Option String
  parse_qname query =
      if ltb (length query) 13 then none else name_of (parse_labels (length query) (drop 12 query))

  abbrev pub reply :
      (List ℕ → Option (List ℕ)) → List ℕ → List String → Option String → Option (List ℕ)
  reply forward query blocked none = forward query
  reply forward query blocked (some qname) =
      if is_blocked qname blocked then some (make_nxdomain query) else forward query

  unfoldable pub handle_query : (List ℕ → Option (List ℕ)) → List ℕ → List String → Option (List ℕ)
  handle_query forward query blocked =
      if ltb (length query) 12 then none else reply forward query blocked (parse_qname query)
