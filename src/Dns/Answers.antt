-- ===== src/Dns/Answers.antt =====
-- The loop over the labels ends, and a query in the wire format is answered by its name.
use mathlib.Core.List.{append_assoc}
use screenguard.Prelude.{
  eq_nat, ℕ, zero, suc, ◌+◌, ◌<◌, ◌≤◌, ◌≡◌, ◌≢◌, refl, subst, false, Option, none, some, List, [],
  ◌∷◌, ◌++◌, String, ◌==◌, length, ltb, if◌then◌else◌, arith, All, map, Bool-cases, inl, inr,
}
use screenguard.Text.Decimal.{join}
use screenguard.Dns.{is_blocked}
use screenguard.Dns.Query.{
  Labels, parsed, malformed, out_of_fuel, drop, with_byte, split_at, is_pointer, make_nxdomain,
  with_label, at_label, parse_labels, parse_qname, handle_query,
}

-- The bytes after the split, counted.
abbrev left_over : Option (List ℕ × List ℕ) → ℕ
left_over none = 0
left_over (some p) = length p.1

left_over-with_byte :
    (b : ℕ) (o : Option (List ℕ × List ℕ)) → left_over (with_byte b o) ≡ left_over o
left_over-with_byte b none = refl
left_over-with_byte b (some p) = refl

left_over-split_at : (n : ℕ) (bytes : List ℕ) → left_over (split_at n bytes) ≤ length bytes
unfolding split_at
left_over-split_at zero bytes = omega arith
left_over-split_at (suc n) [] = omega arith
left_over-split_at (suc n) (b ∷ bytes) =
    let rest = left_over-split_at n bytes in
    rw (left_over-with_byte b (split_at n bytes)) (omega arith)

split_at-append : (l rest : List ℕ) → split_at (length l) (l ++ rest) ≡ some (l, rest)
unfolding split_at
split_at-append [] rest = refl
split_at-append (b ∷ l) rest = rw (split_at-append l rest) refl

drop-append : (h rest : List ℕ) → drop (length h) (h ++ rest) ≡ rest
drop-append [] rest = refl
drop-append (b ∷ h) rest = drop-append h rest

length-append : (h rest : List ℕ) → length (h ++ rest) ≡ length h + length rest
length-append [] rest = omega arith
length-append (b ∷ h) rest = let e = length-append h rest in omega arith

-- The wire format of a name.
abbrev pub encode : List (List ℕ) → List ℕ
encode [] = 0 ∷ []
encode (l ∷ labels) = length l ∷ (l ++ encode labels)

abbrev pub query_for : List ℕ → List (List ℕ) → List ℕ → List ℕ
query_for header labels rest = header ++ (encode labels ++ rest)

-- A label has a length byte that ends no name and is no pointer.
abbrev pub IsLabel : List ℕ → Type 0
IsLabel l = (0 < length l) × (length l < 192)

module _ (label_text : List ℕ → String) where
  with_label_ends :
      (label : List ℕ) (r : Labels) → r ≢ out_of_fuel → with_label label_text label r ≢ out_of_fuel
  with_label_ends label (parsed labels) h = λ e. absurd cc
  with_label_ends label malformed h = λ e. absurd cc
  with_label_ends label out_of_fuel h = h

  at_label_ends :
      (next : List ℕ → Labels) (o : Option (List ℕ × List ℕ)) (n : ℕ)
      → left_over o < n
      → ((bytes : List ℕ) → length bytes < n → next bytes ≢ out_of_fuel)
      → at_label label_text next o ≢ out_of_fuel
  at_label_ends next none n b h = λ e. absurd cc
  at_label_ends next (some p) n b h = with_label_ends p.0 (next p.1) (h p.1 b)

  -- On any bytes the loop over the labels ends by an answer, with one step more than there are
  -- bytes left.
  pub parse_labels_ends :
      (fuel : ℕ) (bytes : List ℕ)
      → length bytes < fuel
      → parse_labels label_text fuel bytes ≢ out_of_fuel
  unfolding parse_labels
  parse_labels_ends zero bytes h = absurd (omega arith)
  parse_labels_ends (suc fuel) [] h = λ e. absurd cc
  parse_labels_ends (suc fuel) (len ∷ bytes) h = elim (Bool-cases (len == 0)) [
    | inl z ↦ rw z (λ e. absurd cc)
    | inr z ↦ rw z (elim (Bool-cases (is_pointer len)) [
      | inl q ↦ rw q (λ e. absurd cc)
      | inr q ↦ rw q (
          let less = left_over-split_at len bytes in
          at_label_ends (parse_labels label_text fuel) (split_at len bytes) fuel (omega arith)
            (parse_labels_ends fuel))
    ])
  ]

  parse_labels-encode :
      (fuel : ℕ) (labels : List (List ℕ)) (rest : List ℕ)
      → All IsLabel labels
      → length (encode labels) ≤ fuel
      → parse_labels label_text fuel (encode labels ++ rest) ≡ parsed (map label_text labels)
  unfolding parse_labels
  parse_labels-encode zero [] rest a h = absurd (omega arith)
  parse_labels-encode (suc fuel) [] rest a h = refl
  parse_labels-encode zero (l ∷ labels) rest a h = absurd (omega arith)
  parse_labels-encode (suc fuel) (l ∷ labels) rest a h =
      let n : (length l == 0) ≡ false = ground (arith, a.0.0) in
      let q : is_pointer (length l) ≡ false = ground (arith, a.0.1) in
      let size = length-append l (encode labels) in
      rw n (
        rw q (
          rw (append_assoc l (encode labels) rest) (
            rw (split_at-append l (encode labels ++ rest))
              (rw (parse_labels-encode fuel labels rest a.1 (omega arith)) refl))))

  -- A query for a name in the wire format, with a header of 12 bytes and whatever follows the name,
  -- is answered with a refusal if the name (its labels as text, joined by dots) is blocked, and by
  -- the other server if not. Each label has from 1 to 191 bytes.
  pub handle_query-encode :
      (forward : List ℕ → Option (List ℕ)) (header l : List ℕ) (labels : List (List ℕ))
      (rest : List ℕ) (blocked : List String)
      → length header ≡ 12
      → IsLabel l
      → All IsLabel labels
      → handle_query label_text forward (query_for header (l ∷ labels) rest) blocked ≡ (
          if is_blocked (join "." (map label_text (l ∷ labels))) blocked
          then some (make_nxdomain (query_for header (l ∷ labels) rest))
          else forward (query_for header (l ∷ labels) rest))
  unfolding handle_query parse_qname
  handle_query-encode forward header l labels rest blocked h a b =
      let query = header ++ (encode (l ∷ labels) ++ rest) in
      let size = length-append header (encode (l ∷ labels) ++ rest) in
      let more = length-append (encode (l ∷ labels)) rest in
      let whole : (ltb (length query) 12 ≡ false) × (ltb (length query) 13 ≡ false) =
        (ground (arith, size, more, h), ground (arith, size, more, h)) in
      let names : parse_labels label_text (length query) (drop 12 query)
          ≡ parsed (map label_text (l ∷ labels)) =
        subst
          (λ n.
            parse_labels label_text (length query) (drop n query)
            ≡ parsed (map label_text (l ∷ labels)))
          h
          (rw (drop-append header (encode (l ∷ labels) ++ rest)) (
            parse_labels-encode (length query) (l ∷ labels) rest (a, b)
              (ground (arith, size, more, h)))) in
      rw whole.0 (rw whole.1 (rw names refl))
