-- ===== src/Dns.antt =====
-- crates/agent/src/dns_proxy.rs, lines 212-222: the test of a queried name against the blocklist.
use Prim.Native.Char.{code}
use Prim.Native.String.{◌++◌ as str_append}
use text.Mathlib.TextLemmas.{nil-append, cons-append}
use screenguard.Prelude.{
  eq_string, eq_nat, ◌≡◌, ◌↔◌, ◌⊎◌, inl, inr, ap, subst, sym, ==_refl, Bool, true, ◌&&◌, ◌||◌, List,
  [], ◌∷◌, String, ◌==◌, any, any_iff, if◌then◌else◌, arith, Any, here, there, Bool-cases,
}
use screenguard.Apps.Chars.{is_empty}
pub mod Query
pub mod Answers

-- `trim_end_matches('.')`
abbrev pub trim_dots : String → String
trim_dots String.[] = String.[]
trim_dots (String.◌∷◌ c s) =
    let rest = trim_dots s in
    if is_empty rest && code c == b'.' then String.[] else String.◌∷◌ c rest

-- `ends_with`
abbrev pub ends_with : String → String → Bool
ends_with String.[] t = String.[] == t
ends_with (String.◌∷◌ c s) t = (String.◌∷◌ c s) == t || ends_with s t

abbrev pub blocks : String → String → Bool
blocks name b = name == b || ends_with name (str_append "." b)

unfoldable pub is_blocked : String → List String → Bool
is_blocked qname blocked = any (λ b. blocks (trim_dots qname) (trim_dots b)) blocked

-- The name is the domain, or a name below it.
abbrev pub Below : String → String → Type 0
Below domain name = (name ≡ domain) ⊎ ((p : String) × (name ≡ str_append p (str_append "." domain)))

ends_with_sound : (s t : String) → ends_with s t ≡ true → (p : String) × (s ≡ str_append p t)
ends_with_sound String.[] t h = (String.[], rw nil-append ((eq_string.same_iff String.[] t).0 h))
ends_with_sound (String.◌∷◌ c s) t h = elim (Bool-cases (String.◌∷◌ c s == t)) [
  | inl e ↦ (String.[], rw nil-append ((eq_string.same_iff (String.◌∷◌ c s) t).0 e))
  | inr e ↦
      let r = ends_with_sound s t (ground (arith, h, e)) in
      (String.◌∷◌ c r.0, rw cons-append (ap (λ (u : String). String.◌∷◌ c u) r.1))
]

ends_self : (t : String) → ends_with t t ≡ true
ends_self String.[] = ==_refl String.[]
ends_self (String.◌∷◌ c t) = ground (arith, ==_refl (String.◌∷◌ c t))

ends_with_append : (p t : String) → ends_with (str_append p t) t ≡ true
ends_with_append String.[] t = rw nil-append (ends_self t)
ends_with_append (String.◌∷◌ c p) t = rw cons-append (ground (arith, ends_with_append p t))

blocks_iff : (name b : String) → (blocks name b ≡ true) ↔ Below b name
blocks_iff name b = (
  λ h. elim (Bool-cases (name == b)) [
    | inl e ↦ inl ((eq_string.same_iff name b).0 e)
    | inr e ↦ inr (ends_with_sound name (str_append "." b) (ground (arith, h, e)))
  ],
  λ d. elim d [
    | inl e ↦ ground (arith, (eq_string.same_iff name b).1 e)
    | inr (p, e) ↦ ground (
      arith,
      subst (λ n. ends_with n (str_append "." b) ≡ true) (sym e)
          (ends_with_append p (str_append "." b)),
    )
  ],
)

-- A queried name is blocked exactly when, without the dots at the end, it is one of the domains of
-- the blocklist, without theirs, or ends with a dot and such a domain: a longer name that merely
-- ends with the same letters is not blocked.
pub is_blocked_iff :
    (qname : String) (blocked : List String)
    → (is_blocked qname blocked ≡ true) ↔ Any (λ b. Below (trim_dots b) (trim_dots qname)) blocked
unfolding is_blocked
is_blocked_iff qname blocked = any_iff _ _ blocked (λ b. blocks_iff (trim_dots qname) (trim_dots b))
