-- ===== src/Agent/Quotes.antt =====
-- crates/agent/src/app_catalog.rs, split_exec: it reads back words that are written in quotes.
use Prim.Native.Char.{Char, code}
use Prim.Native.String.{◌++◌ as str_append}
use text.Mathlib.TextLemmas.{nil-append, cons-append, append_assoc, append-nil}
use screenguard.Prelude.{
  eq_nat, ℕ, ◌≡◌, refl, ap, ◌∙◌, Bool, true, false, ◌||◌, List, [], ◌∷◌, String, ◌==◌,
  if◌then◌else◌, arith, Bool-cases, inl, inr,
}
use screenguard.Agent.Exec.{Scan, read, words, split_exec}

-- A word in quotes, where `"` and `\` have a `\` in front.
abbrev pub needs_escape : ℕ → Bool
needs_escape c = c == b'"' || c == 92

abbrev pub escaped_word : String → String
escaped_word String.[] = String.[]
escaped_word (String.◌∷◌ c s) =
    let rest = escaped_word s in
    if needs_escape (code c) then String.◌∷◌ "\\" (String.◌∷◌ c rest) else String.◌∷◌ c rest

-- The words in quotes, each with a space behind it.
abbrev pub quoted_line : List String → String
quoted_line [] = String.[]
quoted_line (w ∷ ws) =
    String.◌∷◌ "\""
      (str_append (escaped_word w) (String.◌∷◌ "\"" (String.◌∷◌ " " (quoted_line ws))))

abbrev in_quotes : String → Scan
in_quotes cur = record { quoted = true; in_word = true; escaping = false; cur = cur }

push_first :
    (cur w : String) (c : Char)
    → str_append (str_append cur (String.◌∷◌ c String.[])) w ≡ str_append cur (String.◌∷◌ c w)
push_first cur w c =
    append_assoc cur (String.◌∷◌ c String.[]) w
    ∙ ap (str_append cur) (cons-append c String.[] w ∙ ap (String.◌∷◌ c) (nil-append w))

read_plain :
    (cur : String) (c : Char)
    → needs_escape (code c) ≡ false
    → read (in_quotes cur) c ≡ (in_quotes (str_append cur (String.◌∷◌ c String.[])), [])
read_plain cur c h = ground arith

words-escaped_word :
    (w cur rest : String)
    → words (in_quotes cur) (str_append (escaped_word w) rest)
      ≡ words (in_quotes (str_append cur w)) rest
words-escaped_word String.[] cur rest = rw (nil-append, append-nil) refl
words-escaped_word (String.◌∷◌ c w) cur rest =
    let next =
      words-escaped_word w (str_append cur (String.◌∷◌ c String.[])) rest
      ∙ ap (λ t. words (in_quotes t) rest) (push_first cur w c) in
    elim (Bool-cases (needs_escape (code c))) [
      | inl e ↦ rw e (rw cons-append (rw cons-append next))
      | inr n ↦ rw n (rw cons-append (rw (read_plain cur c n) next))
    ]

-- A line of words in quotes, where `"` and `\` have a `\` in front and a space stands behind each word, is
-- split into the words, whatever their characters are.
pub split_exec-quoted_line : (ws : List String) → split_exec (quoted_line ws) ≡ ws
unfolding split_exec
split_exec-quoted_line [] = refl
split_exec-quoted_line (w ∷ ws) =
    words-escaped_word w String.[] (String.◌∷◌ "\"" (String.◌∷◌ " " (quoted_line ws)))
    ∙ rw nil-append (ap (λ (rest : List String). w ∷ rest) (split_exec-quoted_line ws))
