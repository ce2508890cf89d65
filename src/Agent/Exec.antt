-- ===== src/Agent/Exec.antt =====
-- crates/agent/src/app_catalog.rs, lines 357-434: the program that the `Exec=` line of a desktop entry
-- starts.
use Prim.Native.Char.{Char, code}
use Prim.Native.String.{◌++◌ as str_append}
use screenguard.Prelude.{
  is_empty_list, eq_nat, eq_string, ℕ, Bool, true, false, not, ◌&&◌, ◌||◌, Option, none, some, List,
  [], ◌∷◌, String, ◌==◌, if◌then◌else◌, any, find, filter, contains, map, ◌++◌,
}
use screenguard.Apps.Chars.{
  all_chars, is_empty, is_digit, is_lower, is_upper, len, split_once, starts_with,
}
use screenguard.Text.{is_whitespace, trim, cons_head}
use screenguard.Text.Affixes.{rsplit_once}

-- The variables of the loop of `split_exec`; `escaping` is set behind a `\` in quotes.
pub record Scan : Type 0 where
  pub quoted : Bool
  pub in_word : Bool
  pub escaping : Bool
  pub cur : String

abbrev pub push : Scan → Char → String
push st c = str_append st.cur (String.◌∷◌ c String.[])

-- One round, with the word that ends in it.
abbrev pub read : Scan → Char → Scan × List String
read st c =
    if st.escaping
    then (record st { escaping = false; cur = push st c }, [])
    else if code c == b'"'
    then (record st { quoted = not st.quoted; in_word = true }, [])
    else if st.quoted && code c == 92
    then (record st { escaping = true }, [])
    else if is_whitespace (code c) && not st.quoted
    then (if st.in_word
        then (record st { cur = String.[]; in_word = false }, st.cur ∷ [])
        else (st, []))
    else (record st { cur = push st c; in_word = true }, [])

abbrev pub words : Scan → String → List String
words st String.[] = if st.in_word then st.cur ∷ [] else []
words st (String.◌∷◌ c s) = let r = read st c in r.1 ++ words r.0 s

abbrev pub start : Scan
start = record { quoted = false; in_word = false; escaping = false; cur = String.[] }

unfoldable pub split_exec : String → List String
split_exec cmd = words start cmd

-- `rsplit('/').next()`: the part behind the last `/`
abbrev pub base_name : String → String
base_name s = elim (rsplit_once b'/' s) [ none ↦ s | some parts ↦ parts.1 ]

abbrev pub is_shell : String → Bool
is_shell a = contains ("sh" ∷ "bash" ∷ "dash" ∷ "zsh" ∷ []) (base_name a)

abbrev pub launchers : List String
launchers =
    "flatpak" ∷ "flatpak-spawn" ∷ "xdg-open" ∷ "gio" ∷ "gtk-launch" ∷ "kioclient" ∷ "kioclient5"
    ∷ "kioclient6" ∷ "kde-open" ∷ "kde-open5" ∷ "systemd-run" ∷ "uwsm" ∷ "uwsm-app" ∷ "app2unit"
    ∷ "nohup" ∷ "setsid" ∷ "exec" ∷ []

-- `split(['&', ';', '|'])`
abbrev pub is_operator : ℕ → Bool
is_operator c = c == b'&' || c == b';' || c == b'|'

abbrev pub commands : String → List String
commands String.[] = String.[] ∷ []
commands (String.◌∷◌ c s) =
    let rest = commands s in if is_operator (code c) then String.[] ∷ rest else cons_head c rest

abbrev pub runs : String → Bool
runs part = not (is_empty part) && not (starts_with part "cd ") && not (part == "cd")

-- The first program of a script of the shell.
abbrev pub script_words : Option String → List String
script_words none = []
script_words (some part) = split_exec part

abbrev pub of_script : List String → List String
of_script (a ∷ b ∷ script ∷ rest) =
    let found = script_words (find runs (map trim (commands script))) in
    if is_shell a && b == "-c" then found else a ∷ b ∷ script ∷ rest
of_script argv = argv

abbrev pub names_variable : Option (String × String) → Bool
names_variable none = false
names_variable (some parts) =
    not (is_empty parts.0)
    && all_chars (λ c. is_digit c || is_lower c || is_upper c || c == b'_') parts.0

-- Without a leading `env` and `VAR=…`.
abbrev pub without_env : List String → List String
without_env [] = []
without_env (a ∷ argv) =
    let rest = without_env argv in
    if base_name a == "env" || names_variable (split_once b'=' a) then rest else a ∷ argv

abbrev pub is_field_code : String → Bool
is_field_code a = len a == 2 && starts_with a "%"

abbrev pub program : List String → Option (String × Bool)
program [] = none
program (first ∷ args) =
    let binary = base_name first in
    if contains launchers binary
      || is_shell binary
      || any (λ a. starts_with a "steam://") (first ∷ args)
    then none
    else some (binary, not (is_empty_list args))

-- The name of the program, and whether it has arguments besides field codes.
unfoldable pub exec_binary : String → Option (String × Bool)
exec_binary cmd =
    program (without_env (of_script (filter (λ a. not (is_field_code a)) (split_exec cmd))))
