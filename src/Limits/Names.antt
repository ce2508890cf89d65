-- ===== src/Limits/Names.antt =====
-- crates/agent/src/i18n.rs, lines 126-149: the name of an app group in the child's language.
use screenguard.Prelude.{eq_string, String, Option, none, some, ◌==◌, ◌&&◌, if◌then◌else◌}

abbrev games_name : String → String
games_name lang =
    if lang == "es"
    then "Juegos"
    else if lang == "fr"
    then "Jeux"
    else if lang == "de"
    then "Spiele"
    else if lang == "pt"
    then "Jogos"
    else if lang == "pl"
    then "Gry"
    else "Games"

abbrev browsers_name : String → String
browsers_name lang =
    if lang == "es"
    then "Navegadores web"
    else if lang == "fr"
    then "Navigateurs web"
    else if lang == "de"
    then "Webbrowser"
    else if lang == "pt"
    then "Navegadores web"
    else if lang == "pl"
    then "Przeglądarki"
    else "Web browsers"

unfoldable pub group_name : Option String → String → String → String
group_name none name lang = name
group_name (some builtin) name lang =
    if builtin == "games" && name == "Games"
    then games_name lang
    else if builtin == "browsers" && name == "Web browsers"
    then browsers_name lang
    else name
