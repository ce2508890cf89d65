-- ===== src/Examples/Units.antt =====
-- The names of units and the lines of desktop entries, some from the tests of
-- crates/agent/src/app_ident.rs and crates/agent/src/app_catalog.rs.
use screenguard.Prelude.{eq_nat, eq_string, ◌≡◌, refl, true, false, none, some, [], ◌∷◌, arith}
use screenguard.Agent.Units.{
  app, autostart, user_service, other, classify, parse_unit, unescape, byte_char,
}
use screenguard.Agent.Escapes.{plain, escape, meant, scope_name, parse_unit-scope_name}
use screenguard.Agent.Exec.{split_exec, exec_binary}
use screenguard.Agent.Quotes.{quoted_line, split_exec-quoted_line}

parsed :
    (parse_unit "app-gnome-org.gnome.Nautilus-4242.scope"
      ≡ some (some "gnome", "org.gnome.Nautilus"))
    × (parse_unit "app-org.kde.dolphin@c0a5622a.service" ≡ some (none, "org.kde.dolphin"))
    × (parse_unit "app-Hyprland-xdg\\x2dterminal\\x2dexec-4ac1367f.scope"
        ≡ some (some "Hyprland", "xdg-terminal-exec"))
    × (parse_unit "snap.spotify.spotify-1b2c.scope" ≡ some (some "snap", "spotify"))
    × (parse_unit "app-remmina\\x2dapplet@autostart.service" ≡ some (none, "remmina-applet"))
    × (parse_unit "dconf.service" ≡ none)
unfolding parse_unit unescape byte_char
parsed = (refl, refl, refl, refl, refl, refl)

classified :
    (classify "/user.slice/user-1000.slice/app.slice/app-org.kde.konsole-4858.scope/main.scope"
      ≡ (app, "app-org.kde.konsole-4858.scope"))
    × (classify "/app.slice/app-graphical.slice/app-x@autostart.service"
        ≡ (autostart, "app-x@autostart.service"))
    × (classify "/app.slice/dconf.service" ≡ (user_service, "dconf.service"))
    × (classify "/user.slice/user-1000.slice/session-2.scope" ≡ (other, "session-2.scope"))
unfolding classify
classified = (refl, refl, refl, refl)

programs :
    (exec_binary "nautilus --new-window %U" ≡ some ("nautilus", true))
    × (exec_binary "/usr/bin/chromium %U" ≡ some ("chromium", false))
    × (exec_binary "env GDK_BACKEND=x11 mousepad %F" ≡ some ("mousepad", false))
    × (exec_binary "\"/opt/My App/run\" --x" ≡ some ("run", true))
    × (exec_binary "%u" ≡ none)
    × (exec_binary "steam steam://rungameid/570" ≡ none)
    × (exec_binary "sh -c \"cd /opt/game && ./run-game --fullscreen\"" ≡ some ("run-game", true))
    × (exec_binary "bash -c \"cd /opt/x\"" ≡ none)
    × (exec_binary "/bin/sh" ≡ none)
unfolding exec_binary split_exec
programs = (refl, refl, refl, refl, refl, refl, refl, refl, refl)

parse_unit-scope_name_example :
    parse_unit (scope_name (plain "k" ∷ []) (plain "a" ∷ escape "-" ∷ plain "b" ∷ []) "12")
    ≡ some (some (meant (plain "k" ∷ [])), meant (plain "a" ∷ escape "-" ∷ plain "b" ∷ []))
parse_unit-scope_name_example =
    parse_unit-scope_name (plain "k" ∷ []) (plain "a" ∷ escape "-" ∷ plain "b" ∷ []) "12"
      ((refl, refl), tt) ((refl, refl), (omega arith, ((refl, refl), tt))) refl

split_exec-quoted_line_example : split_exec (quoted_line ("a \"b" ∷ "" ∷ [])) ≡ "a \"b" ∷ "" ∷ []
split_exec-quoted_line_example = split_exec-quoted_line ("a \"b" ∷ "" ∷ [])
