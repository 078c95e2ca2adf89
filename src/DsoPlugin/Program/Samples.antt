-- ===== src/DsoPlugin/Program/Samples.antt =====
-- dso/test/main.c: a library at 500 with the plugin's function at 600.
use divers.Base.{ℕ, ◌≡◌, refl, Option, none, some, [], ◌∷◌, ◌==◌, if◌then◌else◌}
use divers.Resources.{release}
use divers.DsoPlugin.{Plugin, init, exit, get_entry}
use divers.DsoPlugin.Program.{PluginTest, func, get_plugintest, main}

abbrev dlopen : ℕ → ℕ
dlopen file = if file == 1 then 500 else 0

abbrev dlsym : ℕ → ℕ → ℕ
dlsym lib name = if name == 2 then 600 else 0

abbrev functions : ℕ → Option PluginTest
functions ptr = if ptr == 600 then some get_plugintest else none

abbrev plugin : Plugin
plugin = record { vmem = 7; vsym = 7 }

main_runs : main dlopen dlsym functions 1 2 plugin [] ≡ some (func "main.c" ∷ [], [])
unfolding main init exit get_entry get_plugintest release
main_runs = refl
