-- ===== src/Theme/Tests.antt =====
-- A visit that chooses the dark theme.
use asl_bissieux.Prelude.{true, false, [], ◌∷◌, none}
use asl_bissieux.Theme.{dark, Browser, new}
use asl_bissieux.Theme.Laws.{changes_system, sets_preference, run, IsShown, run-new-IsShown}

abbrev browser : Browser
browser = record { storable = true; stored = none; theme = none; theme_preference = none }

run-new-IsShown_example :
    IsShown (run (changes_system true ∷ sets_preference dark ∷ []) (new false browser))
run-new-IsShown_example =
    run-new-IsShown (changes_system true ∷ sets_preference dark ∷ []) false browser
