-- ===== src/Tour/Tests.antt =====
-- The laws of the tour at a concrete user and state.
use asl_bissieux.Prelude.{
  ◌+◌, ◌≡◌, refl, true, false, List, [], ◌∷◌, Option, none, some, length, All,
}
use asl_bissieux.Prelude.Strings.{String}
use asl_bissieux.Auth.{User}
use asl_bissieux.Tour.{
  TourStep, TourState, Tour, new, user_changed, session_fetched, reload, seen, is_unseen, steps_of,
}
use asl_bissieux.Tour.Laws.{
  Reach, start, step, changes, fetches, views, reloads, IsOwn, Reach-IsOwn,
}
use asl_bissieux.Tour.Chapters.{Visit, chapters, chapters_of, walk, IsOver, walk-IsOver}

-- The users of these tests have no actions.
abbrev no_actions : Option (List String) → String
no_actions actions = ""

abbrev member : User
member = record { id = some "u"; enabled = some true; admin = none; actions = none }

abbrev seen_step : String → TourStep
seen_step id = record { id = some id; revision = some 2; seen_revision = some 2 }

abbrev two_steps : TourState
two_steps = record { version = some 1; steps = some (seen_step "a" ∷ seen_step "b" ∷ []) }

abbrev signed_in : Tour
signed_in = user_changed no_actions (some member) new

abbrev shown : Tour
shown = session_fetched (some (some two_steps)) signed_in

abbrev reloading : Tour
reloading = reload (seen shown)

reloading-Reach : Reach no_actions reloading
reloading-Reach =
    step
      (step (step (step start (changes (some member) refl)) (fetches (some (some two_steps)) refl))
        (views refl))
      (reloads refl)

Reach-IsOwn_example : IsOwn reloading
Reach-IsOwn_example = Reach-IsOwn no_actions reloading-Reach

shown_state : (shown.state ≡ some two_steps) × (shown.shown_for ≡ "u") × (reloading.loading ≡ true)
unfolding session_fetched user_changed new reload seen
shown_state = (refl, refl, refl)

abbrev visit : Visit
visit = record {
  all = true;
  ids = some (some "a" ∷ some "b" ∷ []);
  index = 0;
  finished = false;
  saving = false;
  save_error = none;
  session_generation = some 1;
}

visit_seen : All (λ s. is_unseen s ≡ false) (chapters (some two_steps) visit)
unfolding chapters_of steps_of
visit_seen = (refl, (refl, tt))

visit_start : visit.index + 2 ≡ length (chapters (some two_steps) visit)
unfolding chapters_of steps_of
visit_start = refl

walk-IsOver_example : IsOver (some two_steps) (walk 2 (some two_steps) visit)
walk-IsOver_example = walk-IsOver 1 (some two_steps) visit refl visit_seen visit_start
