-- ===== src/Users/Tests.antt =====
-- A decision on an account that asks for access.
use asl_bissieux.Prelude.{[], ◌∷◌, List, none, some, true}
use asl_bissieux.Users.{User}
use asl_bissieux.Users.Decisions.{approve, new}
use asl_bissieux.Users.Laws.{
  Event, decides, checks, closes, ReadIn, run, IsGuarded, run-new-IsGuarded,
}

abbrev asking : User
asking = record {
  id = some "u";
  username = some "ada";
  access_status = some "pending";
  enabled = none;
  admin = none;
  actions = none;
  identities = none;
  updated_at = some "2026-01-01";
}

-- The update of the account is sent.
abbrev events : List Event
events = decides asking approve ∷ checks (some (some asking)) ∷ closes true ∷ []

run-new-IsGuarded_example : IsGuarded (ReadIn events) (run events new)
run-new-IsGuarded_example = run-new-IsGuarded events
