-- ===== src/Mailings/Tests.antt =====
-- The mailing lists after a right, an answer and a click.
use asl_bissieux.Prelude.{refl, true, [], ◌∷◌, none, some}
use asl_bissieux.Mailings.{ListPlan, Plan, Mailings, new, change_rights, read, sync}
use asl_bissieux.Mailings.Laws.{
  Reach, start, step, changes_rights, reads, syncs, IsConsistent, Reach-mailings_IsConsistent,
}

abbrev list_plan : ListPlan
list_plan = record {
  group = some "Membres";
  expected = some ("a@b" ∷ []);
  additions = none;
  removals = none;
  pending_tasks = none;
}

abbrev plan : Plan
plan = record {
  configured = true;
  can_apply = true;
  token = some "t";
  lists = some (list_plan ∷ []);
  invalid = none;
}

abbrev shown : Mailings
shown = read (some (some plan)) (change_rights true new)

shown_reached : Reach (sync shown)
shown_reached =
    step (step (step start (changes_rights true refl)) (reads (some (some plan)) refl)) (syncs refl)

Reach-mailings_IsConsistent_example : IsConsistent (sync shown)
Reach-mailings_IsConsistent_example = Reach-mailings_IsConsistent shown_reached
