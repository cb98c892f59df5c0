-- ===== src/Mailings/Laws.antt =====
-- What an application of the mailing lists applies (frontend/src/app/mailings/mailings.component.ts).
use asl_bissieux.Prelude.{
  ◌≡◌, Bool, true, false, List, [], ◌∷◌, Option, none, some, arith, ltb, any, is_some, All,
}
use asl_bissieux.Prelude.Strings.{String}
use asl_bissieux.Mailings.{
  ListPlan, Plan, Mailings, Applied, new, refresh, change_rights, read, sum, size_of, lists_of,
  add_count, remove_count, pending, synchronized, token_of, sync, same_token, closed, applied,
  destroy,
}

pub data Step (s t : Mailings) : Type 0 where
  changes_rights : (b : Bool) → t ≡ change_rights b s → Step s t
  refreshes : t ≡ refresh s → Step s t
  reads : (answer : Option (Option Plan)) → t ≡ read answer s → Step s t
  syncs : t ≡ sync s → Step s t
  closes : (confirmed : Bool) → t ≡ closed confirmed s → Step s t
  applies : (answer : Option Applied) → t ≡ applied answer s → Step s t
  destroys : t ≡ destroy s → Step s t

pub data Reach : Mailings → Type 0 where
  start : Reach new
  step : {s t : Mailings} → Reach s → Step s t → Reach t

abbrev pub IsApplied : Option (Option String) → Mailings → Type 0
IsApplied none s = Unit
IsApplied (some token) s =
    (same_token (token_of s.plan) token ≡ true) × (s.loading ≡ false) × (s.allowed ≡ true)

pub record IsConsistent (s : Mailings) : Type 0 where
  pub loading_exact : s.loading ≡ s.reading
  pub busy_exact : s.busy ≡ is_some s.applying
  pub applied_shown : IsApplied s.applying s

change_rights-IsConsistent :
    {s : Mailings} (b : Bool) → IsConsistent s → IsConsistent (change_rights b s)
unfolding change_rights
change_rights-IsConsistent b c = ground arith

refresh-IsConsistent : {s : Mailings} → IsConsistent s → IsConsistent (refresh s)
unfolding refresh
refresh-IsConsistent c = ground arith

read-IsConsistent :
    {s : Mailings} (answer : Option (Option Plan)) → IsConsistent s → IsConsistent (read answer s)
unfolding read
read-IsConsistent answer c = ground arith

sync-IsConsistent : {s : Mailings} → IsConsistent s → IsConsistent (sync s)
unfolding sync
sync-IsConsistent c = ground arith

closed-IsConsistent :
    {s : Mailings} (confirmed : Bool) → IsConsistent s → IsConsistent (closed confirmed s)
unfolding closed
closed-IsConsistent confirmed c = ground arith

applied-IsConsistent :
    {s : Mailings} (answer : Option Applied) → IsConsistent s → IsConsistent (applied answer s)
unfolding applied
applied-IsConsistent answer c = ground arith

destroy-IsConsistent : {s : Mailings} → IsConsistent s → IsConsistent (destroy s)
unfolding destroy
destroy-IsConsistent c = ground arith

Step-IsConsistent : {s t : Mailings} → Step s t → IsConsistent s → IsConsistent t
Step-IsConsistent (changes_rights b e) c = rw e (change_rights-IsConsistent b c)
Step-IsConsistent (refreshes e) c = rw e (refresh-IsConsistent c)
Step-IsConsistent (reads answer e) c = rw e (read-IsConsistent answer c)
Step-IsConsistent (syncs e) c = rw e (sync-IsConsistent c)
Step-IsConsistent (closes confirmed e) c = rw e (closed-IsConsistent confirmed c)
Step-IsConsistent (applies answer e) c = rw e (applied-IsConsistent answer c)
Step-IsConsistent (destroys e) c = rw e (destroy-IsConsistent c)

-- Whatever the order of rights, loads, confirmations and answers: while an application runs, the
-- plan on show is the one whose token is applied, nothing is being read and the user has the right;
-- the two indicators stand exactly while a load and an application run.
pub Reach-mailings_IsConsistent : {s : Mailings} → Reach s → IsConsistent s
unfolding new
Reach-mailings_IsConsistent start = ground arith
Reach-mailings_IsConsistent (step r st) = Step-IsConsistent st (Reach-mailings_IsConsistent r)

-- The list asks for no change and none is under way.
abbrev pub IsSettled : ListPlan → Type 0
IsSettled l = (size_of l.additions ≡ 0) × (size_of l.removals ≡ 0) × (size_of l.pending_tasks ≡ 0)

sum-IsSettled :
    (ls : List ListPlan)
    → sum (λ l. size_of l.additions) ls ≡ 0
    → sum (λ l. size_of l.removals) ls ≡ 0
    → any (λ l. ltb 0 (size_of l.pending_tasks)) ls ≡ false
    → All IsSettled ls
sum-IsSettled [] a r p = tt
sum-IsSettled (l ∷ ls) a r p = (
  (omega arith, omega arith, ground arith),
  sum-IsSettled ls (omega arith) (omega arith) (ground arith),
)

-- The lists are said to be synchronised only if each asks for no addition and no removal, has no task
-- under way, and nothing is being read.
pub synchronized-IsSettled :
    (s : Mailings) → synchronized s ≡ true → All IsSettled (lists_of s.plan) × (s.loading ≡ false)
unfolding synchronized add_count remove_count pending
synchronized-IsSettled s h =
    (sum-IsSettled (lists_of s.plan) (ground arith) (ground arith) (ground arith), ground arith)
