-- ===== src/Mailings.antt =====
-- frontend/src/app/mailings/mailings.component.ts: the mailing lists are compared with those of the
-- provider, then brought up to date after a confirmation.
-- The rights, the answers and the confirmation are events. `cancelLoad` ends the load and the
-- application in flight (`finalize`). `applying` is the token of the application that runs, `asked`
-- that of the confirmation that is open.
pub mod Laws
mod Tests
use asl_bissieux.Prelude.{
  ℕ, ◌+◌, Bool, true, false, ◌&&◌, ◌||◌, not, List, [], ◌∷◌, Option, none, some, if◌then◌else◌,
  ◌==◌, ltb, any, filter, length, get_or, is_some,
}
use asl_bissieux.Prelude.Strings.{String, str_eq}

-- `MailingsListPlan`: `add`, `remove` and the numbers of the tasks.
pub record ListPlan : Type 0 where
  pub group : Option String
  pub expected : Option (List String)
  pub additions : Option (List String)
  pub removals : Option (List String)
  pub pending_tasks : Option (List ℕ)

-- `MailingsPlan`, with the names of the members that are not valid.
pub record Plan : Type 0 where
  pub configured : Bool
  pub can_apply : Bool
  pub token : Option String
  pub lists : Option (List ListPlan)
  pub invalid : Option (List String)

-- The messages, by what they say.
pub data Problem : Type 0 where
  not_read not_confirmed : Problem

pub record Mailings : Type 0 where
  -- The last value that `distinctUntilChanged` let through.
  pub rights : Option Bool
  pub plan : Option Plan
  pub loading : Bool
  pub busy : Bool
  pub confirming : Bool
  pub error : Option Problem
  pub message : String
  pub verified : Bool
  pub allowed : Bool
  pub alive : Bool
  -- Whether a load runs, the open confirmation, and the application that runs.
  pub reading : Bool
  pub asked : Option (Option String)
  pub applying : Option (Option String)

unfoldable pub new : Mailings
new = record {
  rights = none;
  plan = none;
  loading = false;
  busy = false;
  confirming = false;
  error = none;
  message = "";
  verified = false;
  allowed = false;
  alive = true;
  reading = false;
  asked = none;
  applying = none;
}

-- `cancelLoad.next()`
unfoldable pub cancel_load : Mailings → Mailings
cancel_load s = record s {
  loading = if s.reading then false else s.loading;
  busy = if is_some s.applying then false else s.busy;
  reading = false;
  applying = none;
}

-- `refresh`
unfoldable pub refresh : Mailings → Mailings
unfolding cancel_load
refresh s =
    if not s.allowed || s.busy
    then s
    else (let t = cancel_load s in
        record t {
          loading = true;
          plan = none;
          error = none;
          message = "";
          verified = false;
          reading = true;
        })

abbrev pub same_right : Option Bool → Bool → Bool
same_right none b = false
same_right (some true) b = b
same_right (some false) b = not b

-- `administrator$` announces a value.
unfoldable pub change_rights : Bool → Mailings → Mailings
unfolding cancel_load refresh
change_rights allowed s =
    if not s.alive || same_right s.rights allowed
    then s
    else (let t = cancel_load (record s { rights = some allowed; allowed = allowed }) in
        let u = record t { plan = none; error = none; message = ""; verified = false } in
        if allowed then refresh u else u)

-- The answer to `previewMailingLists`: `none` is a failure, `some none` is null.
unfoldable pub read : Option (Option Plan) → Mailings → Mailings
read answer s =
    if s.reading
    then elim answer [
      | none ↦ record s { error = some not_read; loading = false; reading = false }
      | some plan ↦ record s { plan = plan; loading = false; reading = false }
    ]
    else s

abbrev pub size_of : {A : Type 0} → Option (List A) → ℕ
size_of xs = length (get_or xs [])

abbrev pub sum : (ListPlan → ℕ) → List ListPlan → ℕ
sum f [] = 0
sum f (l ∷ ls) = f l + sum f ls

abbrev pub lists_of : Option Plan → List ListPlan
lists_of none = []
lists_of (some plan) = get_or plan.lists []

-- `addCount`, `removeCount`
unfoldable pub add_count : Mailings → ℕ
add_count s = sum (λ l. size_of l.additions) (lists_of s.plan)

unfoldable pub remove_count : Mailings → ℕ
remove_count s = sum (λ l. size_of l.removals) (lists_of s.plan)

-- `pending`
unfoldable pub pending : Mailings → Bool
pending s = any (λ l. ltb 0 (size_of l.pending_tasks)) (lists_of s.plan)

-- `synchronized`
unfoldable pub synchronized : Mailings → Bool
unfolding add_count remove_count pending
synchronized s = elim s.plan [
  | none ↦ false
  | some plan ↦
      plan.configured
      && not s.loading
      && not (pending s)
      && (size_of plan.invalid == 0)
      && ((add_count s + remove_count s) == 0)
]

-- The lists that the dialog says will be emptied.
unfoldable pub emptied : Plan → List ListPlan
emptied plan =
    filter
      (λ l.
        (elim l.expected [ none ↦ false | some xs ↦ length xs == 0 ]) && ltb 0 (size_of l.removals))
      (get_or plan.lists [])

abbrev pub token_of : Option Plan → Option String
token_of none = none
token_of (some plan) = plan.token

abbrev pub can_apply : Option Plan → Bool
can_apply none = false
can_apply (some plan) = plan.can_apply

-- `sync`, up to the confirmation.
unfoldable pub sync : Mailings → Mailings
sync s =
    if not s.allowed || not (can_apply s.plan) || s.loading || s.busy || s.confirming
    then s
    else record s { confirming = true; asked = some (token_of s.plan) }

abbrev pub same_token : Option String → Option String → Bool
same_token none b = not (is_some b)
same_token (some a) none = false
same_token (some a) (some b) = str_eq a b

-- The dialog of this token is closed.
unfoldable pub close_dialog : Option String → Bool → Mailings → Mailings
close_dialog token confirmed s =
    if not confirmed || not s.allowed || s.loading || not (same_token (token_of s.plan) token)
    then record s { confirming = false; asked = none }
    else record s {
      confirming = false;
      asked = none;
      busy = true;
      error = none;
      message = "";
      applying = some token;
    }

unfoldable pub closed : Bool → Mailings → Mailings
unfolding close_dialog
closed confirmed s =
    if s.alive then (elim s.asked [ none ↦ s | some token ↦ close_dialog token confirmed s ]) else s

-- `MailingsSyncResult`
pub record Applied : Type 0 where
  pub plan : Option Plan
  pub verified : Bool
  pub message : String

-- The answer to `syncMailingLists`: `none` is a failure.
unfoldable pub applied : Option Applied → Mailings → Mailings
applied answer s =
    if is_some s.applying
    then elim answer [
      | none ↦ record s { plan = none; error = some not_confirmed; busy = false; applying = none }
      | some r ↦ record s {
        plan = r.plan;
        verified = r.verified;
        message = r.message;
        busy = false;
        applying = none;
      }
    ]
    else s

-- `ngOnDestroy`
unfoldable pub destroy : Mailings → Mailings
unfolding cancel_load
destroy s = let t = cancel_load s in record t { alive = false; asked = none }
