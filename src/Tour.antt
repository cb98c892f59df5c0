-- ===== src/Tour.antt =====
-- frontend/src/app/tour/tour.service.ts: the guided tour of the account that is signed in.
-- `session_fetch` and `reload_fetch` are the fetches in flight, of the stream of users and of
-- `reload`; `seen_requests` the requests of `seen`. Each is marked with the account that it was made
-- for, and `shown_for` with that of the answer that `state` holds: no decision reads these marks.
-- `stringify` is `JSON.stringify` on the actions of a user.
pub mod Laws
pub mod Chapters
mod Tests
use asl_bissieux.Prelude.{
  ℕ, zero, suc, ◌+◌, Bool, true, false, ◌&&◌, ◌||◌, not, List, [], ◌∷◌, Option, none, some,
  if◌then◌else◌, ltb, length, filter, get_elem?, get_or, is_some,
}
use asl_bissieux.Prelude.Strings.{String, str_eq}
use asl_bissieux.Auth.{User, truthy}

-- `TourStep`
pub record TourStep : Type 0 where
  pub id : Option String
  pub revision : Option ℕ
  pub seen_revision : Option ℕ

-- `TourState`
pub record TourState : Type 0 where
  pub version : Option ℕ
  pub steps : Option (List TourStep)

pub record Tour : Type 0 where
  -- The user that the stream last let through.
  pub user : Option (Option User)
  pub account : String
  pub generation : ℕ
  pub state : Option TourState
  pub loading : Bool
  pub error : Bool
  pub dismissed : Bool
  pub session_fetch : Option String
  pub reload_fetch : Option String
  pub seen_requests : List String
  pub shown_for : String

unfoldable pub new : Tour
new = record {
  user = none;
  account = "";
  generation = 0;
  state = none;
  loading = false;
  error = false;
  dismissed = false;
  session_fetch = none;
  reload_fetch = none;
  seen_requests = [];
  shown_for = "";
}

-- A step whose present revision has not been seen.
abbrev pub is_unseen : TourStep → Bool
is_unseen step = ltb (get_or step.seen_revision 0) (get_or step.revision 1)

unfoldable pub steps_of : Option TourState → List TourStep
steps_of none = []
steps_of (some state) = get_or state.steps []

-- `pending`
unfoldable pub pending : Tour → List TourStep
unfolding steps_of
pending s = filter is_unseen (steps_of s.state)

-- `offer`
unfoldable pub offer : Tour → Bool
unfolding pending
offer s = is_some s.state && ltb 0 (length (pending s)) && not s.dismissed

-- `===` on what may be missing.
abbrev pub same_text : Option String → Option String → Bool
same_text none b = not (is_some b)
same_text (some a) none = false
same_text (some a) (some b) = str_eq a b

abbrev same_flag : Option Bool → Option Bool → Bool
same_flag none b = not (is_some b)
same_flag (some a) none = false
same_flag (some true) (some b) = b
same_flag (some false) (some b) = not b

abbrev id_of : Option User → Option String
id_of user = elim user [ none ↦ none | some u ↦ u.id ]

abbrev enabled_of : Option User → Option Bool
enabled_of user = elim user [ none ↦ none | some u ↦ u.enabled ]

abbrev admin_of : Option User → Option Bool
admin_of user = elim user [ none ↦ none | some u ↦ u.admin ]

abbrev actions_of : Option User → Option (List String)
actions_of user = elim user [ none ↦ none | some u ↦ u.actions ]

-- `user?.enabled ? (user.id ?? '') : ''`
abbrev pub account_of : Option User → String
account_of user = if truthy (enabled_of user) then get_or (id_of user) "" else ""

module _ (stringify : Option (List String) → String) where
  -- The test of `distinctUntilChanged`.
  unfoldable pub same_user : Option User → Option User → Bool
  same_user a b =
      same_text (id_of a) (id_of b)
      && same_flag (enabled_of a) (enabled_of b)
      && same_flag (admin_of a) (admin_of b)
      && str_eq (stringify (actions_of a)) (stringify (actions_of b))

  is_repeated : Option (Option User) → Option User → Bool
  is_repeated none user = false
  is_repeated (some last) user = same_user last user

  -- A user arrives: `accountChanged` ends the other requests, `switchMap` the fetch of the last.
  unfoldable pub user_changed : Option User → Tour → Tour
  unfolding is_repeated
  user_changed user s = if is_repeated s.user user then s else record s {
    user = some user;
    account = account_of user;
    generation = s.generation + 1;
    state = none;
    loading = truthy (enabled_of user);
    error = false;
    dismissed = false;
    session_fetch = if truthy (enabled_of user) then some (account_of user) else none;
    reload_fetch = none;
    seen_requests = [];
  }

-- What both subscriptions do with an answer of `fetch`: `none` is a failure.
unfoldable pub settle : String → Option (Option TourState) → Tour → Tour
settle owner none s = record s { state = none; loading = false; error = true; shown_for = owner }
settle owner (some state) s = record s { state = state; loading = false; shown_for = owner }

unfoldable pub session_fetched : Option (Option TourState) → Tour → Tour
unfolding settle
session_fetched answer s = elim s.session_fetch [
  | none ↦ s
  | some owner ↦ settle owner answer (record s { session_fetch = none })
]

-- `reload`
unfoldable pub reload : Tour → Tour
reload s = if str_eq s.account "" || s.loading then s else record s {
  loading = true;
  error = false;
  generation = s.generation + 1;
  reload_fetch = some s.account;
  seen_requests = [];
}

unfoldable pub reloaded : Option (Option TourState) → Tour → Tour
unfolding settle
reloaded answer s = elim s.reload_fetch [
  | none ↦ s
  | some owner ↦ settle owner answer (record s { reload_fetch = none })
]

-- `seen`, subscribed: a request for the present account. Without a state the call throws.
unfoldable pub seen : Tour → Tour
seen s = if is_some s.state then record s { seen_requests = s.account ∷ s.seen_requests } else s

unfoldable pub drop_at : ℕ → List String → List String
drop_at n [] = []
drop_at zero (x ∷ xs) = xs
drop_at (suc n) (x ∷ xs) = x ∷ drop_at n xs

-- The answer to one of these requests; `none` is a failure, which leaves the state.
unfoldable pub seen_answered : ℕ → Option (Option TourState) → Tour → Tour
unfolding drop_at
seen_answered n answer s = elim (get_elem? s.seen_requests n) [
  | none ↦ s
  | some owner ↦
      let t = record s { seen_requests = drop_at n s.seen_requests } in
      elim answer [ none ↦ t | some state ↦ record t { state = state; shown_for = owner } ]
]

-- `dismiss`
unfoldable pub dismiss : Tour → Tour
dismiss s = record s { dismissed = true }
