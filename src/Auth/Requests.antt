-- ===== src/Auth/Requests.antt =====
-- The session and the requests that it makes: which answers can come, and what they may change
-- (frontend/src/app/core/services/auth.service.ts).
-- An answer comes only to a request that a method has returned, and the Google library is heard only
-- once `configured` has set it.
use asl_bissieux.Prelude.{
  ℕ, ◌+◌, ◌-◌, ◌≤◌, ◌<◌, ◌≡◌, refl, ◌≢◌, Bool, true, false, Option, none, some, arith,
}
use asl_bissieux.Prelude.Strings.{String, str_eq, eq_iff}
use asl_bissieux.Auth.{
  Auth, Configuration, User, Request, quiet, configuring, session, new, mode_is, init,
  google_token_changed, configured, session_loaded, session_failed, session_expired, refresh,
  remember_return_path, logged_out, logout_failed,
}
use asl_bissieux.Auth.Access.{authorization}

-- The service, and how many calls of `getAuthConfig` and of `getCurrentUser` have no answer yet.
pub record Running : Type 0 where
  pub auth : Auth
  pub configurations : ℕ
  pub sessions : ℕ

unfoldable pub begin : Running
begin = record { auth = new; configurations = 0; sessions = 0 }

-- The request that a method returns is made.
unfoldable pub make : Auth × Request → Running → Running
make (a, quiet) s = record s { auth = a }
make (a, configuring) s = record s { auth = a; configurations = s.configurations + 1 }
make (a, session) s = record s { auth = a; sessions = s.sessions + 1 }

pub data Step (s t : Running) : Type 0 where
  inits : (failed : Bool) → t ≡ make (init failed s.auth) s → Step s t
  configures :
      (c : Option Configuration) (token : Option String)
      → 0 < s.configurations
      → t ≡ make (configured c token s.auth) (record s { configurations = s.configurations - 1 })
      → Step s t
  changes_token :
      (token : Option String)
      → s.auth.google ≡ true
      → t ≡ make (google_token_changed token s.auth) s
      → Step s t
  loads :
      (user : Option User)
      → 0 < s.sessions
      → t ≡ record s { auth = session_loaded user s.auth; sessions = s.sessions - 1 }
      → Step s t
  fails :
      (status : ℕ)
      → 0 < s.sessions
      → t ≡ record s { auth = session_failed status s.auth; sessions = s.sessions - 1 }
      → Step s t
  refreshes : t ≡ make (s.auth, refresh s.auth) s → Step s t
  expires : t ≡ record s { auth = session_expired s.auth } → Step s t
  remembers : (path : String) → t ≡ record s { auth = remember_return_path path s.auth } → Step s t
  logs_out :
      (redirect : Option String) → t ≡ record s { auth = (logged_out redirect s.auth).0 } → Step s t
  fails_logout : t ≡ record s { auth = logout_failed s.auth } → Step s t

pub data Reach : Running → Type 0 where
  start : Reach begin
  step : {s t : Running} → Reach s → Step s t → Reach t

pub record IsEntitled (s : Running) : Type 0 where
  -- The configuration is asked for once, by `init`, and known only from the answer.
  pub asked_once : s.configurations ≤ 1
  pub before_init :
      s.auth.initialized ≡ false → (s.configurations ≡ 0) × (s.auth.configuration ≡ none)
  pub unanswered : 0 < s.configurations → s.auth.configuration ≡ none
  -- The session is asked for only under a configuration.
  pub asked_configured : 0 < s.sessions → s.auth.configuration ≢ none
  pub user_configured : s.auth.user ≢ none → s.auth.configuration ≢ none
  -- A bearer token is held only in the mode of Google, whose library is heard only there.
  pub token_google : s.auth.token ≢ none → mode_is "google" s.auth.configuration ≡ true
  pub google_mode : s.auth.google ≡ true → mode_is "google" s.auth.configuration ≡ true
  -- Who waits for the end of the loading waits for a request.
  pub awaits : s.auth.initialized ≡ true → s.auth.loading ≡ true → 0 < s.configurations + s.sessions

Step-IsEntitled : {s t : Running} → Step s t → IsEntitled s → IsEntitled t
unfolding make init configured google_token_changed session_loaded session_failed session_expired
    refresh remember_return_path logged_out logout_failed
Step-IsEntitled (inits failed e) c = ground arith
Step-IsEntitled (configures none token k e) c = ground arith
Step-IsEntitled (configures (some f) token k e) c = ground arith
Step-IsEntitled (changes_token token k e) c = ground arith
Step-IsEntitled (loads user k e) c = ground arith
Step-IsEntitled (fails status k e) c = ground arith
Step-IsEntitled (refreshes e) c = ground arith
Step-IsEntitled (expires e) c = ground arith
Step-IsEntitled (remembers path e) c = ground arith
Step-IsEntitled (logs_out redirect e) c = ground arith
Step-IsEntitled (fails_logout e) c = ground arith

begin-IsEntitled : IsEntitled begin
unfolding begin new
begin-IsEntitled = ground arith

pub Reach-IsEntitled : {s : Running} → Reach s → IsEntitled s
Reach-IsEntitled start = begin-IsEntitled
Reach-IsEntitled (step r st) = Step-IsEntitled st (Reach-IsEntitled r)

one_mode : (c : Option Configuration) → mode_is "oidc" c ≡ true → mode_is "google" c ≡ false
one_mode none h = refl
one_mode (some c) h = mode_at c.mode h
  where
    mode_at :
        (m : Option String)
        → elim m [ none ↦ false | some mode ↦ str_eq mode "oidc" ] ≡ true
        → elim m [ none ↦ false | some mode ↦ str_eq mode "google" ] ≡ false
    mode_at none h = refl
    mode_at (some mode) h = let same : mode ≡ "oidc" = (eq_iff mode "oidc").0 h in rw same

-- In the mode of OpenID Connect no request carries a bearer token: the session alone counts.
pub authorization-oidc :
    (s : Running)
    → Reach s
    → mode_is "oidc" s.auth.configuration ≡ true
    → authorization s.auth.token ≡ none
unfolding authorization
authorization-oidc s r h =
    let c = Reach-IsEntitled r in ground (arith, one_mode s.auth.configuration h)
