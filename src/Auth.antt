-- ===== src/Auth.antt =====
-- frontend/src/app/core/services/auth.service.ts: who is signed in, and what the user may do. The
-- guards (core/guards/auth.guard.ts) and the interceptor (core/interceptors/auth-interceptor.ts)
-- are in `Access`.
-- The answers of the API and of the Google library are events; `session` in the second part of a
-- result says that `loadSession` was subscribed. Addresses are those of `Access`.
pub mod Access
pub mod Laws
pub mod Requests
mod Tests
use asl_bissieux.Prelude.{
  Bool, true, false, ◌&&◌, ◌||◌, not, List, [], ◌∷◌, Option, none, some, if◌then◌else◌, any,
  is_some, get_or, ◌==◌, ℕ,
}
use asl_bissieux.Prelude.Strings.{String, str_eq}

-- `AuthPublicAuthConfig`
pub record Configuration : Type 0 where
  pub mode : Option String
  pub login_url : Option String

-- `AuthUser`
pub record User : Type 0 where
  pub id : Option String
  pub enabled : Option Bool
  pub admin : Option Bool
  pub actions : Option (List String)

-- The messages, by what they say.
pub data Message : Type 0 where
  sign_in_failed unavailable unverified expired sign_out_failed : Message

pub record Auth : Type 0 where
  pub initialized : Bool
  pub configuration : Option Configuration
  pub loading : Bool
  pub message : Option Message
  pub user : Option User
  pub token : Option String
  pub return_path : Option String
  -- `_google` is set, and its events are heard.
  pub google : Bool

pub data Request : Type 0 where
  quiet configuring session : Request

unfoldable pub new : Auth
new = record {
  initialized = false;
  configuration = none;
  loading = true;
  message = none;
  user = none;
  token = none;
  return_path = none;
  google = false;
}

-- `!!flag`
abbrev pub truthy : Option Bool → Bool
truthy flag = get_or flag false

-- `active$`
unfoldable pub is_active : Auth → Bool
is_active s = elim s.user [ none ↦ false | some user ↦ truthy user.enabled ]

-- `administrator$`
unfoldable pub is_administrator : Auth → Bool
is_administrator s = elim s.user [
  | none ↦ false
  | some user ↦ truthy user.enabled && truthy user.admin
]

-- `allowed$`
unfoldable pub is_allowed : String → Auth → Bool
is_allowed action s = elim s.user [
  | none ↦ false
  | some user ↦
      truthy user.enabled
      && (truthy user.admin || any (λ other. str_eq other action) (get_or user.actions []))
]

-- `mode` of the configuration.
abbrev pub mode_is : String → Option Configuration → Bool
mode_is name none = false
mode_is name (some c) = elim c.mode [ none ↦ false | some mode ↦ str_eq mode name ]

-- `clearUser`
unfoldable pub clear_user : Auth → Auth
clear_user s = record s { user = none; token = none }

-- `init`, at an address that has the parameter `auth_error` or not.
unfoldable pub init : Bool → Auth → Auth × Request
init auth_error s = if s.initialized then (s, quiet) else (
  record s { initialized = true; message = if auth_error then some sign_in_failed else s.message },
  configuring,
)

-- `configurationUnavailable`
unfoldable pub configuration_unavailable : Auth → Auth
configuration_unavailable s = record s { loading = false; message = some unavailable }

-- `googleTokenChanged`, with what `getAccessToken` gives.
unfoldable pub google_token_changed : Option String → Auth → Auth × Request
unfolding clear_user
google_token_changed token s =
    let t = record s { token = token } in
    elim token [
      | none ↦ (record (clear_user t) { loading = false }, quiet)
      | some text ↦
          if str_eq text ""
          then (record (clear_user t) { loading = false }, quiet)
          else (t, session)
    ]

-- The answer to `getAuthConfig`; `token` is what the Google library has at once.
unfoldable pub configured : Option Configuration → Option String → Auth → Auth × Request
unfolding configuration_unavailable google_token_changed
configured none token s = (configuration_unavailable s, quiet)
configured (some c) token s =
    if mode_is "oidc" (some c)
    then (record s { configuration = some c }, session)
    else if mode_is "google" (some c)
    then google_token_changed token (record s { configuration = some c; google = true })
    else (configuration_unavailable s, quiet)

-- The answers to `getCurrentUser`, in `loadSession`.
unfoldable pub session_loaded : Option User → Auth → Auth
session_loaded user s = record s { user = user; loading = false }

unfoldable pub session_failed : ℕ → Auth → Auth
unfolding clear_user
session_failed status s =
    let t = clear_user s in
    record t { loading = false; message = if status == 401 then s.message else some unverified }

-- `refresh`: what it asks of the API; the Google library is asked for a token instead.
unfoldable pub refresh : Auth → Request
refresh s = if mode_is "oidc" s.configuration then session else quiet

-- `sessionExpired`
unfoldable pub session_expired : Auth → Auth
unfolding clear_user
session_expired s =
    if not (mode_is "oidc" s.configuration)
    then s
    else clear_user (record s { message = if is_some s.user then some expired else s.message })

-- `rememberReturnPath`
unfoldable pub remember_return_path : String → Auth → Auth
remember_return_path path s = record s { return_path = some path }

-- The answers to `logout`, of the server or of the Google library: the address to go to.
unfoldable pub logged_out : Option String → Auth → Auth × Option String
unfolding clear_user
logged_out redirect s = (
  clear_user s,
  elim redirect [ none ↦ none | some url ↦ if str_eq url "" then none else some url ],
)

unfoldable pub logout_failed : Auth → Auth
logout_failed s = record s { message = some sign_out_failed }
