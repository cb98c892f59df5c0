-- ===== src/Auth/Access.antt =====
-- frontend/src/app/core/guards/auth.guard.ts, core/interceptors/auth-interceptor.ts and `login` of
-- core/services/auth.service.ts: what a page, a request and the sign-in are allowed.
-- The class `URL` of the browser is the parameter `Addresses`.
use asl_bissieux.Prelude.{
  ℕ, Bool, not, List, [], ◌∷◌, Option, none, some, if◌then◌else◌, get_or, ◌==◌, ◌≡◌,
}
use Prim.Native.String
use asl_bissieux.Prelude.Strings.{String, str_eq}
use asl_bissieux.Auth.{Auth, is_active, is_administrator, session_expired, remember_return_path}

-- `waitForAuthentication` on the states that its two streams show, one after the other: the
-- decision of the first that does not load, and the state that it leaves.
unfoldable pub wait_for_authentication : (Auth → Bool) → String → List Auth → Option (Bool × Auth)
wait_for_authentication allowed path [] = none
wait_for_authentication allowed path (s ∷ rest) =
    let later = wait_for_authentication allowed path rest in
    if s.loading
    then later
    else some (allowed s, if allowed s then s else remember_return_path path s)

-- `isAuthenticated`, `isAdministrator`
unfoldable pub is_authenticated_guard : String → List Auth → Option (Bool × Auth)
is_authenticated_guard = wait_for_authentication is_active

unfoldable pub is_administrator_guard : String → List Auth → Option (Bool × Auth)
is_administrator_guard = wait_for_authentication is_administrator

-- `URL`: reading an address against a base, its origin, and its search parameters.
pub record Addresses : Type 1 where
  pub Url : Type 0
  pub parse : String → String → Url
  pub origin : Url → String
  pub set_param : String → String → Url → Url
  pub get_param : String → Url → Option String
  -- A search parameter is no part of the origin, and is read back as it was set.
  pub origin-set_param : (k v : String) (u : Url) → origin (set_param k v u) ≡ origin u
  pub get_param-set_param : (k v : String) (u : Url) → get_param k (set_param k v u) ≡ some v

-- `window.location`: the origin, and the path with the search and the hash.
pub record Location : Type 0 where
  pub origin : String
  pub path : String

module _ (A : Addresses) where
  open A use {Url, parse, origin, set_param}

  -- `login`, at a login address.
  unfoldable pub login_at : Location → String → Auth → Option Url
  login_at here path s =
      let login = parse path here.origin in
      if not (str_eq (origin login) here.origin)
      then none
      else some (set_param "return_to" (get_or s.return_path here.path) login)

  -- `login`: the address to go to.
  unfoldable pub login : Location → Auth → Option Url
  login here s = elim s.configuration [
    | none ↦ none
    | some c ↦ elim c.login_url [
      | none ↦ none
      | some path ↦ if str_eq path "" then none else login_at here path s
    ]
  ]

-- The header `Authorization` that `intercept` sets on a request.
unfoldable pub authorization : Option String → Option String
authorization none = none
authorization (some token) = if str_eq token "" then none else some (String.◌++◌ "Bearer " token)

-- `intercept`, on the answer: the error goes on to the caller, and 401 ends the session.
unfoldable pub intercept_error : ℕ → Auth → ℕ × Auth
intercept_error status s = (status, if status == 401 then session_expired s else s)
