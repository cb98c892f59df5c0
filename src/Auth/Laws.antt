-- ===== src/Auth/Laws.antt =====
-- What the sign-in, the guards and the requests keep of the session
-- (frontend/src/app/core/services/auth.service.ts, core/guards, core/interceptors).
use asl_bissieux.Prelude.{
  ℕ, ◌≡◌, refl, ap, ◌∙◌, Bool, true, false, ◌&&◌, not, List, [], ◌∷◌, ◌++◌, Option, none, some,
  arith, if◌then◌else◌, get_or, ◌==◌, All, Bool-cases, inl, inr,
}
use asl_bissieux.Prelude.Strings.{String, str_eq, eq_iff}
use asl_bissieux.Auth.{
  Auth, Configuration, is_active, is_administrator, is_allowed, mode_is, session_expired,
  remember_return_path,
}
use asl_bissieux.Auth.Access.{
  wait_for_authentication, Addresses, Location, login, login_at, intercept_error,
}

-- An administrator is active and may do everything; who may do anything is active; and a user who
-- is not enabled, or nobody, may do nothing.
pub permissions_lem :
    (s : Auth) (action : String)
    → (is_administrator s ≡ is_administrator s && is_active s && is_allowed action s)
      × (is_allowed action s ≡ is_allowed action s && is_active s)
unfolding is_administrator is_active is_allowed
permissions_lem s action = ground arith

-- In the mode of OpenID Connect an error reaches the caller with its status, 401 takes every right
-- away, any other status leaves the rights as they are, and the configuration stays.
pub intercept_error_lem :
    (s : Auth) (status : ℕ) (action : String)
    → mode_is "oidc" s.configuration ≡ true
    → ((intercept_error status s).0 ≡ status)
      × (is_active (intercept_error status s).1 ≡ not (status == 401) && is_active s)
      × (is_allowed action (intercept_error status s).1
          ≡ not (status == 401) && is_allowed action s)
      × ((intercept_error status s).1.configuration ≡ s.configuration)
unfolding intercept_error session_expired is_active is_allowed
intercept_error_lem s status action h = ground arith

-- The states before the first that does not load decide nothing; that one decides alone.
pub wait_for_authentication-append :
    (allowed : Auth → Bool) (path : String) (before after : List Auth) (s : Auth)
    → All (λ t. t.loading ≡ true) before
    → s.loading ≡ false
    → wait_for_authentication allowed path (before ++ s ∷ after)
      ≡ some (allowed s, if allowed s then s else remember_return_path path s)
unfolding wait_for_authentication
wait_for_authentication-append allowed path [] after s b h = ground arith
wait_for_authentication-append allowed path (t ∷ before) after s b h =
    rw b.0 (wait_for_authentication-append allowed path before after s b.1 h)

module _ (A : Addresses) where
  open A use {Url, parse, origin, set_param, get_param, origin-set_param, get_param-set_param}

  login_at_lem :
      (here : Location) (path : String) (s : Auth) (u : Url)
      → login_at A here path s ≡ some u
      → (origin u ≡ here.origin) × (get_param "return_to" u ≡ some (get_or s.return_path here.path))
  unfolding login_at
  login_at_lem here path s u e =
      let base = parse path here.origin in
      let target = set_param "return_to" (get_or s.return_path here.path) base in
      elim (Bool-cases (str_eq (origin base) here.origin)) [
        | inl same ↦
            let reached : target ≡ u = ground arith in
            rw (← reached) (
              origin-set_param _ _ _ ∙ (eq_iff (origin base) here.origin).0 same,
              get_param-set_param _ _ _,
            )
        | inr other ↦ absurd (ground arith)
      ]

  login_by :
      (here : Location) (s : Auth) (u : Url) (c : Option Configuration)
      → s.configuration ≡ c
      → login A here s ≡ some u
      → (path : String) × (login_at A here path s ≡ some u)
  unfolding login
  login_by here s u none ec e = absurd (ground arith)
  login_by here s u (some c) ec e = url_by c.login_url refl
    where
      url_by :
          (url : Option String)
          → c.login_url ≡ url
          → (path : String) × (login_at A here path s ≡ some u)
      url_by none eu = absurd (ground arith)
      url_by (some path) eu = (path, ground (arith, eq_iff path ""))

  -- The sign-in leaves the application only for an address of its own origin, and asks to come
  -- back to the page that was refused last, or to the present one.
  pub login_lem :
      (here : Location) (s : Auth) (u : Url)
      → login A here s ≡ some u
      → (origin u ≡ here.origin) × (get_param "return_to" u ≡ some (get_or s.return_path here.path))
  login_lem here s u e =
      let (path, at) = login_by here s u s.configuration refl e in login_at_lem here path s u at

  wait_denied :
      (allowed : Auth → Bool) (path : String) (states : List Auth) (t : Auth)
      → wait_for_authentication allowed path states ≡ some (false, t)
      → t.return_path ≡ some path
  unfolding wait_for_authentication remember_return_path
  wait_denied allowed path [] t e = cc
  wait_denied allowed path (s ∷ states) t e = ground (arith, wait_denied allowed path states t)

  -- Who is turned away from a page and signs in then comes back to that page.
  pub login-wait_for_authentication :
      (allowed : Auth → Bool) (path : String) (states : List Auth) (t : Auth) (here : Location)
      (u : Url)
      → wait_for_authentication allowed path states ≡ some (false, t)
      → login A here t ≡ some u
      → (origin u ≡ here.origin) × (get_param "return_to" u ≡ some path)
  login-wait_for_authentication allowed path states t here u denied e =
      let (same, back) = login_lem here t u e in
      (same, back ∙ ap (λ o. some (get_or o here.path)) (wait_denied allowed path states t denied))
