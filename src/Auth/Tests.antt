-- ===== src/Auth/Tests.antt =====
-- The laws of the session at concrete configurations and answers.
use asl_bissieux.Prelude.{◌≡◌, refl, true, false, ◌&&◌, not, [], ◌∷◌, Option, none, some, ◌==◌}
use asl_bissieux.Prelude.Strings.{String}
use asl_bissieux.Auth
use asl_bissieux.Auth.{
  Auth, Configuration, User, new, init, configured, session_loaded, is_active, is_administrator,
  is_allowed, remember_return_path,
}
use asl_bissieux.Auth.Access.{
  Addresses, Location, wait_for_authentication, login, login_at, intercept_error,
}
use asl_bissieux.Auth.Laws.{intercept_error_lem, login-wait_for_authentication}
use asl_bissieux.Auth.Requests.{Running, begin, make}

abbrev oidc : Configuration
oidc = record { mode = some "oidc"; login_url = some "/login" }

abbrev treasurer : User
treasurer = record {
  id = some "u";
  enabled = some true;
  admin = none;
  actions = some ("budgets" ∷ []);
}

abbrev asked : Auth
asked = (configured (some oidc) none new).0

abbrev signed_in : Auth
signed_in = session_loaded (some treasurer) asked

-- The service begins, asks for the configuration and then, in that mode, for the session.
abbrev waiting : Running
waiting = make (init false new) begin

abbrev asked_session : Running
asked_session =
    make (configured (some oidc) none waiting.auth) (record waiting { configurations = 0 })

abbrev in_session : Running
in_session = record asked_session {
  auth = session_loaded (some treasurer) asked_session.auth;
  sessions = 0;
}

signed_in_oidc : Auth.mode_is "oidc" signed_in.configuration ≡ true
unfolding configured new session_loaded
signed_in_oidc = refl

signed_in_rights : (is_allowed "budgets" signed_in ≡ true) × (is_administrator signed_in ≡ false)
unfolding configured new session_loaded is_allowed is_administrator
signed_in_rights = (refl, refl)

intercept_error_lem_example :
    ((intercept_error 401 signed_in).0 ≡ 401)
    × (is_active (intercept_error 401 signed_in).1 ≡ not (401 == 401) && is_active signed_in)
    × (is_allowed "budgets" (intercept_error 401 signed_in).1
        ≡ not (401 == 401) && is_allowed "budgets" signed_in)
    × ((intercept_error 401 signed_in).1.configuration ≡ signed_in.configuration)
intercept_error_lem_example = intercept_error_lem signed_in 401 "budgets" signed_in_oidc

-- Addresses of one origin, whose search parameter is the last that was set.
abbrev one_origin : Addresses
one_origin = record {
  Url = Option String;
  parse = λ path base. none;
  origin = λ u. "https://asl";
  set_param = λ k v u. some v;
  get_param = λ k u. u;
  origin-set_param = λ k v u. refl;
  get_param-set_param = λ k v u. refl;
}

abbrev here : Location
here = record { origin = "https://asl"; path = "/" }

abbrev refused : Auth
refused = remember_return_path "/users" signed_in

refused_by :
    wait_for_authentication is_administrator "/users" (new ∷ signed_in ∷ []) ≡ some (false, refused)
unfolding wait_for_authentication new session_loaded is_administrator remember_return_path
    configured
refused_by = refl

refused-login : login one_origin here refused ≡ some (some "/users")
unfolding login login_at new session_loaded remember_return_path configured
refused-login = refl

login-wait_for_authentication_example :
    (one_origin.origin (some "/users") ≡ here.origin)
    × (one_origin.get_param "return_to" (some "/users") ≡ some "/users")
login-wait_for_authentication_example =
    login-wait_for_authentication one_origin is_administrator "/users" (new ∷ signed_in ∷ [])
      refused here (some "/users") refused_by refused-login
