-- ===== src/Theme.antt =====
-- frontend/src/app/core/services/theme.service.ts: the preference of colours.
-- `stored` is what the local storage holds under `asl-theme`, `storable` whether the storage can be
-- used; the two last fields are the attributes of the document that `apply` sets.
pub mod Laws
mod Tests
use asl_bissieux.Prelude.{Bool, true, false, Option, none, some, if◌then◌else◌, ◌||◌}
use asl_bissieux.Prelude.Strings.{String, str_eq}

-- `ThemePreference`
pub data Preference : Type 0 where
  system light dark : Preference

pub record Browser : Type 0 where
  pub storable : Bool
  pub stored : Option String
  pub theme : Option String
  pub theme_preference : Option String

pub record Theme : Type 0 where
  pub system_dark : Bool
  pub choice : Preference
  pub browser : Browser

abbrev pub text_of : Preference → String
text_of system = "system"
text_of light = "light"
text_of dark = "dark"

-- The preference that a text names.
abbrev pub named : Option String → Preference
named none = system
named (some value) =
    if str_eq value "light" then light else if str_eq value "dark" then dark else system

-- `readPreference`
unfoldable pub read_preference : Browser → Preference
read_preference b = if b.storable then named b.stored else system

abbrev pub resolve : Preference → Bool → String
resolve system system_dark = if system_dark then "dark" else "light"
resolve light system_dark = "light"
resolve dark system_dark = "dark"

-- `resolved`
unfoldable pub resolved : Theme → String
resolved s = resolve s.choice s.system_dark

-- `apply`
unfoldable pub apply : Theme → Theme
unfolding resolved
apply s = record s {
  browser = record s.browser {
    theme = some (resolved s);
    theme_preference = some (text_of s.choice);
  };
}

-- A new service, for what the system prefers.
unfoldable pub new : (system_dark : Bool) → Browser → Theme
unfolding apply read_preference
new system_dark b =
    apply (record { system_dark = system_dark; choice = read_preference b; browser = b })

-- The system changes its preference.
unfoldable pub change_system : Bool → Theme → Theme
unfolding apply
change_system matches s = apply (record s { system_dark = matches })

unfoldable pub store : Preference → Browser → Browser
store preference b = if b.storable then record b { stored = some (text_of preference) } else b

-- `setPreference`
unfoldable pub set_preference : Preference → Theme → Theme
unfolding apply store
set_preference preference s =
    apply (record s { choice = preference; browser = store preference s.browser })
