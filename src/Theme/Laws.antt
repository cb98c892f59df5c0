-- ===== src/Theme/Laws.antt =====
-- The document shows the preference, and the next visit finds it again
-- (frontend/src/app/core/services/theme.service.ts).
use asl_bissieux.Prelude.{◌≡◌, refl, Bool, true, List, [], ◌∷◌, some, arith, Bool-cases, inl, inr}
use asl_bissieux.Theme.{
  Preference, system, light, dark, Browser, Theme, text_of, named, read_preference, resolved, apply,
  new, change_system, store, set_preference,
}

pub data Event : Type 0 where
  changes_system : Bool → Event
  sets_preference : Preference → Event

abbrev pub handle : Event → Theme → Theme
handle (changes_system b) s = change_system b s
handle (sets_preference p) s = set_preference p s

unfoldable pub run : List Event → Theme → Theme
run [] s = s
run (e ∷ es) s = run es (handle e s)

pub record IsShown (s : Theme) : Type 0 where
  pub theme_exact : s.browser.theme ≡ some (resolved s)
  pub preference_exact : s.browser.theme_preference ≡ some (text_of s.choice)
  pub kept : s.browser.storable ≡ true → read_preference s.browser ≡ s.choice

named_text : (p : Preference) → named (some (text_of p)) ≡ p
named_text system = refl
named_text light = refl
named_text dark = refl

apply-IsShown :
    (s : Theme)
    → (s.browser.storable ≡ true → read_preference s.browser ≡ s.choice)
    → IsShown (apply s)
unfolding apply read_preference resolved
apply-IsShown s k = record { theme_exact = refl; preference_exact = refl; kept = k }

read_preference-store :
    (p : Preference) (b : Browser) → (store p b).storable ≡ true → read_preference (store p b) ≡ p
unfolding store read_preference
read_preference-store p b h = elim (Bool-cases b.storable) [
  | inl e ↦ rw e (named_text p)
  | inr e ↦ ground (arith, h)
]

handle-IsShown : (e : Event) (s : Theme) → IsShown s → IsShown (handle e s)
unfolding change_system set_preference
handle-IsShown (changes_system b) s i = apply-IsShown (record s { system_dark = b }) i.kept
handle-IsShown (sets_preference p) s i =
    apply-IsShown (record s { choice = p; browser = store p s.browser })
      (read_preference-store p s.browser)

run-IsShown : (es : List Event) (s : Theme) → IsShown s → IsShown (run es s)
unfolding run
run-IsShown [] s i = i
run-IsShown (e ∷ es) s i = run-IsShown es (handle e s) (handle-IsShown e s i)

-- After any choices and changes of the system, the document bears the theme that the choice resolves
-- to and the choice itself, and, where the storage can be used, a service that starts anew reads
-- that choice.
pub run-new-IsShown :
    (es : List Event) (system_dark : Bool) (b : Browser) → IsShown (run es (new system_dark b))
unfolding new
run-new-IsShown es system_dark b = run-IsShown es _ (
    apply-IsShown (record { system_dark = system_dark; choice = read_preference b; browser = b })
      (λ h. refl))
