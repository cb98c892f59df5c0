-- ===== src/Prelude/Strings.antt =====
-- Texts that are only compared: names, identifiers, states.
pub use Prim.Native.String.{String}
pub use text.Mathlib.Text.{◌==◌ as str_eq}
pub use text.Mathlib.TextEquality.{eq_iff}
pub use text.Mathlib.TextPositions.{eq_refl}
