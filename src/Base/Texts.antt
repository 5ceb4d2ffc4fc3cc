-- ===== src/Base/Texts.antt =====
-- Native strings: equality as a Boolean test, and membership in a list of strings.
use Prim.Native.String.{String}
use mathlib.Core.Bool.{Bool, ◌||◌, false}
use mathlib.Core.List.{List, [], ◌∷◌}
pub use text.Mathlib.Text.{◌==◌ as str_eq, starts_with}
pub use text.Mathlib.TextEquality.{eq_iff}
pub use text.Mathlib.TextPositions.{eq_refl}

-- `s in xs`
abbrev pub str_mem : String → List String → Bool
str_mem s [] = false
str_mem s (x ∷ xs) = str_eq s x || str_mem s xs
