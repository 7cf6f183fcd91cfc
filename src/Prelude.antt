-- ===== src/Prelude.antt =====
-- The names that the other modules share: the libraries', passed on, and those of the children.
-- Texts that the program only stores and compares (identifiers, names, seat labels, keys) are
-- numbers, and the empty text is 0.
mod Tests
pub mod Int
pub mod Float
pub mod Codes
pub mod Picks
mod Tables
pub use Tests.*
pub use Tables.*
pub use Prim.Native.Nat.{ℕ, zero, suc, ◌+◌, ◌-◌, ◌*◌, ◌/◌, ◌%◌, ◌≤◌, ◌<◌}
pub use mathlib.Core.Path.{◌≡◌, refl, sym, ap, ◌∙◌}
pub use mathlib.Core.Logic.{◌≢◌, ◌↔◌, ◌⊎◌, inl, inr}
pub use mathlib.Core.Bool.{Bool, true, false, not, ◌&&◌, ◌||◌}
pub use mathlib.Core.Option.{Option, none, some}
pub use mathlib.Core.List.{List, [], ◌∷◌, ◌++◌, map}
pub use native.Mathlib.Omega.{arith}

abbrev pub Text : Type 0
Text = ℕ

abbrev pub Uuid : Type 0
Uuid = ℕ

-- a point of time, in seconds
abbrev pub Time : Type 0
Time = ℕ

-- Go's empty string
abbrev pub empty_text : Text
empty_text = 0
