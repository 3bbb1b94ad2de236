-- ===== src/Prelude/Texts.antt =====
-- Texts as lists of bytes, where the program walks them, and their comparison.
use text.Mathlib.Text.{◌==◌ as str_eq}
use text.Mathlib.TextEquality.{eq_iff}
use Prim.Native.Nat.{ℕ}
use Prim.Native.Char.{code}
use Prim.Native.String.{String}
use mathlib.Core.Path.{◌≡◌}
use mathlib.Core.Bool.{Bool, true, false, ◌&&◌}
use mathlib.Core.Logic.{◌↔◌, ◌≢◌}
use mathlib.Core.List.{List, [], ◌∷◌, ◌++◌}
use mathlib.Core.Option.{Option, some}
use native.Mathlib.Omega.{arith}
use arca_router.Prelude.Tests.{◌==◌}

abbrev pub Bytes : Type 0
Bytes = List ℕ

-- The code points of a text: its bytes, if it is ASCII.
abbrev pub codes : String → Bytes
codes String.[] = []
codes (String.◌∷◌ c s) = code c ∷ codes s

unfoldable pub bytes_eq : Bytes → Bytes → Bool
bytes_eq [] [] = true
bytes_eq (x ∷ xs) (y ∷ ys) = x == y && bytes_eq xs ys
bytes_eq _ _ = false

pub bytes_eq_iff : (a b : Bytes) → (bytes_eq a b ≡ true) ↔ (a ≡ b)
unfolding bytes_eq
bytes_eq_iff (x ∷ xs) (y ∷ ys) = ground (arith, bytes_eq_iff xs ys)
bytes_eq_iff _ _ = ground arith

-- The sink that keeps what is written to it.
abbrev pub append_sink : Bytes → Bytes → Option Bytes
append_sink w bytes = some (w ++ bytes)

-- A failed comparison of names, both ways round.
pub ne_of_str_eq : (a b : String) → str_eq a b ≡ false → (a ≢ b) × (b ≢ a)
ne_of_str_eq a b h = (λ e. ground (arith, eq_iff a b), λ e. ground (arith, eq_iff a b))
