-- ===== src/Prelude/ByteLists.antt =====
-- Sequences of bytes.
use Prim.Native.Nat.{ℕ}
use mathlib.Core.Path.{◌≡◌}
use mathlib.Core.Bool.{Bool, true, false}
use mathlib.Core.Logic.{◌↔◌}
use mathlib.Core.List.{List, [], ◌∷◌}
use native.Mathlib.Omega.{arith}
use zallet.Prelude.Tests.{◌==◌, ==_iff, if◌then◌else◌}
use zallet.Prelude.Sets.{Eq}

abbrev pub Bytes : Type 0
Bytes = List ℕ

abbrev pub same : Bytes → Bytes → Bool
same [] [] = true
same (x ∷ xs) (y ∷ ys) = let rest = same xs ys in if x == y then rest else false
same _ _ = false

pub same_iff : (a b : Bytes) → (same a b ≡ true) ↔ (a ≡ b)
same_iff [] [] = grind arith
same_iff [] (y ∷ ys) = grind arith
same_iff (x ∷ xs) [] = grind arith
same_iff (x ∷ xs) (y ∷ ys) = grind (arith, same_iff xs ys, ==_iff x y)

instance abbrev pub bytes_eq : Eq Bytes
bytes_eq = record { beq = same; beq_iff = same_iff }
