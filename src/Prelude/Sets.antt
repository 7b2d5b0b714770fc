-- ===== src/Prelude/Sets.antt =====
-- std::set<uint32_t>: a list in increasing order.
use Prim.Native.Nat.{ℕ, compare, Ordering}
use mathlib.Core.Bool.{Bool, false, ◌||◌}
use mathlib.Core.Path.{◌≡◌}
use native.Mathlib.Omega.{arith}
use mathlib.Core.List.{List, [], ◌∷◌}
use basebox.Prelude.Tests.{◌==◌}

unfoldable pub contains : ℕ → List ℕ → Bool
contains a [] = false
contains a (b ∷ s) = a == b || contains a s

unfoldable pub add : ℕ → List ℕ → List ℕ
add a [] = a ∷ []
add a (b ∷ s) = elim (compare a b) [
  | Ordering.lt ↦ a ∷ b ∷ s
  | Ordering.eq ↦ b ∷ s
  | Ordering.gt ↦ b ∷ add a s
]

pub contains-add : (x a : ℕ) (s : List ℕ) → contains x (add a s) ≡ (x == a || contains x s)
unfolding contains add
contains-add x a [] = ground arith
contains-add x a (b ∷ s) = ground (arith, contains-add x a s)
