-- ===== src/Prelude/Maps.antt =====
-- std::map: an association list in the order of its keys, since the source iterates over it.
use Prim.Native.Nat.{ℕ, compare, Ordering}
use mathlib.Core.Path.{◌≡◌, refl}
use mathlib.Core.Logic.{◌↔◌}
use mathlib.Core.Bool.{Bool, true, false}
use mathlib.Core.Option.{Option, none, some}
use mathlib.Core.List.{List, [], ◌∷◌}
use native.Mathlib.Omega.{arith}
use basebox.Prelude.Tests.{if◌then◌else◌}

-- A type of keys: `cmp` is the order that std::less gives, and equality is its `eq` case.
pub record Key {ℓ} (K : Type ℓ) : Type ℓ where
  pub cmp : K → K → Ordering
  pub cmp_iff : (a b : K) → (cmp a b ≡ Ordering.eq) ↔ (a ≡ b)

abbrev pub same {ℓ} : {K : Type ℓ} ⦃k : Key K⦄ → K → K → Bool
same ⦃k⦄ a b = elim (k.cmp a b) [ Ordering.eq ↦ true | _ ↦ false ]

pub nat_cmp_iff : (a b : ℕ) → (compare a b ≡ Ordering.eq) ↔ (a ≡ b)
nat_cmp_iff a b = ground arith

instance abbrev pub nat_key : Key ℕ
nat_key = record { cmp = compare; cmp_iff = nat_cmp_iff }

-- std::pair and std::tuple compare the first components first.
abbrev pub lexicographic : Ordering → Ordering → Ordering
lexicographic Ordering.lt o = Ordering.lt
lexicographic Ordering.eq o = o
lexicographic Ordering.gt o = Ordering.gt

module _ {ℓ κ} {A : Type ℓ} {B : Type κ} ⦃a : Key A⦄ ⦃b : Key B⦄ where
  abbrev pub pair_cmp : A × B → A × B → Ordering
  pair_cmp (x, y) (z, w) = lexicographic (a.cmp x z) (b.cmp y w)

  pub pair_cmp_iff : (p q : A × B) → (pair_cmp p q ≡ Ordering.eq) ↔ (p ≡ q)
  pair_cmp_iff (x, y) (z, w) = ground (arith, a.cmp_iff x z, b.cmp_iff y w)

  instance abbrev pub pair_key : Key (A × B)
  pair_key = record { cmp = pair_cmp; cmp_iff = pair_cmp_iff }

module _ {ℓ} {K : Type ℓ} ⦃k : Key K⦄ where
  pub same_iff : (a b : K) → (same a b ≡ true) ↔ (a ≡ b)
  same_iff a b = ground (arith, k.cmp_iff a b)

  pub same_refl : (a : K) → same a a ≡ true
  same_refl a = (same_iff a a).1 refl

abbrev pub Map {ℓ κ} : Type ℓ → Type κ → Type (ℓ ⊔ κ)
Map K V = List (K × V)

module _ {ℓ κ} {K : Type ℓ} {V : Type κ} ⦃k : Key K⦄ where
  unfoldable pub find : K → Map K V → Option V
  find a [] = none
  find a ((b, v) ∷ m) = if same a b then some v else find a m

  -- `m[a] = v`, also through an iterator.
  unfoldable pub insert_or_assign : K → V → Map K V → Map K V
  insert_or_assign a v [] = (a, v) ∷ []
  insert_or_assign a v ((b, w) ∷ m) = elim (k.cmp a b) [
    | Ordering.lt ↦ (a, v) ∷ (b, w) ∷ m
    | Ordering.eq ↦ (b, v) ∷ m
    | Ordering.gt ↦ (b, w) ∷ insert_or_assign a v m
  ]

  -- `emplace`, `try_emplace` and `insert` keep an entry that is there.
  unfoldable pub emplace : K → V → Map K V → Map K V
  emplace a v m = elim (find a m) [ none ↦ insert_or_assign a v m | some _ ↦ m ]

  unfoldable pub erase : K → Map K V → Map K V
  erase a [] = []
  erase a ((b, w) ∷ m) = if same a b then erase a m else (b, w) ∷ erase a m

  pub find-insert_or_assign :
      (a j : K) (v : V) (m : Map K V)
      → find j (insert_or_assign a v m) ≡ (if same j a then some v else find j m)
  unfolding find insert_or_assign
  find-insert_or_assign a j v [] = refl
  find-insert_or_assign a j v ((b, w) ∷ m) =
      ground (arith, k.cmp_iff j a, k.cmp_iff j b, k.cmp_iff a b, find-insert_or_assign a j v m)

  pub find-erase :
      (a j : K) (m : Map K V) → find j (erase a m) ≡ (if same j a then none else find j m)
  unfolding find erase
  find-erase a j [] = ground arith
  find-erase a j ((b, w) ∷ m) =
      ground (arith, k.cmp_iff j a, k.cmp_iff j b, k.cmp_iff a b, find-erase a j m)

  pub find-emplace :
      (a j : K) (v : V) (m : Map K V)
      → find j (emplace a v m)
        ≡ elim (find a m) [ none ↦ if same j a then some v else find j m | some _ ↦ find j m ]
  unfolding emplace
  find-emplace a j v m = ground (arith, find-insert_or_assign a j v m)
