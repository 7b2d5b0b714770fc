-- ===== src/Bridge/MdbSets.antt =====
-- std::set of memberships as an ordered list.
use Prim.Native.Nat.{Ordering}
use basebox.Prelude.{
  ◌≡◌, refl, ◌⊎◌, inl, inr, Bool, false, ◌||◌, List, [], ◌∷◌, arith, nat_key, pair_key, same,
  same_iff,
}
use basebox.Bridge.Mdb.{Membership, order, insert}

abbrev pub among : Membership → List Membership → Bool
among e [] = false
among e (x ∷ xs) = same e x || among e xs

-- Every element lies above `x`.
abbrev pub Above : Membership → List Membership → Type 0
Above x [] = Unit {0}
Above x (y ∷ ys) = (order x y ≡ Ordering.lt) × Above x ys

abbrev pub IsSorted : List Membership → Type 0
IsSorted [] = Unit {0}
IsSorted (x ∷ xs) = Above x xs × IsSorted xs

pub order_trans :
    (x y z : Membership)
    → order x y ≡ Ordering.lt
    → order y z ≡ Ordering.lt
    → order x z ≡ Ordering.lt
order_trans (a, (b, c)) (d, (e, f)) (g, (h, i)) p q = ground arith

pub order-cases :
    (x y : Membership)
    → (order x y ≡ Ordering.lt) ⊎ ((order x y ≡ Ordering.eq) ⊎ (order x y ≡ Ordering.gt))
order-cases x y =
    elim (order x y) as (λ o. (o ≡ Ordering.lt) ⊎ ((o ≡ Ordering.eq) ⊎ (o ≡ Ordering.gt))) [
      | Ordering.lt ↦ inl refl
      | Ordering.eq ↦ inr (inl refl)
      | Ordering.gt ↦ inr (inr refl)
    ]

pub order_flip : (x y : Membership) → order x y ≡ Ordering.gt → order y x ≡ Ordering.lt
order_flip (a, (b, c)) (d, (e, f)) p = ground arith

pub Above-order :
    (x y : Membership) (ys : List Membership) → order x y ≡ Ordering.lt → Above y ys → Above x ys
Above-order x y [] p h = tt
Above-order x y (z ∷ zs) p h = (order_trans x y z p h.0, Above-order x y zs p h.1)

pub Above-among : (x : Membership) (ys : List Membership) → Above x ys → among x ys ≡ false
Above-among x [] h = refl
Above-among x (y ∷ ys) h = ground (arith, Above-among x ys h.1)

Above-insert :
    (x e : Membership) (ys : List Membership)
    → order x e ≡ Ordering.lt
    → Above x ys
    → Above x (insert e ys)
unfolding insert
Above-insert x e [] p h = (p, tt)
Above-insert x e (y ∷ ys) p h = ground (arith, Above-insert x e ys p h.1)

pub insert-IsSorted : (e : Membership) (xs : List Membership) → IsSorted xs → IsSorted (insert e xs)
unfolding insert
insert-IsSorted e [] h = (tt, tt)
insert-IsSorted e (x ∷ xs) h =
    ground
      (arith, order_flip e x, Above-insert x e xs, insert-IsSorted e xs h.1, Above-order e x xs)

pub among-insert :
    (e x : Membership) (xs : List Membership) → among e (insert x xs) ≡ (same e x || among e xs)
unfolding insert
among-insert e x [] = refl
among-insert e x (y ∷ ys) = elim (order-cases x y) [
  | inl below ↦ ground arith
  | inr (inl equal) ↦ ground (arith, same_iff e x, same_iff e y, same_iff x y)
  | inr (inr above) ↦ ground (arith, among-insert e x ys)
]
