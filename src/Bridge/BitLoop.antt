-- ===== src/Bridge/BitLoop.antt =====
-- The loop over the bits of a word, against the list of the bits that are set.
use native.Mathlib.Nat.{pow-suc, add-zero, add-suc, suc-add}
use basebox.Prelude.{
  ℕ, zero, suc, ◌+◌, ◌-◌, ◌*◌, false, ◌/◌, ◌%◌, ◌^◌, ◌≤◌, ◌<◌, ◌≡◌, ◌∙◌, refl, ap, ◌⊎◌, inl, inr,
  List, [], ◌∷◌, some, pos, negsuc, ◌==◌, if◌then◌else◌, arith, Bool-cases, All,
}
use basebox.Bridge.Bits.{visit, shr, ffs_from, ffs, find_next_bit, next_bits, loop_bits}

-- The set bits among `n`, the first of which is called `p + 1`.
unfoldable set_bits_from : ℕ → ℕ → ℕ → List ℕ
set_bits_from zero p x = []
set_bits_from (suc n) p x =
    let rest = set_bits_from n (suc p) (x / 2) in if x % 2 == 1 then suc p ∷ rest else rest

-- The bits of a word that are set, each by its place from 1 on, in increasing order.
unfoldable pub set_bits : ℕ → List ℕ
unfolding set_bits_from
set_bits x = set_bits_from 32 0 x

half_bound : (n x : ℕ) → x < 2 ^ suc n → x / 2 < 2 ^ n
half_bound n x h = omega (arith, pow-suc 2 n)

shr_add : (x i k : ℕ) → shr (shr x i) k ≡ shr x (i + k)
unfolding shr
shr_add x zero k = grind arith
shr_add x (suc i) k = rw (suc-add i k) (shr_add (x / 2) i k)

shr_bound : (n i x : ℕ) → x < 2 ^ (i + n) → shr x i < 2 ^ n
unfolding shr
shr_bound n zero x h = grind arith
shr_bound n (suc i) x h = shr_bound n i (x / 2) (half_bound (i + n) x (grind arith))

no_bit : (m q : ℕ) → ffs_from m q zero ≡ 0
unfolding ffs_from
no_bit zero q = refl
no_bit (suc m) q = no_bit m (suc q)

-- Either no bit of `y` is set, or the first one is that of `k`, and the others lie above it.
first_bit :
    (m n p q y : ℕ)
    → y < 2 ^ n
    → n ≤ m
    → ((ffs_from m q y ≡ 0) × (set_bits_from n p y ≡ []))
      ⊎ ((k : ℕ) × ((r : ℕ) × ((n ≡ k + suc r)
              × ((ffs_from m q y ≡ q + k)
                  × (set_bits_from n p y
                      ≡ suc (p + k) ∷ set_bits_from r (suc (p + k)) (shr y (suc k)))))))
unfolding ffs_from set_bits_from shr
first_bit zero zero p q y h le = inl (refl, refl)
first_bit zero (suc n) p q y h le = absurd (omega arith)
first_bit (suc m) zero p q zero h le = inl (no_bit m (suc q), refl)
first_bit (suc m) zero p q (suc y) h le = absurd (omega arith)
first_bit (suc m) (suc n) p q y h le = elim (Bool-cases (y % 2 == 1)) [
  | inl set ↦ inr (0, (n, (omega arith, (rw set (omega arith), rw (set, add-zero p) refl))))
  | inr clear ↦ elim (first_bit m n (suc p) (suc q) (y / 2) (half_bound n y h) (omega arith)) [
    | inl (f, s) ↦ inl (rw clear f, rw clear s)
    | inr (k, (r, (e, (f, s)))) ↦ inr (
      suc k,
      (
        r,
        (
          omega arith,
          (rw clear (f ∙ omega arith), rw clear (rw (add-suc p k, s) (rw (suc-add p k) refl))),
        ),
      ),
    )
  ]
]

found_bit :
    (i k x : ℕ) → i < 32 → ffs (shr x i) ≡ 1 + k → find_next_bit (pos i) x ≡ pos (suc (i + k))
unfolding find_next_bit
found_bit i k x h f = grind (arith, f)

no_next_bit :
    (i x : ℕ)
    → (32 ≤ i) ⊎ (ffs (shr x i) ≡ 0)
    → find_next_bit (pos i) x ≡ negsuc 0 ⊎ (find_next_bit (pos i) x ≡ pos 0)
unfolding find_next_bit
no_next_bit i x h = grind (arith, h)

one_round :
    (rounds j x : ℕ) (js : List ℕ)
    → next_bits rounds (find_next_bit (pos (suc j)) x) x ≡ some js
    → next_bits (suc rounds) (pos (suc j)) x ≡ some (suc j ∷ js)
unfolding next_bits
one_round rounds j x js h = ap (visit (suc j)) h

-- What is left to visit after `i`, where `r` bits lie above it: there are at least `r` rounds.
next_bits_lem :
    (rounds r i x : ℕ)
    → x < 2 ^ 32
    → i + r ≡ 32
    → r ≤ rounds
    → next_bits rounds (find_next_bit (pos i) x) x ≡ some (set_bits_from r i (shr x i))
unfolding next_bits ffs set_bits_from
next_bits_lem rounds zero i x h e le = elim (no_next_bit i x (inl (omega arith))) [
  | inl stop ↦ rw stop refl
  | inr stop ↦ rw stop refl
]
next_bits_lem zero (suc r) i x h e le = absurd (omega arith)
next_bits_lem (suc rounds) (suc r) i x h e le =
    elim (first_bit 32 (suc r) i 1 (shr x i) (shr_bound (suc r) i x (rw e h)) (omega arith)) [
      | inl (f, s) ↦ elim (no_next_bit i x (inr f)) [
        | inl stop ↦ rw (s, stop) refl
        | inr stop ↦ rw (s, stop) refl
      ]
      | inr (k, (r', (e', (f, s)))) ↦
          let others = next_bits_lem rounds r' (suc (i + k)) x h (omega arith) (omega arith) in
          rw (found_bit i k x (omega arith) f, s, shr_add x i (suc k), add-suc i k)
            (one_round rounds (i + k) x (set_bits_from r' (suc (i + k)) (shr x (suc (i + k))))
              others)
    ]

first_round : (x : ℕ) → find_next_bit (negsuc 0) x ≡ find_next_bit (pos 0) x
unfolding find_next_bit shr
first_round x = rw (add-zero (ffs x)) (grind arith)

-- The loop over the bits of a word ends within its 32 rounds, and goes through the bits that are set,
-- each once and in increasing order.
pub loop_bits_lem : (x : ℕ) → x < 2 ^ 32 → loop_bits x ≡ some (set_bits x)
unfolding loop_bits set_bits shr
loop_bits_lem x h = rw (first_round x) (next_bits_lem 32 32 0 x h refl (omega arith))

-- A VLAN of word `i`, by its bit's place from 1 on.
abbrev pub IsVidOf : ℕ → ℕ → Type 0
IsVidOf i j = (j ≤ 32) × (0 < j - 1 + i * 32)

set_bits_from-vids :
    (i n p x : ℕ) → p + n ≤ 32 → 0 < p + i * 32 → All (IsVidOf i) (set_bits_from n p x)
unfolding set_bits_from
set_bits_from-vids i zero p x h h' = tt
set_bits_from-vids i (suc n) p x h h' =
    let rest = set_bits_from-vids i n (suc p) (x / 2) (omega arith) (omega arith) in
    elim (Bool-cases (x % 2 == 1)) [
      | inl set ↦ rw set ((omega arith, omega arith), rest)
      | inr clear ↦ rw clear rest
    ]

-- The first bit of the first word stands for VLAN 0.
set_bits_from-even : (n x : ℕ) → n < 32 → x % 2 ≡ 0 → All (IsVidOf 0) (set_bits_from (suc n) 0 x)
unfolding set_bits_from
set_bits_from-even n x h even =
    let clear : (x % 2 == 1) ≡ false = ground (arith, even) in
    rw clear (set_bits_from-vids 0 n 1 (x / 2) (omega arith) (omega arith))

pub set_bits-vids : (i x : ℕ) → (i ≡ 0 → x % 2 ≡ 0) → All (IsVidOf i) (set_bits x)
unfolding set_bits
set_bits-vids zero x even = set_bits_from-even 31 x (omega arith) (even refl)
set_bits-vids (suc i) x even = set_bits_from-vids (suc i) 32 0 x (omega arith) (omega arith)

set_bits_from-bound : (n p x m : ℕ) → p + n ≤ m → All (λ j. j ≤ m) (set_bits_from n p x)
unfolding set_bits_from
set_bits_from-bound zero p x m h = tt
set_bits_from-bound (suc n) p x m h =
    let rest = set_bits_from-bound n (suc p) (x / 2) m (omega arith) in
    elim (Bool-cases (x % 2 == 1)) [
      | inl set ↦ rw set (omega arith, rest)
      | inr clear ↦ rw clear rest
    ]

pub set_bits-bound : (x : ℕ) → All (λ j. j ≤ 32) (set_bits x)
unfolding set_bits
set_bits-bound x = set_bits_from-bound 32 0 x 32 (omega arith)
