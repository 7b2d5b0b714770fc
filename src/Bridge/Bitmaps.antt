-- ===== src/Bridge/Bitmaps.antt =====
-- Setting and clearing a VLAN of a bitmap, as the reading of any VLAN sees it.
use Prim.Native.Nat.{bit_or, bit_and, min}
use native.Mathlib.Nat.{pow-suc, zero-mul}
use mathlib.Core.Path.{subst}
use basebox.Prelude.{
  ℕ, zero, suc, ◌-◌, ◌/◌, ◌%◌, ◌^◌, ◌<◌, ◌≡◌, inl, inr, refl, Option-cases, Bool, true, false, not,
  ◌&&◌, ◌||◌, List, [], ◌∷◌, some, ◌==◌, if◌then◌else◌, arith, Bool-cases,
}
use basebox.Prelude.Bits.{bit_or-shifted, bit_or_halves, bit_and_halves}
use basebox.Bridge.Bits.{
  shr, is_bit_set, get_elem?, set_elem, update_word, is_vid_set, set_vid, unset_vid,
}

lt_two_pow : (w : ℕ) → w < 2 ^ w
lt_two_pow zero = omega arith
lt_two_pow (suc w) = omega (arith, lt_two_pow w, pow-suc 2 w)

or_zero : (w : ℕ) → bit_or w 0 ≡ w
or_zero w = grind (arith, bit_or-shifted w w 0 (lt_two_pow w), zero-mul (2 ^ w))

half_or_one : (w : ℕ) → bit_or w 1 / 2 ≡ w / 2
half_or_one w = omega (arith, bit_or_halves w 1, or_zero (w / 2))

half_pow : (k : ℕ) → 2 ^ suc k / 2 ≡ 2 ^ k
half_pow k = omega (arith, pow-suc 2 k)

half_or : (k w : ℕ) → bit_or w (2 ^ suc k) / 2 ≡ bit_or (w / 2) (2 ^ k)
half_or k w = grind (arith, bit_or_halves w (2 ^ suc k), half_pow k)

or_bit : (i k w : ℕ) → is_bit_set (bit_or w (2 ^ k)) i ≡ (i == k) || is_bit_set w i
unfolding is_bit_set shr
or_bit zero zero w = grind (arith, bit_or_halves w (2 ^ 0))
or_bit zero (suc k) w = grind (arith, bit_or_halves w (2 ^ suc k), pow-suc 2 k)
or_bit (suc i) zero w = rw (half_or_one w) (grind arith)
or_bit (suc i) (suc k) w = rw (half_or k w) (grind (arith, or_bit i k (w / 2)))

and_half : (w m : ℕ) → bit_and w m / 2 ≡ bit_and (w / 2) (m / 2)
and_half w m = omega (arith, bit_and_halves w m)

and_parity : (w m : ℕ) → bit_and w m % 2 ≡ min (w % 2) (m % 2)
and_parity w m = omega (arith, bit_and_halves w m)

two_pow_pos : (n : ℕ) → 0 < 2 ^ n
two_pow_pos zero = omega arith
two_pow_pos (suc n) = omega (arith, pow-suc 2 n, two_pow_pos n)

two_pow_lt : (k n : ℕ) → k < n → 2 ^ k < 2 ^ n
two_pow_lt k zero h = absurd (omega arith)
two_pow_lt zero (suc n) h = omega (arith, pow-suc 2 n, two_pow_pos n)
two_pow_lt (suc k) (suc n) h = omega (arith, pow-suc 2 n, pow-suc 2 k, two_pow_lt k n (omega arith))

half_ones : (n : ℕ) → (2 ^ suc n - 1) / 2 ≡ 2 ^ n - 1
half_ones n = omega (arith, pow-suc 2 n, two_pow_pos n)

half_but_first : (n : ℕ) → (2 ^ suc n - 1 - 2 ^ 0) / 2 ≡ 2 ^ n - 1
half_but_first n = omega (arith, pow-suc 2 n, two_pow_pos n)

half_but : (n k : ℕ) → k < n → (2 ^ suc n - 1 - 2 ^ suc k) / 2 ≡ 2 ^ n - 1 - 2 ^ k
half_but n k h = omega (arith, pow-suc 2 n, pow-suc 2 k, two_pow_lt k n h)

-- `n` ones keep the first `n` bits.
and_ones : (n i w : ℕ) → i < n → is_bit_set (bit_and w (2 ^ n - 1)) i ≡ is_bit_set w i
unfolding is_bit_set shr
and_ones zero i w h = absurd (omega arith)
and_ones (suc n) zero w h = ground (arith, and_parity w (2 ^ suc n - 1), pow-suc 2 n, two_pow_pos n)
and_ones (suc n) (suc i) w h =
    rw (and_half w (2 ^ suc n - 1), half_ones n) (and_ones n i (w / 2) (omega arith))

and_bit :
    (n i k w : ℕ)
    → i < n
    → k < n
    → is_bit_set (bit_and w (2 ^ n - 1 - 2 ^ k)) i ≡ not (i == k) && is_bit_set w i
unfolding is_bit_set shr
and_bit zero i k w h h' = absurd (omega arith)
and_bit (suc n) zero zero w h h' =
    ground (arith, and_parity w (2 ^ suc n - 1 - 2 ^ 0), pow-suc 2 n, two_pow_pos n)
and_bit (suc n) zero (suc k) w h h' = ground (
  arith,
  and_parity w (2 ^ suc n - 1 - 2 ^ suc k),
  pow-suc 2 n,
  pow-suc 2 k,
  two_pow_lt k n (omega arith),
)
and_bit (suc n) (suc i) zero w h h' =
    rw (and_half w (2 ^ suc n - 1 - 2 ^ 0), half_but_first n)
      (grind (arith, and_ones n i (w / 2) (omega arith)))
and_bit (suc n) (suc i) (suc k) w h h' =
    rw (and_half w (2 ^ suc n - 1 - 2 ^ suc k), half_but n k (omega arith))
      (grind (arith, and_bit n i k (w / 2) (omega arith) (omega arith)))

get_elem?-set_elem :
    {A : Type 0} (ws : List A) (i j : ℕ) (v w : A)
    → get_elem? ws i ≡ some w
    → get_elem? (set_elem ws i v) j ≡ (if j == i then some v else get_elem? ws j)
unfolding get_elem? set_elem
get_elem?-set_elem [] i j v w h = ground arith
get_elem?-set_elem (x ∷ ws) zero zero v w h = refl
get_elem?-set_elem (x ∷ ws) zero (suc j) v w h = ground arith
get_elem?-set_elem (x ∷ ws) (suc i) zero v w h = ground arith
get_elem?-set_elem (x ∷ ws) (suc i) (suc j) v w h = ground (arith, get_elem?-set_elem ws i j v w h)

-- A VLAN of another word reads as before.
is_vid_set-update_word :
    (f : ℕ → ℕ) (addr : List ℕ) (i v u : ℕ)
    → v < 4096
    → get_elem? addr i ≡ some u
    → is_vid_set v (update_word f addr i)
      ≡ (if v / 32 == i then some (is_bit_set (f u) (v % 32)) else is_vid_set v addr)
unfolding is_vid_set update_word get_elem? is_bit_set
is_vid_set-update_word f addr i v u h e =
    rw e (grind (arith, get_elem?-set_elem addr i (v / 32) (f u) u e))

word_of_vid :
    (w : ℕ) (b : Bool) (addr : List ℕ)
    → is_vid_set w addr ≡ some b
    → (w < 4096) × ((u : ℕ) × ((get_elem? addr (w / 32) ≡ some u) × (is_bit_set u (w % 32) ≡ b)))
unfolding is_vid_set
word_of_vid w b addr h = elim (Option-cases (get_elem? addr (w / 32))) [
  | inl no_word ↦ absurd (ground (arith, no_word))
  | inr (u, e) ↦ (ground (arith, e), (u, (e, ground (arith, e))))
]

same_vid : (v w : ℕ) → (v == w) ≡ (v / 32 == w / 32) && (v % 32 == w % 32)
same_vid v w = ground arith

read_word :
    (v u : ℕ) (addr : List ℕ)
    → v < 4096
    → get_elem? addr (v / 32) ≡ some u
    → is_vid_set v addr ≡ some (is_bit_set u (v % 32))
unfolding is_vid_set
read_word v u addr h e = ground (arith, e)

-- A change of one bit of a word changes how one VLAN reads.
change_bit :
    (f : ℕ → ℕ) (c : Bool) (v w u : ℕ) (addr : List ℕ)
    → v < 4096
    → get_elem? addr (w / 32) ≡ some u
    → is_bit_set (f u) (v % 32) ≡ (if v % 32 == w % 32 then c else is_bit_set u (v % 32))
    → is_vid_set v (update_word f addr (w / 32)) ≡ (if v == w then some c else is_vid_set v addr)
change_bit f c v w u addr h e bit = elim (Bool-cases (v / 32 == w / 32)) [
  | inl same_word ↦
      let same_index : w / 32 ≡ v / 32 = ground (arith, same_word) in
      let here = subst (λ i. get_elem? addr i ≡ some u) same_index e in
      grind (
        arith,
        is_vid_set-update_word f addr (w / 32) v u h e,
        same_word,
        bit,
        read_word v u addr h here,
        same_vid v w,
      )
  | inr other_word ↦
      grind (arith, is_vid_set-update_word f addr (w / 32) v u h e, other_word, same_vid v w)
]

module _ (v w : ℕ) (b : Bool) (addr : List ℕ) where
  -- In a bitmap with a word for a VLAN, setting the VLAN makes it read as set, clearing it makes it
  -- read as not set, and neither changes how any other VLAN reads.
  pub is_vid_set-set_vid :
      v < 4096
      → is_vid_set w addr ≡ some b
      → (is_vid_set v (set_vid w addr) ≡ (if v == w then some true else is_vid_set v addr))
        × (is_vid_set v (unset_vid w addr) ≡ (if v == w then some false else is_vid_set v addr))
  unfolding set_vid unset_vid
  is_vid_set-set_vid h e =
      let (below, (u, (word, bit))) = word_of_vid w b addr e in
      (
        ground (
          arith,
          change_bit (λ x. bit_or x (2 ^ (w % 32))) true v w u addr h word
              (ground (arith, or_bit (v % 32) (w % 32) u)),
          below,
        ),
        ground (
          arith,
          change_bit (λ x. bit_and x (2 ^ 32 - 1 - 2 ^ (w % 32))) false v w u addr h word
              (ground (arith, and_bit 32 (v % 32) (w % 32) u (omega arith) (omega arith))),
          below,
        ),
      )
