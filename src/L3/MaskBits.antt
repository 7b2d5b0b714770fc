-- ===== src/L3/MaskBits.antt =====
-- The bits of the masks.
use Prim.Native.Nat.{bit_and}
use basebox.Prelude.{
  ℕ, zero, suc, ◌+◌, ◌-◌, ◌*◌, ◌/◌, ◌%◌, ◌^◌, ◌≤◌, ◌<◌, ◌≡◌, refl, ap, sym, ◌∙◌, List, [], ◌∷◌,
  some, map, ltb, arith, if◌then◌else◌,
}
use native.Mathlib.Nat.{zero-add, two-pow-succ, mul-div_cancel, mul-mod_left, one-le-pow}
use basebox.L3.Masks.{build_mask_in4, build_mask_in6, mask_byte, byte_indices}

-- How many of the bits of a byte belong to the network.
abbrev pub network_bits : ℕ → ℕ → ℕ
network_bits prefix_len i = if ltb (prefix_len - 8 * i) 8 then prefix_len - 8 * i else 8

shifted_byte : (r : ℕ) → r < 8 → bit_and (0xff * 2 ^ (8 - r)) 0xff ≡ 2 ^ 8 - 2 ^ (8 - r)
shifted_byte zero h = refl
shifted_byte (suc zero) h = refl
shifted_byte (suc (suc zero)) h = refl
shifted_byte (suc (suc (suc zero))) h = refl
shifted_byte (suc (suc (suc (suc zero)))) h = refl
shifted_byte (suc (suc (suc (suc (suc zero))))) h = refl
shifted_byte (suc (suc (suc (suc (suc (suc zero)))))) h = refl
shifted_byte (suc (suc (suc (suc (suc (suc (suc zero))))))) h = refl
shifted_byte (suc (suc (suc (suc (suc (suc (suc (suc r)))))))) h = absurd (omega (arith, h))

mask_byte_lem :
    (prefix_len i : ℕ) → mask_byte prefix_len i ≡ 2 ^ 8 - 2 ^ (8 - network_bits prefix_len i)
unfolding mask_byte
mask_byte_lem prefix_len i = ground (arith, shifted_byte (prefix_len % 8) (omega arith))

map_same : (f g : ℕ → ℕ) → ((i : ℕ) → f i ≡ g i) → (is : List ℕ) → map f is ≡ map g is
map_same f g h [] = refl
map_same f g h (i ∷ is) = rw (h i, map_same f g h is) refl

-- For a prefix shorter than 128, every byte of build_mask_in6 has as many leading ones as bits of the
-- byte belong to the network, and zeros after them.
pub build_mask_in6_lem :
    (prefix_len : ℕ)
    → prefix_len < 128
    → build_mask_in6 prefix_len
      ≡ some (map (λ i. 2 ^ 8 - 2 ^ (8 - network_bits prefix_len i)) byte_indices)
unfolding build_mask_in6
build_mask_in6_lem prefix_len h =
    ground
      (arith, ap some (map_same (mask_byte prefix_len) _ (mask_byte_lem prefix_len) byte_indices))

suc-add_shift : (p k : ℕ) → suc p + k ≡ suc (p + k)
suc-add_shift p k = omega arith

two_powers : (p k : ℕ) → 2 ^ (p + k) ≡ 2 ^ p * 2 ^ k
two_powers zero k = grind (arith, zero-add k)
two_powers (suc p) k =
    grind (arith, two_powers p k, two-pow-succ p, two-pow-succ (p + k), suc-add_shift p k)

one_less : (a b : ℕ) → 1 ≤ a → (a - 1) * b ≡ a * b - b
one_less zero b h = absurd (omega (arith, h))
one_less (suc a) b h = grind arith

full_width : (p : ℕ) → p ≤ 32 → 2 ^ p * 2 ^ (32 - p) ≡ 2 ^ 32
full_width p h = sym (two_powers p (32 - p)) ∙ ap (λ n. 2 ^ n) {y = 32} (omega arith)

mask_value :
    (prefix_len m : ℕ)
    → prefix_len ≤ 32
    → build_mask_in4 prefix_len ≡ some m
    → m ≡ (2 ^ prefix_len - 1) * 2 ^ (32 - prefix_len)
unfolding build_mask_in4
mask_value zero m h e = ground arith
mask_value (suc p) m h e = ground (
  arith,
  one_less (2 ^ suc p) (2 ^ (32 - suc p)) (one-le-pow (suc p) 2 (omega arith)),
  one-le-pow (32 - suc p) 2 (omega arith),
  full_width (suc p) h,
)

-- The mask of a prefix of at most 32 bits has that many ones, and zeros below them.
build_mask_in4_lem :
    (prefix_len m : ℕ)
    → prefix_len ≤ 32
    → build_mask_in4 prefix_len ≡ some m
    → (m / 2 ^ (32 - prefix_len) ≡ 2 ^ prefix_len - 1) × (m % 2 ^ (32 - prefix_len) ≡ 0)
unfolding build_mask_in4
build_mask_in4_lem prefix_len m h e = rw (mask_value prefix_len m h e) (
  mul-div_cancel (2 ^ prefix_len - 1) (one-le-pow (32 - prefix_len) 2 (omega arith)),
  mul-mod_left (2 ^ prefix_len - 1) (2 ^ (32 - prefix_len)),
)
