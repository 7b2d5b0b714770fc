-- ===== src/Bridge/Bits.antt =====
-- The bitmaps of VLANs: words of 32 bits, and the loop over the bits of a word.
use Prim.Native.Nat.{bit_or, bit_and}
use basebox.Prelude.{
  ℕ, zero, suc, ◌+◌, ◌-◌, ◌/◌, ◌%◌, ◌^◌, Bool, List, [], ◌∷◌, Option, none, some, ℤ, pos, negsuc,
  ltb, leb, ◌==◌, if◌then◌else◌,
}

-- `x >> i`
unfoldable pub shr : ℕ → ℕ → ℕ
shr x zero = x
shr x (suc i) = shr (x / 2) i

-- `!!(w & (((uint32_t)1) << i))`
unfoldable pub is_bit_set : ℕ → ℕ → Bool
is_bit_set w i = shr w i % 2 == 1

-- The first `rounds` bits, counted from `n`; 0 if none of them is set.
unfoldable pub ffs_from : ℕ → ℕ → ℕ → ℕ
ffs_from zero n x = 0
ffs_from (suc rounds) n x = if x % 2 == 1 then n else ffs_from rounds (suc n) (x / 2)

-- `__builtin_ffs(x)` of the compiler, on 32 bits.
unfoldable pub ffs : ℕ → ℕ
ffs x = ffs_from 32 1 x

unfoldable pub find_next_bit : ℤ → ℕ → ℤ
find_next_bit (negsuc n) x = pos (ffs x)
find_next_bit (pos i) x =
    if leb 32 i then negsuc 0 else (let j = ffs (shr x i) in if j == 0 then pos 0 else pos (j + i))

abbrev pub visit : ℕ → Option (List ℕ) → Option (List ℕ)
visit j none = none
visit j (some js) = some (j ∷ js)

-- What the loop goes through from `j` on; none if the rounds do not suffice.
-- `for (int j = …; j > 0; j = find_next_bit(j, x))`
unfoldable pub next_bits : ℕ → ℤ → ℕ → Option (List ℕ)
next_bits rounds (negsuc n) x = some []
next_bits rounds (pos zero) x = some []
next_bits zero (pos (suc j)) x = none
next_bits (suc rounds) (pos (suc j)) x =
    visit (suc j) (next_bits rounds (find_next_bit (pos (suc j)) x) x)

-- A word has at most 32 bits, and the last round ends the loop.
unfoldable pub loop_bits : ℕ → Option (List ℕ)
loop_bits x = next_bits 32 (find_next_bit (negsuc 0) x) x

-- RTNL_LINK_BRIDGE_VLAN_BITMAP_MAX and RTNL_LINK_BRIDGE_VLAN_BITMAP_LEN
abbrev pub bitmap_max : ℕ
bitmap_max = 4096

abbrev pub bitmap_len : ℕ
bitmap_len = 128

unfoldable pub get_elem? : {A : Type 0} → List A → ℕ → Option A
get_elem? [] i = none
get_elem? (w ∷ ws) zero = some w
get_elem? (w ∷ ws) (suc i) = get_elem? ws i

unfoldable pub set_elem : {A : Type 0} → List A → ℕ → A → List A
set_elem [] i v = []
set_elem (w ∷ ws) zero v = v ∷ ws
set_elem (w ∷ ws) (suc i) v = w ∷ set_elem ws i v

-- `addr[i] = f(addr[i])`
unfoldable pub update_word : (ℕ → ℕ) → List ℕ → ℕ → List ℕ
update_word f addr i = elim (get_elem? addr i) [ none ↦ addr | some w ↦ set_elem addr i (f w) ]

-- None where the source aborts, or reads past a shorter bitmap.
unfoldable pub is_vid_set : ℕ → List ℕ → Option Bool
is_vid_set vid addr =
    if leb bitmap_max vid
    then none
    else elim (get_elem? addr (vid / 32)) [ none ↦ none | some w ↦ some (is_bit_set w (vid % 32)) ]

unfoldable pub set_vid : ℕ → List ℕ → List ℕ
set_vid vid addr =
    if ltb vid bitmap_max
    then update_word (λ w. bit_or w (2 ^ (vid % 32))) addr (vid / 32)
    else addr

-- `~(((uint32_t)1) << i)` is 32 ones without the one at `i`.
unfoldable pub unset_vid : ℕ → List ℕ → List ℕ
unset_vid vid addr =
    if ltb vid bitmap_max
    then update_word (λ w. bit_and w (2 ^ 32 - 1 - 2 ^ (vid % 32))) addr (vid / 32)
    else addr
