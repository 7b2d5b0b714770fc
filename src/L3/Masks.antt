-- ===== src/L3/Masks.antt =====
-- src/utils/rofl-utils.h: the network masks of prefixes.
use Prim.Native.Nat.{bit_and}
use basebox.Prelude.{
  ℕ, ◌-◌, ◌*◌, ◌/◌, ◌%◌, ◌^◌, List, [], ◌∷◌, Option, none, some, map, ltb, ◌==◌, if◌then◌else◌,
}

-- `~((1 << (32 - prefix_len)) - 1)` on uint32_t; a longer prefix shifts by more than the width.
unfoldable pub build_mask_in4 : ℕ → Option ℕ
build_mask_in4 prefix_len =
    if prefix_len == 0
    then some 0
    else if ltb 32 prefix_len
    then none
    else some (2 ^ 32 - 1 - (2 ^ (32 - prefix_len) - 1))

-- The byte at an index of `s6_addr`, after both calls of memset and the assignment.
unfoldable pub mask_byte : ℕ → ℕ → ℕ
mask_byte prefix_len i =
    if i == prefix_len / 8
    then bit_and (0xff * 2 ^ (8 - prefix_len % 8)) 0xff
    else if ltb i (prefix_len / 8)
    then 0xff
    else 0

abbrev pub byte_indices : List ℕ
byte_indices = 0 ∷ 1 ∷ 2 ∷ 3 ∷ 4 ∷ 5 ∷ 6 ∷ 7 ∷ 8 ∷ 9 ∷ 10 ∷ 11 ∷ 12 ∷ 13 ∷ 14 ∷ 15 ∷ []

-- None where a byte past the sixteenth is written.
unfoldable pub build_mask_in6 : ℕ → Option (List ℕ)
build_mask_in6 prefix_len =
    if ltb (prefix_len / 8) 16 then some (map (mask_byte prefix_len) byte_indices) else none
