-- ===== src/Prelude/Int.antt =====
-- The results of type `int`: zero or more on success, `-Exxx` on failure.
use Prim.Native.Nat.{ℕ, ◌-◌}
use mathlib.Core.Bool.{Bool, true, false}
use basebox.Prelude.Tests.{◌==◌}

-- `negsuc n` is -(n + 1).
pub data ℤ : Type 0 where
  pos : ℕ → ℤ
  negsuc : ℕ → ℤ

-- `rv < 0`
abbrev pub is_neg : ℤ → Bool
is_neg (pos n) = false
is_neg (negsuc n) = true

-- `r == 0`
abbrev pub is_zero : ℤ → Bool
is_zero (pos n) = n == 0
is_zero (negsuc n) = false

-- `-e` for a positive error number `e`.
abbrev pub neg : ℕ → ℤ
neg e = negsuc (e - 1)

-- The error numbers of <errno.h> that the source returns.
abbrev pub eexist : ℤ
eexist = neg 17

abbrev pub enodev : ℤ
enodev = neg 19

abbrev pub einval : ℤ
einval = neg 22

abbrev pub enospc : ℤ
enospc = neg 28

abbrev pub eopnotsupp : ℤ
eopnotsupp = neg 95

abbrev pub enetunreach : ℤ
enetunreach = neg 101

abbrev pub edestaddrreq : ℤ
edestaddrreq = neg 89

abbrev pub enodata : ℤ
enodata = neg 61
