-- ===== src/Prelude/State.antt =====
-- Methods as functions of the object's state, and the loops of the source over containers.
use mathlib.Core.List.{List, [], ◌∷◌}
use basebox.Prelude.Tests.{if◌then◌else◌}
use basebox.Prelude.Int.{ℤ, is_neg}

abbrev pub Method : Type 0 → Type 0 → Type 0
Method S A = S → A × S

infixl 5 ◌>>=◌ ◌>>◌
abbrev pub ◌>>=◌ : {S A B : Type 0} → Method S A → (A → Method S B) → Method S B
◌>>=◌ m f s = let (a, s') = m s in f a s'

abbrev pub ◌>>◌ : {S A B : Type 0} → Method S A → Method S B → Method S B
m >> k = m >>= λ _. k

abbrev pub pure : {S A : Type 0} → A → Method S A
pure a s = (a, s)

abbrev pub gets : {S A : Type 0} → (S → A) → Method S A
gets f s = (f s, s)

abbrev pub modify : {S : Type 0} → (S → S) → Method S (Unit {0})
modify f s = (tt, f s)

-- `for (x : xs) (void)body(x);`
unfoldable pub for_each : {S A B : Type 0} → (A → Method S B) → List A → Method S (Unit {0})
for_each body [] s = (tt, s)
for_each body (x ∷ xs) s = for_each body xs (body x s).1

-- `for (x : xs) { rv = body(x); if (rv < 0) break; }`, begun with the `rv` given.
unfoldable pub until_error : {S A : Type 0} → (A → Method S ℤ) → ℤ → List A → Method S ℤ
until_error body rv [] s = (rv, s)
until_error body rv (x ∷ xs) s =
    let r = body x s in let rest = until_error body r.0 xs r.1 in if is_neg r.0 then r else rest
