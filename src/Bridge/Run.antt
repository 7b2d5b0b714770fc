-- ===== src/Bridge/Run.antt =====
-- Steps that may abort: the result is none where the source does.
use basebox.Prelude.{List, [], ◌∷◌, Option, none, some, Method}

abbrev pub Run : Type 0 → Type 0
Run S = S → Option S

abbrev pub after : {S : Type 0} → Option S → Run S → Option S
after none k = none
after (some t) k = k t

infixl 5 ◌>=>◌
abbrev pub ◌>=>◌ : {S : Type 0} → Run S → Run S → Run S
(m >=> k) s = after (m s) k

-- A method that is called for its effect.
abbrev pub run : {S A : Type 0} → Method S A → Run S
run m s = some (m s).1

abbrev pub done : {S : Type 0} → Run S
done s = some s

-- A method that may abort, called for its effect.
abbrev pub ignore : {S A : Type 0} → (S → Option (A × S)) → Run S
ignore m s = elim (m s) [ none ↦ none | some (_, t) ↦ some t ]

-- `for (x : xs) body(x);`
unfoldable pub for_all : {S A : Type 0} → (A → Run S) → List A → Run S
for_all body [] s = some s
for_all body (x ∷ xs) s = after (body x s) (for_all body xs)
