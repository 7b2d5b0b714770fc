-- ===== src/Vxlan/Action.antt =====
-- Methods that may abort: the result is none where an assertion fails or LOG(FATAL) is reached.
use basebox.Prelude.{Option, none, some, List, [], ◌∷◌}

abbrev pub Action : Type 0 → Type 0 → Type 0
Action S A = S → Option (A × S)

abbrev pub go_on : {S A B : Type 0} → (A → Action S B) → Option (A × S) → Option (B × S)
go_on f none = none
go_on f (some (a, t)) = f a t

infixl 5 ◌>>=◌ ◌>>◌
abbrev pub ◌>>=◌ : {S A B : Type 0} → Action S A → (A → Action S B) → Action S B
(m >>= f) s = go_on f (m s)

abbrev pub ◌>>◌ : {S A B : Type 0} → Action S A → Action S B → Action S B
m >> k = m >>= λ _. k

abbrev pub pure : {S A : Type 0} → A → Action S A
pure a s = some (a, s)

abbrev pub abort : {S A : Type 0} → Action S A
abort s = none

abbrev pub gets : {S A : Type 0} → (S → A) → Action S A
gets f s = some (f s, s)

abbrev pub modify : {S : Type 0} → (S → S) → Action S (Unit {0})
modify f s = some (tt, f s)

-- `for (x : xs) rv = body(x);`, begun with the `rv` given.
unfoldable pub last_result : {S A B : Type 0} → (A → Action S B) → B → List A → Action S B
last_result body rv [] s = some (rv, s)
last_result body rv (x ∷ xs) s = go_on (λ r. last_result body r xs) (body x s)
