-- ===== src/Vxlan/Yields.antt =====
-- Rules for actions that keep a predicate of the state and whose results satisfy another.
use mathlib.Core.Path.{subst}
use basebox.Prelude.{
  ◌≡◌, refl, sym, ap, ◌∙◌, Bool, true, false, Option, none, some, List, [], ◌∷◌, arith,
  if◌then◌else◌, Option-cases, inl, inr,
}
use basebox.Vxlan.Action.{Action, go_on, ◌>>=◌, pure, abort, gets, modify, last_result}

module _ {S : Type 0} (P : S → Type 0) where
  -- If the action returns from a state with `P`, so is the state then, and the result has `Q`.
  unfoldable pub Yields : {A : Type 0} → (A → Type 0) → Action S A → Type 0
  Yields {A = A} Q m = (s : S) (a : A) (t : S) → m s ≡ some (a, t) → P s → P t × Q a

  abbrev pub Keeps : {A : Type 0} → Action S A → Type 0
  Keeps = Yields (λ _. Unit {0})

  module _ {A B : Type 0} where
    pub bind-Yields :
        (Q : A → Type 0) (R : B → Type 0) (m : Action S A) (f : A → Action S B)
        → Yields Q m
        → ((a : A) → Q a → Yields R (f a))
        → Yields R (m >>= f)
    unfolding Yields
    bind-Yields Q R m f first next s b t e h = elim (Option-cases (m s)) [
      | inl aborted ↦ absurd (ground arith)
      | inr ((a, u), returned) ↦
          let (h', q) = first s a u returned h in
          next a q u b t (sym (ap (go_on f) returned) ∙ e) h'
    ]

  module _ {A : Type 0} (Q : A → Type 0) where
    pub pure-Yields : (a : A) → Q a → Yields Q (pure a)
    unfolding Yields
    pure-Yields a q s b t e h =
        let same_state : s ≡ t = ground arith in
        let same_result : a ≡ b = ground arith in (subst P same_state h, subst Q same_result q)

    pub gets-Yields : (f : S → A) → ((s : S) → P s → Q (f s)) → Yields Q (gets f)
    unfolding Yields
    gets-Yields f has s b t e h =
        let same_state : s ≡ t = ground arith in
        let same_result : f s ≡ b = ground arith in
        (subst P same_state h, subst Q same_result (has s h))

    pub abort-Yields : Yields Q abort
    unfolding Yields
    abort-Yields s b t e h = absurd (ground arith)

    pub if-Yields :
        (b : Bool) (m n : Action S A) → Yields Q m → Yields Q n → Yields Q (if b then m else n)
    if-Yields true m n hm hn = hm
    if-Yields false m n hm hn = hn

    pub option-Yields :
        {X : Type 0} (o : Option X) (m : Action S A) (f : X → Action S A)
        → Yields Q m
        → ((x : X) → o ≡ some x → Yields Q (f x))
        → Yields Q (elim o [ none ↦ m | some x ↦ f x ])
    option-Yields none m f hm hf = hm
    option-Yields (some x) m f hm hf = hf x refl

  pub modify-Keeps : (f : S → S) → ((s : S) → P s → P (f s)) → Keeps (modify f)
  unfolding Yields
  modify-Keeps f keeps s b t e h =
      let same_state : f s ≡ t = ground arith in (subst P same_state (keeps s h), tt)

  pub last_result-Keeps :
      {A B : Type 0} (body : A → Action S B)
      → ((x : A) → Keeps (body x))
      → (rv : B) (xs : List A) → Keeps (last_result body rv xs)
  unfolding last_result
  last_result-Keeps body keeps rv [] = pure-Yields _ rv tt
  last_result-Keeps body keeps rv (x ∷ xs) =
      bind-Yields _ _ (body x) (λ r. last_result body r xs) (keeps x)
        (λ r q. last_result-Keeps body keeps r xs)
