-- ===== src/Vlan/Loops.antt =====
-- Loops of calls, and the entries that they leave.
use basebox.Prelude.{
  ℕ, ◌≡◌, ◌⊎◌, inl, inr, Bool, true, false, ◌||◌, List, [], ◌∷◌, ℤ, is_neg, arith, contains,
  for_each, until_error,
}
use basebox.Sai.{Call, Log, SwitchInterface}
use basebox.Vlan.State.{NlVlan, call}
use basebox.Vlan.Entries.{Entry, adds, removes, installed}

unfoldable pub any : (ℕ → Bool) → List ℕ → Bool
any p [] = false
any p (x ∷ xs) = p x || any p xs

pub any-contains :
    (p : ℕ → Bool) (xs : List ℕ) (x : ℕ) → contains x xs ≡ true → p x ≡ true → any p xs ≡ true
unfolding any contains
any-contains p [] x m h = cc
any-contains p (y ∷ ys) x m h = ground (arith, any-contains p ys x)

pub any-congr : (p q : ℕ → Bool) (xs : List ℕ) → ((x : ℕ) → p x ≡ q x) → any p xs ≡ any q xs
unfolding any
any-congr p q [] h = ground arith
any-congr p q (x ∷ xs) h = ground (arith, h x, any-congr p q xs h)

module _ (swi : SwitchInterface) (make : ℕ → Call) (e : Entry) where
  -- Calls that do not add the entry do not make it stand.
  pub for_each_mono :
      (xs : List ℕ) (s : NlVlan)
      → ((x : ℕ) → adds (make x) e ≡ false)
      → installed e (for_each (λ x. call swi (make x)) xs s).1.log ≡ true
      → installed e s.log ≡ true
  unfolding installed for_each
  for_each_mono [] s none_adds h = h
  for_each_mono (x ∷ xs) s none_adds h =
      ground (arith, none_adds x, for_each_mono xs (call swi (make x) s).1 none_adds h)

  -- One call that removes it is enough, if none adds it and the switch accepts them.
  pub for_each-clears :
      (xs : List ℕ) (s : NlVlan)
      → ((l : Log) (x : ℕ) → is_neg (swi.answer l (make x)) ≡ false)
      → ((x : ℕ) → adds (make x) e ≡ false)
      → any (λ x. removes (make x) e) xs ≡ true
      → installed e (for_each (λ x. call swi (make x)) xs s).1.log ≡ false
  unfolding installed any for_each
  for_each-clears [] s accepted none_adds r = cc
  for_each-clears (y ∷ ys) s accepted none_adds r = ground (
    arith,
    none_adds y,
    accepted s.log y,
    for_each-clears ys (call swi (make y) s).1 accepted none_adds,
    for_each_mono ys (call swi (make y) s).1 none_adds,
  )

  -- A loop of calls that stops at an error makes only entries stand that one of them adds.
  pub until_error-adds :
      (rv : ℤ) (xs : List ℕ) (s : NlVlan)
      → installed e (until_error (λ x. call swi (make x)) rv xs s).1.log ≡ true
      → (installed e s.log ≡ true) ⊎ (any (λ x. adds (make x) e) xs ≡ true)
  unfolding installed any until_error
  until_error-adds rv [] s h = inl h
  until_error-adds rv (x ∷ xs) s h =
      ground (arith, until_error-adds (swi.answer s.log (make x)) xs (call swi (make x) s).1)

  -- If the loop ends without an error, the entry of every call stands.
  pub until_error-installs :
      (rv : ℤ) (xs : List ℕ) (s : NlVlan)
      → ((x : ℕ) → removes (make x) e ≡ false)
      → is_neg (until_error (λ x. call swi (make x)) rv xs s).0 ≡ false
      → (any (λ x. adds (make x) e) xs ≡ true) ⊎ (installed e s.log ≡ true)
      → installed e (until_error (λ x. call swi (make x)) rv xs s).1.log ≡ true
  unfolding installed any until_error
  until_error-installs rv [] s none_removes ok (inl m) = cc
  until_error-installs rv [] s none_removes ok (inr m) = m
  until_error-installs rv (y ∷ ys) s none_removes ok m = ground (
    arith,
    none_removes y,
    until_error-installs (swi.answer s.log (make y)) ys (call swi (make y) s).1 none_removes,
  )
