-- ===== src/Vxlan/Steady.antt =====
-- Rules for actions that keep the maps of next hops and endpoints consistent.
use basebox.Prelude.{Bool, Option, none, some, ℤ, arith, if◌then◌else◌}
use basebox.Sai.{Call, SwitchInterface}
use basebox.Vxlan.Action.{Action, ◌>>=◌, pure, abort, gets}
use basebox.Vxlan.State.{NlVxlan, Notice, call, notify}
use basebox.Vxlan.Yields.{
  Yields, Keeps, bind-Yields, pure-Yields, abort-Yields, gets-Yields, if-Yields, option-Yields,
}
use basebox.Vxlan.Consistent.{IsConsistent, IsConsistent-same}

-- An action whose result is any, and that keeps the maps consistent.
abbrev pub Steady : {L A B : Type 0} → Action (NlVxlan L A) B → Type 0
Steady = Keeps IsConsistent

pub call-Steady :
    (L A : Type 0) (swi : SwitchInterface) (c : Call) → Steady (call {L = L} {A = A} swi c)
unfolding Yields
call-Steady L A swi c s rv t e h = (IsConsistent-same s t (ground arith) h, tt)

pub notify-Steady : {L A : Type 0} (n : Notice L A) → Steady (notify n)
unfolding Yields
notify-Steady n s rv t e h = (IsConsistent-same s t (ground arith) h, tt)

pub pure-Steady : (L A : Type 0) {B : Type 0} (b : B) → Steady {L = L} {A = A} (pure b)
pure-Steady L A b = pure-Yields _ _ b tt

pub abort-Steady : (L A B : Type 0) → Steady {L = L} {A = A} {B = B} abort
abort-Steady L A B = abort-Yields _ _

module _ {L A B : Type 0} where
  pub then-Steady :
      {C : Type 0} (m : Action (NlVxlan L A) B) (f : B → Action (NlVxlan L A) C)
      → Steady m
      → ((b : B) → Steady (f b))
      → Steady (m >>= f)
  then-Steady m f hm hf = bind-Yields _ _ _ m f hm (λ b q. hf b)

  -- What is read from the state may be anything.
  pub read-Steady :
      {C : Type 0} (g : NlVxlan L A → B) (f : B → Action (NlVxlan L A) C)
      → ((b : B) → Steady (f b))
      → Steady (gets g >>= f)
  read-Steady g f hf = then-Steady (gets g) f (gets-Yields _ _ g (λ s h. tt)) hf

  pub if-Steady :
      (b : Bool) (m n : Action (NlVxlan L A) B) → Steady m → Steady n → Steady (if b then m else n)
  if-Steady b m n = if-Yields _ _ b m n

  pub option-Steady :
      {X : Type 0} (o : Option X) (m : Action (NlVxlan L A) B) (f : X → Action (NlVxlan L A) B)
      → Steady m
      → ((x : X) → Steady (f x))
      → Steady (elim o [ none ↦ m | some x ↦ f x ])
  option-Steady o m f hm hf = option-Yields _ _ o m f hm (λ x e. hf x)

module _ {L A B : Type 0} (swi : SwitchInterface) where
  -- What the switch answers may be anything.
  pub called-Steady :
      (c : Call) (f : ℤ → Action (NlVxlan L A) B)
      → ((rv : ℤ) → Steady (f rv))
      → Steady (call swi c >>= f)
  called-Steady c f = then-Steady _ f (call-Steady L A swi c)
