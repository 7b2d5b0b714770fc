-- ===== src/L3/Histories.antt =====
-- Histories of add_l3_egress and del_l3_egress.
use basebox.Prelude.{
  ℕ, ◌≡◌, inl, inr, List, [], ◌∷◌, Option, none, some, arith, ◌==◌, Option-cases, Bool-cases,
}
use basebox.Sai.{SwitchInterface}
use basebox.L3.State.{EgressKey, NlL3}
use basebox.L3.Egress.{use_egress, leave_egress, add_l3_egress, del_l3_egress}
use basebox.L3.Ownership.{
  IsFresh, IsObliging, IsSound, IsSound-same, use_egress-IsSound, leave_egress-IsSound,
}

-- What nl_l3 is asked to do, with the port lookup of that time.
pub data Request : Type 0 where
  adds dels : (ℕ → ℕ) → ℕ → ℕ → ℕ → ℕ → Request

module _ {Group : Type 0} (swi : SwitchInterface) where
  -- None where a count overflows.
  unfoldable pub serve : Request → NlL3 Group → Option (NlL3 Group)
  serve (adds port ifindex vid s_mac d_mac) s =
      elim (add_l3_egress swi port ifindex vid s_mac d_mac 0 s) [
        | none ↦ none
        | some (_, (_, t)) ↦ some t
      ]
  serve (dels port ifindex vid s_mac d_mac) s =
      elim (del_l3_egress swi port ifindex vid s_mac d_mac s) [ none ↦ none | some (_, t) ↦ some t ]

  unfoldable pub serve_all : List Request → NlL3 Group → Option (NlL3 Group)
  serve_all [] s = some s
  serve_all (r ∷ rs) s = elim (serve r s) [ none ↦ none | some t ↦ serve_all rs t ]

  serve-IsSound :
      (r : Request) (s t : NlL3 Group)
      → IsFresh swi
      → IsObliging swi
      → serve r s ≡ some t
      → IsSound swi s
      → IsSound swi t
  unfolding serve add_l3_egress del_l3_egress
  serve-IsSound (adds port ifindex vid s_mac d_mac) s t fresh obliging e sound =
      let key : EgressKey = (port ifindex, (vid, (s_mac, d_mac))) in
      elim (Bool-cases (port ifindex == 0)) [
        | inl unknown ↦ IsSound-same swi s t sound (ground arith) (ground arith)
        | inr port_known ↦ elim (Option-cases (use_egress swi key s)) [
          | inl overflow ↦ absurd (ground arith)
          | inr ((rv, (id, u)), done) ↦
              IsSound-same swi u t (use_egress-IsSound swi key s sound rv id u fresh done)
                (ground arith) (ground arith)
        ]
      ]
  serve-IsSound (dels port ifindex vid s_mac d_mac) s t fresh obliging e sound =
      let key : EgressKey = (port ifindex, (vid, (s_mac, d_mac))) in
      elim (Bool-cases (port ifindex == 0)) [
        | inl unknown ↦ IsSound-same swi s t sound (ground arith) (ground arith)
        | inr port_known ↦ elim (Option-cases (leave_egress swi key s)) [
          | inl overflow ↦ absurd (ground arith)
          | inr ((rv, u), done) ↦
              IsSound-same swi u t (leave_egress-IsSound swi key s sound rv u obliging done)
                (ground arith) (ground arith)
        ]
      ]

  -- On a switch that never hands out the id of an interface that stands and that accepts every removal
  -- of one, any history of add_l3_egress and del_l3_egress in which no count overflows keeps the egress interfaces in order: each counted
  -- one has a user and stands on the switch, no two are the same, and none that stands is forgotten.
  pub serve_all-IsSound :
      (rs : List Request) (s t : NlL3 Group)
      → IsFresh swi
      → IsObliging swi
      → serve_all rs s ≡ some t
      → IsSound swi s
      → IsSound swi t
  unfolding serve_all
  serve_all-IsSound [] s t fresh obliging e sound =
      IsSound-same swi s t sound (ground arith) (ground arith)
  serve_all-IsSound (r ∷ rs) s t fresh obliging e sound = elim (Option-cases (serve r s)) [
    | inl overflow ↦ absurd (ground arith)
    | inr (u, done) ↦
        serve_all-IsSound rs u t fresh obliging (ground arith)
          (serve-IsSound r s u fresh obliging done sound)
  ]
