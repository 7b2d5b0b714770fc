-- ===== src/Bridge/Learning.antt =====
-- Learned addresses: what a second message about an address does, and the ageing time in seconds.
use Prim.Native.Nat.{bit_and}
use basebox.Prelude.{
  ℕ, ◌+◌, ◌*◌, ◌-◌, ◌^◌, ◌<◌, ◌≤◌, ◌≡◌, ◌⊎◌, refl, inl, inr, Bool, true, false, List, [], ◌∷◌, ◌++◌,
  none, some, is_neg, ◌==◌, arith, Bool-cases, Option-cases,
}
use basebox.Sai.{SwitchInterface}
use basebox.Bridge.State.{Neigh, Kernel, NlBridge}
use basebox.Bridge.Fdb.{
  nud_reachable, nud_permanent, search, take_out, key_entry, new_ageing_time, port_of, take_over,
  enter_neigh, add_neigh_to_fdb,
}

search-◌++◌ :
    (p : Neigh → Bool) (ns : List Neigh) (n : Neigh)
    → search p ns ≡ none
    → p n ≡ true
    → search p (ns ++ n ∷ []) ≡ some n
unfolding search
search-◌++◌ p [] n h h' = ground (arith, h')
search-◌++◌ p (m ∷ ns) n h h' = elim (Bool-cases (p m)) [
  | inl found ↦ absurd (ground (arith, found, h))
  | inr other ↦ ground (arith, other, h, search-◌++◌ p ns n (ground (arith, other, h)) h')
]

-- An ageing time below 2 ^ 32 - 50 centiseconds becomes 0 seconds exactly if it is 0, and never more
-- than 65535. It becomes one second below 50, 65535 seconds from 6553550 on, and between these the
-- nearest number of seconds, a half being rounded up.
pub new_ageing_time_lem :
    (ageing_time : ℕ)
    → ageing_time < 2 ^ 32 - 50
    → let seconds = new_ageing_time ageing_time in
      ((seconds == 0) ≡ (ageing_time == 0))
      × ((seconds ≤ 65535)
          × (((ageing_time ≡ 0) × (seconds ≡ 0))
              ⊎ (((0 < ageing_time) × (ageing_time < 50) × (seconds ≡ 1))
                  ⊎ (((6553550 ≤ ageing_time) × (seconds ≡ 65535))
                      ⊎ ((50 ≤ ageing_time)
                          × (ageing_time < 6553550)
                          × (seconds * 100 ≤ ageing_time + 50)
                          × (ageing_time + 50 < seconds * 100 + 100))))))
unfolding new_ageing_time
new_ageing_time_lem ageing_time h = (ground arith, (ground arith, ground arith))

module _ (k : Kernel) (swi : SwitchInterface) (neigh : Neigh) (vid : ℕ)
    (s : NlBridge k.nl.Link) where
  abbrev key : Neigh
  key = key_entry neigh.master vid neigh.lladdr nud_reachable

  abbrev learned : Neigh
  learned = record key { ifindex = neigh.ifindex }

  second :
      (update : Bool) (m : Neigh) (t : NlBridge k.nl.Link)
      → neigh.vlan ≡ some vid
      → port_of k swi neigh.ifindex == 0 ≡ false
      → search (k.same_key key) t.l2_cache ≡ some m
      → m.ifindex ≡ neigh.ifindex
      → (add_neigh_to_fdb k swi neigh update t).1 ≡ t
  unfolding add_neigh_to_fdb
  second update m t vlan port found same = ground (arith, vlan, port, found, same)

  -- An address with a VLAN that is not permanent, on a port that is known, and that the kernel and
  -- the cache take, is learned once: a second message about it on the same interface changes nothing
  -- and calls nothing, whichever interface it was learned on before, if the cache had at most one
  -- entry for the address.
  pub add_neigh_to_fdb_again :
      (update update' : Bool)
      → neigh.vlan ≡ some vid
      → bit_and neigh.state nud_permanent ≡ 0
      → port_of k swi neigh.ifindex == 0 ≡ false
      → is_neg (k.send_add_request learned) ≡ false
      → is_neg (k.cache_add learned) ≡ false
      → k.same_key key learned ≡ true
      → search (k.same_key key) (take_out (k.same_key key) s.l2_cache) ≡ none
      → let t = (add_neigh_to_fdb k swi neigh update s).1 in
        (add_neigh_to_fdb k swi neigh update' t).1 ≡ t
  unfolding add_neigh_to_fdb enter_neigh take_over
  add_neigh_to_fdb_again update update' vlan dynamic port sent cached same single =
      let cache_found =
        search-◌++◌ (k.same_key key) (take_out (k.same_key key) s.l2_cache) learned single same in
      elim (Option-cases (search (k.same_key key) s.l2_cache)) [
        | inl new ↦
            second update' learned (add_neigh_to_fdb k swi neigh update s).1 vlan port
              (ground (arith, new, vlan, port, dynamic, sent, cached, cache_found)) refl
        | inr (m, known) ↦ elim (Bool-cases (m.ifindex == neigh.ifindex)) [
          | inl here ↦
              second update' m (add_neigh_to_fdb k swi neigh update s).1 vlan port
                (ground (arith, known, here, vlan, port)) (ground (arith, here))
          | inr elsewhere ↦
              second update' learned (add_neigh_to_fdb k swi neigh update s).1 vlan port
                (ground (arith, known, elsewhere, vlan, port, dynamic, sent, cached, cache_found))
                refl
        ]
      ]
