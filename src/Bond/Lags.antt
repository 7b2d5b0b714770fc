-- ===== src/Bond/Lags.antt =====
-- Which LAG stands for which bond: `ifi2lag` under add_lag and remove_lag.
use basebox.Prelude.{
  ℕ, ◌≡◌, Bool, true, false, [], ◌∷◌, none, some, ℤ, pos, is_neg, arith, find, nat_key,
  find-emplace, find-erase, ◌==◌, if◌then◌else◌,
}
use basebox.Sai.{Call, Log, SwitchInterface}
use basebox.Bond.State.{Links, NlBond, call, get_lag_id}
use basebox.Bond.Methods.{announce, enter_lag, add_lag, remove_lag}

-- The LAGs that a log has left on the switch: created with that id, and not removed since.
unfoldable pub stands : SwitchInterface → ℕ → Log → Bool
stands swi lag_id [] = false
stands swi lag_id ((Call.lag_create mode, rv) ∷ l) =
    if is_neg rv
    then stands swi lag_id l
    else if swi.created_id l (Call.lag_create mode) == lag_id
    then true
    else stands swi lag_id l
stands swi lag_id ((Call.lag_remove removed, rv) ∷ l) =
    if removed == lag_id then false else stands swi lag_id l
stands swi lag_id ((_, rv) ∷ l) = stands swi lag_id l

module _ (links : Links) (swi : SwitchInterface) (bond : links.Link) (s t : NlBond links.Link) where
  announce-kept :
      (u : NlBond links.Link)
      → ((announce links swi bond u).ifi2lag ≡ u.ifi2lag)
        × ((announce links swi bond u).log ≡ u.log)
  unfolding announce
  announce-kept u = ground arith

  enter_lag_found :
      (lag_id ifindex : ℕ) (u : NlBond links.Link)
      → ((enter_lag links swi bond lag_id u).0
          ≡ pos (get_lag_id links (links.get_ifindex bond) (enter_lag links swi bond lag_id u).1))
        × (find ifindex (enter_lag links swi bond lag_id u).1.ifi2lag ≡ (
            if ifindex == links.get_ifindex bond
            then elim (find ifindex u.ifi2lag) [ none ↦ some lag_id | some old ↦ some old ]
            else find ifindex u.ifi2lag))
  unfolding enter_lag get_lag_id
  enter_lag_found lag_id ifindex u = ground (
    arith,
    find-emplace (links.get_ifindex bond) ifindex lag_id u.ifi2lag,
    find-emplace (links.get_ifindex bond) (links.get_ifindex bond) lag_id u.ifi2lag,
  )

  -- If add_lag succeeds for a bond whose mode is known, it returns the LAG that the bond then has: the one it had, or else the one
  -- that the switch has made. No other bond's LAG changes.
  pub add_lag-get_lag_id :
      (mode : ℕ) (rv : ℤ) (ifindex : ℕ)
      → links.bond_get_mode bond ≡ some mode
      → add_lag links swi bond s ≡ some (rv, t)
      → is_neg rv ≡ false
      → (rv ≡ pos (get_lag_id links (links.get_ifindex bond) t))
        × (find ifindex t.ifi2lag ≡ (
            if ifindex == links.get_ifindex bond
            then elim (find ifindex s.ifi2lag) [
              | none ↦ some (swi.created_id s.log (Call.lag_create mode))
              | some old ↦ some old
            ]
            else find ifindex s.ifi2lag))
  unfolding add_lag get_lag_id
  add_lag-get_lag_id mode rv ifindex known e ok =
      let lag_id = swi.created_id s.log (Call.lag_create mode) in
      let made = call swi (Call.lag_create mode) s in
      let entered = enter_lag links swi bond lag_id made.1 in
      ground (arith, enter_lag_found lag_id ifindex made.1, announce-kept entered.1)

  enter_lag-stands :
      (lag_id : ℕ) (u : NlBond links.Link)
      → stands swi lag_id u.log ≡ true
      → stands swi lag_id (enter_lag links swi bond lag_id u).1.log ≡ true
      → (enter_lag links swi bond lag_id u).0 ≡ pos lag_id
  unfolding enter_lag stands
  enter_lag-stands lag_id u h k = ground arith

  -- If add_lag succeeds for a bond whose mode is known, no LAG is left over: if the one that the switch made still stands, it is the bond's.
  add_lag_no_leftover :
      (mode : ℕ) (rv : ℤ)
      → links.bond_get_mode bond ≡ some mode
      → add_lag links swi bond s ≡ some (rv, t)
      → is_neg rv ≡ false
      → stands swi (swi.created_id s.log (Call.lag_create mode)) t.log ≡ true
      → get_lag_id links (links.get_ifindex bond) t ≡ swi.created_id s.log (Call.lag_create mode)
  unfolding add_lag get_lag_id stands
  add_lag_no_leftover mode rv known e ok h =
      let lag_id = swi.created_id s.log (Call.lag_create mode) in
      let made = call swi (Call.lag_create mode) s in
      let entered = enter_lag links swi bond lag_id made.1 in
      ground (
        arith,
        enter_lag_found lag_id 0 made.1,
        enter_lag-stands lag_id made.1,
        announce-kept entered.1,
      )

  -- If remove_lag succeeds, the bond has no LAG, every other bond has the one it had, and the
  -- member sets are as before, that of the removed LAG included.
  remove_lag-get_lag_id :
      (rv : ℤ) (ifindex : ℕ)
      → remove_lag links swi bond s ≡ some (rv, t)
      → is_neg rv ≡ false
      → (get_lag_id links ifindex t
          ≡ (if ifindex == links.get_ifindex bond then 0 else get_lag_id links ifindex s))
        × (t.lag_members ≡ s.lag_members)
  unfolding remove_lag get_lag_id
  remove_lag-get_lag_id rv ifindex e ok =
      ground (arith, find-erase (links.get_ifindex bond) ifindex s.ifi2lag)
