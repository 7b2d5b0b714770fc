-- ===== src/Bridge/StpGroups.antt =====
-- The spanning tree groups of VLANs on the switch against the map of states.
use basebox.Prelude.{
  ℕ, ◌*◌, ◌+◌, ◌^◌, ◌≡◌, ◌<◌, refl, ◌∙◌, inl, inr, Bool, true, false, not, ◌&&◌, ◌||◌, List, [],
  ◌∷◌, none, some, ℤ, pos, is_neg, arith, Map, find, insert_or_assign, emplace, erase, nat_key,
  find-insert_or_assign, find-erase, find-emplace, same_refl, ◌==◌, if◌then◌else◌, Option-cases,
  Bool-cases, for_each,
}
use basebox.Sai.{Call, Log, SwitchInterface, get_port_type, port_type_lag}
use basebox.Bridge.StpStates.{
  BridgeStpStates, br_state_forwarding, u8, u16, erase_or_drop, add_pvlan_state, del_pvlan_state,
  add_global_state, get_pvlan_state, get_min_state, get_min_states,
}
use basebox.Bridge.State.{Kernel, NlBridge, call}
use basebox.Bridge.Stp.{
  last_error, set_port_vlan_stp_state, set_port_vlan_stp_states, set_port_stp_state, set_min_state,
  add_port_vlan_stp_state, del_port_vlan_stp_state,
}

pub get_pvlan_state-add_pvlan_state :
    (port_id vid state p v : ℕ) (s : BridgeStpStates)
    → get_pvlan_state p v (add_pvlan_state port_id vid state s).1
      ≡ (if v == vid && u16 p == u16 port_id then pos state else get_pvlan_state p v s)
unfolding get_pvlan_state add_pvlan_state find
get_pvlan_state-add_pvlan_state port_id vid state p v s =
    elim (Option-cases (find vid s.pv_states)) [
      | inl new ↦ ground (
        arith,
        find-emplace vid v (emplace (u16 port_id) state []) s.pv_states,
        find-emplace (u16 port_id) (u16 p) state [],
      )
      | inr (ports, known) ↦ ground (
        arith,
        find-insert_or_assign vid v (insert_or_assign (u16 port_id) state ports) s.pv_states,
        find-insert_or_assign (u16 port_id) (u16 p) state ports,
      )
    ]

-- A LAG and the port with the same number below 2 ^ 16 share one entry: a state entered for the LAG is
-- found for the port.
pub lag_shares_state :
    (port_num vid state : ℕ) (s : BridgeStpStates)
    → port_num < 2 ^ 16
    → get_pvlan_state port_num vid
        (add_pvlan_state (port_num + port_type_lag * 2 ^ 16) vid state s).1
      ≡ pos state
lag_shares_state port_num vid state s h = ground (
  arith,
  get_pvlan_state-add_pvlan_state (port_num + port_type_lag * 2 ^ 16) vid state port_num vid s,
)

-- The group was created, and not destroyed since.
unfoldable pub stands : ℕ → Log → Bool
stands vid [] = false
stands vid ((Call.ofdpa_stg_create v, rv) ∷ l) =
    if v == vid && not (is_neg rv) then true else stands vid l
stands vid ((Call.ofdpa_stg_destroy v, rv) ∷ l) =
    if v == vid && not (is_neg rv) then false else stands vid l
stands vid ((_, rv) ∷ l) = stands vid l

-- The switch accepts that any group is destroyed.
abbrev pub IsObliging : SwitchInterface → Type 0
IsObliging swi = (l : Log) (vid : ℕ) → is_neg (swi.answer l (Call.ofdpa_stg_destroy vid)) ≡ false

abbrev pub has_states : ℕ → BridgeStpStates → Bool
has_states vid s = elim (find vid s.pv_states) [ none ↦ false | some _ ↦ true ]

-- A group stands on the switch for exactly the VLANs that have states.
abbrev pub IsGrouped : {L : Type 0} → NlBridge L → Type 0
IsGrouped s = (vid : ℕ) → stands vid s.vlan.log ≡ has_states vid s.stp

has_states-add_pvlan_state :
    (port_id vid state v : ℕ) (s : BridgeStpStates)
    → (has_states v (add_pvlan_state port_id vid state s).1 ≡ (v == vid || has_states v s))
      × ((add_pvlan_state port_id vid state s).0 ≡ not (has_states vid s))
unfolding add_pvlan_state
has_states-add_pvlan_state port_id vid state v s = elim (Option-cases (find vid s.pv_states)) [
  | inl new ↦ ground (arith, find-emplace vid v (emplace (u16 port_id) state []) s.pv_states)
  | inr (ports, known) ↦
      ground (
        arith,
        find-insert_or_assign vid v (insert_or_assign (u16 port_id) state ports) s.pv_states,
      )
]

has_states-erase_or_drop :
    (vid v : ℕ) (left : Map ℕ ℕ) (s : BridgeStpStates)
    → has_states vid s ≡ true
    → has_states v (erase_or_drop vid left s).1
      ≡ (if v == vid then not (erase_or_drop vid left s).0 else has_states v s)
unfolding erase_or_drop
has_states-erase_or_drop vid v [] s h = ground (arith, find-erase vid v s.pv_states)
has_states-erase_or_drop vid v (e ∷ left) s h =
    ground (arith, find-insert_or_assign vid v (e ∷ left) s.pv_states)

has_states-del_pvlan_state :
    (port_id vid v : ℕ) (s : BridgeStpStates)
    → (has_states v (del_pvlan_state port_id vid s).1 ≡ (
        if v == vid
        then has_states vid s && not (del_pvlan_state port_id vid s).0
        else has_states v s))
      × ((del_pvlan_state port_id vid s).0 ≡ true → has_states vid s ≡ true)
unfolding del_pvlan_state
has_states-del_pvlan_state port_id vid v s = elim (Option-cases (find vid s.pv_states)) [
  | inl unknown ↦ (ground arith, ground arith)
  | inr (ports, known) ↦
      (ground (arith, has_states-erase_or_drop vid v (erase (u16 port_id) ports) s), ground arith)
]

-- The port that a VLAN was new for takes it away again.
del-add_pvlan_state :
    (port_id vid state : ℕ) (s : BridgeStpStates)
    → has_states vid s ≡ false
    → (del_pvlan_state port_id vid (add_pvlan_state port_id vid state s).1).0 ≡ true
unfolding add_pvlan_state del_pvlan_state erase_or_drop emplace insert_or_assign find erase
del-add_pvlan_state port_id vid state s new = ground (
  arith,
  find-emplace vid vid (emplace (u16 port_id) state []) s.pv_states,
  same_refl vid,
  same_refl (u16 port_id),
)

module _ (k : Kernel) (swi : SwitchInterface) where
  open k use {nl}

  -- Nothing but the log changes, and no group.
  abbrev OnlyLogs : NlBridge nl.Link → NlBridge nl.Link → Type 0
  OnlyLogs s t = (t.stp ≡ s.stp) × ((v : ℕ) → stands v t.vlan.log ≡ stands v s.vlan.log)

  last_error-OnlyLogs :
      (vid state : ℕ) (err : ℤ) (ports : List ℕ) (s : NlBridge nl.Link)
      → OnlyLogs s
          (last_error (λ mem. call swi (Call.ofdpa_stg_state_port_set mem vid state)) err ports s).1
  unfolding last_error stands
  last_error-OnlyLogs vid state err [] s = (refl, λ v. refl)
  last_error-OnlyLogs vid state err (x ∷ xs) s =
      let rv = swi.answer s.vlan.log (Call.ofdpa_stg_state_port_set x vid state) in
      last_error-OnlyLogs vid state (if is_neg rv then rv else err) xs
        (call swi (Call.ofdpa_stg_state_port_set x vid state) s).1

  set_port_vlan_stp_state-OnlyLogs :
      (port_id vid state : ℕ) (s : NlBridge nl.Link)
      → OnlyLogs s (set_port_vlan_stp_state k swi port_id vid state s).1
  unfolding set_port_vlan_stp_state stands
  set_port_vlan_stp_state-OnlyLogs port_id vid state s =
      elim (Bool-cases (get_port_type port_id == port_type_lag)) [
        | inl bond ↦
            rw bond
              (last_error-OnlyLogs vid state (pos 0) (nl.get_bond_members_by_port_id port_id) s)
        | inr single ↦ rw single (refl, λ v. refl)
      ]

  set_port_vlan_stp_states-OnlyLogs :
      (port_id : ℕ) (states : Map ℕ ℕ) (s : NlBridge nl.Link)
      → OnlyLogs s (set_port_vlan_stp_states k swi port_id states s).1
  unfolding set_port_vlan_stp_states for_each
  set_port_vlan_stp_states-OnlyLogs port_id [] s = (refl, λ v. refl)
  set_port_vlan_stp_states-OnlyLogs port_id ((vid, state) ∷ m) s =
      let first = set_port_vlan_stp_state-OnlyLogs port_id vid state s in
      let rest =
        set_port_vlan_stp_states-OnlyLogs port_id m
          (set_port_vlan_stp_state k swi port_id vid state s).1 in
      (rest.0 ∙ first.0, λ v. rest.1 v ∙ first.1 v)

  pub set_port_stp_state-IsGrouped :
      (port_id state : ℕ) (s : NlBridge nl.Link)
      → IsGrouped s
      → IsGrouped (set_port_stp_state k swi port_id state s).1
  unfolding set_port_stp_state add_global_state
  set_port_stp_state-IsGrouped port_id state s h v =
      let entered : NlBridge nl.Link = record s { stp = add_global_state port_id state s.stp } in
      let states = get_min_states port_id entered.stp in
      let told = (set_port_vlan_stp_states k swi port_id states entered).1 in
      let each = set_port_vlan_stp_states-OnlyLogs port_id states entered in
      let whole = set_port_vlan_stp_state-OnlyLogs port_id 0 state told in
      ground (arith, each.0, each.1 v, whole.0, whole.1 v, h v)

  pub add_port_vlan_stp_state-IsGrouped :
      (port_id vid state : ℕ) (s : NlBridge nl.Link)
      → IsGrouped s
      → IsGrouped (add_port_vlan_stp_state k swi port_id vid state s).1
  unfolding add_port_vlan_stp_state set_min_state stands
  add_port_vlan_stp_state-IsGrouped port_id vid state s h v =
      let added = add_pvlan_state port_id vid state s.stp in
      let entered : NlBridge nl.Link = record s { stp = added.1 } in
      let created = (call swi (Call.ofdpa_stg_create vid) entered).1 in
      let g = u8 (get_min_state port_id vid added.1) in
      let first = set_port_vlan_stp_state-OnlyLogs port_id vid g created in
      let later = set_port_vlan_stp_state-OnlyLogs port_id vid g entered in
      ground (
        arith,
        h v,
        h vid,
        has_states-add_pvlan_state port_id vid state v s.stp,
        has_states-del_pvlan_state port_id vid v added.1,
        del-add_pvlan_state port_id vid state s.stp,
        first.0,
        first.1 v,
        later.0,
        later.1 v,
      )

  pub del_port_vlan_stp_state-IsGrouped :
      (port_id vid : ℕ) (s : NlBridge nl.Link)
      → IsObliging swi
      → IsGrouped s
      → IsGrouped (del_port_vlan_stp_state k swi port_id vid s).1
  unfolding del_port_vlan_stp_state stands
  del_port_vlan_stp_state-IsGrouped port_id vid s obliging h v =
      let told = (set_port_vlan_stp_state k swi port_id vid br_state_forwarding s).1 in
      let whole = set_port_vlan_stp_state-OnlyLogs port_id vid br_state_forwarding s in
      ground (
        arith,
        h v,
        h vid,
        obliging told.vlan.log vid,
        whole.0,
        whole.1 v,
        has_states-del_pvlan_state port_id vid v told.stp,
      )
