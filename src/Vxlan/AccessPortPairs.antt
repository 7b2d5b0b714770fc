-- ===== src/Vxlan/AccessPortPairs.antt =====
-- Access ports that are made, refused and deleted.
use basebox.Prelude.{
  ℕ, zero, suc, ◌≤◌, ◌≡◌, ◌&&◌, ◌≢◌, ◌⊎◌, inl, inr, refl, Bool, true, false, List, [], ◌∷◌, none,
  some, ℤ, pos, is_neg, einval, arith, find, emplace, nat_key, pair_key, find-emplace, find-erase,
  same_iff, same_refl, Option-cases, Bool-cases,
}
use basebox.Sai.{Call, Log, SwitchInterface}
use basebox.Vxlan.Action.{Action, ◌>>=◌, pure}
use basebox.Vxlan.State.{AccessTunnelPort, Network, NlVxlan, call}
use basebox.Vxlan.AccessPorts.{
  lookup_access_port, get_access_tunnel_port, enter_access_port, drop_access_port, is_port_flooding,
  enable_flooding, disable_flooding, retry, wipe, remove_access_port, delete_access_port,
  flood_access_port, join_tenant, make_access_port, create_access_port,
}

-- The log after more calls, each with its answer.
unfoldable pub logged : SwitchInterface → List Call → Log → Log
logged swi [] l = l
logged swi (c ∷ cs) l = logged swi cs ((c, swi.answer l c) ∷ l)

-- What is asked of the switch for a new access port, before its tenant.
unfoldable pub creation : ℕ → ℕ → ℕ → Bool → List Call
creation lport_id pport_no vid untagged =
    Call.egress_bridge_port_vlan_remove pport_no vid
    ∷ Call.ingress_port_vlan_remove pport_no vid untagged 0
    ∷ Call.tunnel_access_port_create lport_id pport_no vid untagged
    ∷ []

-- The answer to the last of them.
unfoldable pub last_answer : Log → ℤ
last_answer [] = pos 0
last_answer ((c, rv) ∷ l) = rv

unfoldable pub replicate : {A : Type 0} → ℕ → A → List A
replicate zero x = []
replicate (suc n) x = x ∷ replicate n x

-- The switch refuses a call n times in a row.
unfoldable pub all_refused : SwitchInterface → ℕ → Call → Log → Bool
all_refused swi zero c l = true
all_refused swi (suc n) c l =
    is_neg (swi.answer l c) && all_refused swi n c ((c, swi.answer l c) ∷ l)

-- An action that goes on to a fixed result.
ends :
    {S B : Type 0} (m : Action S B) (rv last : ℤ) (s t : S)
    → (m >>= λ _. pure rv) s ≡ some (last, t)
    → rv ≡ last
ends m rv last s t e = elim (Option-cases (m s)) [
  | inl aborted ↦ absurd (ground arith)
  | inr ((b, u), returned) ↦ ground arith
]

module _ {L A : Type 0} (net : Network L A) (swi : SwitchInterface) where
  -- Trying a call up to n + 1 times always returns: for some k up to n it is made k + 1 times and
  -- nothing else is changed; the switch refused the first k, and the answer to the last one is
  -- returned, which is no error unless all n + 1 were made.
  pub retry_bounded :
      (n : ℕ) (c : Call) (s : NlVxlan L A)
      → (k : ℕ) × ((k ≤ n)
          × ((retry net swi n c s
                ≡ some (
                  last_answer (logged swi (replicate (suc k) c) s.log),
                  record s { log = logged swi (replicate (suc k) c) s.log },
                ))
              × ((all_refused swi k c s.log ≡ true)
                  × ((k ≡ n)
                      ⊎ (is_neg (last_answer (logged swi (replicate (suc k) c) s.log)) ≡ false)))))
  unfolding retry replicate all_refused logged last_answer
  retry_bounded zero c s = (zero, (omega arith, (refl, (refl, inl refl))))
  retry_bounded (suc n) c s =
      let u : NlVxlan L A = record s { log = (c, swi.answer s.log c) ∷ s.log } in
      let (k, (bound, (e, (before, last)))) = retry_bounded n c u in
      elim (Bool-cases (is_neg (swi.answer s.log c))) [
        | inl refused ↦ (
          suc k,
          (
            omega (arith, bound),
            (ground (arith, e), (ground (arith, before), ground (arith, last))),
          ),
        )
        | inr accepted ↦ (zero, (omega arith, (ground arith, (refl, inr accepted))))
      ]

  -- If the switch makes a new access port at once, but refuses it to its tenant, the answer is
  -- returned, and nothing was done but these calls: the port stays on the switch, and is neither
  -- entered nor are its VLANs restored, nor is its id passed over for the next port.
  pub create_access_port_refused :
      (br_link : L) (tunnel_id pport_no vid : ℕ) (untagged : Bool) (s : NlVxlan L A)
      → pport_no ≢ 0
      → vid ≢ 0
      → find (pport_no, vid) s.access_port_ids ≡ none
      → is_neg (last_answer (logged swi (creation s.port_id_cnt pport_no vid untagged) s.log))
        ≡ false
      → is_neg (
          swi.answer
            (logged swi (creation s.port_id_cnt pport_no vid untagged) s.log)
            (Call.tunnel_port_tenant_add s.port_id_cnt tunnel_id))
        ≡ true
      → create_access_port net swi br_link tunnel_id pport_no vid untagged s
        ≡ some (
          (
            swi.answer
                (logged swi (creation s.port_id_cnt pport_no vid untagged) s.log)
                (Call.tunnel_port_tenant_add s.port_id_cnt tunnel_id),
            none,
          ),
          record s {
            log =
                logged swi
                  (Call.tunnel_port_tenant_add s.port_id_cnt tunnel_id ∷ [])
                  (logged swi (creation s.port_id_cnt pport_no vid untagged) s.log);
          },
        )
  unfolding create_access_port make_access_port join_tenant retry get_access_tunnel_port
      lookup_access_port delete_access_port logged creation last_answer
  create_access_port_refused br_link tunnel_id pport_no vid untagged s port vlan new made refused =
      ground arith

  retry_frame :
      (n : ℕ) (c : Call) (s : NlVxlan L A) (rv : ℤ) (t : NlVxlan L A)
      → retry net swi n c s ≡ some (rv, t)
      → (t.access_port_ids ≡ s.access_port_ids) × (t.port_id_cnt ≡ s.port_id_cnt)
  unfolding retry
  retry_frame zero c s rv t e = ground arith
  retry_frame (suc n) c s rv t e =
      ground (arith, retry_frame n c (record s { log = (c, swi.answer s.log c) ∷ s.log }) rv t)

  join_tenant_frame :
      (br_link : L) (tunnel_id lport_id pport_no vid : ℕ) (s : NlVxlan L A) (rv : ℤ)
      (t : NlVxlan L A)
      → join_tenant net swi br_link tunnel_id lport_id pport_no vid s ≡ some (rv, t)
      → is_neg rv ≡ false
      → (net.is_bridge br_link ≡ true)
        × ((t.access_port_ids ≡ s.access_port_ids) × (t.port_id_cnt ≡ s.port_id_cnt))
  unfolding join_tenant is_port_flooding flood_access_port enable_flooding disable_flooding logged
  join_tenant_frame br_link tunnel_id lport_id pport_no vid s rv t e ok =
      elim (Bool-cases
        (is_neg (swi.answer s.log (Call.tunnel_port_tenant_add lport_id tunnel_id)))) [
          | inr added ↦ ground (
            arith,
            ends
                (call swi (Call.tunnel_port_tenant_remove lport_id tunnel_id) >>= λ _.
                  delete_access_port net swi br_link pport_no vid false)
                einval rv
                (record s {
                  log =
                      logged swi
                        (Call.tunnel_port_tenant_add lport_id tunnel_id
                          ∷ Call.add_l2_overlay_flood tunnel_id lport_id
                          ∷ Call.del_l2_overlay_flood tunnel_id lport_id
                          ∷ [])
                        s.log;
                })
                t,
          )
          | inl refused ↦ absurd (
              ground (
                arith,
                ends (delete_access_port net swi br_link pport_no vid false)
                    (swi.answer s.log (Call.tunnel_port_tenant_add lport_id tunnel_id)) rv
                    (record s {
                      log = logged swi (Call.tunnel_port_tenant_add lport_id tunnel_id ∷ []) s.log;
                    })
                    t,
              ))
        ]

  removed :
      (br_link : L) (port : AccessTunnelPort) (wipes : Bool) (s : NlVxlan L A)
      → net.is_bridge br_link ≡ true
      → (rv : ℤ) × ((t : NlVxlan L A) × ((remove_access_port net swi br_link port wipes s
              ≡ some (rv, t))
            × (t.access_port_ids ≡ s.access_port_ids)))
  unfolding remove_access_port wipe is_port_flooding disable_flooding
  removed br_link port wipes s bridge =
      elim (Option-cases (remove_access_port net swi br_link port wipes s)) [
        | inl aborted ↦ absurd (ground arith)
        | inr ((rv, t), returned) ↦ (rv, (t, (returned, ground arith)))
      ]

  created :
      (br_link : L) (tunnel_id pport_no vid : ℕ) (untagged : Bool) (s t : NlVxlan L A) (rv : ℤ)
      (lport_id : ℕ)
      → create_access_port net swi br_link tunnel_id pport_no vid untagged s
        ≡ some ((rv, some lport_id), t)
      → (net.is_bridge br_link ≡ true)
        × (t.access_port_ids
            ≡ emplace
                (pport_no, vid)
                (record { lport_id = lport_id; tunnel_id = tunnel_id })
                s.access_port_ids)
  unfolding create_access_port make_access_port get_access_tunnel_port lookup_access_port
      enter_access_port logged
  created br_link tunnel_id pport_no vid untagged s t rv lport_id e =
      let id = s.port_id_cnt in
      let c = Call.tunnel_access_port_create id pport_no vid untagged in
      let u : NlVxlan L A = record s {
        log =
            logged swi
              (Call.egress_bridge_port_vlan_remove pport_no vid
                ∷ Call.ingress_port_vlan_remove pport_no vid untagged 0
                ∷ [])
              s.log;
      } in
      elim (Option-cases (retry net swi 49 c u)) [
        | inl aborted ↦ absurd (ground arith)
        | inr ((made, v), tried) ↦
            elim (Option-cases (join_tenant net swi br_link tunnel_id id pport_no vid v)) [
              | inl aborted ↦ absurd (ground arith)
              | inr ((joined, w), returned) ↦ ground (
                arith,
                retry_frame 49 c u made v tried,
                join_tenant_frame br_link tunnel_id id pport_no vid v joined w returned,
              )
            ]
      ]

  -- An access port that is made is looked up with its tunnel, and once it is deleted again, which
  -- succeeds, every access port is as before.
  pub delete_access_port-create_access_port :
      (br_link : L) (tunnel_id pport_no vid : ℕ) (untagged wipes : Bool) (k : ℕ × ℕ)
      (s t : NlVxlan L A) (rv : ℤ) (lport_id : ℕ)
      → find (pport_no, vid) s.access_port_ids ≡ none
      → create_access_port net swi br_link tunnel_id pport_no vid untagged s
        ≡ some ((rv, some lport_id), t)
      → (lookup_access_port pport_no vid t ≡ record { lport_id = lport_id; tunnel_id = tunnel_id })
        × ((u : NlVxlan L A) × ((delete_access_port net swi br_link pport_no vid wipes t
                ≡ some (pos 0, u))
              × (find k u.access_port_ids ≡ find k s.access_port_ids)))
  unfolding lookup_access_port delete_access_port drop_access_port
  delete_access_port-create_access_port br_link tunnel_id pport_no vid untagged wipes k s t rv
        lport_id new e =
      let port : AccessTunnelPort = record { lport_id = lport_id; tunnel_id = tunnel_id } in
      let (bridge, entered) = created br_link tunnel_id pport_no vid untagged s t rv lport_id e in
      let at : find (pport_no, vid) t.access_port_ids ≡ some port = ground (
        arith,
        find-emplace (pport_no, vid) (pport_no, vid) port s.access_port_ids,
        same_refl {K = ℕ × ℕ} (pport_no, vid),
      ) in
      let (last, (v, (returned, same_ports))) = removed br_link port wipes t bridge in
      (
        ground arith,
        (
          drop_access_port pport_no vid v,
          (
            ground arith,
            ground (
              arith,
              find-erase (pport_no, vid) k v.access_port_ids,
              find-emplace (pport_no, vid) k port s.access_port_ids,
              same_iff {K = ℕ × ℕ} k (pport_no, vid),
            ),
          ),
        ),
      )
