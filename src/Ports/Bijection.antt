-- ===== src/Ports/Bijection.antt =====
-- The two index maps of a port manager, from devices to ports and back.
use mathlib.Core.Option
use basebox.Prelude.{
  ℕ, ◌≡◌, inl, inr, Bool, List, [], ◌∷◌, Option, none, some, ℤ, arith, Key, find, nat_key,
  find-insert_or_assign, find-erase, ◌==◌, if◌then◌else◌, Option-cases,
}
use basebox.Sai.{SwitchInterface}
use basebox.Ports.State.{
  Ports, Device, get_port_id, get_ifindex, drop_old_index, register_device, unregister_device,
  device_ready, enter_port, leave_port,
}
use basebox.Ports.Knet.{
  Knet, create_portdev, create_netif, change_port_status_unlocked, write_line, destroy_portdev,
  portdev_ready, portdev_removed,
}

module _ {Name : Type 0} where
  pub record IsInverse (s : Ports Name) : Type 0 where
    pub to : (i p : ℕ) → find i s.ifindex_to_id ≡ some p → find p s.id_to_ifindex ≡ some i
    pub from : (i p : ℕ) → find p s.id_to_ifindex ≡ some i → find i s.ifindex_to_id ≡ some p

  find-drop_old_index :
      (id ifindex i : ℕ) (s : Ports Name)
      → find i (drop_old_index id ifindex s) ≡ elim (find id s.id_to_ifindex) [
        | none ↦ find i s.ifindex_to_id
        | some old ↦
            if old == ifindex
            then find i s.ifindex_to_id
            else if i == old
            then none
            else find i s.ifindex_to_id
      ]
  unfolding drop_old_index
  find-drop_old_index id ifindex i s = elim (Option-cases (find id s.id_to_ifindex)) [
    | inl e ↦ ground arith
    | inr (old, e) ↦ ground (arith, find-erase old i s.ifindex_to_id)
  ]

  register_device-IsInverse :
      (id ifindex : ℕ) (s : Ports Name)
      → find ifindex s.ifindex_to_id ≡ none
      → IsInverse s
      → IsInverse (register_device id ifindex s)
  unfolding register_device
  register_device-IsInverse id ifindex s fresh h = record {
    to = λ i p e. elim (Option-cases (find id s.id_to_ifindex)) [
      | inl new ↦ ground (
        arith,
        h.to i p,
        find-insert_or_assign id p ifindex s.id_to_ifindex,
        find-insert_or_assign ifindex i id (drop_old_index id ifindex s),
        find-drop_old_index id ifindex i s,
      )
      | inr (old, known) ↦ ground (
        arith,
        h.to i p,
        find-insert_or_assign id p ifindex s.id_to_ifindex,
        find-insert_or_assign ifindex i id (drop_old_index id ifindex s),
        find-drop_old_index id ifindex i s,
      )
    ];
    from = λ i p e. elim (Option-cases (find id s.id_to_ifindex)) [
      | inl new ↦ ground (
        arith,
        h.from i p,
        find-insert_or_assign id p ifindex s.id_to_ifindex,
        find-insert_or_assign ifindex i id (drop_old_index id ifindex s),
        find-drop_old_index id ifindex i s,
      )
      | inr (old, known) ↦ ground (
        arith,
        h.from i p,
        h.from old id known,
        find-insert_or_assign id p ifindex s.id_to_ifindex,
        find-insert_or_assign ifindex i id (drop_old_index id ifindex s),
        find-drop_old_index id ifindex i s,
      )
    ];
  }

  unregister_device-IsInverse :
      (id ifindex : ℕ) (s : Ports Name)
      → find ifindex s.ifindex_to_id ≡ some id
      → IsInverse s
      → IsInverse (unregister_device id ifindex s)
  unfolding unregister_device
  unregister_device-IsInverse id ifindex s known h = record {
    to = λ i p e. ground (
      arith,
      h.to i p,
      h.to ifindex id known,
      h.from i p,
      find-erase ifindex i s.ifindex_to_id,
      find-erase id p s.id_to_ifindex,
    );
    from = λ i p e. ground (
      arith,
      h.from i p,
      h.to ifindex id known,
      h.to i p,
      find-erase ifindex i s.ifindex_to_id,
      find-erase id p s.id_to_ifindex,
    );
  }

  -- The invariant speaks of two maps only.
  pub IsInverse-same :
      (s t : Ports Name)
      → t.ifindex_to_id ≡ s.ifindex_to_id
      → t.id_to_ifindex ≡ s.id_to_ifindex
      → IsInverse s
      → IsInverse t
  IsInverse-same s t e f h = record {
    to = λ i p g. ground (arith, h.to i p);
    from = λ i p g. ground (arith, h.from i p);
  }

  -- While the index maps are inverse, a registered device is read back from its port, and a port from its device.
  get_ifindex-get_port_id :
      (s : Ports Name) (i p : ℕ)
      → IsInverse s
      → find i s.ifindex_to_id ≡ some p
      → (get_ifindex (get_port_id i s) s ≡ i) × (get_port_id (get_ifindex p s) s ≡ p)
  unfolding get_ifindex get_port_id
  get_ifindex-get_port_id s i p h e = ground (arith, h.to i p e)

module _ {Name : Type 0} ⦃names : Key Name⦄ where
  pub device_ready-IsInverse :
      (d : Device Name) (s : Ports Name) → IsInverse s → IsInverse (device_ready d s).1
  unfolding device_ready
  device_ready-IsInverse d s h = elim (Option-cases (find d.ifindex s.ifindex_to_id)) [
    | inr (id, e) ↦ rw (e, device_ready) h
    | inl fresh ↦ elim (Option-cases (find d.name s.port_names2id)) [
      | inl unknown ↦ rw (fresh, unknown, device_ready) h
      | inr (id, known) ↦
          rw (fresh, known, device_ready) (register_device-IsInverse id d.ifindex s fresh h)
    ]
  ]

-- What a knet_manager is told: a port of the switch is made or goes, a device is ready or removed.
pub data Event (Name : Type 0) : Type 0 where
  creates : ℕ → Name → ℕ → Event Name
  destroys : ℕ → Name → Event Name
  ready removed : Device Name → Event Name

module _ {Name : Type 0} ⦃names : Key Name⦄ (swi : SwitchInterface) (opens : Bool) where
  -- None where the source aborts.
  unfoldable pub handle : Event Name → Knet Name → Option (Knet Name)
  handle (creates id name hwaddr) s =
      Option.map (λ r. r.1) (create_portdev swi opens id name hwaddr s)
  handle (destroys id name) s = some (destroy_portdev swi opens id name s).1
  handle (ready d) s = some (portdev_ready swi opens d s).1
  handle (removed d) s = Option.map (λ r. r.1) (portdev_removed swi opens d s)

  unfoldable pub handle_all : List (Event Name) → Knet Name → Option (Knet Name)
  handle_all [] s = some s
  handle_all (e ∷ es) s = elim (handle e s) [ none ↦ none | some t ↦ handle_all es t ]

  create_portdev-maps :
      (id : ℕ) (name : Name) (hwaddr : ℕ) (s : Knet Name) (rv : ℤ) (t : Knet Name)
      → create_portdev swi opens id name hwaddr s ≡ some (rv, t)
      → (t.ports.ifindex_to_id ≡ s.ports.ifindex_to_id)
        × (t.ports.id_to_ifindex ≡ s.ports.id_to_ifindex)
  unfolding create_portdev create_netif enter_port change_port_status_unlocked write_line
  create_portdev-maps id name hwaddr s rv t e = ground arith

  portdev_removed-IsInverse :
      (d : Device Name) (s : Knet Name) (b : Bool) (t : Knet Name)
      → portdev_removed swi opens d s ≡ some (b, t)
      → IsInverse s.ports
      → IsInverse t.ports
  unfolding portdev_removed unregister_device
  portdev_removed-IsInverse d s b t e h =
      elim (Option-cases (find d.ifindex s.ports.ifindex_to_id)) [
        | inl unknown ↦ IsInverse-same s.ports t.ports (ground arith) (ground arith) h
        | inr (id, known) ↦
            IsInverse-same (unregister_device id d.ifindex s.ports) t.ports (ground arith)
              (ground arith) (unregister_device-IsInverse id d.ifindex s.ports known h)
      ]

  handle-IsInverse :
      (e : Event Name) (s t : Knet Name)
      → handle e s ≡ some t
      → IsInverse s.ports
      → IsInverse t.ports
  unfolding handle destroy_portdev portdev_ready leave_port
  handle-IsInverse (creates id name hwaddr) s t g h =
      elim (Option-cases (create_portdev swi opens id name hwaddr s)) [
        | inl aborted ↦ absurd (ground arith)
        | inr ((rv, u), made) ↦
            let maps = create_portdev-maps id name hwaddr s rv u made in
            IsInverse-same s.ports t.ports (ground arith) (ground arith) h
      ]
  handle-IsInverse (destroys id name) s t g h =
      IsInverse-same s.ports t.ports (ground arith) (ground arith) h
  handle-IsInverse (ready d) s t g h =
      IsInverse-same (device_ready d s.ports).1 t.ports (ground arith) (ground arith)
        (device_ready-IsInverse d s.ports h)
  handle-IsInverse (removed d) s t g h = elim (Option-cases (portdev_removed swi opens d s)) [
    | inl aborted ↦ absurd (ground arith)
    | inr ((b, u), done) ↦
        IsInverse-same u.ports t.ports (ground arith) (ground arith)
          (portdev_removed-IsInverse d s b u done h)
  ]

  -- After any history that does not abort, the index maps are inverse if they were before.
  pub handle_all-IsInverse :
      (es : List (Event Name)) (s t : Knet Name)
      → handle_all es s ≡ some t
      → IsInverse s.ports
      → IsInverse t.ports
  unfolding handle_all
  handle_all-IsInverse [] s t g h = IsInverse-same s.ports t.ports (ground arith) (ground arith) h
  handle_all-IsInverse (e ∷ es) s t g h = elim (Option-cases (handle e s)) [
    | inl aborted ↦ absurd (ground arith)
    | inr (u, done) ↦ handle_all-IsInverse es u t (ground arith) (handle-IsInverse e s u done h)
  ]
