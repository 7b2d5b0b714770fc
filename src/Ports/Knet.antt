-- ===== src/Ports/Knet.antt =====
-- src/netlink/knet_manager.cc. `opens` says whether /proc/bcm/knet/link can be opened. Packets are
-- only freed, and are left out.
use basebox.Prelude.{
  ℕ, ◌/◌, Bool, true, false, not, ◌&&◌, List, ◌∷◌, Option, none, some, ℤ, pos, is_zero, einval, Map,
  Key, find, nat_key, contains, ◌==◌, if◌then◌else◌,
}
use basebox.Sai.{Call, Log, SwitchInterface}
use basebox.Ports.State.{
  Ports, Device, enter_port, leave_port, device_ready, unregister_device, erase_first,
}

-- What is written to /proc/bcm/knet/link: up or down, the speed in Mbit with full duplex or not,
-- and whether traffic is offloaded.
pub data Line (Name : Type 0) : Type 0 where
  link : Name → Bool → Line Name
  speed : Name → ℕ → Bool → Line Name
  offload : Name → Bool → Line Name

-- `knet_devs` maps a port to a netif. The lines written are listed newest first.
pub record Knet (Name : Type 0) : Type 0 where
  pub ports : Ports Name
  pub knet_devs : Map ℕ ℕ
  pub lines : List (Line Name)
  pub log : Log

-- `is_some`, the test of an iterator against `end()`.
abbrev pub found {ℓ} : {A : Type ℓ} → Option A → Bool
found none = false
found (some _) = true

module _ {Name : Type 0} ⦃names : Key Name⦄ (swi : SwitchInterface) (opens : Bool) where
  unfoldable pub write_line : Line Name → Knet Name → ℤ × Knet Name
  write_line l s = if opens then (pos 0, record s { lines = l ∷ s.lines }) else (pos 1, s)

  unfoldable pub change_port_status_unlocked : Name → Bool → Knet Name → ℤ × Knet Name
  change_port_status_unlocked name status s = write_line (Line.link name status) s

  unfoldable pub change_port_status : Name → Bool → Knet Name → ℤ × Knet Name
  change_port_status name status s =
      if found (find name s.ports.port_names2id)
      then change_port_status_unlocked name status s
      else (einval, s)

  -- The speed is given in kbit; `duplex` is not 0 for full duplex.
  unfoldable pub set_port_speed : Name → ℕ → ℕ → Knet Name → ℤ × Knet Name
  set_port_speed name kbit duplex s =
      if found (find name s.ports.port_names2id)
      then write_line (Line.speed name (kbit / 1000) (not (duplex == 0))) s
      else (einval, s)

  unfoldable pub set_offloaded : Name → Bool → Knet Name → ℤ × Knet Name
  set_offloaded name offloaded s = (pos 0, (write_line (Line.offload name offloaded) s).1)

  abbrev call : Call → Knet Name → ℤ × Knet Name
  call c s = let rv = swi.answer s.log c in (rv, record s { log = (c, rv) ∷ s.log })

  -- None where the source aborts.
  unfoldable pub create_netif : ℕ → Name → Knet Name → Option (ℤ × Knet Name)
  create_netif port_id port_name s =
      let (r, t) = call (Call.port_knet_create port_id) s in
      if is_zero r then some (r, (change_port_status_unlocked port_name false t).1) else none

  unfoldable pub create_portdev : ℕ → Name → ℕ → Knet Name → Option (ℤ × Knet Name)
  create_portdev port_id port_name hwaddr s =
      if not (found (find port_id s.knet_devs))
        && not (found (find port_name s.ports.port_names2id))
      then elim (enter_port port_id port_name hwaddr s.ports) [
        | none ↦ none
        | some entered ↦ create_netif port_id port_name (record s { ports = entered })
      ]
      else some (pos 0, s)

  unfoldable pub destroy_portdev : ℕ → Name → Knet Name → ℤ × Knet Name
  destroy_portdev port_id port_name s = (
    pos 0,
    (call (Call.port_knet_delete port_id)
        (record s { ports = leave_port port_id port_name s.ports })).1,
  )

  unfoldable pub portdev_ready : Device Name → Knet Name → Bool × Knet Name
  portdev_ready d s =
      let (ready, ports) = device_ready d s.ports in (ready, record s { ports = ports })

  -- A device that nobody scheduled for removal is fatal.
  unfoldable pub portdev_removed : Device Name → Knet Name → Option (Bool × Knet Name)
  portdev_removed d s = elim (find d.ifindex s.ports.ifindex_to_id) [
    | none ↦ some (false, s)
    | some id ↦
        if not (contains id s.ports.port_deleted)
        then none
        else elim (find id s.ports.id_to_ifindex) [
          | none ↦ none
          | some _ ↦
              let dropped = unregister_device id d.ifindex s.ports in
              some (
                true,
                record s {
                  ports = record dropped { port_deleted = erase_first id dropped.port_deleted };
                },
              )
        ]
  ]
