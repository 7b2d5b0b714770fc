-- ===== src/Ports/Tap.antt =====
-- src/netlink/tap_manager.cc. A tap device is what ctapdev keeps of it: its descriptor, its name and
-- its address. What tap_io is told is listed; packets and the ethtool handshake are left out.
use basebox.Prelude.{
  ℕ, Bool, true, false, not, ◌&&◌, List, ◌∷◌, Option, none, some, ℤ, pos, einval, Map, Key, find,
  emplace, erase, nat_key, contains, if◌then◌else◌,
}
use basebox.Ports.State.{
  Ports, Device, enter_port, leave_port, device_ready, unregister_device, erase_first,
}
use basebox.Ports.Knet.{found}

pub record Tapdev (Name : Type 0) : Type 0 where
  pub fd : ℕ
  pub devname : Name
  pub hwaddr : ℕ

pub data Io : Type 0 where
  register_tap : ℕ → ℕ → Io
  unregister_tap : ℕ → Io
  update_mtu_of : ℕ → ℕ → Io

pub record Tap (Name : Type 0) : Type 0 where
  pub ports : Ports Name
  pub tap_devs : Map ℕ (Tapdev Name)
  pub tap_names2fds : Map Name ℕ
  pub io : List Io

-- The first occurrence of a port in `port_deleted` goes.
unfoldable pub settle : {Name : Type 0} → ℕ → ℕ → Ports Name → Ports Name
settle id ifindex s =
    let dropped = unregister_device id ifindex s in
    record dropped { port_deleted = erase_first id dropped.port_deleted }

-- `fits` says whether a name can be that of a device; ctapdev throws on others.
module _ {Name : Type 0} ⦃names : Key Name⦄ (fits : Name → Bool) where
  -- A new device is opened: `opened` is the descriptor that the kernel gives, none if it fails,
  -- which is fatal.
  unfoldable pub open_port : ℕ → Name → ℕ → Option ℕ → Tap Name → Option (ℤ × Tap Name)
  open_port port_id port_name hwaddr opened s = elim (enter_port port_id port_name hwaddr s.ports) [
    | none ↦ none
    | some entered ↦ elim opened [
      | none ↦ none
      | some fd ↦ some (
        pos 0,
        record s {
          ports = entered;
          tap_devs =
              emplace port_id (record { fd = fd; devname = port_name; hwaddr = hwaddr }) s.tap_devs;
          tap_names2fds = emplace port_name fd s.tap_names2fds;
          io = Io.register_tap fd port_id ∷ s.io;
        },
      )
    ]
  ]

  unfoldable pub create_portdev : ℕ → Name → ℕ → Option ℕ → Tap Name → Option (ℤ × Tap Name)
  create_portdev port_id port_name hwaddr opened s =
      if not (found (find port_id s.tap_devs)) && not (found (find port_name s.ports.port_names2id))
      then if fits port_name then open_port port_id port_name hwaddr opened s else some (einval, s)
      else some (pos 0, s)

  unfoldable pub destroy_portdev : ℕ → Name → Tap Name → ℤ × Tap Name
  destroy_portdev port_id port_name s = elim (find port_id s.tap_devs) [
    | none ↦ (pos 0, s)
    | some dev ↦ (
      pos 0,
      record s {
        ports = leave_port port_id port_name s.ports;
        tap_names2fds = erase port_name s.tap_names2fds;
        tap_devs = erase port_id s.tap_devs;
        io = Io.unregister_tap dev.fd ∷ s.io;
      },
    )
  ]

  -- `-EINVAL` for an unknown port
  unfoldable pub get_fd : ℕ → Tap Name → ℤ
  get_fd port_id s = elim (find port_id s.tap_devs) [ none ↦ einval | some dev ↦ pos dev.fd ]

  unfoldable pub update_mtu : Device Name → ℕ → Tap Name → ℤ × Tap Name
  update_mtu d mtu s = elim (find d.name s.tap_names2fds) [
    | none ↦ (einval, s)
    | some fd ↦ (pos 0, record s { io = Io.update_mtu_of fd mtu ∷ s.io })
  ]

  -- `is_tun` is `get_link_type(link) == LT_TUN`.
  unfoldable pub portdev_ready : Bool → Device Name → ℕ → Tap Name → Bool × Tap Name
  portdev_ready is_tun d mtu s =
      let (ready, ports) = device_ready d s.ports in
      if not is_tun
      then (false, s)
      else if ready
      then (true, (update_mtu d mtu (record s { ports = ports })).1)
      else (false, s)

  -- The old device is dropped from `tap_devs`; its name keeps an entry in `tap_names2fds`.
  unfoldable pub recreate_tapdev : ℕ → Name → ℕ → Option ℕ → Tap Name → Option (ℤ × Tap Name)
  recreate_tapdev id port_name hwaddr opened s =
      if not (fits port_name) then some (einval, s) else elim opened [
        | none ↦ none
        | some fd ↦ some (
          pos 0,
          record s {
            tap_devs =
                emplace id (record { fd = fd; devname = port_name; hwaddr = hwaddr })
                  (erase id s.tap_devs);
            tap_names2fds = emplace port_name fd s.tap_names2fds;
            ports = record s.ports { port_names2id = emplace port_name id s.ports.port_names2id };
          },
        )
      ]

  -- A removal that nobody scheduled: the device is made again; a port with no device is read
  -- past the end of the map.
  unfoldable pub illegal_removal : ℕ → Device Name → Option ℕ → Tap Name → Option (Tap Name)
  illegal_removal id d opened s = elim (find id s.tap_devs) [
    | none ↦ none
    | some dev ↦ elim (recreate_tapdev id d.name dev.hwaddr opened s) [
      | none ↦ none
      | some (_, t) ↦ some t
    ]
  ]

  unfoldable pub portdev_removed :
      Bool → Device Name → Option ℕ → Tap Name → Option (Bool × Tap Name)
  portdev_removed is_tun d opened s =
      if not is_tun then some (false, s) else elim (find d.ifindex s.ports.ifindex_to_id) [
        | none ↦ some (false, s)
        | some id ↦
            if contains id s.ports.port_deleted && found (find id s.ports.id_to_ifindex)
            then some (true, record s { ports = settle id d.ifindex s.ports })
            else elim (illegal_removal id d opened s) [
              | none ↦ none
              | some t ↦ some (true, record t { ports = settle id d.ifindex t.ports })
            ]
      ]
