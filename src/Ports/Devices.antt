-- ===== src/Ports/Devices.antt =====
-- Ports that are made, made again, and go; devices that vanish.
use basebox.Prelude.{
  ℕ, ◌≡◌, ◌≢◌, Bool, true, false, Option, none, some, ℤ, pos, arith, Key, find, emplace, erase,
  nat_key, find-erase, find-emplace, same_iff, contains,
}
use basebox.Sai.{SwitchInterface}
use basebox.Ports.State.{Device, enter_port, leave_port}
use basebox.Ports.Knet.{Knet, create_netif, change_port_status_unlocked, write_line}
use basebox.Ports.Knet
use basebox.Ports.Tap.{Tap, Tapdev, open_port, recreate_tapdev, illegal_removal, get_fd, settle}
use basebox.Ports.Tap

module _ {Name : Type 0} ⦃names : Key Name⦄ (fits : Name → Bool) where
  -- A port that is made and then destroyed leaves no trace in the maps, if neither the port nor the
  -- name was known before.
  destroy-create_portdev :
      (id : ℕ) (name : Name) (hwaddr : ℕ) (opened : Option ℕ) (s t : Tap Name)
      → find id s.tap_devs ≡ none
      → find id s.ports.id_to_hwaddr ≡ none
      → find name s.ports.port_names2id ≡ none
      → find name s.tap_names2fds ≡ none
      → Tap.create_portdev fits id name hwaddr opened s ≡ some (pos 0, t)
      → (port : ℕ) (other : Name)
      → let u = (Tap.destroy_portdev fits id name t).1 in
        (find port u.tap_devs ≡ find port s.tap_devs)
        × (find port u.ports.id_to_hwaddr ≡ find port s.ports.id_to_hwaddr)
        × (find other u.ports.port_names2id ≡ find other s.ports.port_names2id)
        × (find other u.tap_names2fds ≡ find other s.tap_names2fds)
  unfolding Tap.create_portdev open_port Tap.destroy_portdev enter_port leave_port
  destroy-create_portdev id name hwaddr (some fd) s t new_dev new_addr new_name new_fd e port
        other =
      let made : Tapdev Name = record { fd = fd; devname = name; hwaddr = hwaddr } in
      ground (
        arith,
        find-emplace id id made s.tap_devs,
        find-emplace id port made s.tap_devs,
        find-emplace id port hwaddr s.ports.id_to_hwaddr,
        find-emplace name other id s.ports.port_names2id,
        find-emplace name other fd s.tap_names2fds,
        find-erase id port (emplace id made s.tap_devs),
        find-erase id port (emplace id hwaddr s.ports.id_to_hwaddr),
        find-erase name other (emplace name id s.ports.port_names2id),
        find-erase name other (emplace name fd s.tap_names2fds),
        same_iff other name,
      )
  destroy-create_portdev id name hwaddr none s t new_dev new_addr new_name new_fd e port other =
      absurd (ground arith)

  -- The manager after the removal of a device that nobody scheduled.
  abbrev vanished : Device Name → ℕ → ℕ → ℕ → Tap Name → Tap Name
  vanished d id fd hwaddr s = record s {
    ports =
        settle id d.ifindex
          (record s.ports { port_names2id = emplace d.name id s.ports.port_names2id });
    tap_devs =
        emplace id (record { fd = fd; devname = d.name; hwaddr = hwaddr }) (erase id s.tap_devs);
    tap_names2fds = emplace d.name fd s.tap_names2fds;
  }

  -- When a registered device vanishes that nobody scheduled for removal, and a new one can be opened
  -- under its name, the port gets the new device, and the name still leads to the old descriptor.
  pub portdev_removed_stale :
      (d : Device Name) (id old fd : ℕ) (dev : Tapdev Name) (s : Tap Name)
      → find d.ifindex s.ports.ifindex_to_id ≡ some id
      → contains id s.ports.port_deleted ≡ false
      → find id s.tap_devs ≡ some dev
      → fits d.name ≡ true
      → find d.name s.tap_names2fds ≡ some old
      → (t : Tap Name) × (Tap.portdev_removed fits true d (some fd) s ≡ some (true, t))
        × (get_fd fits id t ≡ pos fd)
        × (find d.name t.tap_names2fds ≡ some old)
  unfolding Tap.portdev_removed illegal_removal recreate_tapdev get_fd
  portdev_removed_stale d id old fd dev s known unscheduled found_dev good e = (
    vanished d id fd dev.hwaddr s,
    ground arith,
    ground (arith, find-emplace id id new_dev (erase id s.tap_devs), find-erase id id s.tap_devs),
    ground (arith, find-emplace d.name d.name fd s.tap_names2fds),
  )
    where
      new_dev : Tapdev Name
      new_dev = record { fd = fd; devname = d.name; hwaddr = dev.hwaddr }

module _ {Name : Type 0} ⦃names : Key Name⦄ (swi : SwitchInterface) (opens : Bool) where
  -- A port with no entry in `knet_devs` that is made under a new name and then announced again under
  -- another new name is not recognised: the program aborts.
  create_portdev_again :
      (id : ℕ) (name other : Name) (hwaddr again : ℕ) (s t : Knet Name) (rv : ℤ)
      → find id s.knet_devs ≡ none
      → find name s.ports.port_names2id ≡ none
      → find other s.ports.port_names2id ≡ none
      → other ≢ name
      → Knet.create_portdev swi opens id name hwaddr s ≡ some (rv, t)
      → Knet.create_portdev swi opens id other again t ≡ none
  unfolding Knet.create_portdev create_netif enter_port change_port_status_unlocked write_line
  create_portdev_again id name other hwaddr again s t rv no_dev new_name new_other ne e = ground (
    arith,
    find-emplace id id hwaddr s.ports.id_to_hwaddr,
    find-emplace name other id s.ports.port_names2id,
    same_iff other name,
  )
