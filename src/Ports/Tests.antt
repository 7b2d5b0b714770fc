-- ===== src/Ports/Tests.antt =====
-- The theorems about port managers at concrete inputs. Names are numbers here.
use mathlib.Core.Option
use basebox.Prelude.{
  ℕ, ◌≡◌, refl, Bool, true, false, List, [], ◌∷◌, some, pos, arith, find, nat_key, insert_or_assign,
  emplace, erase, contains,
}
use basebox.Sai.{Call, SwitchInterface}
use basebox.Ports.State.{Ports, register_device, drop_old_index, device_ready, enter_port}
use basebox.Ports.Knet.{
  Knet, Line, create_netif, change_port_status_unlocked, write_line, destroy_portdev, portdev_ready,
  portdev_removed,
}
use basebox.Ports.Knet
use basebox.Ports.Tap.{Tap, Tapdev, Io, open_port, get_fd, settle}
use basebox.Ports.Tap
use basebox.Ports.Bijection.{IsInverse, Event, handle, handle_all, handle_all-IsInverse}
use basebox.Ports.Devices.{portdev_removed_stale}
use basebox.Ports.Northbound.{
  PortEvent, PortNotificationData, port_notification, knet_manager, port_events, core,
}
use basebox.Ports.Dispatch.{core-port_notification}

abbrev no_ports : Ports ℕ
no_ports = record {
  port_names2id = [];
  ifindex_to_id = [];
  id_to_ifindex = [];
  id_to_hwaddr = [];
  port_deleted = [];
}

abbrev knet : Knet ℕ
knet = record { ports = no_ports; knet_devs = []; lines = []; log = [] }

abbrev swi : SwitchInterface
swi = record { answer = λ l c. pos 0; created_id = λ l c. 0 }

no_ports-IsInverse : IsInverse no_ports
unfolding find
no_ports-IsInverse = record { to = λ i p e. cc; from = λ i p e. cc }

-- Port 1 is made as device 7 with index 10, which comes back with index 11.
abbrev events : List (Event ℕ)
events =
    Event.creates 1 7 99
    ∷ Event.ready (record { ifindex = 10; name = 7 })
    ∷ Event.ready (record { ifindex = 11; name = 7 })
    ∷ []

abbrev after_events : Knet ℕ
after_events = record knet {
  ports = record no_ports {
    port_names2id = (7, 1) ∷ [];
    ifindex_to_id = (11, 1) ∷ [];
    id_to_ifindex = (1, 11) ∷ [];
    id_to_hwaddr = (1, 99) ∷ [];
  };
  lines = Line.link 7 false ∷ [];
  log = (Call.port_knet_create 1, pos 0) ∷ [];
}

handle_all-IsInverse_example : IsInverse after_events.ports
unfolding handle_all handle Knet.create_portdev create_netif change_port_status_unlocked write_line
    portdev_ready device_ready register_device drop_old_index enter_port find insert_or_assign
    emplace erase
handle_all-IsInverse_example =
    handle_all-IsInverse swi true events knet after_events refl no_ports-IsInverse

after_events-IsInverse : IsInverse after_events.ports
unfolding find
after_events-IsInverse = record { to = λ i p e. ground arith; from = λ i p e. ground arith }

-- Port 1 is made as device 7, and announced again as device 8.
abbrev created : Knet ℕ
created = record knet {
  ports = record no_ports { port_names2id = (7, 1) ∷ []; id_to_hwaddr = (1, 99) ∷ [] };
  lines = Line.link 7 false ∷ [];
  log = (Call.port_knet_create 1, pos 0) ∷ [];
}

abbrev fits : ℕ → Bool
fits name = true

abbrev no_taps : Tap ℕ
no_taps = record { ports = no_ports; tap_devs = []; tap_names2fds = []; io = [] }

-- Port 1 with device 7, descriptor 3 and index 10.
abbrev one_tap : Tap ℕ
one_tap = record {
  ports = record no_ports { port_names2id = (7, 1) ∷ []; id_to_hwaddr = (1, 99) ∷ [] };
  tap_devs = (1, record { fd = 3; devname = 7; hwaddr = 99 }) ∷ [];
  tap_names2fds = (7, 3) ∷ [];
  io = Io.register_tap 3 1 ∷ [];
}

abbrev ready_tap : Tap ℕ
ready_tap = record one_tap {
  ports = record no_ports {
    port_names2id = (7, 1) ∷ [];
    ifindex_to_id = (10, 1) ∷ [];
    id_to_ifindex = (1, 10) ∷ [];
    id_to_hwaddr = (1, 99) ∷ [];
  };
}

portdev_removed_stale_example :
    (t : Tap ℕ) × (Tap.portdev_removed fits true
        (record { ifindex = 10; name = 7 })
        (some 4)
        ready_tap
      ≡ some (true, t))
    × (get_fd fits 1 t ≡ pos 4)
    × (find 7 t.tap_names2fds ≡ some 3)
unfolding find contains
portdev_removed_stale_example =
    portdev_removed_stale fits (record { ifindex = 10; name = 7 }) 1 3 4
      (record { fd = 3; devname = 7; hwaddr = 99 }) ready_tap refl refl refl refl refl

-- Port 1 appears, comes up and goes; the last one is a port of a LAG.
abbrev about : PortEvent → ℕ → PortNotificationData ℕ
about ev port_id = record {
  ev = ev;
  port_id = port_id;
  hwaddr = 99;
  name = 7;
  status = true;
  speed = 1000000;
  duplex = 1;
}

abbrev told : List (PortNotificationData ℕ)
told =
    about PortEvent.port_event_table 1
    ∷ about PortEvent.port_event_modify 1
    ∷ about PortEvent.port_event_del 1
    ∷ about PortEvent.port_event_table 131073
    ∷ []

core-port_notification_example :
    Option.map core (port_notification (knet_manager swi true) told knet)
    ≡ Option.map core (handle_all swi true (port_events told) knet)
core-port_notification_example = core-port_notification swi true told knet knet refl
