-- ===== src/Ports/Northbound.antt =====
-- src/netlink/nbi_impl.cc: what the switch tells of its ports, passed on to a port manager.
use mathlib.Core.Option
use basebox.Prelude.{ℕ, Bool, List, [], ◌∷◌, Option, none, some, Map, Key, ◌==◌, if◌then◌else◌}
use basebox.Sai.{Log, SwitchInterface, get_port_type, port_type_physical}
use basebox.Ports.State.{Ports}
use basebox.Ports.Knet.{Knet, create_portdev, destroy_portdev, change_port_status, set_port_speed}
use basebox.Ports.Bijection.{Event}

-- enum port_event and struct port_notification_data of src/sai.h.
pub data PortEvent : Type 0 where
  port_event_add port_event_del port_event_modify port_event_table : PortEvent

pub record PortNotificationData (Name : Type 0) : Type 0 where
  pub ev : PortEvent
  pub port_id : ℕ
  pub hwaddr : ℕ
  pub name : Name
  pub status : Bool
  pub speed : ℕ
  pub duplex : ℕ

-- The methods of class port_manager that are called here, with the manager's state S; the results
-- are not looked at. None where a method aborts.
pub record PortManager (Name S : Type 0) : Type 0 where
  pub create : ℕ → Name → ℕ → S → Option S
  pub destroy : ℕ → Name → S → S
  pub change_status : Name → Bool → S → S
  pub set_speed : Name → ℕ → ℕ → S → S

module _ {Name S : Type 0} (port_man : PortManager Name S) where
  -- The speed is set where the port is up.
  unfoldable pub change : PortNotificationData Name → S → S
  change n s =
      if n.status
      then port_man.change_status n.name n.status (port_man.set_speed n.name n.speed n.duplex s)
      else port_man.change_status n.name n.status s

  -- Ports of other types are only logged.
  unfoldable pub notified : PortNotificationData Name → S → Option S
  notified n s =
      if get_port_type n.port_id == port_type_physical
      then elim n.ev [
        | port_event_table ↦ port_man.create n.port_id n.name n.hwaddr s
        | port_event_modify ↦ some (change n s)
        | port_event_add ↦ some (change n s)
        | port_event_del ↦ some (port_man.destroy n.port_id n.name s)
      ]
      else some s

  unfoldable pub port_notification : List (PortNotificationData Name) → S → Option S
  port_notification [] s = some s
  port_notification (n ∷ ns) s = elim (notified n s) [
    | none ↦ none
    | some t ↦ port_notification ns t
  ]

module _ {Name : Type 0} ⦃names : Key Name⦄ (swi : SwitchInterface) (opens : Bool) where
  abbrev pub knet_manager : PortManager Name (Knet Name)
  knet_manager = record {
    create = λ id name hwaddr s. Option.map (λ r. r.1) (create_portdev swi opens id name hwaddr s);
    destroy = λ id name s. (destroy_portdev swi opens id name s).1;
    change_status = λ name status s. (change_port_status swi opens name status s).1;
    set_speed = λ name kbit duplex s. (set_port_speed swi opens name kbit duplex s).1;
  }

-- The ports that the switch makes and takes away, among all it tells.
unfoldable pub port_events : {Name : Type 0} → List (PortNotificationData Name) → List (Event Name)
port_events [] = []
port_events (n ∷ ns) =
    let rest = port_events ns in
    if get_port_type n.port_id == port_type_physical
    then elim n.ev [
      | port_event_table ↦ Event.creates n.port_id n.name n.hwaddr ∷ rest
      | port_event_del ↦ Event.destroys n.port_id n.name ∷ rest
      | _ ↦ rest
    ]
    else rest

-- The state of a KNET manager, but for the lines it has written.
unfoldable pub core : {Name : Type 0} → Knet Name → Ports Name × (Map ℕ ℕ × Log)
core s = (s.ports, (s.knet_devs, s.log))
