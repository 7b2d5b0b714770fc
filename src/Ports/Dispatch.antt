-- ===== src/Ports/Dispatch.antt =====
-- What a KNET manager does on what the switch tells, against the history of its ports.
use mathlib.Core.Option
use basebox.Prelude.{
  ℕ, ◌≡◌, ◌∙◌, refl, sym, ap, inl, inr, Bool, true, List, [], ◌∷◌, Option, none, some, Key, ◌==◌,
  arith, Bool-cases,
}
use basebox.Sai.{SwitchInterface, get_port_type, port_type_physical}
use basebox.Ports.Knet.{
  Knet, write_line, create_portdev, create_netif, destroy_portdev, change_port_status,
  change_port_status_unlocked, set_port_speed,
}
use basebox.Ports.Bijection.{Event, handle, handle_all}
use basebox.Ports.Northbound.{
  PortEvent, PortNotificationData, change, notified, port_notification, knet_manager, port_events,
  core,
}

module _ {Name : Type 0} ⦃names : Key Name⦄ (swi : SwitchInterface) (opens : Bool) where
  -- Writing lines leaves the rest as it is.
  change-core :
      (n : PortNotificationData Name) (s : Knet Name)
      → core (change (knet_manager swi opens) n s) ≡ core s
  unfolding change change_port_status change_port_status_unlocked set_port_speed write_line core
  change-core n s = ground arith

  -- Events of the switch act alike on states that differ only in the lines.
  creates-core :
      (id : ℕ) (name : Name) (hwaddr : ℕ) (s t : Knet Name)
      → core s ≡ core t
      → Option.map core (handle swi opens (Event.creates id name hwaddr) s)
        ≡ Option.map core (handle swi opens (Event.creates id name hwaddr) t)
  unfolding handle create_portdev create_netif change_port_status_unlocked write_line core
  creates-core id name hwaddr s t same = ground arith

  destroys-core :
      (id : ℕ) (name : Name) (s t : Knet Name)
      → core s ≡ core t
      → Option.map core (handle swi opens (Event.destroys id name) s)
        ≡ Option.map core (handle swi opens (Event.destroys id name) t)
  unfolding handle destroy_portdev core
  destroys-core id name s t same = ground arith

  -- One event, or a change of a port, and then the rest.
  bind-core :
      (o o' : Option (Knet Name)) (f g : Knet Name → Option (Knet Name))
      → Option.map core o ≡ Option.map core o'
      → ((u u' : Knet Name) → core u ≡ core u' → Option.map core (f u) ≡ Option.map core (g u'))
      → Option.map core (elim o [ none ↦ none | some u ↦ f u ])
        ≡ Option.map core (elim o' [ none ↦ none | some u ↦ g u ])
  bind-core none none f g same rest = refl
  bind-core none (some u') f g same rest = absurd (ground arith)
  bind-core (some u) none f g same rest = absurd (ground arith)
  bind-core (some u) (some u') f g same rest = rest u u' (ground (arith, same))

  module _ (n : PortNotificationData Name) (ns : List (PortNotificationData Name)) (s t : Knet Name)
      (same : core s ≡ core t)
      (rest : (u u' : Knet Name)
        → core u ≡ core u'
        → Option.map core (port_notification (knet_manager swi opens) ns u)
          ≡ Option.map core (handle_all swi opens (port_events ns) u')) where
    -- A notification that is an event.
    acts-core :
        (e : Event Name)
        → notified (knet_manager swi opens) n s ≡ handle swi opens e s
        → port_events (n ∷ ns) ≡ e ∷ port_events ns
        → Option.map core (handle swi opens e s) ≡ Option.map core (handle swi opens e t)
        → Option.map core (port_notification (knet_manager swi opens) (n ∷ ns) s)
          ≡ Option.map core (handle_all swi opens (port_events (n ∷ ns)) t)
    unfolding port_notification handle_all
    acts-core e acts told alike =
        let first = (λ (o : Option (Knet Name)).
          Option.map core
            (elim o [ none ↦ none | some u ↦ port_notification (knet_manager swi opens) ns u ])) in
        ap first acts
        ∙ bind-core (handle swi opens e s) (handle swi opens e t)
            (port_notification (knet_manager swi opens) ns) (handle_all swi opens (port_events ns))
            alike rest
        ∙ sym (ap (λ es. Option.map core (handle_all swi opens es t)) told)

    -- One that is none.
    passes-core :
        (u : Knet Name)
        → notified (knet_manager swi opens) n s ≡ some u
        → core u ≡ core s
        → port_events (n ∷ ns) ≡ port_events ns
        → Option.map core (port_notification (knet_manager swi opens) (n ∷ ns) s)
          ≡ Option.map core (handle_all swi opens (port_events (n ∷ ns)) t)
    unfolding port_notification
    passes-core u passes kept told =
        let first = (λ (o : Option (Knet Name)).
          Option.map core
            (elim o [ none ↦ none | some u ↦ port_notification (knet_manager swi opens) ns u ])) in
        ap first passes
        ∙ rest u t (kept ∙ same)
        ∙ sym (ap (λ es. Option.map core (handle_all swi opens es t)) told)

    physical-core :
        (ev : PortEvent)
        → n.ev ≡ ev
        → (get_port_type n.port_id == port_type_physical) ≡ true
        → Option.map core (port_notification (knet_manager swi opens) (n ∷ ns) s)
          ≡ Option.map core (handle_all swi opens (port_events (n ∷ ns)) t)
    unfolding notified port_events handle
    physical-core PortEvent.port_event_table is physical =
        acts-core (Event.creates n.port_id n.name n.hwaddr) (ground arith) (ground arith)
          (creates-core n.port_id n.name n.hwaddr s t same)
    physical-core PortEvent.port_event_del is physical =
        acts-core (Event.destroys n.port_id n.name) (ground arith) (ground arith)
          (destroys-core n.port_id n.name s t same)
    physical-core PortEvent.port_event_add is physical =
        passes-core (change (knet_manager swi opens) n s) (ground arith) (change-core n s)
          (ground arith)
    physical-core PortEvent.port_event_modify is physical =
        passes-core (change (knet_manager swi opens) n s) (ground arith) (change-core n s)
          (ground arith)

    notified-core :
        Option.map core (port_notification (knet_manager swi opens) (n ∷ ns) s)
        ≡ Option.map core (handle_all swi opens (port_events (n ∷ ns)) t)
    unfolding notified port_events
    notified-core = elim (Bool-cases (get_port_type n.port_id == port_type_physical)) [
      | inl physical ↦ physical-core n.ev refl physical
      | inr other ↦ passes-core s (ground arith) refl (ground arith)
    ]

  -- From states that differ at most in the lines written, what the switch tells of its ports leaves
  -- a KNET manager as the history of the physical ports among them that are made and taken away
  -- does: the maps, the netifs and the calls are the same, and one aborts where the other does.
  pub core-port_notification :
      (ns : List (PortNotificationData Name)) (s t : Knet Name)
      → core s ≡ core t
      → Option.map core (port_notification (knet_manager swi opens) ns s)
        ≡ Option.map core (handle_all swi opens (port_events ns) t)
  unfolding port_notification handle_all port_events notified handle
  core-port_notification [] s t same = ground arith
  core-port_notification (n ∷ ns) s t same =
      notified-core n ns s t same (λ u u' alike. core-port_notification ns u u' alike)
