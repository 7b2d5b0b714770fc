-- ===== src/Ports/State.antt =====
-- The maps of class port_manager, its readers, and the registration of a device, which
-- knet_manager and tap_manager spell out alike in portdev_ready.
use basebox.Prelude.{
  ℕ, Bool, true, false, List, [], ◌∷◌, ◌++◌, Option, none, some, Map, Key, find, insert_or_assign,
  emplace, erase, nat_key, ◌==◌, if◌then◌else◌,
}

-- Addresses are numbers; names are only compared.
pub record Ports (Name : Type 0) : Type 0 where
  pub port_names2id : Map Name ℕ
  pub ifindex_to_id : Map ℕ ℕ
  pub id_to_ifindex : Map ℕ ℕ
  pub id_to_hwaddr : Map ℕ ℕ
  pub port_deleted : List ℕ

-- `port_deleted.erase(std::find(…))`: the first occurrence.
unfoldable pub erase_first : ℕ → List ℕ → List ℕ
erase_first id [] = []
erase_first id (x ∷ xs) = if x == id then xs else x ∷ erase_first id xs

module _ {Name : Type 0} where
  unfoldable pub get_port_id : ℕ → Ports Name → ℕ
  get_port_id ifindex s = elim (find ifindex s.ifindex_to_id) [ none ↦ 0 | some id ↦ id ]

  unfoldable pub get_ifindex : ℕ → Ports Name → ℕ
  get_ifindex port_id s = elim (find port_id s.id_to_ifindex) [ none ↦ 0 | some ifindex ↦ ifindex ]

  -- The null address for an unknown port.
  unfoldable pub get_hwaddr : ℕ → Ports Name → ℕ
  get_hwaddr port_id s = elim (find port_id s.id_to_hwaddr) [ none ↦ 0 | some hwaddr ↦ hwaddr ]

  unfoldable pub clear : Ports Name → Ports Name
  clear s = record s { ifindex_to_id = []; id_to_ifindex = []; id_to_hwaddr = [] }

  -- The index that the port had before is taken out of the other map, if it is another one.
  unfoldable pub drop_old_index : ℕ → ℕ → Ports Name → Map ℕ ℕ
  drop_old_index id ifindex s = elim (find id s.id_to_ifindex) [
    | none ↦ s.ifindex_to_id
    | some old ↦ if old == ifindex then s.ifindex_to_id else erase old s.ifindex_to_id
  ]

  unfoldable pub register_device : ℕ → ℕ → Ports Name → Ports Name
  register_device id ifindex s = record s {
    id_to_ifindex = insert_or_assign id ifindex s.id_to_ifindex;
    ifindex_to_id = insert_or_assign ifindex id (drop_old_index id ifindex s);
  }

  -- The device is forgotten in both directions.
  unfoldable pub unregister_device : ℕ → ℕ → Ports Name → Ports Name
  unregister_device id ifindex s = record s {
    ifindex_to_id = erase ifindex s.ifindex_to_id;
    id_to_ifindex = erase id s.id_to_ifindex;
  }

-- A device as libnl reports it: its index and its name.
pub record Device (Name : Type 0) : Type 0 where
  pub ifindex : ℕ
  pub name : Name

module _ {Name : Type 0} ⦃names : Key Name⦄ where
  -- `create_portdev` enters the name and the address; a second address for a port is fatal.
  unfoldable pub enter_port : ℕ → Name → ℕ → Ports Name → Option (Ports Name)
  enter_port port_id name hwaddr s = elim (find port_id s.id_to_hwaddr) [
    | some _ ↦ none
    | none ↦ some (record s {
      port_names2id = emplace name port_id s.port_names2id;
      id_to_hwaddr = emplace port_id hwaddr s.id_to_hwaddr;
    })
  ]

  -- `destroy_portdev` schedules the port for removal and drops its address and its name.
  unfoldable pub leave_port : ℕ → Name → Ports Name → Ports Name
  leave_port port_id name s = record s {
    port_deleted = s.port_deleted ++ port_id ∷ [];
    id_to_hwaddr = erase port_id s.id_to_hwaddr;
    port_names2id = erase name s.port_names2id;
  }

  -- `portdev_ready`, but for what a manager does before and after.
  unfoldable pub device_ready : Device Name → Ports Name → Bool × Ports Name
  device_ready d s = elim (find d.ifindex s.ifindex_to_id) [
    | some _ ↦ (false, s)
    | none ↦ elim (find d.name s.port_names2id) [
      | none ↦ (false, s)
      | some id ↦ (true, register_device id d.ifindex s)
    ]
  ]
