-- ===== src/Inventory.antt =====
-- InventoryRepository and InventoryService (src/modules/inventory): the stock of devices and the
-- ledger of its movements.
pub mod Reconciled
use mathlib.Core.Option
use text.Mathlib.Text.{◌==◌ as str_eq}
use isp_cms_be.Prelude.{
  ℕ, String, Bool, true, false, not, ◌&&◌, Option, none, some, List, [], ◌∷◌, ◌==◌, if◌then◌else◌,
  given,
}
use isp_cms_be.Prelude.Table.{find, first, select_where, update_where, delete_where, order_by}
use isp_cms_be.Store.Rows.{Customer}
use isp_cms_be.Store.FieldRows.{
  InventoryItem, InventoryKind, InventoryStatus, StockMovement, MovementType,
}
use isp_cms_be.Store.Monad.{
  Db, Server, Action, Result, ok, err, Exception, not_found, internal, pure, throw, gets, or_throw,
  throw_if, modify, ◌>>=◌, ◌>>◌,
}

abbrev pub item_at : ℕ → InventoryItem → Bool
item_at k r = r.id == k

abbrev pub has_serial : String → InventoryItem → Bool
has_serial serial r = str_eq r.serial serial

abbrev pub moves : ℕ → StockMovement → Bool
moves k m = m.item_id == k

-- `findById`
abbrev pub find_item : ℕ → Db → Option InventoryItem
find_item k db = find (item_at k) db.inventory_items

-- `findBySerial`
abbrev pub find_by_serial : String → Db → Option InventoryItem
find_by_serial serial db = find (has_serial serial) db.inventory_items

abbrev pub in_warehouse : InventoryStatus → Bool
in_warehouse InventoryStatus.warehouse = true
in_warehouse InventoryStatus.installed = false
in_warehouse InventoryStatus.broken = false

abbrev pub is_onu : InventoryKind → Bool
is_onu InventoryKind.onu = true
is_onu InventoryKind.router = false
is_onu InventoryKind.mikrotik = false

-- `findAvailableOnu`: the oldest ONU in the warehouse
abbrev pub find_available_onu : Db → Option InventoryItem
find_available_onu db = first (
    order_by (λ (r : InventoryItem). r.created_at)
      (select_where (λ (r : InventoryItem). is_onu r.kind && in_warehouse r.status)
        db.inventory_items))

-- `CustomersRepository.findIdByFullName`
abbrev pub find_id_by_full_name : String → Db → Option ℕ
find_id_by_full_name name db =
    Option.map (λ (c : Customer). c.id)
      (find (λ (c : Customer). str_eq c.full_name name) db.customers)

-- Whether the unique index on the serial refuses the value for the row `k`.
abbrev pub serial_taken : ℕ → String → Db → Bool
serial_taken k serial db =
    elim (find (λ (r : InventoryItem). not (r.id == k) && has_serial serial r) db.inventory_items) [
      | none ↦ false
      | some _ ↦ true
    ]

abbrev pub stocked_item : Server → InventoryKind → String → InventoryItem
stocked_item srv kind serial = record {
  id = srv.key;
  kind = kind;
  serial = serial;
  status = InventoryStatus.warehouse;
  assigned_to = none;
  assigned_customer_id = none;
  created_at = srv.now;
  updated_at = srv.now;
}

-- `create` of the repository
unfoldable pub create_item : Server → InventoryKind → String → Action InventoryItem
create_item srv kind serial = do
  taken ← gets (serial_taken srv.key serial)
  throw_if taken (internal "inventory_items_serial_unique")
  modify λ db. record db { inventory_items = stocked_item srv kind serial ∷ db.inventory_items }
  pure (stocked_item srv kind serial)

abbrev pub movement_row : Server → InventoryItem → MovementType → String → Option ℕ → StockMovement
movement_row srv item type remark work_order_id = record {
  id = srv.key;
  item_id = item.id;
  serial = item.serial;
  kind = item.kind;
  type = type;
  note = remark;
  work_order_id = work_order_id;
  at = srv.now;
}

-- `addMovement`
unfoldable pub add_movement :
    Server → InventoryItem → MovementType → String → Option ℕ → Action (Unit {0})
add_movement srv item type remark work_order_id = modify λ db. record db {
  stock_movements = movement_row srv item type remark work_order_id ∷ db.stock_movements;
}

-- `stockIn`
unfoldable pub stock_in : Server → InventoryKind → String → Action InventoryItem
unfolding create_item add_movement
stock_in srv kind serial = do
  item ← create_item srv kind serial
  add_movement srv item MovementType.stocked "Stok masuk" none
  pure item

-- the fields of `InventoryPatch` that a move sets, by the type of the move
abbrev pub with_assignment : Server → Option String → Option ℕ → InventoryItem → InventoryItem
with_assignment srv assigned_to customer_id item = record item {
  status = InventoryStatus.installed;
  assigned_to = assigned_to;
  assigned_customer_id = customer_id;
  updated_at = srv.now;
}

abbrev pub with_return : Server → InventoryItem → InventoryItem
with_return srv item = record item {
  status = InventoryStatus.warehouse;
  assigned_to = none;
  assigned_customer_id = none;
  updated_at = srv.now;
}

abbrev pub with_breakage : Server → InventoryItem → InventoryItem
with_breakage srv item = record item { status = InventoryStatus.broken; updated_at = srv.now }

-- `update` of the repository
unfoldable pub update_item : ℕ → (InventoryItem → InventoryItem) → Action InventoryItem
update_item k f = do
  row ← gets (find_item k)
  modify λ db. record db { inventory_items = update_where (item_at k) f db.inventory_items }
  or_throw (Option.map f row) (not_found "inventory item not found")

-- The move types of `MoveInventoryInput`; `in` is not one of them.
pub data MoveType : Type 0 where
  assign returned broken : MoveType

abbrev pub text_or : String → Option String → String
text_or d none = d
text_or d (some t) = t

-- `a ?? b`
abbrev pub or_else : Option String → Option String → Option String
or_else none b = b
or_else (some a) b = some a

-- `assignedTo ? await findIdByFullName(assignedTo) : null`; the empty text is false
abbrev pub customer_named : Option String → Db → Option ℕ
customer_named none db = none
customer_named (some name) db = if str_eq name "" then none else find_id_by_full_name name db

-- what `move` does once the patch and the note are chosen
unfoldable pub log_move :
    Server
    → ℕ
    → (InventoryItem → InventoryItem)
    → MovementType
    → String
    → Option ℕ
    → Action InventoryItem
unfolding update_item add_movement
log_move srv k f type remark work_order_id = do
  updated ← update_item k f
  add_movement srv updated type remark work_order_id
  pure updated

-- `move` on the row that it read
unfoldable pub move_item :
    Server → InventoryItem → ℕ → MoveType → Option String → Option ℕ → Action InventoryItem
unfolding log_move
move_item srv item k MoveType.assign remark order = do
  let assigned_to = or_else remark item.assigned_to
  customer_id ← gets (customer_named assigned_to)
  log_move srv k (with_assignment srv assigned_to customer_id) MovementType.assign
      (text_or "" assigned_to) order
move_item srv item k MoveType.returned remark order =
    log_move srv k (with_return srv) MovementType.returned (text_or "Dikembalikan ke gudang" remark)
      order
move_item srv item k MoveType.broken remark order =
    log_move srv k (with_breakage srv) MovementType.broken (text_or "Rusak" remark) order

-- `move`
unfoldable pub move : Server → ℕ → MoveType → Option String → Option ℕ → Action InventoryItem
unfolding move_item
move srv k type remark order = do
  item ← or_throw (← gets (find_item k)) (not_found "inventory item not found")
  move_item srv item k type remark order

-- Whether the foreign key of `stock_movements.item_id` (`on delete no action`) refuses the deletion.
abbrev pub is_referenced : ℕ → Db → Bool
is_referenced k db = elim (find (moves k) db.stock_movements) [ none ↦ false | some _ ↦ true ]

-- `remove`
unfoldable pub remove : ℕ → Action (Unit {0})
remove k = do
  item ← or_throw (← gets (find_item k)) (not_found "inventory item not found")
  referenced ← gets (is_referenced k)
  throw_if referenced (internal "stock_movements_item_id_inventory_items_id_fk")
  modify λ db. record db { inventory_items = delete_where (item_at k) db.inventory_items }

-- `UpdateInventoryInput`: a field that is absent is left alone; a null assignee clears it.
pub record ItemPatch : Type 0 where
  pub kind : Option InventoryKind
  pub serial : Option String
  pub status : Option InventoryStatus
  pub assigned_to : Option (Option String)

abbrev pub with_patch : Server → ItemPatch → Option ℕ → InventoryItem → InventoryItem
with_patch srv patch customer_id item = record item {
  kind = given item.kind patch.kind;
  serial = given item.serial patch.serial;
  status = given item.status patch.status;
  assigned_to = given item.assigned_to patch.assigned_to;
  assigned_customer_id = elim patch.assigned_to [
    | none ↦ item.assigned_customer_id
    | some _ ↦ customer_id
  ];
  updated_at = srv.now;
}

abbrev pub refuses_serial : ℕ → Option String → Db → Bool
refuses_serial k none db = false
refuses_serial k (some serial) db = serial_taken k serial db

-- `update`: a correction with no movement
unfoldable pub update : Server → ℕ → ItemPatch → Action InventoryItem
unfolding update_item
update srv k patch = do
  customer_id ← gets (customer_named (given none patch.assigned_to))
  item ← or_throw (← gets (find_item k)) (not_found "inventory item not found")
  taken ← gets (refuses_serial k patch.serial)
  throw_if taken (internal "inventory_items_serial_unique")
  update_item k (with_patch srv patch customer_id)
