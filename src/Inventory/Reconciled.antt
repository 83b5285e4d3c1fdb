-- ===== src/Inventory/Reconciled.antt =====
-- The stock and its ledger: an item's status is what its latest movement says.
use mathlib.Core.Option
use isp_cms_be.Prelude.{
  ℕ, String, Option, none, some, List, [], ◌∷◌, ◌==◌, if◌then◌else◌, ◌≡◌, refl, inl, inr, sym,
  subst, arith, Bool-cases, Option-cases,
}
use isp_cms_be.Prelude.Table.{find, update_where}
use isp_cms_be.Prelude.Table.Laws.{find_holds, find-update_where}
use isp_cms_be.Store.FieldRows.{
  InventoryItem, InventoryKind, InventoryStatus, StockMovement, MovementType,
}
use isp_cms_be.Store.Monad.{Db, Server, err, internal}
use isp_cms_be.Inventory.{
  find_item, item_at, moves, is_referenced, create_item, add_movement, stock_in, update_item,
  log_move, movement_row, MoveType, move_item, move, or_else, customer_named, text_or, remove,
  with_assignment, with_return, with_breakage,
}

-- The abstract stock: what the ledger alone says of an item. A movement sets the status.
abbrev pub status_after : MovementType → InventoryStatus
status_after MovementType.stocked = InventoryStatus.warehouse
status_after MovementType.assign = InventoryStatus.installed
status_after MovementType.returned = InventoryStatus.warehouse
status_after MovementType.broken = InventoryStatus.broken

unfoldable pub replay : List StockMovement → ℕ → Option InventoryStatus
replay [] k = none
replay (m ∷ ms) k = if m.item_id == k then some (status_after m.type) else replay ms k

-- The concrete stock
abbrev pub item_status : Db → ℕ → Option InventoryStatus
item_status db k = Option.map (λ (r : InventoryItem). r.status) (find_item k db)

abbrev pub Reconciled : Db → Type 0
Reconciled db = (k : ℕ) → item_status db k ≡ replay db.stock_movements k

abbrev movement_type : MoveType → MovementType
movement_type MoveType.assign = MovementType.assign
movement_type MoveType.returned = MovementType.returned
movement_type MoveType.broken = MovementType.broken

module _ (srv : Server) (db : Db) where
  -- A logged change of the row `k` that sets the status the movement says.
  logged-Reconciled :
      (k : ℕ) (item : InventoryItem) (f : InventoryItem → InventoryItem) (type : MovementType)
      (remark : String) (order : Option ℕ)
      → find_item k db ≡ some item
      → ((r : InventoryItem) → (f r).id ≡ r.id)
      → ((r : InventoryItem) → (f r).status ≡ status_after type)
      → Reconciled db
      → Reconciled (record db {
        inventory_items = update_where (item_at k) f db.inventory_items;
        stock_movements = movement_row srv (f item) type remark order ∷ db.stock_movements;
      })
  unfolding replay
  logged-Reconciled k item f type remark order found key status h j =
      elim (Option-cases (find_item j db)) [
        | inl missing ↦
            ground (arith, h j, after j, key item, find_holds (item_at k) db.inventory_items found)
        | inr (other, here) ↦ ground (
          arith,
          h j,
          after j,
          status other,
          key item,
          find_holds (item_at k) db.inventory_items found,
          find_holds (item_at j) db.inventory_items here,
        )
      ]
    where
      after :
          (j : ℕ)
          → find (item_at j) (update_where (item_at k) f db.inventory_items)
            ≡ Option.map (λ r. if item_at k r then f r else r) (find_item j db)
      after j =
          find-update_where (item_at j) (item_at k) f db.inventory_items (λ r. rw (key r) refl)

  stock_in-Reconciled :
      (kind : InventoryKind) (serial : String)
      → Reconciled db
      → Reconciled (stock_in srv kind serial db).1
  unfolding stock_in create_item add_movement replay find
  stock_in-Reconciled kind serial h j = ground (arith, h j)

  log_move-Reconciled :
      (k : ℕ) (item : InventoryItem) (f : InventoryItem → InventoryItem) (type : MovementType)
      (remark : String) (order : Option ℕ)
      → find_item k db ≡ some item
      → ((r : InventoryItem) → (f r).id ≡ r.id)
      → ((r : InventoryItem) → (f r).status ≡ status_after type)
      → Reconciled db
      → Reconciled (log_move srv k f type remark order db).1
  unfolding log_move update_item add_movement
  log_move-Reconciled k item f type remark order found key status h =
      subst Reconciled (sym stored)
        (logged-Reconciled k item f type remark order found key status h)
    where
      stored : (log_move srv k f type remark order db).1 ≡ record db {
        inventory_items = update_where (item_at k) f db.inventory_items;
        stock_movements = movement_row srv (f item) type remark order ∷ db.stock_movements;
      }
      stored = ground arith

  move_item-Reconciled :
      (k : ℕ) (type : MoveType) (remark : Option String) (order : Option ℕ) (item : InventoryItem)
      → find_item k db ≡ some item
      → Reconciled db
      → Reconciled (move_item srv item k type remark order db).1
  unfolding move_item
  move_item-Reconciled k MoveType.assign remark order item found h =
      log_move-Reconciled k item
        (with_assignment srv (or_else remark item.assigned_to)
          (customer_named (or_else remark item.assigned_to) db))
        MovementType.assign (text_or "" (or_else remark item.assigned_to)) order found (λ _. refl)
        (λ _. refl) h
  move_item-Reconciled k MoveType.returned remark order item found h =
      log_move-Reconciled k item (with_return srv) MovementType.returned
        (text_or "Dikembalikan ke gudang" remark) order found (λ _. refl) (λ _. refl) h
  move_item-Reconciled k MoveType.broken remark order item found h =
      log_move-Reconciled k item (with_breakage srv) MovementType.broken (text_or "Rusak" remark)
        order found (λ _. refl) (λ _. refl) h

  move-Reconciled :
      (k : ℕ) (type : MoveType) (remark : Option String) (order : Option ℕ)
      → Reconciled db
      → Reconciled (move srv k type remark order db).1
  unfolding move
  move-Reconciled k type remark order h = elim (Option-cases (find_item k db)) [
    | inl missing ↦ rw missing h
    | inr (item, found) ↦ rw found (move_item-Reconciled k type remark order item found h)
  ]

module _ (db : Db) where
  unlogged : (k : ℕ) (ms : List StockMovement) → find (moves k) ms ≡ none → replay ms k ≡ none
  unfolding find replay
  unlogged k [] e = refl
  unlogged k (m ∷ ms) e = ground (arith, unlogged k ms)

  -- When every item's status is the one that the latest movement of the ledger gives it, the
  -- removal of any item is refused by the foreign key of its movements, and changes no table.
  pub remove-refused :
      (k : ℕ) (item : InventoryItem)
      → Reconciled db
      → find_item k db ≡ some item
      → remove k db ≡ (err (internal "stock_movements_item_id_inventory_items_id_fk"), db)
  unfolding remove
  remove-refused k item h found = elim (Bool-cases (is_referenced k db)) [
    | inl held ↦ rw (found, held) refl
    | inr unheld ↦ absurd (ground (arith, h k, unlogged k db.stock_movements))
  ]

  remove-Reconciled : (k : ℕ) → Reconciled db → Reconciled (remove k db).1
  unfolding remove
  remove-Reconciled k h = elim (Option-cases (find_item k db)) [
    | inl missing ↦ rw missing h
    | inr (item, found) ↦ rw (remove-refused k item h found) h
  ]

-- The operations that change the stock with its ledger, whether they succeed or throw.
pub data Step (db : Db) : Db → Type 0 where
  received :
      (srv : Server) (kind : InventoryKind) (serial : String)
      → Step db (stock_in srv kind serial db).1
  moved :
      (srv : Server) (k : ℕ) (type : MoveType) (remark : Option String) (order : Option ℕ)
      → Step db (move srv k type remark order db).1
  removed : (k : ℕ) → Step db (remove k db).1

pub data Reach (db : Db) : Db → Type 0 where
  here : Reach db db
  next : {d e : Db} → Reach db d → Step d e → Reach db e

Step-Reconciled : {d e : Db} → Step d e → Reconciled d → Reconciled e
Step-Reconciled (received srv kind serial) h = stock_in-Reconciled srv _ kind serial h
Step-Reconciled (moved srv k type remark order) h = move-Reconciled srv _ k type remark order h
Step-Reconciled (removed k) h = remove-Reconciled _ k h

-- When every item's status is the one that the latest movement of the ledger gives it, the same
-- holds after any sequence of `stockIn`, `move` and `remove`, whether they succeed or throw.
pub Reach-Reconciled : (db d : Db) → Reconciled db → Reach db d → Reconciled d
Reach-Reconciled db d h here = h
Reach-Reconciled db d h (next r st) = Step-Reconciled st (Reach-Reconciled db _ h r)
