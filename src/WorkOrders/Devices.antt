-- ===== src/WorkOrders/Devices.antt =====
-- Taking an ONU from the stock, and what else leaves the table of secrets alone.

use text.Mathlib.Text.{◌==◌ as str_eq}
use isp_cms_be.Prelude.{
  ℕ, ◌≤◌, String, Option, none, some, ◌≡◌, refl, inl, inr, arith, Option-cases,
}
use isp_cms_be.Prelude.Table.{count_where}
use isp_cms_be.Store.FieldRows.{InventoryItem, MovementType}
use isp_cms_be.Store.Monad.{Db, Server, Action, not_found}
use isp_cms_be.Store.Keeps.{
  Keeps, pure-Keeps, gets-Keeps, or_throw-Keeps, bind-Keeps, then-Keeps, option-Keeps, if-Keeps,
}
use isp_cms_be.Secrets.{secret_of}
use isp_cms_be.Inventory.{
  find_item, find_by_serial, find_available_onu, in_warehouse, or_else, customer_named, text_or,
  with_assignment, with_return, with_breakage, MoveType, move, move_item, log_move, update_item,
  add_movement,
}
use isp_cms_be.WorkOrders.Provisioning.{take_item, assign_scanned, assign_oldest, assign_onu}

-- The customer has at most one secret.
abbrev pub HasAtMostOne : ℕ → Db → Type 0
HasAtMostOne k d = count_where (secret_of k) d.ppp_secrets ≤ 1

-- What leaves the table of secrets alone keeps it.
pub same-Keeps :
    (k : ℕ) {A : Type 0} (m : Action A)
    → ((d : Db) → (m d).1.ppp_secrets ≡ d.ppp_secrets)
    → Keeps (HasAtMostOne k) m
unfolding Keeps
same-Keeps k m same d h = rw (same d) h

module _ (k : ℕ) (srv : Server) where
  update_item-Keeps :
      (id : ℕ) (f : InventoryItem → InventoryItem) → Keeps (HasAtMostOne k) (update_item id f)
  unfolding update_item
  update_item-Keeps id f = same-Keeps k (update_item id f) λ d.
      elim (Option-cases (find_item id d)) [
        | inl missing ↦ ground arith
        | inr (item, found) ↦ ground arith
      ]

  log_move-Keeps :
      (id : ℕ) (f : InventoryItem → InventoryItem) (type : MovementType) (remark : String)
      (order : Option ℕ)
      → Keeps (HasAtMostOne k) (log_move srv id f type remark order)
  unfolding log_move add_movement
  log_move-Keeps id f type remark order = bind-Keeps _ _ _ (update_item-Keeps id f) (λ item.
      then-Keeps _ _ _ (same-Keeps k (add_movement srv item type remark order) (λ d. refl))
        (pure-Keeps _ item))

  move_item-Keeps :
      (id : ℕ) (item : InventoryItem) (type : MoveType) (remark : Option String) (order : Option ℕ)
      → Keeps (HasAtMostOne k) (move_item srv item id type remark order)
  unfolding move_item
  move_item-Keeps id item MoveType.assign remark order =
      bind-Keeps _ _ _ (gets-Keeps _ (customer_named (or_else remark item.assigned_to)))
        (λ customer_id.
          log_move-Keeps id (with_assignment srv (or_else remark item.assigned_to) customer_id)
            MovementType.assign (text_or "" (or_else remark item.assigned_to)) order)
  move_item-Keeps id item MoveType.returned remark order =
      log_move-Keeps id (with_return srv) MovementType.returned
        (text_or "Dikembalikan ke gudang" remark) order
  move_item-Keeps id item MoveType.broken remark order =
      log_move-Keeps id (with_breakage srv) MovementType.broken (text_or "Rusak" remark) order

  move-Keeps :
      (id : ℕ) (type : MoveType) (remark : Option String) (order : Option ℕ)
      → Keeps (HasAtMostOne k) (move srv id type remark order)
  unfolding move
  move-Keeps id type remark order = bind-Keeps _ _ _ (gets-Keeps _ (find_item id)) (λ o.
      bind-Keeps _ _ _ (or_throw-Keeps _ o (not_found "inventory item not found"))
        (λ item. move_item-Keeps id item type remark order))

  take_item-Keeps :
      (item : InventoryItem) (name : String) (order_id : ℕ)
      → Keeps (HasAtMostOne k) (take_item srv item name order_id)
  take_item-Keeps item name order_id =
      then-Keeps _ _ _ (move-Keeps item.id MoveType.assign (some name) (some order_id))
        (pure-Keeps _ (some item.serial))

  assign_oldest-Keeps :
      (name : String) (order_id : ℕ) → Keeps (HasAtMostOne k) (assign_oldest srv name order_id)
  unfolding assign_oldest
  assign_oldest-Keeps name order_id =
      bind-Keeps _ _ _ (gets-Keeps _ find_available_onu)
        (λ o. option-Keeps _ o _ _ (pure-Keeps _ none) (λ item. take_item-Keeps item name order_id))

  assign_scanned-Keeps :
      (name : String) (order_id : ℕ) (serial : String)
      → Keeps (HasAtMostOne k) (assign_scanned srv name order_id serial)
  unfolding assign_scanned
  assign_scanned-Keeps name order_id serial =
      bind-Keeps _ _ _ (gets-Keeps _ (find_by_serial serial)) (λ o.
        option-Keeps _ o _ _ (pure-Keeps _ (some serial)) (λ item.
          if-Keeps _ (in_warehouse item.status) _ _ (take_item-Keeps item name order_id)
            (pure-Keeps _ (some serial))))

  pub assign_onu-Keeps :
      (name : String) (order_id : ℕ) (serial : Option String)
      → Keeps (HasAtMostOne k) (assign_onu srv name order_id serial)
  unfolding assign_onu
  assign_onu-Keeps name order_id none = assign_oldest-Keeps name order_id
  assign_onu-Keeps name order_id (some serial) =
      if-Keeps _ (str_eq serial "") _ _ (assign_oldest-Keeps name order_id)
        (assign_scanned-Keeps name order_id serial)
