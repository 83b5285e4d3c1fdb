-- ===== src/Witnesses/Field.antt =====
-- Runs of the theorems on stock, tickets and work orders.
use isp_cms_be.Prelude.{none, some, [], ◌∷◌, ◌≡◌, refl, arith, ◌⊎◌}
use isp_cms_be.Prelude.Table.{find, update_where, count_where}
use isp_cms_be.Store.FieldRows.{
  InventoryKind, InventoryStatus, Ticket, WorkOrder, WorkOrderType, WorkOrderStatus, TicketStatus,
}
use isp_cms_be.Store.Monad.{Db, ok, err, internal, Server}
use isp_cms_be.Inventory.{MoveType, move, remove, stock_in}
use isp_cms_be.Inventory.Reconciled.{
  replay, Reconciled, here, next, received, moved, remove-refused, Reach-Reconciled,
}
use isp_cms_be.Tickets.{scan_sla, find_ticket}
use isp_cms_be.Tickets.Swept.{IsLate, breached_at, scan_sla-swept}
use isp_cms_be.Witnesses.Sample.{ticket_of, server, db, item_of, order_of}
use isp_cms_be.Tickets.Deadlines as Deadlines
use isp_cms_be.Tickets.Deadlines.{AllOnDeadline, Reach-AllOnDeadline}
use isp_cms_be.WorkOrders.{update_order}
use isp_cms_be.WorkOrders.Completing.{
  complete, complete_open, activate, finish, close_ticket, with_completion,
}
use isp_cms_be.WorkOrders.Provisioning.{Texts, BillingTerms, CompletionInput}
use isp_cms_be.WorkOrders.Completed.{complete-once}
use isp_cms_be.WorkOrders.Devices.{HasAtMostOne}
use isp_cms_be.WorkOrders.Provisioned.{complete-HasAtMostOne}

reconciled : Reconciled db
unfolding replay find
reconciled k = ground arith

abbrev handed_out : Db
handed_out =
    (move server 11 MoveType.assign (some "Budi") none
      (stock_in server InventoryKind.onu "NEW" db).1).1

Reach-Reconciled_example : Reconciled handed_out
Reach-Reconciled_example = Reach-Reconciled db handed_out reconciled (
    next (next here (received server InventoryKind.onu "NEW"))
      (moved server 11 MoveType.assign (some "Budi") none))

remove-refused_example :
    remove 12 db ≡ (err (internal "stock_movements_item_id_inventory_items_id_fk"), db)
unfolding find
remove-refused_example = remove-refused db 12 (item_of 12 InventoryStatus.installed) reconciled refl

on_deadline : AllOnDeadline db
unfolding find
on_deadline = ((refl, (refl, tt)), (refl, (refl, tt)))

Reach-AllOnDeadline_example : AllOnDeadline (scan_sla server db).1
Reach-AllOnDeadline_example =
    Reach-AllOnDeadline db (scan_sla server db).1 on_deadline
      (Deadlines.next Deadlines.here (Deadlines.scanned server))

abbrev next_day : Server
next_day = record server { now = 90000000 }

abbrev late_ticket : Ticket
late_ticket = ticket_of 21 TicketStatus.in_progress

scan_sla-swept_example :
    ((IsLate next_day late_ticket
        × (find_ticket 21 (scan_sla next_day db).1 ≡ some (breached_at next_day late_ticket)))
      ⊎ (¬ IsLate next_day late_ticket
          × (find_ticket 21 (scan_sla next_day db).1 ≡ some late_ticket)))
    × (scan_sla next_day (scan_sla next_day db).1 ≡ (ok 0, (scan_sla next_day db).1))
unfolding find
scan_sla-swept_example = scan_sla-swept next_day 21 late_ticket db refl

abbrev texts : Texts
texts = record {
  lower_case = λ t. t;
  without_dash = λ t. t;
  digits_value = λ _. 1;
  decimal = λ _. "1";
}

abbrev terms : BillingTerms
terms = record { ppn = λ a. a; period_start = 0; period_end = 30; due_date = 10 }

abbrev kit : CompletionInput
kit = record { onu_serial = none; rx_power = none; notes = some "ok" }

abbrev repair : WorkOrder
repair = record (order_of 31 WorkOrderStatus.scheduled) {
  type = WorkOrderType.repair;
  ticket_id = none;
}

abbrev repair_db : Db
repair_db = record db { work_orders = repair ∷ [] }

abbrev repaired : Db
repaired = record db { work_orders = with_completion server "Adi" kit repair ∷ [] }

complete-once_example :
    (WorkOrderStatus.done ≡ WorkOrderStatus.done)
    × (complete texts terms server 31 "Ani" kit repaired
        ≡ (ok (with_completion server "Adi" kit repair), repaired))
unfolding complete complete_open activate finish update_order close_ticket find update_where
complete-once_example =
    complete-once texts terms terms server server 31 "Adi" "Ani" kit kit repair_db repaired
      (with_completion server "Adi" kit repair) refl

complete-HasAtMostOne_example : HasAtMostOne 1 (complete texts terms server 31 "Adi" kit db).1
unfolding count_where
complete-HasAtMostOne_example =
    complete-HasAtMostOne 1 texts terms server 31 "Adi" kit db (ground arith)
