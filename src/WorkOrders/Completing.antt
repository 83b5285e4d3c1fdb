-- ===== src/WorkOrders/Completing.antt =====
-- WorkOrdersService.complete (src/modules/work-orders/work-orders.service.ts): the cascade that
-- activates a subscriber, and the repair loop.

use isp_cms_be.Prelude.{ℕ, String, none, some, if◌then◌else◌}
use isp_cms_be.Store.FieldRows.{WorkOrder, WorkOrderType, WorkOrderStatus}
use isp_cms_be.Store.Monad.{
  Server, Action, not_found, bad_request, pure, throw, gets, or_throw, ◌>>=◌, ◌>>◌,
}
use isp_cms_be.Store.Statements.{find_customer}
use isp_cms_be.Tickets.{resolve_from_work_order}
use isp_cms_be.Invoices.Billing.{bill_customer}
use isp_cms_be.Customers.PlanChange.{find_plan}
use isp_cms_be.WorkOrders.{same_status, find_order, update_order}
use isp_cms_be.WorkOrders.Provisioning.{
  BillingTerms, CompletionInput, Texts, assign_onu, build_connection, find_customer_row,
  mark_installed, provision_secret,
}

-- `InvoicesService.generateFirstInvoice`
unfoldable pub generate_first_invoice : BillingTerms → Server → ℕ → Action (Unit {0})
unfolding bill_customer
generate_first_invoice terms srv customer_id = do
  info ← gets (find_customer customer_id)
  elim info [
    | none ↦ pure tt
    | some c ↦ do
      plan ← gets (find_plan c.plan_id)
      elim plan [
        | none ↦ pure tt
        | some p ↦
            bill_customer srv terms.ppn customer_id c.full_name p.price_monthly terms.period_start
              terms.period_end terms.due_date
            >> pure tt
      ]
  ]

-- the activation of the subscriber of an install order
unfoldable pub install :
    Texts → BillingTerms → Server → WorkOrder → CompletionInput → ℕ → Action (Unit {0})
unfolding assign_onu mark_installed provision_secret generate_first_invoice
install txt terms srv wo input customer_id = do
  row ← gets (find_customer_row customer_id)
  elim row [
    | none ↦ pure tt
    | some c ↦ do
      onu_serial ← assign_onu srv c.customer.full_name wo.id input.onu_serial
      mark_installed srv customer_id (build_connection txt c onu_serial input.rx_power)
      provision_secret txt srv c
      generate_first_invoice terms srv customer_id
  ]

-- what `complete` does by the type of the order, before the order is done
unfoldable pub activate :
    Texts → BillingTerms → Server → WorkOrder → CompletionInput → Action (Unit {0})
unfolding install
activate txt terms srv wo input = elim wo.type [
  | WorkOrderType.install ↦ elim wo.customer_id [
    | none ↦ throw (bad_request "install work order is not linked to a customer")
    | some customer_id ↦ install txt terms srv wo input customer_id
  ]
  | _ ↦ pure tt
]

-- the set of `markDone` with `buildCompletion`
abbrev pub with_completion : Server → String → CompletionInput → WorkOrder → WorkOrder
with_completion srv author input w = record w {
  scanned_onu_serial = input.onu_serial;
  measured_rx_power = input.rx_power;
  completion_notes = input.notes;
  completed_at = some srv.now;
  completed_by = some author;
  status = WorkOrderStatus.done;
  updated_at = srv.now;
}

-- `wo.type === 'repair' && wo.ticketId`
unfoldable pub close_ticket : Server → WorkOrder → String → String → Action (Unit {0})
unfolding resolve_from_work_order
close_ticket srv wo code author = elim wo.type [
  | WorkOrderType.repair ↦ elim wo.ticket_id [
    | none ↦ pure tt
    | some ticket_id ↦ resolve_from_work_order srv ticket_id code author
  ]
  | _ ↦ pure tt
]

-- `complete` from `markDone` on
unfoldable pub finish : Server → WorkOrder → String → CompletionInput → ℕ → Action WorkOrder
unfolding update_order close_ticket
finish srv wo author input id = do
  done ← update_order id (with_completion srv author input)
  close_ticket srv wo done.code author
  pure done

-- `complete` on an order that is not done
unfoldable pub complete_open :
    Texts → BillingTerms → Server → WorkOrder → String → CompletionInput → ℕ → Action WorkOrder
unfolding activate finish
complete_open txt terms srv wo author input id =
    activate txt terms srv wo input >> finish srv wo author input id

-- `complete`
unfoldable pub complete :
    Texts → BillingTerms → Server → ℕ → String → CompletionInput → Action WorkOrder
unfolding complete_open
complete txt terms srv id author input = do
  wo ← or_throw (← gets (find_order id)) (not_found "work order not found")
  if same_status wo.status WorkOrderStatus.done
      then pure wo
      else complete_open txt terms srv wo author input id
