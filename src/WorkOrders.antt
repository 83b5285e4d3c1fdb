-- ===== src/WorkOrders.antt =====
-- WorkOrdersRepository and WorkOrdersService (src/modules/work-orders): the life of an order that is
-- not its completion.
pub mod Orders
pub mod Completing
pub mod Provisioning
pub mod Completed
pub mod Devices
pub mod FirstInvoice
pub mod Provisioned
use mathlib.Core.Option
use Prim.Native.String.{◌++◌}
use isp_cms_be.Prelude.{
  ℕ, ◌+◌, String, Bool, true, false, Option, none, some, ◌∷◌, ◌==◌, if◌then◌else◌,
}
use isp_cms_be.Prelude.Table.{find, update_where}
use isp_cms_be.Store.FieldRows.{WorkOrder, WorkOrderType, WorkOrderStatus, Ticket, TicketEventKind}
use isp_cms_be.Store.Monad.{
  Db, Server, Action, Result, ok, err, Exception, not_found, bad_request, pure, throw, gets,
  or_throw, throw_if, modify, ◌>>=◌, ◌>>◌,
}
use isp_cms_be.Tickets.{find_ticket, add_event}

abbrev pub same_status : WorkOrderStatus → WorkOrderStatus → Bool
same_status WorkOrderStatus.scheduled WorkOrderStatus.scheduled = true
same_status WorkOrderStatus.in_progress WorkOrderStatus.in_progress = true
same_status WorkOrderStatus.done WorkOrderStatus.done = true
same_status WorkOrderStatus.cancelled WorkOrderStatus.cancelled = true
same_status _ _ = false

abbrev pub status_text : WorkOrderStatus → String
status_text WorkOrderStatus.scheduled = "scheduled"
status_text WorkOrderStatus.in_progress = "in_progress"
status_text WorkOrderStatus.done = "done"
status_text WorkOrderStatus.cancelled = "cancelled"

abbrev pub order_at : ℕ → WorkOrder → Bool
order_at k w = w.id == k

-- `findById`
abbrev pub find_order : ℕ → Db → Option WorkOrder
find_order k db = find (order_at k) db.work_orders

-- `update(workOrders).set(f).where(eq(workOrders.id, id)).returning()`: `patch`, and `markDone`
unfoldable pub update_order : ℕ → (WorkOrder → WorkOrder) → Action WorkOrder
update_order k f = do
  row ← gets (find_order k)
  modify λ db. record db { work_orders = update_where (order_at k) f db.work_orders }
  or_throw (Option.map f row) (not_found "work order not found")

abbrev pub with_status : Server → WorkOrderStatus → WorkOrder → WorkOrder
with_status srv s w = record w { status = s; updated_at = srv.now }

abbrev pub with_technician : Server → String → WorkOrder → WorkOrder
with_technician srv technician w = record w { technician = some technician; updated_at = srv.now }

abbrev pub with_schedule : Server → ℕ → WorkOrder → WorkOrder
with_schedule srv at w = record w { scheduled_at = at; updated_at = srv.now }

-- `requireOpen`
abbrev pub is_over : WorkOrderStatus → Bool
is_over WorkOrderStatus.done = true
is_over WorkOrderStatus.cancelled = true
is_over WorkOrderStatus.scheduled = false
is_over WorkOrderStatus.in_progress = false

unfoldable pub require_open : ℕ → Action WorkOrder
require_open id = do
  wo ← or_throw (← gets (find_order id)) (not_found "work order not found")
  throw_if (is_over wo.status) (bad_request ("work order is already " ++ status_text wo.status))
  pure wo

-- `start`
unfoldable pub start : Server → ℕ → Action WorkOrder
unfolding require_open update_order
start srv id = do
  wo ← require_open id
  elim wo.status [
    | WorkOrderStatus.in_progress ↦ pure wo
    | WorkOrderStatus.scheduled ↦ update_order id (with_status srv WorkOrderStatus.in_progress)
    | other ↦ throw (bad_request ("cannot start a " ++ status_text other ++ " work order"))
  ]

-- `cancel`
unfoldable pub cancel : Server → ℕ → Action WorkOrder
unfolding update_order
cancel srv id = do
  wo ← or_throw (← gets (find_order id)) (not_found "work order not found")
  elim wo.status [
    | WorkOrderStatus.cancelled ↦ pure wo
    | WorkOrderStatus.done ↦ throw (bad_request "cannot cancel a completed work order")
    | _ ↦ update_order id (with_status srv WorkOrderStatus.cancelled)
  ]

-- `assign`
unfoldable pub assign : Server → ℕ → String → Action WorkOrder
unfolding require_open update_order
assign srv id technician = do
  wo ← require_open id
  update_order wo.id (with_technician srv technician)

-- `reschedule`
unfoldable pub reschedule : Server → ℕ → ℕ → Action WorkOrder
unfolding require_open update_order
reschedule srv id at = do wo ← require_open id; update_order wo.id (with_schedule srv at)

abbrev pub order_row :
    Server → WorkOrderType → Option ℕ → Option ℕ → String → Option String → ℕ → WorkOrder
order_row srv type ticket_id customer_id name technician at = record {
  id = srv.key;
  code = srv.work_order_code;
  type = type;
  customer_id = customer_id;
  customer_name = name;
  technician = technician;
  scheduled_at = at;
  status = WorkOrderStatus.scheduled;
  ticket_id = ticket_id;
  scanned_onu_serial = none;
  measured_rx_power = none;
  completion_notes = none;
  completed_at = none;
  completed_by = none;
  created_at = srv.now;
  updated_at = srv.now;
}

-- `create` of the repository
unfoldable pub create_order : WorkOrder → Action WorkOrder
create_order w = modify (λ db. record db { work_orders = w ∷ db.work_orders }) >> pure w

-- `createFromTicket`: a repair on the next day
unfoldable pub create_from_ticket : Server → ℕ → Option ℕ → String → Action WorkOrder
unfolding create_order
create_from_ticket srv ticket_id customer_id name =
    create_order (
      order_row srv WorkOrderType.repair (some ticket_id) customer_id name none
        (srv.now + 86400000))

-- `scheduleInstallForCustomer`
unfoldable pub schedule_install_for_customer : Server → ℕ → String → String → ℕ → Action WorkOrder
unfolding create_order
schedule_install_for_customer srv customer_id name technician at =
    create_order
      (order_row srv WorkOrderType.install none (some customer_id) name (some technician) at)

-- `scheduleInstall`: two days ahead
unfoldable pub schedule_install : Server → ℕ → String → Action WorkOrder
unfolding create_order
schedule_install srv customer_id name =
    create_order
      (order_row srv WorkOrderType.install none (some customer_id) name none (srv.now + 172800000))

-- `TicketsService.createWorkOrder`
unfoldable pub create_work_order : Server → ℕ → String → Action WorkOrder
unfolding create_from_ticket add_event
create_work_order srv id author = do
  t ← or_throw (← gets (find_ticket id)) (not_found "ticket not found")
  wo ← create_from_ticket srv t.id t.customer_id t.customer_name
  add_event srv id TicketEventKind.workorder author ("Work order " ++ wo.code ++ " dibuat")
  pure wo
