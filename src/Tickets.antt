-- ===== src/Tickets.antt =====
-- TicketsRepository and TicketsService (src/modules/tickets): a ticket, its deadline and its
-- timeline.
pub mod Swept
pub mod Deadlines
pub mod Updating
pub mod Closing
use mathlib.Core.Option
use text.Mathlib.Text.{◌==◌ as str_eq}
use Prim.Native.String.{◌++◌}
use isp_cms_be.Prelude.{
  ℕ, ◌+◌, ◌*◌, ltb, String, Bool, true, false, not, ◌&&◌, ◌||◌, Option, none, some, List, [], ◌∷◌,
  ◌==◌, if◌then◌else◌, given,
}
use isp_cms_be.Prelude.Table.{find, select_where, update_where, count_where}
use isp_cms_be.Store.FieldRows.{
  Ticket, TicketStatus, TicketPriority, TicketEvent, TicketEventKind, TicketCategory,
}
use isp_cms_be.Store.Monad.{
  Db, Server, Action, Result, ok, err, Exception, not_found, unprocessable, pure, throw, gets,
  or_throw, throw_if, modify, ◌>>=◌, ◌>>◌,
}
use isp_cms_be.Inventory.{find_id_by_full_name}

-- SLA_HOURS
abbrev pub sla_hours : TicketPriority → ℕ
sla_hours TicketPriority.urgent = 4
sla_hours TicketPriority.high = 8
sla_hours TicketPriority.medium = 24
sla_hours TicketPriority.low = 72

-- `addHours`
abbrev pub add_hours : ℕ → ℕ → ℕ
add_hours date hours = date + hours * 3600000

abbrev pub same_status : TicketStatus → TicketStatus → Bool
same_status TicketStatus.opened TicketStatus.opened = true
same_status TicketStatus.in_progress TicketStatus.in_progress = true
same_status TicketStatus.resolved TicketStatus.resolved = true
same_status TicketStatus.breached TicketStatus.breached = true
same_status _ _ = false

abbrev pub status_text : TicketStatus → String
status_text TicketStatus.opened = "open"
status_text TicketStatus.in_progress = "in_progress"
status_text TicketStatus.resolved = "resolved"
status_text TicketStatus.breached = "breached"

-- `status === 'resolved' || status === 'breached'`
abbrev pub is_closed : TicketStatus → Bool
is_closed TicketStatus.resolved = true
is_closed TicketStatus.breached = true
is_closed TicketStatus.opened = false
is_closed TicketStatus.in_progress = false

abbrev pub ticket_at : ℕ → Ticket → Bool
ticket_at k t = t.id == k

-- `findById`
abbrev pub find_ticket : ℕ → Db → Option Ticket
find_ticket k db = find (ticket_at k) db.tickets

abbrev pub event_row : Server → ℕ → TicketEventKind → String → String → TicketEvent
event_row srv ticket_id kind author body = record {
  ticket_id = ticket_id;
  kind = kind;
  author = author;
  body = body;
  at = srv.now;
}

-- `addEvent`
unfoldable pub add_event : Server → ℕ → TicketEventKind → String → String → Action (Unit {0})
add_event srv ticket_id kind author body =
    modify λ db. record db {
      ticket_events = event_row srv ticket_id kind author body ∷ db.ticket_events;
    }

-- `update(tickets).set(f).where(eq(tickets.id, id)).returning()`
unfoldable pub update_ticket : ℕ → (Ticket → Ticket) → Action Ticket
update_ticket k f = do
  row ← gets (find_ticket k)
  modify λ db. record db { tickets = update_where (ticket_at k) f db.tickets }
  or_throw (Option.map f row) (not_found "ticket not found")

pub record CreateTicketInput : Type 0 where
  pub subject : String
  pub customer_name : String
  pub priority : TicketPriority
  pub category : Option TicketCategory
  pub photo_url : Option String

abbrev pub ticket_row : Server → CreateTicketInput → Option ℕ → Ticket
ticket_row srv input customer_id = record {
  id = srv.key;
  code = srv.ticket_code;
  subject = input.subject;
  customer_id = customer_id;
  customer_name = input.customer_name;
  priority = input.priority;
  status = TicketStatus.opened;
  assignee = none;
  sla_due_at = add_hours srv.now (sla_hours input.priority);
  category = input.category;
  photo_url = input.photo_url;
  csat_rating = none;
  csat_comment = none;
  csat_at = none;
  created_at = srv.now;
  updated_at = srv.now;
}

-- `create`
unfoldable pub create : Server → CreateTicketInput → String → Action Ticket
unfolding add_event
create srv input author = do
  customer_id ← gets (find_id_by_full_name input.customer_name)
  modify λ db. record db { tickets = ticket_row srv input customer_id ∷ db.tickets }
  add_event srv srv.key TicketEventKind.created author "Tiket dibuat"
  pure (ticket_row srv input customer_id)

-- `downgradeIfBreached`
abbrev pub downgrade_if_breached : Server → Ticket → TicketStatus → TicketStatus
downgrade_if_breached srv t status =
    if same_status status TicketStatus.resolved && ltb t.sla_due_at srv.now
    then TicketStatus.breached
    else status

-- the `where` of `markBreachedPastSla`
abbrev pub is_past_sla : Server → Ticket → Bool
is_past_sla srv t = not (is_closed t.status) && ltb t.sla_due_at srv.now

abbrev pub with_breach : Server → Ticket → Ticket
with_breach srv t = record t { status = TicketStatus.breached; updated_at = srv.now }

-- the events of a sweep, one for each ticket that it returned
unfoldable pub log_breaches : Server → List Ticket → Action (Unit {0})
unfolding add_event
log_breaches srv [] = pure tt
log_breaches srv (t ∷ ts) = do
  add_event srv t.id TicketEventKind.status "Sistem" "SLA terlampaui → breached"
  log_breaches srv ts

-- `scanSla`: how many tickets it marked
unfoldable pub scan_sla : Server → Action ℕ
unfolding log_breaches
scan_sla srv = do
  breached ← gets (λ db. select_where (is_past_sla srv) db.tickets)
  n ← gets (λ db. count_where (is_past_sla srv) db.tickets)
  modify λ db. record db { tickets = update_where (is_past_sla srv) (with_breach srv) db.tickets }
  log_breaches srv breached
  pure n

-- `addComment`
unfoldable pub add_comment : Server → ℕ → String → String → Action (Unit {0})
unfolding add_event
add_comment srv id body author = do
  or_throw (← gets (find_ticket id)) (not_found "ticket not found")
  add_event srv id TicketEventKind.comment author body

-- `update(ticketId, { status })`
abbrev pub with_status : Server → TicketStatus → Ticket → Ticket
with_status srv s t = record t { status = s; updated_at = srv.now }

-- `resolveFromWorkOrder` on a ticket that is still open
unfoldable pub resolve_open : Server → ℕ → Ticket → String → String → Action (Unit {0})
unfolding add_event update_ticket
resolve_open srv id t wo_code author = do
  add_event srv id TicketEventKind.workorder author ("Perbaikan selesai — WO " ++ wo_code)
  let next = downgrade_if_breached srv t TicketStatus.resolved
  update_ticket id (with_status srv next)
  add_event srv id TicketEventKind.status author ("Status → " ++ status_text next)

-- `resolveFromWorkOrder`
unfoldable pub resolve_from_work_order : Server → ℕ → String → String → Action (Unit {0})
unfolding resolve_open
resolve_from_work_order srv id wo_code author = do
  t ← or_throw (← gets (find_ticket id)) (not_found "ticket not found")
  if is_closed t.status then pure tt else resolve_open srv id t wo_code author

abbrev pub with_csat : Server → ℕ → Option String → Ticket → Ticket
with_csat srv rating remark t = record t {
  csat_rating = some rating;
  csat_comment = remark;
  csat_at = some srv.now;
  updated_at = srv.now;
}

abbrev pub csat_text : (ℕ → String) → ℕ → Option String → String
csat_text digits rating none = "Rating pelanggan: " ++ digits rating ++ "/5"
csat_text digits rating (some remark) =
    "Rating pelanggan: "
    ++ digits rating
    ++ "/5"
    ++ (if str_eq remark "" then "" else " — " ++ remark)

-- `submitCsat`; `digits` is the text of a number
unfoldable pub submit_csat : (ℕ → String) → Server → ℕ → ℕ → Option String → String → Action Ticket
unfolding update_ticket add_event
submit_csat digits srv id rating remark author = do
  t ← or_throw (← gets (find_ticket id)) (not_found "ticket not found")
  throw_if (not (is_closed t.status))
      (unprocessable "tiket belum selesai, belum bisa diberi rating")
  updated ← update_ticket id (with_csat srv rating remark)
  add_event srv id TicketEventKind.csat author (csat_text digits rating remark)
  pure updated
