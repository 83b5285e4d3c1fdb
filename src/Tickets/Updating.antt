-- ===== src/Tickets/Updating.antt =====
-- TicketsService.update (src/modules/tickets/tickets.service.ts): a change of assignee, priority or
-- status.

use text.Mathlib.Text.{◌==◌ as str_eq}
use Prim.Native.String.{◌++◌}
use isp_cms_be.Prelude.{ℕ, String, Bool, true, false, Option, none, some, if◌then◌else◌, given}
use isp_cms_be.Store.FieldRows.{Ticket, TicketStatus, TicketPriority, TicketEventKind}
use isp_cms_be.Store.Monad.{Server, Action, not_found, pure, gets, or_throw, ◌>>=◌, ◌>>◌}
use isp_cms_be.Tickets.{
  add_event, add_hours, downgrade_if_breached, find_ticket, same_status, sla_hours, status_text,
  update_ticket,
}

-- `UpdateTicketInput`; a null assignee unassigns
pub record UpdateTicketInput : Type 0 where
  pub subject : Option String
  pub priority : Option TicketPriority
  pub status : Option TicketStatus
  pub assignee : Option (Option String)

abbrev pub same_text : Option String → Option String → Bool
same_text none none = true
same_text none (some b) = false
same_text (some a) none = false
same_text (some a) (some b) = str_eq a b

-- `assigneeChanged`, with the value
abbrev pub new_assignee : Ticket → Option (Option String) → Option (Option String)
new_assignee t none = none
new_assignee t (some a) = if same_text a t.assignee then none else some a

-- `nextStatus`
abbrev pub next_status : Server → Ticket → Option TicketStatus → Option TicketStatus
next_status srv t none = none
next_status srv t (some s) =
    if same_status s t.status then none else some (downgrade_if_breached srv t s)

abbrev pub due_after : Ticket → Option TicketPriority → ℕ → ℕ
due_after t none due = due
due_after t (some p) due = add_hours t.created_at (sla_hours p)

-- the patch of `update`, from the ticket `t` that it read
abbrev pub with_update : Server → UpdateTicketInput → Ticket → Ticket → Ticket
with_update srv input t r = record r {
  subject = given r.subject input.subject;
  priority = given r.priority input.priority;
  sla_due_at = due_after t input.priority r.sla_due_at;
  assignee = given r.assignee input.assignee;
  status = given r.status (next_status srv t input.status);
  updated_at = srv.now;
}

-- `assignee ? 'Ditugaskan ke ...' : 'Assign dilepas'`; the empty text is false
abbrev pub assignment_text : Option String → String
assignment_text none = "Assign dilepas"
assignment_text (some a) = if str_eq a "" then "Assign dilepas" else "Ditugaskan ke " ++ a

unfoldable pub log_assignment : Server → ℕ → String → Option (Option String) → Action (Unit {0})
unfolding add_event
log_assignment srv id author none = pure tt
log_assignment srv id author (some a) =
    add_event srv id TicketEventKind.assign author (assignment_text a)

unfoldable pub log_status : Server → ℕ → String → Option TicketStatus → Action (Unit {0})
unfolding add_event
log_status srv id author none = pure tt
log_status srv id author (some s) =
    add_event srv id TicketEventKind.status author ("Status → " ++ status_text s)

-- `update`
unfoldable pub update : Server → ℕ → UpdateTicketInput → String → Action Ticket
unfolding update_ticket log_assignment log_status
update srv id input author = do
  t ← or_throw (← gets (find_ticket id)) (not_found "ticket not found")
  updated ← update_ticket id (with_update srv input t)
  log_assignment srv id author (new_assignee t input.assignee)
  log_status srv id author (next_status srv t input.status)
  pure updated
