-- ===== src/Tickets/Closing.antt =====
-- The repair loop: a completed repair closes its ticket once, by the clock.

use isp_cms_be.Prelude.{ℕ, ltb, String, Bool, true, false, some, if◌then◌else◌, ◌≡◌, refl, ◌∙◌}
use isp_cms_be.Prelude.Table.Laws.{find-update_self}
use isp_cms_be.Store.FieldRows.{Ticket, TicketStatus}
use isp_cms_be.Store.Monad.{Db, Server, ok}
use isp_cms_be.Tickets.Deadlines.{resolved_tickets}
use isp_cms_be.Tickets.{is_closed, find_ticket, with_status, resolve_from_work_order}

module _ (srv : Server) (id : ℕ) (wo_code author : String) (db : Db) where
  abbrev closing : Ticket → Ticket → Ticket
  closing t =
      with_status srv
        (if ltb t.sla_due_at srv.now then TicketStatus.breached else TicketStatus.resolved)

  closed_row :
      (t : Ticket)
      → find_ticket id db ≡ some t
      → is_closed t.status ≡ false
      → find_ticket id (resolve_from_work_order srv id wo_code author db).1 ≡ some (closing t t)
  closed_row t found still = rw (resolved_tickets srv id wo_code author t db found still) (
      find-update_self (λ (r : Ticket). r.id) id (closing t) db.tickets (λ _. refl) ∙ rw found refl)

  -- A ticket that is closed is left alone.
  closed_idle :
      (srv' : Server) (code' author' : String) (t : Ticket) (d : Db)
      → find_ticket id d ≡ some t
      → is_closed t.status ≡ true
      → resolve_from_work_order srv' id code' author' d ≡ (ok tt, d)
  unfolding resolve_from_work_order
  closed_idle srv' code' author' t d found closed = rw (found, closed) refl

  -- A completed repair closes an open ticket as `breached` when its deadline has passed and as
  -- `resolved` otherwise, and any later completion for the ticket changes no table.
  pub resolve_from_work_order-closes :
      (srv' : Server) (code' author' : String) (t : Ticket)
      → find_ticket id db ≡ some t
      → is_closed t.status ≡ false
      → let d = (resolve_from_work_order srv id wo_code author db).1 in
        (find_ticket id d
          ≡ some (
              with_status srv
                (if ltb t.sla_due_at srv.now then TicketStatus.breached else TicketStatus.resolved)
                t))
        × (resolve_from_work_order srv' id code' author' d ≡ (ok tt, d))
  resolve_from_work_order-closes srv' code' author' t found still = (
    closed_row t found still,
    closed_idle srv' code' author' (closing t t) _ (closed_row t found still)
        (shut (ltb t.sla_due_at srv.now)),
  )
    where
      shut :
          (b : Bool) → is_closed (if b then TicketStatus.breached else TicketStatus.resolved) ≡ true
      shut true = refl
      shut false = refl
