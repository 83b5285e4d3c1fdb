-- ===== src/Tickets/Deadlines.antt =====
-- The deadline of a ticket: it always belongs to its priority.
use isp_cms_be.Prelude.{
  ℕ, String, true, false, Option, none, some, List, ◌≡◌, refl, inl, inr, arith, Bool-cases,
  Option-cases,
}
use isp_cms_be.Prelude.Table.{update_where, All, Unique}
use isp_cms_be.Prelude.Table.Laws.{All-update_where, All-update_key, Unique-update_where}
use isp_cms_be.Store.FieldRows.{Ticket, TicketStatus, TicketEvent}
use isp_cms_be.Store.Monad.{Db, Server, ok}
use isp_cms_be.Tickets.{
  is_closed, sla_hours, add_hours, ticket_at, find_ticket, add_event, update_ticket,
  CreateTicketInput, create, is_past_sla, with_breach, scan_sla, with_status, downgrade_if_breached,
  resolve_open, resolve_from_work_order, with_csat, submit_csat,
}
use isp_cms_be.Tickets.Updating.{
  UpdateTicketInput, with_update, new_assignee, next_status, log_assignment, log_status, update,
}
use isp_cms_be.Tickets.Swept.{scan_sla-tables}

abbrev pub IsOnDeadline : Ticket → Type 0
IsOnDeadline t = t.sla_due_at ≡ add_hours t.created_at (sla_hours t.priority)

-- The keys of the tickets are unique, and every deadline belongs to its priority.
abbrev pub AllOnDeadline : Db → Type 0
AllOnDeadline db = Unique (λ (t : Ticket). t.id) db.tickets × All IsOnDeadline db.tickets

module _ (srv : Server) where
  scan_sla-AllOnDeadline : (d : Db) → AllOnDeadline d → AllOnDeadline (scan_sla srv d).1
  scan_sla-AllOnDeadline d h =
      let (evs, done) = scan_sla-tables srv d in
      rw done (
        Unique-update_where (λ (t : Ticket). t.id) (is_past_sla srv) (with_breach srv) d.tickets
            (λ _. refl) h.0,
        All-update_where IsOnDeadline (is_past_sla srv) (with_breach srv) d.tickets (λ t e _. e)
            h.1,
      )

  create-AllOnDeadline :
      (input : CreateTicketInput) (author : String) (d : Db)
      → find_ticket srv.key d ≡ none
      → AllOnDeadline d
      → AllOnDeadline (create srv input author d).1
  unfolding create add_event
  create-AllOnDeadline input author d fresh h = ((fresh, h.0), (refl, h.1))

  -- A change of one ticket that keeps its deadline right.
  changed :
      (id : ℕ) (f : Ticket → Ticket) (t : Ticket) (d : Db)
      → find_ticket id d ≡ some t
      → ((r : Ticket) → (f r).id ≡ r.id)
      → (IsOnDeadline t → IsOnDeadline (f t))
      → AllOnDeadline d
      → Unique (λ (r : Ticket). r.id) (update_where (ticket_at id) f d.tickets)
        × All IsOnDeadline (update_where (ticket_at id) f d.tickets)
  changed id f t d found key keep h = (
    Unique-update_where (λ (r : Ticket). r.id) (ticket_at id) f d.tickets key h.0,
    All-update_key (λ (r : Ticket). r.id) IsOnDeadline id f d.tickets h.0 found keep h.1,
  )

  log_assignment-tables :
      (id : ℕ) (author : String) (o : Option (Option String)) (d : Db)
      → (evs : List TicketEvent) × (log_assignment srv id author o d
          ≡ (ok tt, record d { ticket_events = evs }))
  unfolding log_assignment add_event
  log_assignment-tables id author none d = (d.ticket_events, refl)
  log_assignment-tables id author (some a) d =
      ((log_assignment srv id author (some a) d).1.ticket_events, refl)

  log_status-tables :
      (id : ℕ) (author : String) (o : Option TicketStatus) (d : Db)
      → (evs : List TicketEvent) × (log_status srv id author o d
          ≡ (ok tt, record d { ticket_events = evs }))
  unfolding log_status add_event
  log_status-tables id author none d = (d.ticket_events, refl)
  log_status-tables id author (some s) d =
      ((log_status srv id author (some s) d).1.ticket_events, refl)

  update_ticket-found :
      (id : ℕ) (f : Ticket → Ticket) (t : Ticket) (d : Db)
      → find_ticket id d ≡ some t
      → update_ticket id f d
        ≡ (ok (f t), record d { tickets = update_where (ticket_at id) f d.tickets })
  unfolding update_ticket
  update_ticket-found id f t d found = rw (found, update_ticket) refl

  update-tickets :
      (id : ℕ) (input : UpdateTicketInput) (author : String) (t : Ticket) (d : Db)
      → find_ticket id d ≡ some t
      → (update srv id input author d).1.tickets
        ≡ update_where (ticket_at id) (with_update srv input t) d.tickets
  unfolding update
  update-tickets id input author t d found =
      let stored : Db = record d {
        tickets = update_where (ticket_at id) (with_update srv input t) d.tickets;
      } in
      let (evs, assigned) =
        log_assignment-tables id author (new_assignee t input.assignee) stored in
      let (more, marked) =
        log_status-tables id author (next_status srv t input.status)
          (record stored { ticket_events = evs }) in
      ground (arith, update_ticket-found id (with_update srv input t) t d found, assigned, marked)

  with_update-IsOnDeadline :
      (input : UpdateTicketInput) (t : Ticket)
      → IsOnDeadline t
      → IsOnDeadline (with_update srv input t t)
  with_update-IsOnDeadline input t h = elim (Option-cases input.priority) [
    | inl kept ↦ ground arith
    | inr (p, new) ↦ ground arith
  ]

  update-AllOnDeadline :
      (id : ℕ) (input : UpdateTicketInput) (author : String) (d : Db)
      → AllOnDeadline d
      → AllOnDeadline (update srv id input author d).1
  unfolding update
  update-AllOnDeadline id input author d h = elim (Option-cases (find_ticket id d)) [
    | inl missing ↦ rw missing h
    | inr (t, found) ↦ rw (update-tickets id input author t d found) (
        changed id (with_update srv input t) t d found (λ _. refl)
          (with_update-IsOnDeadline input t) h)
  ]

  pub resolved_tickets :
      (id : ℕ) (wo_code author : String) (t : Ticket) (d : Db)
      → find_ticket id d ≡ some t
      → is_closed t.status ≡ false
      → (resolve_from_work_order srv id wo_code author d).1.tickets
        ≡ update_where
            (ticket_at id)
            (with_status srv (downgrade_if_breached srv t TicketStatus.resolved))
            d.tickets
  unfolding resolve_from_work_order resolve_open add_event update_ticket
  resolved_tickets id wo_code author t d found still = ground arith

  resolve_from_work_order-AllOnDeadline :
      (id : ℕ) (wo_code author : String) (d : Db)
      → AllOnDeadline d
      → AllOnDeadline (resolve_from_work_order srv id wo_code author d).1
  unfolding resolve_from_work_order
  resolve_from_work_order-AllOnDeadline id wo_code author d h =
      elim (Option-cases (find_ticket id d)) [
        | inl missing ↦ rw missing h
        | inr (t, found) ↦ elim (Bool-cases (is_closed t.status)) [
          | inl closed ↦ rw (found, closed) h
          | inr still ↦ rw (resolved_tickets id wo_code author t d found still) (
              changed id (with_status srv (downgrade_if_breached srv t TicketStatus.resolved)) t d
                found (λ _. refl) (λ e. e) h)
        ]
      ]

  rated_tickets :
      (digits : ℕ → String) (id rating : ℕ) (remark : Option String) (author : String) (t : Ticket)
      (d : Db)
      → find_ticket id d ≡ some t
      → is_closed t.status ≡ true
      → (submit_csat digits srv id rating remark author d).1.tickets
        ≡ update_where (ticket_at id) (with_csat srv rating remark) d.tickets
  unfolding submit_csat update_ticket add_event
  rated_tickets digits id rating remark author t d found closed = ground arith

  submit_csat-AllOnDeadline :
      (digits : ℕ → String) (id rating : ℕ) (remark : Option String) (author : String) (d : Db)
      → AllOnDeadline d
      → AllOnDeadline (submit_csat digits srv id rating remark author d).1
  unfolding submit_csat
  submit_csat-AllOnDeadline digits id rating remark author d h =
      elim (Option-cases (find_ticket id d)) [
        | inl missing ↦ rw missing h
        | inr (t, found) ↦ elim (Bool-cases (is_closed t.status)) [
          | inl closed ↦
              rw (rated_tickets digits id rating remark author t d found closed)
                (changed id (with_csat srv rating remark) t d found (λ _. refl) (λ e. e) h)
          | inr still ↦ rw (found, still) h
        ]
      ]

-- The operations that write a ticket. A new ticket's key is not in use.
pub data Step (db : Db) : Db → Type 0 where
  reported :
      (srv : Server) (input : CreateTicketInput) (author : String)
      → find_ticket srv.key db ≡ none
      → Step db (create srv input author db).1
  updated :
      (srv : Server) (id : ℕ) (input : UpdateTicketInput) (author : String)
      → Step db (update srv id input author db).1
  scanned : (srv : Server) → Step db (scan_sla srv db).1
  repaired :
      (srv : Server) (id : ℕ) (wo_code author : String)
      → Step db (resolve_from_work_order srv id wo_code author db).1
  rated :
      (digits : ℕ → String) (srv : Server) (id rating : ℕ) (remark : Option String)
      (author : String)
      → Step db (submit_csat digits srv id rating remark author db).1

pub data Reach (db : Db) : Db → Type 0 where
  here : Reach db db
  next : {d e : Db} → Reach db d → Step d e → Reach db e

Step-AllOnDeadline : {d e : Db} → Step d e → AllOnDeadline d → AllOnDeadline e
Step-AllOnDeadline (reported srv input author fresh) h =
    create-AllOnDeadline srv input author _ fresh h
Step-AllOnDeadline (updated srv id input author) h = update-AllOnDeadline srv id input author _ h
Step-AllOnDeadline (scanned srv) h = scan_sla-AllOnDeadline srv _ h
Step-AllOnDeadline (repaired srv id wo_code author) h =
    resolve_from_work_order-AllOnDeadline srv id wo_code author _ h
Step-AllOnDeadline (rated digits srv id rating remark author) h =
    submit_csat-AllOnDeadline srv digits id rating remark author _ h

-- When the keys of the tickets are unique and every deadline is the creation time plus the hours of
-- the ticket's priority, the same holds after any sequence of new tickets under fresh keys,
-- updates, sweeps, closings by a work order and ratings.
pub Reach-AllOnDeadline : (db d : Db) → AllOnDeadline db → Reach db d → AllOnDeadline d
Reach-AllOnDeadline db d h here = h
Reach-AllOnDeadline db d h (next r st) = Step-AllOnDeadline st (Reach-AllOnDeadline db _ h r)
