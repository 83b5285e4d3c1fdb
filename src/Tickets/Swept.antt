-- ===== src/Tickets/Swept.antt =====
-- The sweep of the tickets that are past their deadline (`scanSla`).
use isp_cms_be.Prelude.{
  ℕ, ◌<◌, ◌⊎◌, ◌∙◌, true, some, false, List, [], ◌∷◌, ◌≡◌, refl, inl, inr, arith, Bool-cases,
}
use isp_cms_be.Prelude.Table.{find, select_where, update_where, count_where, All}
use isp_cms_be.Prelude.Table.Laws.{
  find-update_where, update_where-refused, select_where-refused, count_where-refused,
}
use isp_cms_be.Store.FieldRows.{Ticket, TicketStatus, TicketEvent, TicketEventKind}
use isp_cms_be.Store.Monad.{Db, Server, ok}
use isp_cms_be.Tickets.{
  find_ticket, ticket_at, is_closed, add_event, is_past_sla, with_breach, log_breaches, scan_sla,
}

-- The ticket is being worked on, and its deadline is over.
abbrev pub IsLate : Server → Ticket → Type 0
IsLate srv t =
    ((t.status ≡ TicketStatus.opened) ⊎ (t.status ≡ TicketStatus.in_progress))
    × (t.sla_due_at < srv.now)

abbrev pub breached_at : Server → Ticket → Ticket
breached_at srv t = record t { status = TicketStatus.breached; updated_at = srv.now }

is_past_sla-IsLate : (srv : Server) (t : Ticket) → is_past_sla srv t ≡ true → IsLate srv t
is_past_sla-IsLate srv t late = (works t.status (ground arith), ground arith)
  where
    works :
        (s : TicketStatus)
        → is_closed s ≡ false
        → (s ≡ TicketStatus.opened) ⊎ (s ≡ TicketStatus.in_progress)
    works TicketStatus.opened h = inl refl
    works TicketStatus.in_progress h = inr refl
    works TicketStatus.resolved h = absurd (ground arith)
    works TicketStatus.breached h = absurd (ground arith)

IsLate-is_past_sla : (srv : Server) (t : Ticket) → IsLate srv t → is_past_sla srv t ≡ true
IsLate-is_past_sla srv t (inl works, over) = ground arith
IsLate-is_past_sla srv t (inr works, over) = ground arith

module _ (srv : Server) where
  log_breaches-tables :
      (ts : List Ticket) (d : Db)
      → (evs : List TicketEvent) × (log_breaches srv ts d
          ≡ (ok tt, record d { ticket_events = evs }))
  unfolding log_breaches add_event
  log_breaches-tables [] d = (d.ticket_events, refl)
  log_breaches-tables (t ∷ ts) d =
      let (evs, rest) =
        log_breaches-tables ts
          (add_event srv t.id TicketEventKind.status "Sistem" "SLA terlampaui → breached" d).1 in
      (evs, rest)

  abbrev pub swept : List Ticket → List Ticket
  swept rows = update_where (is_past_sla srv) (with_breach srv) rows

  pub scan_sla-tables :
      (d : Db)
      → (evs : List TicketEvent) × (scan_sla srv d ≡ (
        ok (count_where (is_past_sla srv) d.tickets),
        record d { tickets = swept d.tickets; ticket_events = evs },
      ))
  unfolding scan_sla
  scan_sla-tables d =
      let (evs, logged) =
        log_breaches-tables (select_where (is_past_sla srv) d.tickets)
          (record d { tickets = swept d.tickets }) in
      (evs, ground (arith, logged))

  none_left : (rows : List Ticket) → All (λ t. is_past_sla srv t ≡ false) (swept rows)
  unfolding update_where
  none_left [] = tt
  none_left (t ∷ rows) = elim (Bool-cases (is_past_sla srv t)) [
    | inl late ↦ rw late (refl, none_left rows)
    | inr fine ↦ rw fine (fine, none_left rows)
  ]

  swept_row :
      (k : ℕ) (t : Ticket) (d : Db)
      → find_ticket k d ≡ some t
      → (IsLate srv t × (find (ticket_at k) (swept d.tickets) ≡ some (breached_at srv t)))
        ⊎ (¬ IsLate srv t × (find (ticket_at k) (swept d.tickets) ≡ some t))
  swept_row k t d found =
      let row =
        find-update_where (ticket_at k) (is_past_sla srv) (with_breach srv) d.tickets (λ _. refl) in
      elim (Bool-cases (is_past_sla srv t)) [
        | inl late ↦ inl (is_past_sla-IsLate srv t late, row ∙ rw (found, late) refl)
        | inr kept ↦ inr (
          λ h. absurd (let late = IsLate-is_past_sla srv t h in ground arith),
          row ∙ rw (found, kept) refl,
        )
      ]

  scan_sla-idle :
      (d : Db) → All (λ t. is_past_sla srv t ≡ false) d.tickets → scan_sla srv d ≡ (ok 0, d)
  unfolding scan_sla log_breaches
  scan_sla-idle d h = ground (
    arith,
    select_where-refused (is_past_sla srv) d.tickets h,
    count_where-refused (is_past_sla srv) d.tickets h,
    update_where-refused (is_past_sla srv) (with_breach srv) d.tickets h,
  )

  -- A ticket that is found under its key reads `breached` after the sweep, its other columns but
  -- the update time unchanged, when it reads `opened` or `in_progress` and its deadline is before
  -- the time of the sweep, and is the same row otherwise; a second sweep at that time reports none
  -- and changes no table.
  pub scan_sla-swept :
      (k : ℕ) (t : Ticket) (d : Db)
      → find_ticket k d ≡ some t
      → ((IsLate srv t × (find_ticket k (scan_sla srv d).1 ≡ some (breached_at srv t)))
          ⊎ (¬ IsLate srv t × (find_ticket k (scan_sla srv d).1 ≡ some t)))
        × (scan_sla srv (scan_sla srv d).1 ≡ (ok 0, (scan_sla srv d).1))
  scan_sla-swept k t d found =
      let (evs, done) = scan_sla-tables d in
      rw done (
        swept_row k t d found,
        scan_sla-idle (record d { tickets = swept d.tickets; ticket_events = evs })
            (none_left d.tickets),
      )
