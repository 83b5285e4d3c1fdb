-- ===== src/Invoices/Overdue.antt =====
-- The nightly overdue transition (`markOverduePastDue`): which invoices it may touch.
use isp_cms_be.Prelude.{
  ℕ, ◌<◌, ◌⊎◌, ℤ, ◌+ℤ◌, ◌-ℤ◌, ◌≤ℤ◌, true, false, some, List, [], ◌∷◌, ◌≡◌, refl, ap, ◌∙◌, inl, inr,
  arith, int_laws, Bool-cases,
}
use isp_cms_be.Prelude.Table.{update_where, All}
use isp_cms_be.Prelude.Table.Laws.{All-update_where, update_where-refused, find-update_where}
use isp_cms_be.Store.Rows.{Invoice, InvoiceStatus}
use isp_cms_be.Store.Monad.{Db, Server}
use isp_cms_be.Store.Statements.{invoice_at, find_invoice}
use isp_cms_be.Balance.{invoice_total, is_not_yet_overdue}
use isp_cms_be.Balance.Laws.{Accounted, IsAccounted}
use isp_cms_be.Invoices.Automation.{update_counted, past_due, mark_overdue_past_due}

abbrev pub late : Server → ℤ → Invoice → Invoice
late srv fee inv = record inv {
  status = InvoiceStatus.overdue;
  late_fee = fee;
  updated_at = srv.now;
}

-- The invoice is accounted for, and its fee is at most the one that the run sets.
abbrev pub IsWithinFee : ℤ → Invoice → Type 0
IsWithinFee fee inv = IsAccounted inv × (inv.late_fee ≤ℤ fee)

not_yet_Accounted :
    (s : InvoiceStatus) (total held : ℤ)
    → is_not_yet_overdue s ≡ true
    → Accounted s total held
    → held ≤ℤ total
not_yet_Accounted InvoiceStatus.pending total held h acc = acc
not_yet_Accounted InvoiceStatus.partial total held h acc = acc
not_yet_Accounted InvoiceStatus.draft total held h acc = absurd (ground arith)
not_yet_Accounted InvoiceStatus.overdue total held h acc = absurd (ground arith)
not_yet_Accounted InvoiceStatus.paid total held h acc = absurd (ground arith)

raised :
    (amount old new tax discount held : ℤ)
    → held ≤ℤ amount +ℤ old +ℤ tax -ℤ discount
    → old ≤ℤ new
    → held ≤ℤ amount +ℤ new +ℤ tax -ℤ discount
raised amount old new tax discount held h le = omega int_laws

late-IsWithinFee :
    (srv : Server) (fee : ℤ) (inv : Invoice)
    → IsWithinFee fee inv
    → past_due srv inv ≡ true
    → IsWithinFee fee (late srv fee inv)
unfolding invoice_total
late-IsWithinFee srv fee inv h due =
    (raised _ _ _ _ _ _ (not_yet_Accounted inv.status _ _ (ground arith) h.0) h.1, omega int_laws)

late_refused :
    (srv srv' : Server) (fee : ℤ) (rows : List Invoice)
    → srv'.today ≡ srv.today
    → All (λ r. past_due srv' r ≡ false) (update_where (past_due srv) (late srv fee) rows)
unfolding update_where
late_refused srv srv' fee [] same = tt
late_refused srv srv' fee (r ∷ rows) same = elim (Bool-cases (past_due srv r)) [
  | inl due ↦ rw due (refl, late_refused srv srv' fee rows same)
  | inr not_due ↦ rw not_due (ground arith, late_refused srv srv' fee rows same)
]

-- The invoice still waits for money, and its due date is over.
abbrev pub IsLapsed : Server → Invoice → Type 0
IsLapsed srv inv =
    ((inv.status ≡ InvoiceStatus.pending) ⊎ (inv.status ≡ InvoiceStatus.partial))
    × (inv.due_date < srv.today)

past_due-IsLapsed : (srv : Server) (inv : Invoice) → past_due srv inv ≡ true → IsLapsed srv inv
past_due-IsLapsed srv inv due = (waits inv.status (ground arith), ground arith)
  where
    waits :
        (s : InvoiceStatus)
        → is_not_yet_overdue s ≡ true
        → (s ≡ InvoiceStatus.pending) ⊎ (s ≡ InvoiceStatus.partial)
    waits InvoiceStatus.pending h = inl refl
    waits InvoiceStatus.partial h = inr refl
    waits InvoiceStatus.draft h = absurd (ground arith)
    waits InvoiceStatus.overdue h = absurd (ground arith)
    waits InvoiceStatus.paid h = absurd (ground arith)

IsLapsed-past_due : (srv : Server) (inv : Invoice) → IsLapsed srv inv → past_due srv inv ≡ true
IsLapsed-past_due srv inv (inl waits, over) = ground arith
IsLapsed-past_due srv inv (inr waits, over) = ground arith

module _ (srv : Server) (fee : ℤ) (db : Db) where
  -- When every invoice is accounted for and carries at most the fee that the run sets, the same
  -- holds after `markOverduePastDue`.
  pub mark_overdue_past_due-IsWithinFee :
      All (IsWithinFee fee) db.invoices
      → All (IsWithinFee fee) (mark_overdue_past_due srv fee db).1.invoices
  unfolding mark_overdue_past_due update_counted
  mark_overdue_past_due-IsWithinFee h =
      All-update_where (IsWithinFee fee) (past_due srv) (late srv fee) db.invoices
        (λ r both due. late-IsWithinFee srv fee r both due) h

  -- An invoice that is found under its key reads `overdue` and carries the fee of the run after
  -- `markOverduePastDue`, its other columns but the update time unchanged, when it reads `pending`
  -- or `partial` and its due date is before today, and is the same row otherwise.
  pub mark_overdue_past_due-exact :
      (k : ℕ) (inv : Invoice)
      → find_invoice k db ≡ some inv
      → let after = find_invoice k (mark_overdue_past_due srv fee db).1 in
        (IsLapsed srv inv × (after ≡ some (late srv fee inv)))
        ⊎ (¬ IsLapsed srv inv × (after ≡ some inv))
  unfolding mark_overdue_past_due update_counted
  mark_overdue_past_due-exact k inv found =
      let row =
        find-update_where (invoice_at k) (past_due srv) (late srv fee) db.invoices (λ _. refl) in
      elim (Bool-cases (past_due srv inv)) [
        | inl due ↦ inl (past_due-IsLapsed srv inv due, row ∙ rw (found, due) refl)
        | inr kept ↦ inr (
          λ h. absurd (let due = IsLapsed-past_due srv inv h in ground arith),
          row ∙ rw (found, kept) refl,
        )
      ]

  -- A second run of `markOverduePastDue` on the same day, with any fee, changes no table.
  pub mark_overdue_past_due-once :
      (srv' : Server) (fee' : ℤ)
      → srv'.today ≡ srv.today
      → (mark_overdue_past_due srv' fee' (mark_overdue_past_due srv fee db).1).1
        ≡ (mark_overdue_past_due srv fee db).1
  unfolding mark_overdue_past_due update_counted
  mark_overdue_past_due-once srv' fee' same =
      ap (λ (rows : List Invoice). record db { invoices = rows })
        (update_where-refused (past_due srv') (late srv' fee') _
          (late_refused srv srv' fee db.invoices same))
