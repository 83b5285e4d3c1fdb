-- ===== src/Invoices/Automation.antt =====
-- The statements of the billing automation (invoices.repository.ts): the overdue transition, the
-- reminders, and who is to be dunned or suspended.
use isp_cms_be.Prelude.{ℕ, ◌+◌, ℤ, Bool, true, false, ◌&&◌, some, List, [], ◌∷◌, map, ltb, leb}
use isp_cms_be.Prelude.Table.{update_where, select_where, count_where, in_array}
use isp_cms_be.Store.Rows.{Invoice, InvoiceStatus}
use isp_cms_be.Store.Monad.{Db, Server, Action, ok, pure}
use isp_cms_be.Balance.{is_unpaid, is_not_yet_overdue, is_overdue}

-- an update whose `rowCount` is the result
unfoldable pub update_counted : (Invoice → Bool) → (Invoice → Invoice) → Action ℕ
update_counted p f db =
    (ok (count_where p db.invoices), record db { invoices = update_where p f db.invoices })

abbrev pub past_due : Server → Invoice → Bool
past_due srv inv = is_not_yet_overdue inv.status && ltb inv.due_date srv.today

-- `markOverduePastDue`
unfoldable pub mark_overdue_past_due : Server → ℤ → Action ℕ
unfolding update_counted
mark_overdue_past_due srv late_fee = update_counted (past_due srv) (λ inv. record inv {
  status = InvoiceStatus.overdue;
  late_fee = late_fee;
  updated_at = srv.now;
})

abbrev pub reminded : Server → Invoice → Invoice
reminded srv inv = record inv { last_reminded_at = some srv.now; updated_at = srv.now }

abbrev pub due_soon : Server → ℕ → Invoice → Bool
due_soon srv days inv = is_not_yet_overdue inv.status && leb inv.due_date (srv.today + days)

-- `markRemindedOverdue`
unfoldable pub mark_reminded_overdue : Server → Action ℕ
unfolding update_counted
mark_reminded_overdue srv = update_counted (λ inv. is_overdue inv.status) (reminded srv)

-- `markRemindedDueSoon`
unfoldable pub mark_reminded_due_soon : Server → ℕ → Action ℕ
unfolding update_counted
mark_reminded_due_soon srv days = update_counted (due_soon srv days) (reminded srv)

-- `markRemindedByIds`
unfoldable pub mark_reminded_by_ids : Server → List ℕ → Action ℕ
unfolding update_counted
mark_reminded_by_ids srv [] = pure 0
mark_reminded_by_ids srv (id ∷ ids) =
    update_counted (λ inv. in_array (id ∷ ids) inv.id && is_unpaid inv.status) (reminded srv)

-- `countPendingDueSoon`
unfoldable pub count_pending_due_soon : Server → ℕ → Db → ℕ
count_pending_due_soon srv days db = count_where (due_soon srv days) db.invoices

-- `countOverdueAll`
unfoldable pub count_overdue_all : Db → ℕ
count_overdue_all db = count_where (λ (inv : Invoice). is_overdue inv.status) db.invoices

abbrev pub past_grace : Server → ℕ → Invoice → Bool
past_grace srv grace inv = is_overdue inv.status && ltb (inv.due_date + grace) srv.today

-- `selectDistinct`: each value once, at its last row
unfoldable pub distinct : List ℕ → List ℕ
distinct [] = []
distinct (k ∷ ks) =
    let rest = distinct ks in elim (in_array ks k) [ true ↦ rest | false ↦ k ∷ rest ]

-- `customerIdsWithOverdue`
unfoldable pub customer_ids_with_overdue : Db → List ℕ
unfolding distinct
customer_ids_with_overdue db = distinct (
    map (λ (inv : Invoice). inv.customer_id)
      (select_where (λ (inv : Invoice). is_overdue inv.status) db.invoices))

-- `customerIdsIsolirEligible`
unfoldable pub customer_ids_isolir_eligible : Server → ℕ → Db → List ℕ
unfolding distinct
customer_ids_isolir_eligible srv grace db =
    distinct
      (map (λ (inv : Invoice). inv.customer_id) (select_where (past_grace srv grace) db.invoices))
