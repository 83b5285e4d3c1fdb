-- ===== src/Balance/Laws.antt =====
-- The accounting invariant of an invoice row.
use isp_cms_be.Prelude.{ℤ, ◌≤ℤ◌, ◌≡◌, List}
use isp_cms_be.Prelude.Table.{All}
use isp_cms_be.Store.Rows.{Invoice, InvoiceStatus}
use isp_cms_be.Balance.{invoice_total}

-- A paid invoice has received exactly its total, any other at most its total.
abbrev pub Accounted : InvoiceStatus → ℤ → ℤ → Type 0
Accounted InvoiceStatus.paid total received = received ≡ total
Accounted InvoiceStatus.draft total received = received ≤ℤ total
Accounted InvoiceStatus.pending total received = received ≤ℤ total
Accounted InvoiceStatus.partial total received = received ≤ℤ total
Accounted InvoiceStatus.overdue total received = received ≤ℤ total

abbrev pub IsAccounted : Invoice → Type 0
IsAccounted inv = Accounted inv.status (invoice_total inv) inv.paid_amount

abbrev pub AllAccounted : List Invoice → Type 0
AllAccounted = All IsAccounted
