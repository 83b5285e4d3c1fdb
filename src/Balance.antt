-- ===== src/Balance.antt =====
-- What an invoice still owes: the total and the balance that every money path of src/modules
-- computes, the unpaid statuses, and a customer's sum (invoices.repository.ts,
-- invoices.service.ts).
pub mod Laws
use isp_cms_be.Prelude.{ℕ, ℤ, pos, ◌+ℤ◌, ◌-ℤ◌, max_ℤ, Bool, true, false, List, ◌&&◌, ◌==◌}
use isp_cms_be.Prelude.Table.{sum_where}
use isp_cms_be.Store.Rows.{Invoice, InvoiceStatus}

-- `invoiceTotal`
unfoldable pub invoice_total : Invoice → ℤ
invoice_total inv = inv.amount +ℤ inv.late_fee +ℤ inv.tax_amount -ℤ inv.discount_amount

-- `total - invoice.paidAmount`
unfoldable pub balance_of : Invoice → ℤ
balance_of inv = invoice_total inv -ℤ inv.paid_amount

-- The `balanceDue` of `toInvoiceResponse`: never below zero.
unfoldable pub balance_due : Invoice → ℤ
balance_due inv = max_ℤ (pos 0) (invoice_total inv -ℤ inv.paid_amount)

-- UNPAID_STATUSES
abbrev pub is_unpaid : InvoiceStatus → Bool
is_unpaid InvoiceStatus.pending = true
is_unpaid InvoiceStatus.partial = true
is_unpaid InvoiceStatus.overdue = true
is_unpaid InvoiceStatus.draft = false
is_unpaid InvoiceStatus.paid = false

-- NOT_YET_OVERDUE_STATUSES
abbrev pub is_not_yet_overdue : InvoiceStatus → Bool
is_not_yet_overdue InvoiceStatus.pending = true
is_not_yet_overdue InvoiceStatus.partial = true
is_not_yet_overdue InvoiceStatus.draft = false
is_not_yet_overdue InvoiceStatus.overdue = false
is_not_yet_overdue InvoiceStatus.paid = false

abbrev pub is_paid : InvoiceStatus → Bool
is_paid InvoiceStatus.paid = true
is_paid InvoiceStatus.draft = false
is_paid InvoiceStatus.pending = false
is_paid InvoiceStatus.partial = false
is_paid InvoiceStatus.overdue = false

abbrev pub is_overdue : InvoiceStatus → Bool
is_overdue InvoiceStatus.overdue = true
is_overdue InvoiceStatus.draft = false
is_overdue InvoiceStatus.pending = false
is_overdue InvoiceStatus.partial = false
is_overdue InvoiceStatus.paid = false

-- The filter of the queries on a customer's unpaid invoices.
abbrev pub owed_by : ℕ → Invoice → Bool
owed_by customer_id inv = inv.customer_id == customer_id && is_unpaid inv.status

-- `sumUnpaidByCustomer`
unfoldable pub sum_unpaid_by_customer : ℕ → List Invoice → ℤ
sum_unpaid_by_customer customer_id invoices = sum_where (owed_by customer_id) balance_of invoices
