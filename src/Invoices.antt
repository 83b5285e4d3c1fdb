-- ===== src/Invoices.antt =====
-- InvoicesRepository (src/modules/invoices/invoices.repository.ts): the statements that write
-- invoices and payments.
pub mod Recording
pub mod Books
pub mod Billing
pub mod Automation
pub mod Overdue
pub mod Issued
use isp_cms_be.Prelude.{
  ℕ, ℤ, pos, ◌+ℤ◌, ◌-ℤ◌, ltb_ℤ, leb_ℤ, eqb_ℤ, Bool, true, false, ◌&&◌, Option, none, some, List,
  ◌∷◌, ◌==◌, if◌then◌else◌,
}
use isp_cms_be.Prelude.Table.{find}
use isp_cms_be.Store.Rows.{
  Invoice, InvoiceStatus, Payment, PaymentMethod, PaymentSource, Customer, CustomerStatus,
}
use isp_cms_be.Store.Monad.{
  Db, Server, Action, Result, ok, err, Exception, not_found, conflict, pure, throw, gets, or_throw,
  throw_if, transaction, ◌>>=◌, ◌>>◌,
}
use isp_cms_be.Store.Statements.{
  invoice_at, customer_at, find_invoice, find_customer, update_invoices, insert_payment,
  update_customers,
}
use isp_cms_be.Balance.{invoice_total, balance_of, is_paid, sum_unpaid_by_customer}

-- `markPaid`
unfoldable pub mark_paid : Server → ℕ → Action Invoice
unfolding update_invoices
mark_paid srv id = do
  row ← update_invoices (invoice_at id) λ inv. record inv {
    status = InvoiceStatus.paid;
    paid_at = some srv.now;
    updated_at = srv.now;
  }
  or_throw row (not_found "invoice not found")

-- the `set` of `applyPayment` on the row before the update
abbrev pub with_payment : Server → ℤ → Invoice → Invoice
with_payment srv amount inv =
    let full = leb_ℤ (invoice_total inv) (inv.paid_amount +ℤ amount) in
    record inv {
      paid_amount = inv.paid_amount +ℤ amount;
      status = if full then InvoiceStatus.paid else InvoiceStatus.partial;
      paid_at = if full then some srv.now else inv.paid_at;
      updated_at = srv.now;
    }

-- the `where` of `applyPayment`: the balance admits the amount
abbrev pub admits : ℕ → ℤ → Invoice → Bool
admits id amount inv = inv.id == id && leb_ℤ (inv.paid_amount +ℤ amount) (invoice_total inv)

abbrev pub missed_payment : ℕ → Action Invoice
missed_payment id = do
  or_throw (← gets (find_invoice id)) (not_found "invoice not found")
  throw (conflict "Saldo tagihan sudah berubah — muat ulang lalu coba lagi")

-- `applyPayment`
unfoldable pub apply_payment : Server → ℕ → ℤ → Action Invoice
unfolding update_invoices
apply_payment srv id amount = do
  row ← update_invoices (admits id amount) (with_payment srv amount)
  elim row [ some inv ↦ pure inv | none ↦ missed_payment id ]

-- `customerRow?.status === 'isolir'`
abbrev pub is_isolir : Option Customer → Bool
is_isolir none = false
is_isolir (some c) = elim c.status [ CustomerStatus.isolir ↦ true | _ ↦ false ]

-- `customerRow?.status === 'isolir' && outstanding === 0`
abbrev pub reactivates : Option Customer → ℤ → Bool
reactivates row outstanding = is_isolir row && eqb_ℤ outstanding (pos 0)

-- `refreshOutstandingTx`: whether the customer was reactivated
unfoldable pub refresh_outstanding_tx : Server → ℕ → Action Bool
unfolding update_customers
refresh_outstanding_tx srv customer_id = do
  outstanding ← gets (λ db. sum_unpaid_by_customer customer_id db.invoices)
  row ← gets (find_customer customer_id)
  let reactivate = reactivates row outstanding
  update_customers (customer_at customer_id) λ c. record c {
    outstanding = outstanding;
    status = if reactivate then CustomerStatus.aktif else c.status;
    updated_at = srv.now;
  }
  pure reactivate

pub record PaymentInput : Type 0 where
  pub amount : ℤ
  pub method : PaymentMethod
  pub tendered_amount : Option ℤ
  pub change_amount : Option ℤ

-- the ledger row of `recordPayment`
abbrev pub payment_row : Server → PaymentInput → Invoice → Payment
payment_row srv input inv = record {
  id = srv.key;
  invoice_id = some inv.id;
  invoice_no = some inv.invoice_no;
  customer_id = some inv.customer_id;
  customer_name = some inv.customer_name;
  amount = input.amount;
  method = input.method;
  source = PaymentSource.invoice;
  voucher_id = none;
  tendered_amount = input.tendered_amount;
  change_amount = input.change_amount;
  paid_at = srv.now;
  created_at = srv.now;
}

-- the `set` of `recordPayment`, from the locked row `locked`
abbrev pub set_payment : Server → ℤ → Invoice → Invoice → Invoice
set_payment srv amount locked r =
    let paid = locked.paid_amount +ℤ amount in
    let full = leb_ℤ (invoice_total locked) paid in
    record r {
      paid_amount = paid;
      status = if full then InvoiceStatus.paid else InvoiceStatus.partial;
      paid_at = if full then some srv.now else locked.paid_at;
      updated_at = srv.now;
    }

-- `recordPayment` from the balance check on
unfoldable pub record_payment_locked : Server → ℕ → PaymentInput → Invoice → Action (Invoice × Bool)
unfolding update_invoices insert_payment refresh_outstanding_tx
record_payment_locked srv invoice_id input inv = do
  throw_if (ltb_ℤ (invoice_total inv -ℤ inv.paid_amount) input.amount)
      (conflict "Saldo tagihan sudah berubah — muat ulang lalu coba lagi")
  insert_payment (payment_row srv input inv)
  row ← update_invoices (invoice_at invoice_id) (set_payment srv input.amount inv)
  updated ← or_throw row (not_found "invoice not found")
  reactivated ← refresh_outstanding_tx srv inv.customer_id
  pure (updated, reactivated)

-- `recordPayment`
unfoldable pub record_payment : Server → ℕ → PaymentInput → Action (Invoice × Bool)
unfolding record_payment_locked transaction
record_payment srv invoice_id input = transaction do
  inv ← or_throw (← gets (find_invoice invoice_id)) (not_found "invoice not found")
  if is_paid inv.status then pure (inv, false) else record_payment_locked srv invoice_id input inv
