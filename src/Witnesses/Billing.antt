-- ===== src/Witnesses/Billing.antt =====
-- Runs of the billing theorems.
use isp_cms_be.Prelude.{pos, ◌≤ℤ◌, false, none, some, ◌∷◌, ◌≡◌, refl, arith, ◌⊎◌}
use isp_cms_be.Prelude.Int.{◌+ℤ◌, ◌-ℤ◌}
use isp_cms_be.Prelude.Table.{find, update_where, sum_where}
use isp_cms_be.Store.Rows.{Customer, Invoice, InvoiceStatus, PaymentMethod}
use isp_cms_be.Store.Monad.{Db, ok, transaction}
use isp_cms_be.Store.Statements.{update_invoices, insert_payment, update_customers, find_invoice}
use isp_cms_be.Balance.{invoice_total, balance_of, sum_unpaid_by_customer}
use isp_cms_be.Balance.Laws.{AllAccounted}
use isp_cms_be.Invoices.{
  PaymentInput, record_payment, record_payment_locked, refresh_outstanding_tx,
}
use isp_cms_be.Invoices.Books.{
  received, ledger, UniqueInvoices, record_payment-ledger, record_payment-AllAccounted,
  record_payment-outstanding,
}
use isp_cms_be.Invoices.Recording.{recorded}
use isp_cms_be.Invoices.Automation.{mark_overdue_past_due}
use isp_cms_be.Invoices.Overdue.{IsLapsed, late, mark_overdue_past_due-exact}
use isp_cms_be.Witnesses.Sample.{second_invoice, server, db, first_invoice, transfer_of, customer}
use isp_cms_be.Invoices.Billing.{bill_customer, exists_for_period}
use isp_cms_be.Invoices.Issued.{bill_customer-once}
use isp_cms_be.Payments.{PayInput, pay}
use isp_cms_be.Payments.Paying.{SameBooks, pay-stored}

pub unique_invoices : UniqueInvoices db
unfolding find
unique_invoices = (refl, (refl, (refl, tt)))

pub all_accounted : AllAccounted db.invoices
unfolding invoice_total ◌-ℤ◌ ◌+ℤ◌
all_accounted = (ground arith, (ground arith, (ground arith, tt)))

record_payment-ledger_example :
    let db' = (record_payment server 1 (transfer_of (pos 30)) db).1 in
    received db' +ℤ ledger db ≡ received db +ℤ ledger db'
record_payment-ledger_example =
    record_payment-ledger server 1 (transfer_of (pos 30)) db unique_invoices

record_payment-AllAccounted_example :
    AllAccounted (record_payment server 1 (transfer_of (pos 30)) db).1.invoices
record_payment-AllAccounted_example =
    record_payment-AllAccounted server 1 (transfer_of (pos 30)) db unique_invoices all_accounted

mark_overdue_past_due-exact_example :
    (IsLapsed server second_invoice
      × (find_invoice 2 (mark_overdue_past_due server (pos 5) db).1
          ≡ some (late server (pos 5) second_invoice)))
    ⊎ (¬ IsLapsed server second_invoice
        × (find_invoice 2 (mark_overdue_past_due server (pos 5) db).1 ≡ some second_invoice))
unfolding find
mark_overdue_past_due-exact_example =
    mark_overdue_past_due-exact server (pos 5) db 2 second_invoice refl

bill_customer-once_example :
    (inv : Invoice) × (d : Db) × (bill_customer server (λ p. pos 11) 1 "Budi" (pos 100) 40 70 50 db
      ≡ (ok (some inv), d))
    × (d.invoices ≡ inv ∷ db.invoices)
    × (inv.discount_amount ≤ℤ pos 111)
    × (bill_customer server (λ p. pos 11) 1 "Budi" (pos 100) 40 70 50 d ≡ (ok none, d))
unfolding exists_for_period find ◌+ℤ◌
bill_customer-once_example =
    bill_customer-once (λ p. pos 11) 1 "Budi" (pos 100) 40 70 50 server server db (ground arith)
      refl

abbrev cash : PayInput
cash = record {
  amount = some (pos 30);
  method = PaymentMethod.cash;
  tendered_amount = some (pos 50);
}

abbrev cash_payment : PaymentInput
cash_payment = record {
  amount = pos 30;
  method = PaymentMethod.cash;
  tendered_amount = some (pos 50);
  change_amount = some (pos 20);
}

pay-stored_example :
    SameBooks
      (recorded server 1 cash_payment db first_invoice)
      (pay (λ total pct. pos 1) server 1 cash db).1
unfolding find balance_of invoice_total ◌-ℤ◌ ◌+ℤ◌
pay-stored_example =
    pay-stored (λ total pct. pos 1) server 1 cash db first_invoice cash_payment refl refl refl refl
      refl

abbrev left_owing : Customer
left_owing = record customer { outstanding = pos 142; updated_at = 1000 }

abbrev partly_paid : Invoice
partly_paid = record first_invoice {
  paid_amount = pos 30;
  status = InvoiceStatus.partial;
  updated_at = 1000;
}

record_payment-outstanding_example :
    pos 142
    ≡ sum_unpaid_by_customer 1 (record_payment server 1 (transfer_of (pos 30)) db).1.invoices
unfolding find record_payment transaction record_payment_locked refresh_outstanding_tx
    update_invoices insert_payment update_customers sum_unpaid_by_customer sum_where balance_of
    invoice_total update_where ◌-ℤ◌ ◌+ℤ◌
record_payment-outstanding_example =
    record_payment-outstanding server 1 (transfer_of (pos 30)) db first_invoice partly_paid false
      left_owing refl refl refl refl
