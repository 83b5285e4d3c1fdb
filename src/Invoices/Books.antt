-- ===== src/Invoices/Books.antt =====
-- What a recorded payment means for the books: the ledger, the invoices' balances, the customers'
-- outstanding column, and the rows that it must not touch.

use isp_cms_be.Prelude.{
  ℕ, ℤ, ◌+ℤ◌, ◌-ℤ◌, ltb_ℤ, Bool, true, false, some, ◌≡◌, refl, ap, ◌∙◌, int_laws,
}
use isp_cms_be.Prelude.Table.{sum_where, Unique}
use isp_cms_be.Prelude.Table.Laws.{
  find-update_ne, find-update_self_inv, All-update_key, sum-update_key,
}
use isp_cms_be.Store.Rows.{Invoice, Payment, Customer}
use isp_cms_be.Store.Monad.{Db, Server, ok}
use isp_cms_be.Store.Statements.{find_invoice, find_customer}
use isp_cms_be.Balance.{invoice_total, is_paid, sum_unpaid_by_customer}
use isp_cms_be.Balance.Laws.{IsAccounted, AllAccounted}
use isp_cms_be.Invoices.{PaymentInput, set_payment, record_payment}
use isp_cms_be.Invoices.Recording.{
  recorded_owed, recorded_reactivates, refreshed, record_payment_cases,
}

-- What the invoices have received, and what the payments ledger says was paid.
abbrev pub received : Db → ℤ
received db = sum_where (λ _. true) (λ (r : Invoice). r.paid_amount) db.invoices

abbrev pub ledger : Db → ℤ
ledger db = sum_where (λ _. true) (λ (r : Payment). r.amount) db.payments

-- The primary keys.
abbrev pub UniqueInvoices : Db → Type 0
UniqueInvoices db = Unique (λ (r : Invoice). r.id) db.invoices

set_payment-IsAccounted :
    (srv : Server) (amount : ℤ) (inv : Invoice)
    → ltb_ℤ (invoice_total inv -ℤ inv.paid_amount) amount ≡ false
    → IsAccounted (set_payment srv amount inv inv)
unfolding invoice_total
set_payment-IsAccounted srv amount inv fits = grind int_laws

module _ (srv : Server) (id : ℕ) (input : PaymentInput) (db : Db) where
  -- When the invoices' keys are unique, the sum of the payments and the sum of the invoices' paid
  -- amounts grow by the same amount in `recordPayment`, on every branch.
  pub record_payment-ledger :
      UniqueInvoices db
      → let db' = (record_payment srv id input db).1 in
        received db' +ℤ ledger db ≡ received db +ℤ ledger db'
  unfolding sum_where
  record_payment-ledger u =
      record_payment_cases srv id input db
        (λ r. received r.1 +ℤ ledger db ≡ received db +ℤ ledger r.1) (λ e. refl)
        (λ inv found done. refl)
        λ inv found owing fits. grind (
          int_laws,
          sum-update_key (λ (r : Invoice). r.id) (λ _. true) (λ r. r.paid_amount) id
              (set_payment srv input.amount inv) db.invoices u found,
        )

  -- When the invoices' keys are unique and every invoice has received at most its total, and
  -- exactly its total if it reads `paid`, the same holds after `recordPayment`, on every branch.
  pub record_payment-AllAccounted :
      UniqueInvoices db
      → AllAccounted db.invoices
      → AllAccounted (record_payment srv id input db).1.invoices
  record_payment-AllAccounted u h =
      record_payment_cases srv id input db (λ r. AllAccounted r.1.invoices) (λ e. h)
        (λ inv found done. h)
        λ inv found owing fits.
          All-update_key (λ (r : Invoice). r.id) IsAccounted id (set_payment srv input.amount inv)
            db.invoices u found (λ acc. set_payment-IsAccounted srv input.amount inv fits) h

  -- An invoice that is found under its key and reads `paid` is the same row after any
  -- `recordPayment`.
  pub record_payment-keeps_paid :
      (k : ℕ) (inv : Invoice)
      → find_invoice k db ≡ some inv
      → is_paid inv.status ≡ true
      → find_invoice k (record_payment srv id input db).1 ≡ some inv
  record_payment-keeps_paid k inv here done =
      record_payment_cases srv id input db (λ r. find_invoice k r.1 ≡ some inv) (λ e. here)
        (λ _ _ _. here)
        λ other found owing fits.
          find-update_ne (λ (r : Invoice). r.id) k id (set_payment srv input.amount other)
            db.invoices (λ r. refl) (λ e. cc (rw e at here))
          ∙ here

  -- When `recordPayment` succeeds on an invoice that is not paid, the outstanding amount of its
  -- customer afterwards is the sum of the balances of the customer's unpaid invoices afterwards.
  pub record_payment-outstanding :
      (inv updated : Invoice) (reactivated : Bool) (c : Customer)
      → find_invoice id db ≡ some inv
      → is_paid inv.status ≡ false
      → (record_payment srv id input db).0 ≡ ok (updated, reactivated)
      → find_customer inv.customer_id (record_payment srv id input db).1 ≡ some c
      → c.outstanding
        ≡ sum_unpaid_by_customer inv.customer_id (record_payment srv id input db).1.invoices
  record_payment-outstanding inv updated reactivated c here owing =
      record_payment_cases srv id input db
        (λ r.
          r.0 ≡ ok (updated, reactivated)
          → find_customer inv.customer_id r.1 ≡ some c
          → c.outstanding ≡ sum_unpaid_by_customer inv.customer_id r.1.invoices)
        (λ e bad. cc) (λ same found done. cc)
        λ other found _ fits result at.
          let same : inv ≡ other = cc in
          let (s, _, e) =
            find-update_self_inv (λ (r : Customer). r.id) other.customer_id
              (refreshed srv other.customer_id (recorded_owed srv id input db other)
                (recorded_reactivates srv id input db other))
              db.customers (λ r. refl) (rw same at at) in
          rw same (ap (λ (r : Customer). r.outstanding) e)
