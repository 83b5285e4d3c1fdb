-- ===== src/Store/Statements.antt =====
-- The statements that several repositories run: a row by its key, an update by a key with
-- `returning`, and the recomputation of a customer's outstanding balance.
use mathlib.Core.Option
use isp_cms_be.Prelude.{ℕ, Bool, Option, ◌∷◌, ◌==◌}
use isp_cms_be.Prelude.Table.{find, update_where}
use isp_cms_be.Store.Rows.{Invoice, Payment, Customer}
use isp_cms_be.Store.Monad.{Db, Server, Action, ok}
use isp_cms_be.Balance.{sum_unpaid_by_customer}

abbrev pub invoice_at : ℕ → Invoice → Bool
invoice_at k r = r.id == k

abbrev pub customer_at : ℕ → Customer → Bool
customer_at k r = r.id == k

abbrev pub find_invoice : ℕ → Db → Option Invoice
find_invoice k db = find (invoice_at k) db.invoices

abbrev pub find_customer : ℕ → Db → Option Customer
find_customer k db = find (customer_at k) db.customers

-- `update(invoices).set(f).where(p).returning()`, of which the code takes the first row
unfoldable pub update_invoices : (Invoice → Bool) → (Invoice → Invoice) → Action (Option Invoice)
update_invoices p f db =
    (ok (Option.map f (find p db.invoices)), record db { invoices = update_where p f db.invoices })

unfoldable pub insert_payment : Payment → Action (Unit {0})
insert_payment p db = (ok tt, record db { payments = p ∷ db.payments })

unfoldable pub update_customers : (Customer → Bool) → (Customer → Customer) → Action (Unit {0})
update_customers p f db = (ok tt, record db { customers = update_where p f db.customers })

-- `set({ outstanding, updatedAt })` with the sum over the customer's unpaid invoices, as
-- SlaCreditsRepository.refreshOutstandingTx and VouchersRepository.allocateToInvoices run it
unfoldable pub store_outstanding : Server → ℕ → Action (Unit {0})
unfolding update_customers
store_outstanding srv customer_id db =
    update_customers (customer_at customer_id)
      (λ c. record c {
        outstanding = sum_unpaid_by_customer customer_id db.invoices;
        updated_at = srv.now;
      })
      db
