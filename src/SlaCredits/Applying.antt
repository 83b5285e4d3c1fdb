-- ===== src/SlaCredits/Applying.antt =====
-- `applyWithInvoiceCredit`: a credit is taken off one invoice in full, or not at all.
use isp_cms_be.Prelude.{
  ℕ, ℤ, ◌+ℤ◌, ◌-ℤ◌, ltb_ℤ, true, false, Option, some, List, ◌≡◌, arith, int_laws,
}
use isp_cms_be.Prelude.Table.{find, update_where}
use isp_cms_be.Prelude.Table.Laws.{sum-update_key}
use isp_cms_be.Store.Rows.{Invoice}
use isp_cms_be.Store.Monad.{Db, Server}
use isp_cms_be.Store.Statements.{invoice_at}
use isp_cms_be.Balance.{invoice_total, balance_of, owed_by, sum_unpaid_by_customer}
use isp_cms_be.Invoices.Books.{UniqueInvoices}
use isp_cms_be.SlaCredits.{absorbing, with_discount}

lowered :
    (after before amount late_fee tax discount held credit : ℤ)
    → after +ℤ (amount +ℤ late_fee +ℤ tax -ℤ discount -ℤ held)
      ≡ before +ℤ (amount +ℤ late_fee +ℤ tax -ℤ (discount +ℤ credit) -ℤ held)
    → after +ℤ credit ≡ before
lowered after before amount late_fee tax discount held credit e = grind int_laws

module _ (srv : Server) (id customer_id : ℕ) (db : Db) where
  abbrev pub discounted : ℤ → Invoice → List Invoice
  discounted amount inv = update_where (invoice_at inv.id) (with_discount srv amount) db.invoices

  -- What the customer owes falls by the discount.
  pub discounted-owed :
      (amount : ℤ) (inv : Invoice)
      → UniqueInvoices db
      → find (invoice_at inv.id) db.invoices ≡ some inv
      → owed_by customer_id inv ≡ true
      → sum_unpaid_by_customer customer_id (discounted amount inv) +ℤ amount
        ≡ sum_unpaid_by_customer customer_id db.invoices
  unfolding sum_unpaid_by_customer balance_of invoice_total
  discounted-owed amount inv u found owed =
      let moved =
        sum-update_key (λ (r : Invoice). r.id) (owed_by customer_id) balance_of inv.id
          (with_discount srv amount) db.invoices u found in
      lowered _ _ _ _ _ _ _ _ (rw owed at moved)

  pub chosen_inv :
      (o : Option Invoice) (amount : ℤ) (inv : Invoice)
      → absorbing o amount ≡ some inv
      → (o ≡ some inv) × (ltb_ℤ (balance_of inv) amount ≡ false)
  chosen_inv o amount inv e = (ground arith, ground arith)
