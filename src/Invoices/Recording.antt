-- ===== src/Invoices/Recording.antt =====
-- `recordPayment`: which rows a payment moves, on every branch.
use isp_cms_be.Prelude.{
  ℕ, ℤ, ◌-ℤ◌, ltb_ℤ, Bool, true, false, some, List, ◌∷◌, if◌then◌else◌, ◌≡◌, inl, inr, Bool-cases,
  Option-cases,
}
use isp_cms_be.Prelude.Table.{update_where}
use isp_cms_be.Store.Rows.{Invoice, Customer, CustomerStatus}
use isp_cms_be.Store.Monad.{Db, Server, Result, ok, err, Exception, conflict, transaction}
use isp_cms_be.Store.Statements.{invoice_at, customer_at, find_invoice, find_customer}
use isp_cms_be.Balance.{invoice_total, is_paid, sum_unpaid_by_customer}
use isp_cms_be.Invoices.{
  PaymentInput, payment_row, set_payment, reactivates, record_payment, record_payment_locked,
}

-- The customer row after the recomputation.
abbrev pub refreshed : Server → ℕ → ℤ → Bool → Customer → Customer
refreshed srv customer_id owed reactivate c = record c {
  outstanding = owed;
  status = if reactivate then CustomerStatus.aktif else c.status;
  updated_at = srv.now;
}

module _ (srv : Server) (id : ℕ) (input : PaymentInput) (db : Db) where
  -- The tables after a payment that goes through on the row `inv`.
  abbrev pub recorded_invoices : Invoice → List Invoice
  recorded_invoices inv =
      update_where (invoice_at id) (set_payment srv input.amount inv) db.invoices

  abbrev pub recorded_owed : Invoice → ℤ
  recorded_owed inv = sum_unpaid_by_customer inv.customer_id (recorded_invoices inv)

  abbrev pub recorded_reactivates : Invoice → Bool
  recorded_reactivates inv = reactivates (find_customer inv.customer_id db) (recorded_owed inv)

  abbrev pub recorded : Invoice → Db
  recorded inv = record db {
    invoices = recorded_invoices inv;
    payments = payment_row srv input inv ∷ db.payments;
    customers =
        update_where (customer_at inv.customer_id)
          (refreshed srv inv.customer_id (recorded_owed inv) (recorded_reactivates inv))
          db.customers;
  }

  pub locked_over :
      (inv : Invoice)
      → ltb_ℤ (invoice_total inv -ℤ inv.paid_amount) input.amount ≡ true
      → (e : Exception) × (record_payment_locked srv id input inv db ≡ (err e, db))
  unfolding record_payment_locked
  locked_over inv h = (conflict "Saldo tagihan sudah berubah — muat ulang lalu coba lagi", rw h)

  pub locked_admitted :
      (inv : Invoice)
      → find_invoice id db ≡ some inv
      → ltb_ℤ (invoice_total inv -ℤ inv.paid_amount) input.amount ≡ false
      → record_payment_locked srv id input inv db
        ≡ (ok (set_payment srv input.amount inv inv, recorded_reactivates inv), recorded inv)
  unfolding record_payment_locked
  locked_admitted inv found h = rw (h, found)

  -- A property of the outcome holds if it holds of the outcomes that there are.
  pub record_payment_cases {ℓ} :
      (P : Result (Invoice × Bool) × Db → Type ℓ)
      → ((e : Exception) → P (err e, db))
      → ((inv : Invoice)
          → find_invoice id db ≡ some inv
          → is_paid inv.status ≡ true
          → P (ok (inv, false), db))
      → ((inv : Invoice)
          → find_invoice id db ≡ some inv
          → is_paid inv.status ≡ false
          → ltb_ℤ (invoice_total inv -ℤ inv.paid_amount) input.amount ≡ false
          → P (ok (set_payment srv input.amount inv inv, recorded_reactivates inv), recorded inv))
      → P (record_payment srv id input db)
  unfolding record_payment transaction
  record_payment_cases P failed settled applied = elim (Option-cases (find_invoice id db)) [
    | inl missing ↦ rw (missing, record_payment) (failed _)
    | inr (inv, found) ↦ elim (Bool-cases (is_paid inv.status)) [
      | inl done ↦ rw (found, done, record_payment) (settled inv found done)
      | inr owing ↦ elim (Bool-cases (ltb_ℤ (invoice_total inv -ℤ inv.paid_amount) input.amount)) [
        | inl over ↦ rw (found, owing, (locked_over inv over).1, record_payment) (failed _)
        | inr fits ↦
            rw (found, owing, locked_admitted inv found fits, record_payment)
              (applied inv found owing fits)
      ]
    ]
  ]

  -- An amount within the balance is recorded.
  pub record_payment_applied :
      (inv : Invoice)
      → find_invoice id db ≡ some inv
      → is_paid inv.status ≡ false
      → ltb_ℤ (invoice_total inv -ℤ inv.paid_amount) input.amount ≡ false
      → record_payment srv id input db
        ≡ (ok (set_payment srv input.amount inv inv, recorded_reactivates inv), recorded inv)
  unfolding record_payment transaction
  record_payment_applied inv found owing fits =
      rw (found, owing, locked_admitted inv found fits, record_payment)
