-- ===== src/Customers/Proration.antt =====
-- The proration of a change of plan (`applyDeltaTx`): a charge or a credit.
use isp_cms_be.Prelude.{
  ℕ, ℤ, pos, ◌+ℤ◌, ◌≤ℤ◌, ◌⊎◌, none, List, ◌∷◌, int_laws, not_ltb_ℤ, ◌-ℤ◌, ltb_ℤ, String, true, some,
  ◌≡◌, refl, inl, inr, arith, Bool-cases, Option-cases,
}
use isp_cms_be.Prelude.Table.{update_where, sum_where}
use isp_cms_be.Store.Rows.{Customer, Invoice, SlaCredit, SlaCreditStatus}
use isp_cms_be.Store.Monad.{Db, Server, ok}
use isp_cms_be.Store.Statements.{
  invoice_at, customer_at, store_outstanding, update_customers, update_invoices,
}
use isp_cms_be.Balance.{owed_by, balance_of, invoice_total, sum_unpaid_by_customer}
use isp_cms_be.Prelude.Table.Order.{first-order_select}
use isp_cms_be.Invoices.Books.{UniqueInvoices}
use isp_cms_be.SlaCredits.Applying.{discounted-owed, chosen_inv}
use isp_cms_be.SlaCredits.{create, oldest_unpaid, absorbing, with_discount}
use isp_cms_be.Customers.PlanChange.{adjustment_row, apply_credit_tx, apply_delta_tx}

charge_raises :
    (delta total : ℤ) → delta +ℤ pos 0 +ℤ pos 0 -ℤ pos 0 -ℤ pos 0 +ℤ total ≡ total +ℤ delta
charge_raises delta total = grind int_laws

refund_lowers :
    (after before delta : ℤ) → after +ℤ (pos 0 -ℤ delta) ≡ before → after ≡ before +ℤ delta
refund_lowers after before delta e = grind int_laws

positive : (delta : ℤ) → ltb_ℤ (pos 0) delta ≡ true → pos 0 ≤ℤ delta
positive delta h = ground arith

-- A price that rises is charged on a new invoice. One that falls is taken off the oldest unpaid
-- invoice in full, where that can take it, and is granted as a pending credit otherwise.
abbrev pub IsProrated : ℕ → ℤ → Db → Db → Type 0
IsProrated id delta d e =
    ((pos 0 ≤ℤ delta)
      × ((row : Invoice) × ((row.amount ≡ delta)
            × (row.customer_id ≡ id)
            × (e.invoices ≡ row ∷ d.invoices)))
      × (sum_unpaid_by_customer id e.invoices ≡ sum_unpaid_by_customer id d.invoices +ℤ delta)
      × (e.sla_credits ≡ d.sla_credits))
    ⊎ (((delta ≤ℤ pos 0)
          × ((inv : Invoice) × (absorbing (oldest_unpaid id d) (pos 0 -ℤ delta) ≡ some inv))
          × (sum_unpaid_by_customer id e.invoices ≡ sum_unpaid_by_customer id d.invoices +ℤ delta)
          × (e.sla_credits ≡ d.sla_credits))
        ⊎ ((delta ≤ℤ pos 0)
            × (absorbing (oldest_unpaid id d) (pos 0 -ℤ delta) ≡ none)
            × (e.invoices ≡ d.invoices)
            × ((credit : SlaCredit) × ((credit.amount ≡ pos 0 -ℤ delta)
                  × (credit.customer_id ≡ some id)
                  × (credit.status ≡ SlaCreditStatus.pending)
                  × (e.sla_credits ≡ credit ∷ d.sla_credits)))))

module _ (srv : Server) (id : ℕ) where
  abbrev pub balanced : Db → Customer → Customer
  balanced d c = record c {
    outstanding = sum_unpaid_by_customer id d.invoices;
    updated_at = srv.now;
  }

  abbrev granted : String → ℤ → String → SlaCredit
  granted name amount reason = record {
    id = srv.key;
    customer_id = some id;
    customer_name = name;
    amount = amount;
    reason = reason;
    ticket_id = none;
    ticket_code = none;
    status = SlaCreditStatus.pending;
    applied_invoice_id = none;
    applied_at = none;
    created_at = srv.now;
    updated_at = srv.now;
  }

  charged-owed :
      (name remark : String) (delta : ℤ) (due_days : ℕ) (rows : List Invoice)
      → sum_unpaid_by_customer id (adjustment_row srv id name remark delta due_days ∷ rows)
        ≡ sum_unpaid_by_customer id rows +ℤ delta
  unfolding sum_unpaid_by_customer sum_where balance_of invoice_total
  charged-owed name remark delta due_days rows =
      let own : owed_by id (adjustment_row srv id name remark delta due_days) ≡ true =
        ground arith in
      rw own (charge_raises delta _)

  refunded-owed :
      (delta : ℤ) (inv : Invoice) (d : Db)
      → UniqueInvoices d
      → absorbing (oldest_unpaid id d) (pos 0 -ℤ delta) ≡ some inv
      → sum_unpaid_by_customer id
          (update_where (invoice_at inv.id) (with_discount srv (pos 0 -ℤ delta)) d.invoices)
        ≡ sum_unpaid_by_customer id d.invoices +ℤ delta
  refunded-owed delta inv d u taken =
      let (oldest, fits) = chosen_inv srv id id d (oldest_unpaid id d) (pos 0 -ℤ delta) inv taken in
      let (owed, here) =
        first-order_select (λ (r : Invoice). r.id) (λ r. r.due_date) (owed_by id) d.invoices u
          oldest in
      let fallen = discounted-owed srv id id d (pos 0 -ℤ delta) inv u here owed in
      refund_lowers _ _ delta fallen

  -- Charge or credit, the step succeeds, and it ends with the recomputation.
  pub apply_delta_tx-tables :
      (delta : ℤ) (name remark : String) (due_days : ℕ) (d : Db)
      → (e : Db) × (apply_delta_tx srv id delta name remark due_days d ≡ (ok tt, e))
        × (e.customers ≡ update_where (customer_at id) (balanced e) d.customers)
        × (UniqueInvoices d → IsProrated id delta d e)
  unfolding apply_delta_tx apply_credit_tx store_outstanding update_customers update_invoices create
  apply_delta_tx-tables delta name remark due_days d = elim (Bool-cases (ltb_ℤ (pos 0) delta)) [
    | inl charge ↦ (
      (apply_delta_tx srv id delta name remark due_days d).1,
      ground arith,
      ground arith,
      λ u. inl (
        positive delta charge,
        (adjustment_row srv id name remark delta due_days, (refl, refl, ground arith)),
        let rows : (apply_delta_tx srv id delta name remark due_days d).1.invoices
                ≡ adjustment_row srv id name remark delta due_days ∷ d.invoices =
              ground arith in
            rw rows (charged-owed name remark delta due_days d.invoices),
        ground arith,
      ),
    )
    | inr refund ↦
        let falls : delta ≤ℤ pos 0 = not_ltb_ℤ (pos 0) delta refund in
        elim (Option-cases (absorbing (oldest_unpaid id d) (pos 0 -ℤ delta))) [
          | inl deferred ↦ (
            (apply_delta_tx srv id delta name remark due_days d).1,
            ground arith,
            ground arith,
            λ u. inr (
                inr (
                  falls,
                  deferred,
                  ground arith,
                  (granted name (pos 0 -ℤ delta) remark, (refl, refl, refl, ground arith)),
                )),
          )
          | inr (inv, taken) ↦ (
            (apply_delta_tx srv id delta name remark due_days d).1,
            ground arith,
            ground arith,
            λ u. inr (
                inl (
                  falls,
                  (inv, taken),
                  let rows : (apply_delta_tx srv id delta name remark due_days d).1.invoices
                          ≡ update_where (invoice_at inv.id) (with_discount srv (pos 0 -ℤ delta))
                              d.invoices =
                        ground arith in
                      rw rows (refunded-owed delta inv d u taken),
                  ground arith,
                )),
          )
        ]
  ]
