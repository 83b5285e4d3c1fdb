-- ===== src/Invoices/Issued.antt =====
-- One customer's billing round: a period is billed once.
use isp_cms_be.Prelude.{
  ℕ, ℤ, pos, ◌+ℤ◌, ◌≤ℤ◌, min_ℤ_le, String, Bool, true, false, none, some, List, [], ◌∷◌, ◌≡◌, refl,
  ◌∙◌, arith,
}
use isp_cms_be.Prelude.Table.{find}
use isp_cms_be.Store.Rows.{Invoice, SlaCredit}
use isp_cms_be.Store.Monad.{Db, Server, ok, transaction}
use isp_cms_be.Store.Statements.{update_customers}
use isp_cms_be.SlaCredits.{find_pending_by_customer, mark_applied_with_invoice}
use isp_cms_be.Invoices.{refresh_outstanding_tx}
use isp_cms_be.Invoices.Billing.{
  NewInvoice, exists_for_period, invoice_row, insert_invoice, create_billed, resolve_sla_discount,
  bill_customer,
}

mark_applied-invoices :
    (srv : Server) (ids : List ℕ) (invoice_id : ℕ) (db : Db)
    → (n : ℕ) × (d : Db) × (mark_applied_with_invoice srv ids invoice_id db ≡ (ok n, d))
      × (d.invoices ≡ db.invoices)
unfolding mark_applied_with_invoice
mark_applied-invoices srv [] invoice_id db = (_, _, refl, refl)
mark_applied-invoices srv (id ∷ ids) invoice_id db = (_, _, refl, refl)

refresh-invoices :
    (srv : Server) (customer_id : ℕ) (db : Db)
    → (b : Bool) × (d : Db) × (refresh_outstanding_tx srv customer_id db ≡ (ok b, d))
      × (d.invoices ≡ db.invoices)
unfolding refresh_outstanding_tx update_customers
refresh-invoices srv customer_id db = (_, _, refl, refl)

create_billed-free :
    (srv : Server) (input : NewInvoice) (ids : List ℕ) (db : Db)
    → exists_for_period input.customer_id input.period_start db ≡ false
    → (d : Db) × (create_billed srv input ids db ≡ (ok (invoice_row srv input), d))
      × (d.invoices ≡ invoice_row srv input ∷ db.invoices)
unfolding create_billed insert_invoice transaction
create_billed-free srv input ids db free =
    let added = record db { invoices = invoice_row srv input ∷ db.invoices } in
    let (n, d, marked, kept) = mark_applied-invoices srv ids srv.key added in
    let (b, d', refreshed, kept') = refresh-invoices srv input.customer_id d in
    (d', ground arith, kept' ∙ kept)

row_bills :
    (srv : Server) (input : NewInvoice) (db d : Db)
    → d.invoices ≡ invoice_row srv input ∷ db.invoices
    → exists_for_period input.customer_id input.period_start d ≡ true
unfolding exists_for_period find
row_bills srv input db d e = ground arith

discount_bound :
    (customer_id : ℕ) (gross : ℤ) (db : Db) (pending : List SlaCredit)
    → find_pending_by_customer customer_id db ≡ pending
    → pos 0 ≤ℤ gross
    → (resolve_sla_discount customer_id gross db).discount_amount ≤ℤ gross
unfolding resolve_sla_discount
discount_bound customer_id gross db [] e nonneg = rw (e, resolve_sla_discount) nonneg
discount_bound customer_id gross db (c ∷ cs) e nonneg =
    rw (e, resolve_sla_discount) ((min_ℤ_le _ gross).1)

module _ (ppn : ℤ → ℤ) (customer_id : ℕ) (name : String) (price : ℤ)
    (period_start period_end due_date : ℕ) where
  -- The invoice that a round makes.
  abbrev pub billing : ℤ → NewInvoice
  billing discount = record {
    customer_id = customer_id;
    customer_name = name;
    period_start = period_start;
    period_end = period_end;
    due_date = due_date;
    amount = price;
    tax_amount = ppn price;
    discount_amount = discount;
  }

  abbrev pub gross : ℤ
  gross = price +ℤ ppn price

  billed_stops :
      (srv : Server) (d : Db)
      → exists_for_period customer_id period_start d ≡ true
      → bill_customer srv ppn customer_id name price period_start period_end due_date d
        ≡ (ok none, d)
  unfolding bill_customer
  billed_stops srv d billed = ground arith

  -- When the gross total is not negative and the customer has no regular invoice for the period, a
  -- billing round adds exactly one invoice, whose discount is at most the gross total, and a second
  -- round for the period adds none and changes no table.
  pub bill_customer-once :
      (srv srv' : Server) (db : Db)
      → pos 0 ≤ℤ gross
      → exists_for_period customer_id period_start db ≡ false
      → (inv : Invoice) × (d : Db) × (bill_customer srv ppn customer_id name price period_start
            period_end due_date db
          ≡ (ok (some inv), d))
        × (d.invoices ≡ inv ∷ db.invoices)
        × (inv.discount_amount ≤ℤ gross)
        × (bill_customer srv' ppn customer_id name price period_start period_end due_date d
            ≡ (ok none, d))
  unfolding bill_customer
  bill_customer-once srv srv' db nonneg free =
      let off = resolve_sla_discount customer_id gross db in
      let (d, done, rows) =
        create_billed-free srv (billing off.discount_amount) off.credit_ids db free in
      (
        invoice_row srv (billing off.discount_amount),
        d,
        ground arith,
        rows,
        discount_bound customer_id gross db (find_pending_by_customer customer_id db) refl nonneg,
        billed_stops srv' d (row_bills srv (billing off.discount_amount) db d rows),
      )
