-- ===== src/Invoices/Billing.antt =====
-- Issuing an invoice: `createBilled`, `existsForPeriod` (invoices.repository.ts) and
-- `resolveSlaDiscount`, `ppnOf` (invoices.service.ts).
use isp_cms_be.Prelude.{
  ℕ, ℤ, pos, ◌+ℤ◌, min_ℤ, String, Bool, true, false, ◌&&◌, Option, none, some, List, [], ◌∷◌, map,
  ◌==◌, if◌then◌else◌,
}
use isp_cms_be.Prelude.Table.{find}
use isp_cms_be.Store.Rows.{Invoice, InvoiceStatus, InvoiceType, SlaCredit}
use isp_cms_be.Store.Monad.{
  Db, Server, Action, internal, pure, gets, throw_if, transaction, modify, ◌>>=◌, ◌>>◌,
}
use isp_cms_be.SlaCredits.{find_pending_by_customer, mark_applied_with_invoice}
use isp_cms_be.Invoices.{refresh_outstanding_tx}

-- the columns of `NewInvoice` that a billing run sets
pub record NewInvoice : Type 0 where
  pub customer_id : ℕ
  pub customer_name : String
  pub period_start : ℕ
  pub period_end : ℕ
  pub due_date : ℕ
  pub amount : ℤ
  pub tax_amount : ℤ
  pub discount_amount : ℤ

abbrev pub is_regular : InvoiceType → Bool
is_regular InvoiceType.regular = true
is_regular InvoiceType.adjustment = false

-- A regular invoice of the customer for the period: the `where` of `existsForPeriod`, and the
-- columns of the partial unique index `invoices_customer_period_idx`.
abbrev pub bills_period : ℕ → ℕ → Invoice → Bool
bills_period customer_id period_start inv =
    inv.customer_id == customer_id && (inv.period_start == period_start && is_regular inv.type)

-- `existsForPeriod`
unfoldable pub exists_for_period : ℕ → ℕ → Db → Bool
exists_for_period customer_id period_start db =
    elim (find (bills_period customer_id period_start) db.invoices) [ none ↦ false | some _ ↦ true ]

-- the row that `insert(invoices).values(input)` makes, with the defaults of the columns
abbrev pub invoice_row : Server → NewInvoice → Invoice
invoice_row srv input = record {
  id = srv.key;
  invoice_no = srv.invoice_no;
  customer_id = input.customer_id;
  customer_name = input.customer_name;
  type = InvoiceType.regular;
  note = none;
  period_start = input.period_start;
  period_end = input.period_end;
  amount = input.amount;
  late_fee = pos 0;
  tax_amount = input.tax_amount;
  discount_amount = input.discount_amount;
  paid_amount = pos 0;
  tax_invoice_no = none;
  status = InvoiceStatus.pending;
  due_date = input.due_date;
  paid_at = none;
  last_reminded_at = none;
  created_at = srv.now;
  updated_at = srv.now;
}

-- the insertion, which the unique index refuses for a period that is billed already
unfoldable pub insert_invoice : Server → NewInvoice → Action Invoice
insert_invoice srv input = do
  billed ← gets (exists_for_period input.customer_id input.period_start)
  throw_if billed (internal "invoices_customer_period_idx")
  modify λ db. record db { invoices = invoice_row srv input ∷ db.invoices }
  pure (invoice_row srv input)

-- `createBilled`
unfoldable pub create_billed : Server → NewInvoice → List ℕ → Action Invoice
unfolding transaction
create_billed srv input credit_ids = transaction do
  inv ← insert_invoice srv input
  mark_applied_with_invoice srv credit_ids inv.id
  refresh_outstanding_tx srv inv.customer_id
  pure inv

pub record Discount : Type 0 where
  pub discount_amount : ℤ
  pub credit_ids : List ℕ

-- `pending.reduce((sum, credit) => sum + credit.amount, 0)`
unfoldable pub credit_sum : ℤ → List SlaCredit → ℤ
credit_sum acc [] = acc
credit_sum acc (c ∷ cs) = credit_sum (acc +ℤ c.amount) cs

-- `resolveSlaDiscount`
unfoldable pub resolve_sla_discount : ℕ → ℤ → Db → Discount
unfolding credit_sum
resolve_sla_discount customer_id gross_total db = elim (find_pending_by_customer customer_id db) [
  | [] ↦ record { discount_amount = pos 0; credit_ids = [] }
  | c ∷ cs ↦ record {
    discount_amount = min_ℤ (credit_sum (pos 0) (c ∷ cs)) gross_total;
    credit_ids = map (λ (r : SlaCredit). r.id) (c ∷ cs);
  }
]

-- One customer's round of `run`, and `generateFirstInvoice`: nothing for a period that is billed,
-- else an invoice that absorbs the pending credits. `ppn` is the tax of an amount under the policy
-- (`policy.pkp ? ppnOf(amount, policy.ppnRate) : 0`).
unfoldable pub bill_customer :
    Server → (ℤ → ℤ) → ℕ → String → ℤ → ℕ → ℕ → ℕ → Action (Option Invoice)
unfolding create_billed
bill_customer srv ppn customer_id name price period_start period_end due_date = do
  billed ← gets (exists_for_period customer_id period_start)
  if billed then pure none else (do
    d ← gets (resolve_sla_discount customer_id (price +ℤ ppn price))
    inv ←
        create_billed srv
          (record {
            customer_id = customer_id;
            customer_name = name;
            period_start = period_start;
            period_end = period_end;
            due_date = due_date;
            amount = price;
            tax_amount = ppn price;
            discount_amount = d.discount_amount;
          })
          d.credit_ids
    pure (some inv))
