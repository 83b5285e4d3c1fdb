-- ===== src/SlaCredits.antt =====
-- SlaCreditsRepository and SlaCreditsService (src/modules/sla-credits): a credit is granted, applied
-- to an invoice as a discount, or voided.
pub mod Applying
use mathlib.Core.Option
use isp_cms_be.Prelude.{
  ℕ, ℤ, pos, ◌+ℤ◌, ◌-ℤ◌, ltb_ℤ, String, Bool, true, false, ◌&&◌, Option, none, some, List, [], ◌∷◌,
  ◌==◌, if◌then◌else◌,
}
use isp_cms_be.Prelude.Table.{
  find, first, select_where, update_where, count_where, order_by, in_array, holds_key,
}
use isp_cms_be.Store.Rows.{Invoice, SlaCredit, SlaCreditStatus}
use isp_cms_be.Store.Monad.{
  Db, Server, Action, Result, ok, err, Exception, not_found, bad_request, pure, throw, gets,
  or_throw, throw_if, transaction, modify, ◌>>=◌, ◌>>◌,
}
use isp_cms_be.Store.Statements.{invoice_at, update_invoices, store_outstanding}
use isp_cms_be.Balance.{balance_of, owed_by}

abbrev pub credit_at : ℕ → SlaCredit → Bool
credit_at k r = r.id == k

-- `findById`
abbrev pub find_credit : ℕ → Db → Option SlaCredit
find_credit k db = find (credit_at k) db.sla_credits

abbrev pub is_pending : SlaCreditStatus → Bool
is_pending SlaCreditStatus.pending = true
is_pending SlaCreditStatus.applied = false
is_pending SlaCreditStatus.void = false

-- `update(slaCredits).set(f).where(p).returning()`, of which the code takes the first row
unfoldable pub update_credits :
    (SlaCredit → Bool) → (SlaCredit → SlaCredit) → Action (Option SlaCredit)
update_credits p f db = (
  ok (Option.map f (find p db.sla_credits)),
  record db { sla_credits = update_where p f db.sla_credits },
)

-- `create`
unfoldable pub create :
    Server → Option ℕ → String → ℤ → String → Option ℕ → Option String → Action SlaCredit
create srv customer_id customer_name amount reason ticket_id ticket_code = do
  let row : SlaCredit = record {
    id = srv.key;
    customer_id = customer_id;
    customer_name = customer_name;
    amount = amount;
    reason = reason;
    ticket_id = ticket_id;
    ticket_code = ticket_code;
    status = SlaCreditStatus.pending;
    applied_invoice_id = none;
    applied_at = none;
    created_at = srv.now;
    updated_at = srv.now;
  }
  modify λ db. record db { sla_credits = row ∷ db.sla_credits }
  pure row

-- `apply` of the repository: the transition alone
unfoldable pub mark_applied : Server → ℕ → Action SlaCredit
unfolding update_credits
mark_applied srv id = do
  row ← update_credits (credit_at id) λ c. record c {
    status = SlaCreditStatus.applied;
    applied_at = some srv.now;
    updated_at = srv.now;
  }
  or_throw row (not_found "sla credit not found")

-- the customer's unpaid invoice with the oldest due date
abbrev pub oldest_unpaid : ℕ → Db → Option Invoice
oldest_unpaid customer_id db =
    first (order_by (λ (r : Invoice). r.due_date) (select_where (owed_by customer_id) db.invoices))

-- `!invoice || balanceDue < credit.amount` negated: the invoice that absorbs the whole credit
abbrev pub absorbing : Option Invoice → ℤ → Option Invoice
absorbing none amount = none
absorbing (some inv) amount = if ltb_ℤ (balance_of inv) amount then none else some inv

abbrev pub with_discount : Server → ℤ → Invoice → Invoice
with_discount srv amount inv = record inv {
  discount_amount = inv.discount_amount +ℤ amount;
  updated_at = srv.now;
}

abbrev pub with_application : Server → ℕ → SlaCredit → SlaCredit
with_application srv invoice_id c = record c {
  status = SlaCreditStatus.applied;
  applied_invoice_id = some invoice_id;
  applied_at = some srv.now;
  updated_at = srv.now;
}

-- `applyWithInvoiceCredit` once an invoice is chosen
unfoldable pub absorb : Server → ℕ → ℕ → SlaCredit → Invoice → Action SlaCredit
unfolding update_invoices update_credits store_outstanding
absorb srv id customer_id credit inv = do
  update_invoices (invoice_at inv.id) (with_discount srv credit.amount)
  row ← update_credits (credit_at id) (with_application srv inv.id)
  applied ← or_throw row (not_found "sla credit not found")
  store_outstanding srv customer_id
  pure applied

-- `applyWithInvoiceCredit` on the locked credit
unfoldable pub apply_locked : Server → ℕ → ℕ → SlaCredit → Action SlaCredit
unfolding absorb
apply_locked srv id customer_id credit = do
  inv ← gets (oldest_unpaid customer_id)
  elim (absorbing inv credit.amount) [
    | none ↦ pure credit
    | some chosen ↦ absorb srv id customer_id credit chosen
  ]

-- `applyWithInvoiceCredit`
unfoldable pub apply_with_invoice_credit : Server → ℕ → ℕ → Action SlaCredit
unfolding apply_locked transaction
apply_with_invoice_credit srv id customer_id = transaction do
  credit ← or_throw (← gets (find_credit id)) (not_found "sla credit not found")
  if is_pending credit.status then apply_locked srv id customer_id credit else pure credit

-- `findPendingByCustomer`
unfoldable pub find_pending_by_customer : ℕ → Db → List SlaCredit
find_pending_by_customer customer_id db =
    order_by (λ (c : SlaCredit). c.created_at)
      (select_where (λ (c : SlaCredit). holds_key c.customer_id customer_id && is_pending c.status)
        db.sla_credits)

-- the `where` of `markAppliedWithInvoice`
abbrev pub awaits : List ℕ → SlaCredit → Bool
awaits ids c = in_array ids c.id && is_pending c.status

-- `markAppliedWithInvoice`: how many credits it applied
unfoldable pub mark_applied_with_invoice : Server → List ℕ → ℕ → Action ℕ
mark_applied_with_invoice srv [] invoice_id = pure 0
mark_applied_with_invoice srv (id ∷ ids) invoice_id = do
  n ← gets (λ db. count_where (awaits (id ∷ ids)) db.sla_credits)
  modify λ db. record db {
    sla_credits = update_where (awaits (id ∷ ids)) (with_application srv invoice_id) db.sla_credits;
  }
  pure n

-- `void` of the repository
unfoldable pub mark_void : Server → ℕ → Action SlaCredit
unfolding update_credits
mark_void srv id = do
  row ←
      update_credits (credit_at id)
        λ c. record c { status = SlaCreditStatus.void; updated_at = srv.now }
  or_throw row (not_found "sla credit not found")

-- `apply` of the service on the row that it read
unfoldable pub apply_pending : Server → ℕ → SlaCredit → Action SlaCredit
unfolding apply_with_invoice_credit mark_applied
apply_pending srv id credit = elim credit.customer_id [
  | some customer_id ↦ apply_with_invoice_credit srv id customer_id
  | none ↦ mark_applied srv id
]

-- `apply` of the service
unfoldable pub apply : Server → ℕ → Action SlaCredit
unfolding apply_pending
apply srv id = do
  credit ← or_throw (← gets (find_credit id)) (not_found "sla credit not found")
  elim credit.status [
    | SlaCreditStatus.applied ↦ pure credit
    | SlaCreditStatus.void ↦ throw (bad_request "credit is void")
    | SlaCreditStatus.pending ↦ apply_pending srv id credit
  ]

-- `void` of the service
unfoldable pub void_credit : Server → ℕ → Action SlaCredit
unfolding mark_void
void_credit srv id = do
  credit ← or_throw (← gets (find_credit id)) (not_found "sla credit not found")
  elim credit.status [
    | SlaCreditStatus.void ↦ pure credit
    | SlaCreditStatus.applied ↦ throw (bad_request "cannot void an applied credit")
    | SlaCreditStatus.pending ↦ mark_void srv id
  ]
