-- ===== src/Customers/PlanChange.antt =====
-- The change of a customer's plan and its proration: changePlan and applyDeltaTx of
-- src/modules/customers/customers.repository.ts.

use Prim.Native.String.{◌++◌}
use isp_cms_be.Prelude.{
  ℕ, ◌+◌, ◌/◌, ℤ, pos, ◌-ℤ◌, ltb_ℤ, eqb_ℤ, String, Bool, true, false, Option, none, some, ◌∷◌, ◌==◌,
  if◌then◌else◌,
}
use isp_cms_be.Prelude.Table.{find}
use isp_cms_be.Store.Rows.{Invoice, InvoiceStatus, InvoiceType, Customer}
use isp_cms_be.Store.FieldRows.{Plan}
use isp_cms_be.Store.Monad.{
  Db, Server, Action, not_found, bad_request, pure, gets, or_throw, transaction, modify, ◌>>=◌,
  ◌>>◌,
}
use isp_cms_be.Store.Statements.{invoice_at, find_customer, update_invoices, store_outstanding}
use isp_cms_be.SlaCredits.{create, oldest_unpaid, absorbing, with_discount}
use isp_cms_be.Customers.{update_customer}

abbrev pub plan_at : ℕ → Plan → Bool
plan_at k p = p.id == k

-- `PlansRepository.findById`, and the reads of `plans` in `changePlan`
abbrev pub find_plan : ℕ → Db → Option Plan
find_plan k db = find (plan_at k) db.plans

-- `isoToday`: the day of the clock in UTC
abbrev pub utc_day : Server → ℕ
utc_day srv = srv.now / 86400000

-- the row of a charge in `applyDeltaTx`
abbrev pub adjustment_row : Server → ℕ → String → String → ℤ → ℕ → Invoice
adjustment_row srv id name remark delta due_days = record {
  id = srv.key;
  invoice_no = srv.invoice_no;
  customer_id = id;
  customer_name = name;
  type = InvoiceType.adjustment;
  note = some remark;
  period_start = utc_day srv;
  period_end = utc_day srv;
  amount = delta;
  late_fee = pos 0;
  tax_amount = pos 0;
  discount_amount = pos 0;
  paid_amount = pos 0;
  tax_invoice_no = none;
  status = InvoiceStatus.pending;
  due_date = utc_day srv + due_days;
  paid_at = none;
  last_reminded_at = none;
  created_at = srv.now;
  updated_at = srv.now;
}

-- `applyCreditTx`: the oldest unpaid invoice takes the credit in full, or it is deferred in full
unfoldable pub apply_credit_tx : Server → ℕ → ℤ → String → String → Action (Unit {0})
unfolding update_invoices create
apply_credit_tx srv customer_id amount name reason = do
  inv ← gets (oldest_unpaid customer_id)
  elim (absorbing inv amount) [
    | none ↦ create srv (some customer_id) name amount reason none none >> pure tt
    | some chosen ↦ update_invoices (invoice_at chosen.id) (with_discount srv amount) >> pure tt
  ]

-- `applyDeltaTx`
unfoldable pub apply_delta_tx : Server → ℕ → ℤ → String → String → ℕ → Action (Unit {0})
unfolding apply_credit_tx store_outstanding
apply_delta_tx srv id delta name remark due_days = do
  if ltb_ℤ (pos 0) delta
      then modify (λ db. record db {
        invoices = adjustment_row srv id name remark delta due_days ∷ db.invoices;
      })
      else apply_credit_tx srv id (pos 0 -ℤ delta) name remark
  store_outstanding srv id

-- `applyProration`
unfoldable pub apply_proration : Server → ℕ → ℤ → String → String → ℕ → Action (Unit {0})
unfolding apply_delta_tx transaction
apply_proration srv id delta name remark due_days =
    if eqb_ℤ delta (pos 0)
    then pure tt
    else transaction (apply_delta_tx srv id delta name remark due_days)

pub record PlanChange : Type 0 where
  pub applied : Bool
  pub delta : ℤ

-- `oldPlan ? newPlan.priceMonthly - oldPlan.priceMonthly : 0`
abbrev pub price_delta : Plan → Option Plan → ℤ
price_delta to none = pos 0
price_delta to (some from) = to.price_monthly -ℤ from.price_monthly

-- `oldPlan?.name ?? 'unknown'`
abbrev pub plan_name : Option Plan → String
plan_name none = "unknown"
plan_name (some p) = p.name

abbrev pub with_plan : Server → ℕ → Customer → Customer
with_plan srv plan_id c = record c { plan_id = plan_id; updated_at = srv.now }

-- `changePlan` of the repository once the customer and the target plan are read
unfoldable pub change_plan_locked : Server → ℕ → ℕ → ℕ → Customer → Plan → Action PlanChange
unfolding update_customer apply_delta_tx
change_plan_locked srv id target due_days locked to = do
  from ← gets (find_plan locked.plan_id)
  let delta = price_delta to from
  update_customer id (with_plan srv target)
  if eqb_ℤ delta (pos 0)
      then pure tt
      else apply_delta_tx srv id delta locked.full_name
          ("Proration plan change: " ++ plan_name from ++ " -> " ++ to.name) due_days
  pure (record { applied = true; delta = delta })

-- `changePlan` of the repository
unfoldable pub change_plan_tx : Server → ℕ → ℕ → ℕ → Action PlanChange
unfolding change_plan_locked transaction
change_plan_tx srv id target due_days = transaction do
  locked ← or_throw (← gets (find_customer id)) (not_found "customer not found")
  if locked.plan_id == target then pure (record { applied = false; delta = pos 0 }) else (do
    to ← or_throw (← gets (find_plan target)) (not_found "plan not found")
    change_plan_locked srv id target due_days locked to)

-- `changePlan` of the service; `due_days` is the billing policy's
unfoldable pub change_plan : Server → ℕ → ℕ → ℕ → Action Customer
unfolding change_plan_tx
change_plan srv id target due_days = do
  or_throw (← gets (find_customer id)) (not_found "customer not found")
  or_throw (← gets (find_plan target)) (bad_request "plan not found")
  change_plan_tx srv id target due_days
  or_throw (← gets (find_customer id)) (not_found "customer not found")
