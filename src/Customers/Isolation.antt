-- ===== src/Customers/Isolation.antt =====
-- BillingAutomationService (src/modules/invoices/billing-automation.service.ts): the sweep that
-- suspends active debtors, and the forecast of the next cycle.
use isp_cms_be.Prelude.{
  ℕ, suc, ℤ, Bool, true, false, not, ◌&&◌, Option, none, some, List, [], ◌∷◌, ◌++◌, given,
}
use isp_cms_be.Prelude.Table.{count_where, in_array}
use isp_cms_be.Store.Rows.{Customer, CustomerStatus, HoldReason, Secret}
use isp_cms_be.Store.Monad.{Db, Server, Action, ok, err, Exception, pure, gets, ◌>>=◌, ◌>>◌}
use isp_cms_be.Store.Statements.{find_customer}
use isp_cms_be.Balance.{sum_unpaid_by_customer}
use isp_cms_be.Secrets.{apply_disabled_for_customer}
use isp_cms_be.Invoices.Billing.{exists_for_period}
use isp_cms_be.Invoices.Automation.{
  mark_overdue_past_due, customer_ids_isolir_eligible, customer_ids_with_overdue,
  count_pending_due_soon, count_overdue_all,
}
use isp_cms_be.Customers.{is_aktif, update_customer}
use isp_cms_be.Customers.PlanChange.{find_plan}

-- the patch of `setBilling`
pub record BillingPatch : Type 0 where
  pub outstanding : Option ℤ
  pub status : Option CustomerStatus
  pub hold_reason : Option (Option HoldReason)

abbrev pub with_billing : Server → BillingPatch → Customer → Customer
with_billing srv patch c = record c {
  outstanding = given c.outstanding patch.outstanding;
  status = given c.status patch.status;
  hold_reason = given c.hold_reason patch.hold_reason;
  updated_at = srv.now;
}

-- `CustomersRepository.setBilling`
unfoldable pub set_billing : Server → ℕ → BillingPatch → Action (Unit {0})
unfolding update_customer
set_billing srv id patch = update_customer id (with_billing srv patch) >> pure tt

abbrev pub isolation : ℤ → BillingPatch
isolation outstanding = record {
  outstanding = some outstanding;
  status = some CustomerStatus.isolir;
  hold_reason = some (some HoldReason.overdue);
}

pub record SweepResult : Type 0 where
  pub isolated : ℕ
  pub failed_customer_ids : List ℕ

-- `customersById.get(id)?.status === 'aktif'` in the rows fetched before the loop
abbrev pub was_aktif : Db → ℕ → Bool
was_aktif fetched id = elim (find_customer id fetched) [ none ↦ false | some c ↦ is_aktif c.status ]

module _ (push : Secret → Bool → Option Exception) where
  -- the body of the `try`: the router first, then the row
  unfoldable pub isolate_debtor : Server → ℕ → ℤ → Action (Unit {0})
  unfolding apply_disabled_for_customer set_billing
  isolate_debtor srv id outstanding = do
    apply_disabled_for_customer push srv id true
    set_billing srv id (isolation outstanding)

  -- the loop of `isolateActiveDebtors`; `fetched` is what it read before
  unfoldable pub isolate_each : Server → Db → List ℕ → SweepResult → Action SweepResult
  unfolding isolate_debtor
  isolate_each srv fetched [] acc db = pure acc db
  isolate_each srv fetched (id ∷ ids) acc db = elim (was_aktif fetched id) [
    | false ↦ isolate_each srv fetched ids acc db
    | true ↦
        let (r, db') = isolate_debtor srv id (sum_unpaid_by_customer id fetched.invoices) db in
        elim r [
          | ok _ ↦ isolate_each srv fetched ids (record acc { isolated = suc acc.isolated }) db'
          | err _ ↦
              isolate_each srv fetched ids
                (record acc { failed_customer_ids = acc.failed_customer_ids ++ (id ∷ []) }) db'
        ]
  ]

  -- `isolateActiveDebtors`
  unfoldable pub isolate_active_debtors : Server → ℕ → Action SweepResult
  unfolding isolate_each
  isolate_active_debtors srv grace_days = do
    ids ← gets (customer_ids_isolir_eligible srv grace_days)
    fetched ← gets (λ db. db)
    isolate_each srv fetched ids (record { isolated = 0; failed_customer_ids = [] })

  -- `isolirOverdue`: how many invoices went overdue, and the sweep
  unfoldable pub isolir_overdue : Server → ℤ → ℕ → Action (ℕ × SweepResult)
  unfolding isolate_active_debtors
  isolir_overdue srv late_fee grace_days = do
    marked ← mark_overdue_past_due srv late_fee
    swept ← isolate_active_debtors srv grace_days
    pure (marked, swept)

-- `countActiveDebtors`
unfoldable pub count_active_debtors : Db → ℕ
count_active_debtors db =
    let ids = customer_ids_with_overdue db in
    count_where (λ (c : Customer). in_array ids c.id && is_aktif c.status) db.customers

-- A row of `findActiveBillable`: an active customer with his plan.
abbrev pub is_billable : Db → Customer → Bool
is_billable db c =
    is_aktif c.status && elim (find_plan c.plan_id db) [ none ↦ false | some _ ↦ true ]

pub record SchedulerPreview : Type 0 where
  pub to_bill : ℕ
  pub to_remind_upcoming : ℕ
  pub to_remind_overdue : ℕ
  pub to_isolir : ℕ

-- `schedulerPreview` for the period that starts at `period_start`
unfoldable pub scheduler_preview : Server → ℕ → Db → SchedulerPreview
unfolding count_active_debtors
scheduler_preview srv period_start db = record {
  to_bill =
      count_where
        (λ (c : Customer). is_billable db c && not (exists_for_period c.id period_start db))
        db.customers;
  to_remind_upcoming = count_pending_due_soon srv 3 db;
  to_remind_overdue = count_overdue_all db;
  to_isolir = count_active_debtors db;
}
