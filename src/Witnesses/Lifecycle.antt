-- ===== src/Witnesses/Lifecycle.antt =====
-- Runs of the theorems on a subscriber's lifecycle.
use isp_cms_be.Prelude.{pos, Bool, true, Option, none, some, [], ◌∷◌, ◌≡◌, refl}
use isp_cms_be.Prelude.Int.{◌-ℤ◌}
use isp_cms_be.Prelude.Table.{find}
use isp_cms_be.Store.Rows.{Customer, CustomerStatus, Secret}
use isp_cms_be.Store.Monad.{Db, Exception, internal, ok}
use isp_cms_be.Store.Statements.{find_customer}
use isp_cms_be.Balance.{sum_unpaid_by_customer}
use isp_cms_be.Customers.{transition, options}
use isp_cms_be.Customers.PlanChange.{change_plan_tx}
use isp_cms_be.Customers.Lifecycle.{AllEnforced}
use isp_cms_be.Customers.Plans.{IsSettledOn, change_plan_tx-settles}
use isp_cms_be.Customers.Proration.{IsProrated}
use isp_cms_be.Witnesses.Billing.{unique_invoices}
use isp_cms_be.Customers.Isolation.{isolate_active_debtors, isolir_overdue}
use isp_cms_be.Customers.Reached.{Suspended, isolate_active_debtors-reaches}
use isp_cms_be.Customers.Runs.{here, next, verb, sweep, Reach-AllEnforced, Reach-stopped}
use isp_cms_be.Witnesses.Sample.{server, db, customer, plan_of, first_invoice}

abbrev outage : Secret → Bool → Option Exception
outage s b = some (internal "timeout")

abbrev answering : Secret → Bool → Option Exception
answering s b = none

enforced : AllEnforced db
unfolding find
enforced = (refl, tt)

abbrev resumed : Db
resumed = (transition outage server 1 CustomerStatus.aktif (options none) db).1

abbrev resumed_and_swept : Db
resumed_and_swept = (isolir_overdue outage server (pos 5) 3 resumed).1

Reach-AllEnforced_example : AllEnforced resumed_and_swept
Reach-AllEnforced_example =
    Reach-AllEnforced outage db resumed_and_swept enforced (
      next (next here (verb server 1 CustomerStatus.aktif (options none))) (sweep server (pos 5) 3))

abbrev stopped : Customer
stopped = record customer { status = CustomerStatus.berhenti; hold_reason = none }

abbrev stopped_db : Db
stopped_db = record db { customers = stopped ∷ [] }

Reach-stopped_example :
    find_customer 1 (isolir_overdue outage server (pos 5) 3 stopped_db).1 ≡ some stopped
unfolding find
Reach-stopped_example =
    Reach-stopped outage stopped_db (isolir_overdue outage server (pos 5) 3 stopped_db).1 1 stopped
      refl refl (next here (sweep server (pos 5) 3))

abbrev active : Customer
active = record customer { status = CustomerStatus.aktif; hold_reason = none }

abbrev active_db : Db
active_db = record db { customers = active ∷ [] }

isolate_active_debtors-reaches_example :
    Suspended 1
      (sum_unpaid_by_customer 1 db.invoices)
      (isolate_active_debtors answering server 3 active_db).1
unfolding find
isolate_active_debtors-reaches_example =
    isolate_active_debtors-reaches answering (λ s b. refl) server 3 1 active_db active first_invoice
      refl refl refl

change_plan_tx-settles_example :
    ((change_plan_tx server 1 2 7 db).0 ≡ ok (record { applied = true; delta = pos 50 }))
    × IsSettledOn 1 2 (change_plan_tx server 1 2 7 db).1
    × IsProrated 1 (pos 50) db (change_plan_tx server 1 2 7 db).1
unfolding find ◌-ℤ◌
change_plan_tx-settles_example =
    change_plan_tx-settles server 1 2 7 db customer (plan_of 1 (pos 100)) (plan_of 2 (pos 150)) refl
      refl refl refl refl unique_invoices
