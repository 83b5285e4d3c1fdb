-- ===== src/Customers/Runs.antt =====
-- Any sequence of lifecycle verbs and nightly sweeps.
use isp_cms_be.Prelude.{ℕ, ℤ, Bool, Option, some, ◌≡◌, refl, sym, subst, arith}
use isp_cms_be.Store.Rows.{Customer, CustomerStatus, Secret}
use isp_cms_be.Store.Monad.{Db, Server, Result, ok, err, Exception}
use isp_cms_be.Store.Statements.{find_customer}
use isp_cms_be.Invoices.Automation.{mark_overdue_past_due, update_counted}
use isp_cms_be.Customers.{StatusOptions, transition}
use isp_cms_be.Customers.Lifecycle.{AllEnforced, transition-AllEnforced, transition-stopped}
use isp_cms_be.Customers.Isolation.{isolir_overdue, isolate_active_debtors, SweepResult}
use isp_cms_be.Customers.Sweep.{isolate_active_debtors-AllEnforced, isolate_active_debtors-idle}

module _ (push : Secret → Bool → Option Exception) where
  -- A verb of `CustomersService`, or the job `isolirOverdue`; each may throw half-way.
  pub data Step (db : Db) : Db → Type 0 where
    verb :
        (srv : Server) (id : ℕ) (status : CustomerStatus) (opts : StatusOptions)
        → Step db (transition push srv id status opts db).1
    sweep :
        (srv : Server) (late_fee : ℤ) (grace_days : ℕ)
        → Step db (isolir_overdue push srv late_fee grace_days db).1

  pub data Reach (db : Db) : Db → Type 0 where
    here : Reach db db
    next : {d e : Db} → Reach db d → Step d e → Reach db e

  overdue_first : Server → ℤ → Db → Db
  overdue_first srv late_fee db = (mark_overdue_past_due srv late_fee db).1

  isolir_overdue-tables :
      (srv : Server) (late_fee : ℤ) (grace_days : ℕ) (db : Db)
      → (isolir_overdue push srv late_fee grace_days db).1
        ≡ (isolate_active_debtors push srv grace_days (overdue_first srv late_fee db)).1
  unfolding isolir_overdue overdue_first mark_overdue_past_due update_counted
  isolir_overdue-tables srv late_fee grace_days db =
      by_answer (isolate_active_debtors push srv grace_days (overdue_first srv late_fee db)) refl
    where
      by_answer :
          (o : Result SweepResult × Db)
          → isolate_active_debtors push srv grace_days (overdue_first srv late_fee db) ≡ o
          → (isolir_overdue push srv late_fee grace_days db).1 ≡ o.1
      by_answer (ok a, e) h = ground arith
      by_answer (err x, e) h = ground arith

  Step-AllEnforced : {d e : Db} → Step d e → AllEnforced d → AllEnforced e
  unfolding overdue_first mark_overdue_past_due update_counted
  Step-AllEnforced (verb srv id status opts) h = transition-AllEnforced push srv id _ status opts h
  Step-AllEnforced {d} (sweep srv late_fee grace_days) h =
      subst AllEnforced (sym (isolir_overdue-tables srv late_fee grace_days d))
        (isolate_active_debtors-AllEnforced push srv grace_days (overdue_first srv late_fee d) h)

  -- When every customer has a hold reason exactly while he is `isolir`, and nobody who is `isolir`
  -- or `berhenti` has an enabled PPPoE secret, the same holds after any sequence of lifecycle verbs
  -- and nightly sweeps, whatever the routers answer.
  pub Reach-AllEnforced : (db d : Db) → AllEnforced db → Reach db d → AllEnforced d
  Reach-AllEnforced db d h here = h
  Reach-AllEnforced db d h (next r st) = Step-AllEnforced st (Reach-AllEnforced db _ h r)

  Step-stopped :
      {d e : Db} (k : ℕ) (c : Customer)
      → c.status ≡ CustomerStatus.berhenti
      → Step d e
      → find_customer k d ≡ some c
      → find_customer k e ≡ some c
  unfolding overdue_first mark_overdue_past_due update_counted
  Step-stopped k c stopped (verb srv id status opts) found =
      transition-stopped push srv id _ status opts k c found stopped
  Step-stopped {d} k c stopped (sweep srv late_fee grace_days) found =
      rw (isolir_overdue-tables srv late_fee grace_days d) (
        isolate_active_debtors-idle push srv grace_days k (overdue_first srv late_fee d) c found
          (rw stopped refl))

  -- The row of a customer who reads `berhenti` is the same after any sequence of lifecycle verbs
  -- and nightly sweeps.
  pub Reach-stopped :
      (db d : Db) (k : ℕ) (c : Customer)
      → find_customer k db ≡ some c
      → c.status ≡ CustomerStatus.berhenti
      → Reach db d
      → find_customer k d ≡ some c
  Reach-stopped db d k c found stopped here = found
  Reach-stopped db d k c found stopped (next r st) =
      Step-stopped k c stopped st (Reach-stopped db _ k c found stopped r)
