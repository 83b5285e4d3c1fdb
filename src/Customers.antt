-- ===== src/Customers.antt =====
-- CustomersRepository and CustomersService (src/modules/customers): the lifecycle of a
-- subscriber.
pub mod Lifecycle
pub mod PlanChange
pub mod Proration
pub mod Plans
pub mod Isolation
pub mod Sweep
pub mod Reached
pub mod Runs
use mathlib.Core.Option
use Prim.Native.String.{◌++◌}
use isp_cms_be.Prelude.{
  ℕ, ◌+◌, ◌/◌, ℤ, pos, ◌-ℤ◌, ltb_ℤ, leb_ℤ, eqb_ℤ, String, Bool, true, false, not, ◌||◌, Option,
  none, some, List, [], ◌∷◌, ◌==◌, if◌then◌else◌,
}
use isp_cms_be.Prelude.Table.{find, update_where}
use isp_cms_be.Store.Rows.{
  Invoice, InvoiceStatus, InvoiceType, Customer, CustomerStatus, HoldReason, Secret, SlaCredit,
}
use isp_cms_be.Store.FieldRows.{Plan}
use isp_cms_be.Store.Monad.{
  Db, Server, Action, Result, ok, err, Exception, not_found, bad_request, pure, throw, gets,
  or_throw, throw_if, transaction, modify, ◌>>=◌, ◌>>◌,
}
use isp_cms_be.Store.Statements.{
  invoice_at, customer_at, find_customer, update_invoices, store_outstanding,
}
use isp_cms_be.Balance.{balance_of}
use isp_cms_be.Secrets.{apply_disabled_for_customer}
use isp_cms_be.SlaCredits.{create, oldest_unpaid, absorbing, with_discount}

abbrev pub same_status : CustomerStatus → CustomerStatus → Bool
same_status CustomerStatus.prospek CustomerStatus.prospek = true
same_status CustomerStatus.instalasi CustomerStatus.instalasi = true
same_status CustomerStatus.aktif CustomerStatus.aktif = true
same_status CustomerStatus.isolir CustomerStatus.isolir = true
same_status CustomerStatus.berhenti CustomerStatus.berhenti = true
same_status _ _ = false

-- CUSTOMER_LEGAL_TRANSITIONS
abbrev pub legal_transitions : CustomerStatus → List CustomerStatus
legal_transitions CustomerStatus.prospek = CustomerStatus.instalasi ∷ []
legal_transitions CustomerStatus.instalasi = CustomerStatus.aktif ∷ []
legal_transitions CustomerStatus.aktif = CustomerStatus.isolir ∷ CustomerStatus.berhenti ∷ []
legal_transitions CustomerStatus.isolir = CustomerStatus.aktif ∷ CustomerStatus.berhenti ∷ []
legal_transitions CustomerStatus.berhenti = []

-- `allowed.includes(to)`
unfoldable pub includes : List CustomerStatus → CustomerStatus → Bool
includes [] to = false
includes (s ∷ ss) to = same_status s to || includes ss to

abbrev pub is_aktif : CustomerStatus → Bool
is_aktif s = same_status s CustomerStatus.aktif

abbrev pub status_text : CustomerStatus → String
status_text CustomerStatus.prospek = "prospek"
status_text CustomerStatus.instalasi = "instalasi"
status_text CustomerStatus.aktif = "aktif"
status_text CustomerStatus.isolir = "isolir"
status_text CustomerStatus.berhenti = "berhenti"

-- `assertLegalCustomerTransition`
unfoldable pub assert_legal_customer_transition :
    CustomerStatus → CustomerStatus → Action (Unit {0})
unfolding includes
assert_legal_customer_transition from to =
    throw_if (not (includes (legal_transitions from) to))
      (bad_request ("cannot transition from " ++ status_text from ++ " to " ++ status_text to))

-- the options of `setStatus`
pub record StatusOptions : Type 0 where
  pub clear_outstanding : Bool
  pub hold_reason : Option HoldReason

-- `update(customers).set(f).where(eq(customers.id, id)).returning()`
unfoldable pub update_customer : ℕ → (Customer → Customer) → Action Customer
update_customer id f = do
  row ← gets (find_customer id)
  modify λ db. record db { customers = update_where (customer_at id) f db.customers }
  or_throw (Option.map f row) (not_found "customer not found")

abbrev pub hold_reason_or_overdue : Option HoldReason → HoldReason
hold_reason_or_overdue none = HoldReason.overdue
hold_reason_or_overdue (some reason) = reason

-- the hold reason that goes with a status
abbrev pub hold_of : CustomerStatus → Option HoldReason → Option HoldReason
hold_of CustomerStatus.isolir reason = some (hold_reason_or_overdue reason)
hold_of CustomerStatus.prospek reason = none
hold_of CustomerStatus.instalasi reason = none
hold_of CustomerStatus.aktif reason = none
hold_of CustomerStatus.berhenti reason = none

abbrev pub with_status : Server → CustomerStatus → StatusOptions → Customer → Customer
with_status srv status opts c = record c {
  status = status;
  hold_reason = hold_of status opts.hold_reason;
  outstanding = if opts.clear_outstanding then pos 0 else c.outstanding;
  updated_at = srv.now;
}

-- `setStatus`
unfoldable pub set_status : Server → ℕ → CustomerStatus → StatusOptions → Action Customer
unfolding update_customer
set_status srv id status opts = update_customer id (with_status srv status opts)

abbrev pub options : Option HoldReason → StatusOptions
options reason = record { clear_outstanding = false; hold_reason = reason }

module _ (push : Secret → Bool → Option Exception) where
  -- `transition` once the pair is legal
  unfoldable pub enter_status : Server → ℕ → CustomerStatus → StatusOptions → Action Customer
  unfolding set_status apply_disabled_for_customer
  enter_status srv id status opts = do
    row ← set_status srv id status opts
    apply_disabled_for_customer push srv id (not (is_aktif status))
    pure row

  -- `transition`
  unfoldable pub transition : Server → ℕ → CustomerStatus → StatusOptions → Action Customer
  unfolding assert_legal_customer_transition enter_status
  transition srv id status opts = do
    current ← or_throw (← gets (find_customer id)) (not_found "customer not found")
    assert_legal_customer_transition current.status status
    enter_status srv id status opts

  -- `suspend`
  unfoldable pub suspend : Server → ℕ → Action Customer
  unfolding transition
  suspend srv id = transition srv id CustomerStatus.isolir (options (some HoldReason.voluntary))

  -- `resume`
  unfoldable pub resume : Server → ℕ → Action Customer
  unfolding transition
  resume srv id = transition srv id CustomerStatus.aktif (options none)

  -- `isolate`
  unfoldable pub isolate : Server → ℕ → Action Customer
  unfolding transition
  isolate srv id = transition srv id CustomerStatus.isolir (options (some HoldReason.overdue))

  -- `activate`
  unfoldable pub activate : Server → ℕ → Action Customer
  unfolding transition
  activate srv id =
      transition srv id CustomerStatus.aktif
        (record { clear_outstanding = true; hold_reason = none })

  -- `stop`
  unfoldable pub stop : Server → ℕ → Action Customer
  unfolding transition
  stop srv id = transition srv id CustomerStatus.berhenti (options none)
