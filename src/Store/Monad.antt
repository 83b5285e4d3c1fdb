-- ===== src/Store/Monad.antt =====
-- A repository or service call: the tables, and exceptions. What a call wrote stays written after a
-- throw, except inside `db.transaction`, which the database rolls back.
use isp_cms_be.Prelude.{ℕ, String, Bool, true, false, Option, none, some, List}
use isp_cms_be.Store.Rows.{
  Invoice, Payment, PaymentIntent, Customer, SlaCredit, Voucher, Reseller, LedgerEntry, Payout,
  Secret,
}
use isp_cms_be.Store.FieldRows.{
  InventoryItem, StockMovement, Ticket, TicketEvent, WorkOrder, Plan, Router, Profile,
}
use isp_cms_be.Store.SalesRows.{OdpRecord, CoverageArea, Lead, Contract, PortalUser}

pub record Db : Type 0 where
  pub invoices : List Invoice
  pub payments : List Payment
  pub payment_intents : List PaymentIntent
  pub customers : List Customer
  pub sla_credits : List SlaCredit
  pub vouchers : List Voucher
  pub resellers : List Reseller
  pub reseller_ledger : List LedgerEntry
  pub reseller_payouts : List Payout
  pub ppp_secrets : List Secret
  pub inventory_items : List InventoryItem
  pub stock_movements : List StockMovement
  pub tickets : List Ticket
  pub ticket_events : List TicketEvent
  pub work_orders : List WorkOrder
  pub plans : List Plan
  pub routers : List Router
  pub ppp_profiles : List Profile
  pub odp_records : List OdpRecord
  pub coverage_areas : List CoverageArea
  pub leads : List Lead
  pub contracts : List Contract
  pub portal_users : List PortalUser

-- What the database server supplies to a call: `now()` in milliseconds (`Date.now()` too), the day
-- `current_date`, the key that `gen_random_uuid()` draws for the row that the call inserts into a
-- table (a call inserts one row with a key into a table at most), and the codes that the sequences
-- give next. `id_text` is the text of a uuid, `collate` the place of a text in the order of the
-- database's collation.
pub record Server : Type 0 where
  pub now : ℕ
  pub today : ℕ
  pub key : ℕ
  pub invoice_no : String
  pub ticket_code : String
  pub work_order_code : String
  pub customer_no : String
  pub contract_no : String
  pub collate : String → ℕ
  pub id_text : ℕ → String

-- The exceptions of @nestjs/common that the code throws, and `Error`.
pub data Exception : Type 0 where
  not_found conflict bad_request unprocessable unauthorized : String → Exception
  internal : String → Exception

pub data Result (A : Type 0) : Type 0 where
  ok : A → Result A
  err : Exception → Result A

abbrev pub Action : Type 0 → Type 0
Action A = Db → Result A × Db

module _ {A : Type 0} where
  abbrev pub pure : A → Action A
  pure a db = (ok a, db)

  abbrev pub throw : Exception → Action A
  throw e db = (err e, db)

  abbrev pub gets : (Db → A) → Action A
  gets f db = (ok (f db), db)

  -- `if (!row) throw e`
  abbrev pub or_throw : Option A → Exception → Action A
  or_throw none e = throw e
  or_throw (some a) e = pure a

  -- `db.transaction(body)`: on a throw nothing of the body stays.
  abbrev pub rollback : Db → Result A × Db → Result A × Db
  rollback db (ok a, db') = (ok a, db')
  rollback db (err e, db') = (err e, db)

  unfoldable pub transaction : Action A → Action A
  transaction body db = rollback db (body db)

infixl 5 ◌>>=◌ ◌>>◌
abbrev pub ◌>>=◌ : {A B : Type 0} → Action A → (A → Action B) → Action B
◌>>=◌ m f db = let (r, db') = m db in elim r [ ok a ↦ f a db' | err e ↦ throw e db' ]

abbrev pub ◌>>◌ : {A B : Type 0} → Action A → Action B → Action B
m >> k = m >>= λ _. k

abbrev pub throw_if : Bool → Exception → Action (Unit {0})
throw_if true e = throw e
throw_if false e = pure tt

abbrev pub modify : (Db → Db) → Action (Unit {0})
modify f db = (ok tt, f db)
