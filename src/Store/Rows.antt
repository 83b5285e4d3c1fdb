-- ===== src/Store/Rows.antt =====
-- The rows of the money tables: src/infrastructure/database/schema/invoices.schema.ts,
-- customers.schema.ts, sla-credits.schema.ts, vouchers.schema.ts, resellers.schema.ts and
-- pppoe.schema.ts.
-- A uuid is a number, since the code only compares it. A `timestamp` is its milliseconds, a `date`
-- the number of its day. An `integer` column is an unbounded integer.
use isp_cms_be.Prelude.{ℕ, ℤ, String, Bool, Option}

pub data InvoiceStatus : Type 0 where
  draft pending partial overdue paid : InvoiceStatus

pub data InvoiceType : Type 0 where
  regular adjustment : InvoiceType

pub record Invoice : Type 0 where
  pub id : ℕ
  pub invoice_no : String
  pub customer_id : ℕ
  pub customer_name : String
  pub type : InvoiceType
  pub note : Option String
  pub period_start : ℕ
  pub period_end : ℕ
  pub amount : ℤ
  pub late_fee : ℤ
  pub tax_amount : ℤ
  pub discount_amount : ℤ
  pub paid_amount : ℤ
  pub tax_invoice_no : Option String
  pub status : InvoiceStatus
  pub due_date : ℕ
  pub paid_at : Option ℕ
  pub last_reminded_at : Option ℕ
  pub created_at : ℕ
  pub updated_at : ℕ

pub data PaymentMethod : Type 0 where
  qris va ewallet transfer cash : PaymentMethod

pub data PaymentSource : Type 0 where
  invoice voucher : PaymentSource

pub record Payment : Type 0 where
  pub id : ℕ
  pub invoice_id : Option ℕ
  pub invoice_no : Option String
  pub customer_id : Option ℕ
  pub customer_name : Option String
  pub amount : ℤ
  pub method : PaymentMethod
  pub source : PaymentSource
  pub voucher_id : Option ℕ
  pub tendered_amount : Option ℤ
  pub change_amount : Option ℤ
  pub paid_at : ℕ
  pub created_at : ℕ

pub data PaymentChannel : Type 0 where
  qris va_bca va_mandiri va_bri va_bni gopay ovo dana shopeepay : PaymentChannel

pub data PaymentIntentStatus : Type 0 where
  pending paid expired : PaymentIntentStatus

pub record PaymentIntent : Type 0 where
  pub id : ℕ
  pub invoice_id : ℕ
  pub invoice_no : String
  pub customer_name : String
  pub amount : ℤ
  pub channel : PaymentChannel
  pub status : PaymentIntentStatus
  pub va_number : Option String
  pub qr_payload : Option String
  pub gateway_reference : Option ℕ
  pub expires_at : ℕ
  pub paid_at : Option ℕ
  pub created_at : ℕ

pub data CustomerStatus : Type 0 where
  prospek instalasi aktif isolir berhenti : CustomerStatus

pub data HoldReason : Type 0 where
  overdue voluntary : HoldReason

pub data ConnectionType : Type 0 where
  pppoe gpon : ConnectionType

-- `CustomerConnection`, with the reading in thousandths
pub record Connection : Type 0 where
  pub type : ConnectionType
  pub pppoe_username : String
  pub profile : String
  pub ip_address : String
  pub onu_serial : Option String
  pub olt : Option String
  pub pon_port : Option String
  pub rx_power : Option ℤ

-- The columns of `customers` that billing, the lifecycle and the installation read or write.
pub record Customer : Type 0 where
  pub id : ℕ
  pub customer_no : String
  pub full_name : String
  pub plan_id : ℕ
  pub status : CustomerStatus
  pub hold_reason : Option HoldReason
  pub outstanding : ℤ
  pub reseller_id : Option ℕ
  pub connection : Option Connection
  pub odp_id : Option String
  pub user_id : Option ℕ
  pub updated_at : ℕ

pub data SlaCreditStatus : Type 0 where
  pending applied void : SlaCreditStatus

pub record SlaCredit : Type 0 where
  pub id : ℕ
  pub customer_id : Option ℕ
  pub customer_name : String
  pub amount : ℤ
  pub reason : String
  pub ticket_id : Option ℕ
  pub ticket_code : Option String
  pub status : SlaCreditStatus
  pub applied_invoice_id : Option ℕ
  pub applied_at : Option ℕ
  pub created_at : ℕ
  pub updated_at : ℕ

pub data VoucherStatus : Type 0 where
  unused used expired : VoucherStatus

pub record Voucher : Type 0 where
  pub id : ℕ
  pub code : String
  pub batch_id : ℕ
  pub profile : String
  pub price_idr : ℤ
  pub duration_days : ℕ
  pub status : VoucherStatus
  pub used_at : Option ℕ
  pub used_by : Option String
  pub redeemed_customer_id : Option ℕ
  pub reseller_id : Option ℕ
  pub created_at : ℕ
  pub updated_at : ℕ

pub data ResellerStatus : Type 0 where
  active inactive : ResellerStatus

-- `commission_pct` is the fraction in units of its fifth decimal, `numeric(6, 5)`.
pub record Reseller : Type 0 where
  pub id : ℕ
  pub name : String
  pub area : String
  pub balance : ℤ
  pub commission_pct : ℕ
  pub status : ResellerStatus
  pub created_at : ℕ
  pub updated_at : ℕ

pub data LedgerType : Type 0 where
  topup commission deduction withdrawal : LedgerType

-- `ref` is the id of the row that the entry was posted for.
pub record LedgerEntry : Type 0 where
  pub id : ℕ
  pub reseller_id : ℕ
  pub type : LedgerType
  pub amount : ℤ
  pub note : String
  pub balance_after : ℤ
  pub ref : Option ℕ
  pub at : ℕ

pub data PayoutStatus : Type 0 where
  requested approved rejected paid : PayoutStatus

pub record Payout : Type 0 where
  pub id : ℕ
  pub reseller_id : ℕ
  pub amount : ℤ
  pub status : PayoutStatus
  pub note : String
  pub requested_by : Option ℕ
  pub decided_by : Option ℕ
  pub ledger_entry_id : Option ℕ
  pub created_at : ℕ
  pub updated_at : ℕ
  pub decided_at : Option ℕ

pub record Secret : Type 0 where
  pub id : ℕ
  pub router_id : ℕ
  pub username : String
  pub profile_id : ℕ
  pub profile_name : String
  pub customer_id : Option ℕ
  pub customer_name : Option String
  pub disabled : Bool
  pub updated_at : ℕ
