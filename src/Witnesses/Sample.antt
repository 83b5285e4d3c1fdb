-- ===== src/Witnesses/Sample.antt =====
-- The rows of the example runs.
use isp_cms_be.Prelude.{ℕ, ℤ, pos, true, false, none, some, [], ◌∷◌}
use isp_cms_be.Store.Rows.{
  Invoice, InvoiceStatus, InvoiceType, PaymentIntent, PaymentIntentStatus, PaymentChannel,
  PaymentMethod, Customer, CustomerStatus, SlaCredit, SlaCreditStatus, Voucher, VoucherStatus,
  Reseller, ResellerStatus, LedgerEntry, LedgerType, Payout, PayoutStatus, HoldReason, Secret,
}
use isp_cms_be.Store.FieldRows.{
  InventoryItem, InventoryKind, InventoryStatus, StockMovement, MovementType, Ticket, TicketStatus,
  TicketPriority, WorkOrder, WorkOrderType, WorkOrderStatus, Plan,
}
use isp_cms_be.Store.SalesRows.{CoverageStatus, LeadStage}
use isp_cms_be.Store.Monad.{Db, Server}
use isp_cms_be.Invoices.{PaymentInput}

abbrev pub server : Server
server = record {
  now = 1000;
  today = 20;
  key = 90;
  invoice_no = "INV-90";
  ticket_code = "TKT-9";
  work_order_code = "WO-9";
  customer_no = "CUST-2";
  contract_no = "PKS-1";
  collate = λ _. 0;
  id_text = λ _. "uuid";
}

abbrev pub invoice_of : ℕ → InvoiceStatus → ℤ → ℕ → Invoice
invoice_of id status amount due = record {
  id = id;
  invoice_no = "INV-1";
  customer_id = 1;
  customer_name = "Budi";
  type = InvoiceType.regular;
  note = none;
  period_start = id;
  period_end = 30;
  amount = amount;
  late_fee = pos 0;
  tax_amount = pos 11;
  discount_amount = pos 0;
  paid_amount = pos 0;
  tax_invoice_no = none;
  status = status;
  due_date = due;
  paid_at = none;
  last_reminded_at = none;
  created_at = 1;
  updated_at = 1;
}

abbrev pub first_invoice : Invoice
first_invoice = invoice_of 1 InvoiceStatus.overdue (pos 100) 10

abbrev pub second_invoice : Invoice
second_invoice = invoice_of 2 InvoiceStatus.pending (pos 50) 15

abbrev pub settled_invoice : Invoice
settled_invoice = record (invoice_of 3 InvoiceStatus.paid (pos 40) 5) { paid_amount = pos 51 }

abbrev pub intent_with : ℕ → PaymentIntentStatus → PaymentIntent
intent_with id status = record {
  id = id;
  invoice_id = 1;
  invoice_no = "INV-1";
  customer_name = "Budi";
  amount = pos 111;
  channel = PaymentChannel.qris;
  status = status;
  va_number = none;
  qr_payload = none;
  gateway_reference = some 77;
  expires_at = 900;
  paid_at = none;
  created_at = 1;
}

abbrev pub waiting_intent : PaymentIntent
waiting_intent = intent_with 6 PaymentIntentStatus.pending

abbrev pub paid_intent : PaymentIntent
paid_intent = intent_with 7 PaymentIntentStatus.paid

abbrev pub credit : SlaCredit
credit = record {
  id = 4;
  customer_id = some 1;
  customer_name = "Budi";
  amount = pos 10;
  reason = "SLA";
  ticket_id = none;
  ticket_code = none;
  status = SlaCreditStatus.pending;
  applied_invoice_id = none;
  applied_at = none;
  created_at = 1;
  updated_at = 1;
}

abbrev pub voucher : Voucher
voucher = record {
  id = 3;
  code = "V3";
  batch_id = 1;
  profile = "10M";
  price_idr = pos 130;
  duration_days = 30;
  status = VoucherStatus.unused;
  used_at = none;
  used_by = none;
  redeemed_customer_id = none;
  reseller_id = none;
  created_at = 1;
  updated_at = 1;
}

abbrev pub reseller : Reseller
reseller = record {
  id = 5;
  name = "Mitra";
  area = "Utara";
  balance = pos 20;
  commission_pct = 10000;
  status = ResellerStatus.active;
  created_at = 1;
  updated_at = 1;
}

abbrev pub topup : LedgerEntry
topup = record {
  id = 1;
  reseller_id = 5;
  type = LedgerType.topup;
  amount = pos 20;
  note = "";
  balance_after = pos 20;
  ref = none;
  at = 1;
}

abbrev pub payout_of : ℕ → PayoutStatus → Payout
payout_of id status = record {
  id = id;
  reseller_id = 5;
  amount = pos 15;
  status = status;
  note = "";
  requested_by = none;
  decided_by = none;
  ledger_entry_id = none;
  created_at = 1;
  updated_at = 1;
  decided_at = none;
}

abbrev pub customer : Customer
customer = record {
  id = 1;
  customer_no = "CUST-1";
  full_name = "Budi";
  plan_id = 1;
  status = CustomerStatus.isolir;
  hold_reason = some HoldReason.overdue;
  outstanding = pos 172;
  reseller_id = some 5;
  connection = none;
  odp_id = none;
  user_id = none;
  updated_at = 1;
}

abbrev pub secret : Secret
secret = record {
  id = 1;
  router_id = 1;
  username = "cust1";
  profile_id = 1;
  profile_name = "10M";
  customer_id = some 1;
  customer_name = some "Budi";
  disabled = true;
  updated_at = 1;
}

abbrev pub item_of : ℕ → InventoryStatus → InventoryItem
item_of id status = record {
  id = id;
  kind = InventoryKind.onu;
  serial = "ZTE";
  status = status;
  assigned_to = none;
  assigned_customer_id = none;
  created_at = id;
  updated_at = 1;
}

abbrev pub movement_of : ℕ → MovementType → StockMovement
movement_of item type = record {
  id = item;
  item_id = item;
  serial = "ZTE";
  kind = InventoryKind.onu;
  type = type;
  note = "";
  work_order_id = none;
  at = 1;
}

abbrev pub ticket_of : ℕ → TicketStatus → Ticket
ticket_of id status = record {
  id = id;
  code = "TKT-1";
  subject = "Lambat";
  customer_id = some 1;
  customer_name = "Budi";
  priority = TicketPriority.urgent;
  status = status;
  assignee = none;
  sla_due_at = 14400001;
  category = none;
  photo_url = none;
  csat_rating = none;
  csat_comment = none;
  csat_at = none;
  created_at = 1;
  updated_at = 1;
}

abbrev pub order_of : ℕ → WorkOrderStatus → WorkOrder
order_of id status = record {
  id = id;
  code = "WO-1";
  type = WorkOrderType.install;
  customer_id = some 1;
  customer_name = "Budi";
  technician = none;
  scheduled_at = 5;
  status = status;
  ticket_id = none;
  scanned_onu_serial = none;
  measured_rx_power = none;
  completion_notes = none;
  completed_at = none;
  completed_by = none;
  created_at = 1;
  updated_at = 1;
}

abbrev pub plan_of : ℕ → ℤ → Plan
plan_of id price = record { id = id; name = "10M"; price_monthly = price }

abbrev pub db : Db
db = record {
  invoices = first_invoice ∷ second_invoice ∷ settled_invoice ∷ [];
  payments = [];
  payment_intents = waiting_intent ∷ paid_intent ∷ [];
  customers = customer ∷ [];
  sla_credits = credit ∷ [];
  vouchers = voucher ∷ [];
  resellers = reseller ∷ [];
  reseller_ledger = topup ∷ [];
  reseller_payouts = payout_of 7 PayoutStatus.approved ∷ payout_of 8 PayoutStatus.requested ∷ [];
  ppp_secrets = secret ∷ [];
  inventory_items =
      item_of 11 InventoryStatus.warehouse ∷ item_of 12 InventoryStatus.installed ∷ [];
  stock_movements =
      movement_of 12 MovementType.assign
      ∷ movement_of 12 MovementType.stocked
      ∷ movement_of 11 MovementType.stocked
      ∷ [];
  tickets = ticket_of 21 TicketStatus.in_progress ∷ ticket_of 22 TicketStatus.resolved ∷ [];
  ticket_events = [];
  work_orders = order_of 31 WorkOrderStatus.scheduled ∷ order_of 32 WorkOrderStatus.done ∷ [];
  plans = plan_of 1 (pos 100) ∷ plan_of 2 (pos 150) ∷ [];
  routers = record { id = 1; name = "R1"; secret_count = pos 1; updated_at = 1 } ∷ [];
  ppp_profiles =
      record { id = 1; router_id = 1; name = "10M"; rate_limit = "10M"; is_isolir = false } ∷ [];
  odp_records = record { id = "odp-1"; total_ports = 8; used_ports = 7; updated_at = 1 } ∷ [];
  coverage_areas = record { name = "Kota"; status = CoverageStatus.operational } ∷ [];
  leads =
      record {
        id = 4;
        name = "Sari";
        area_name = "Kota";
        plan_name = "10M";
        stage = LeadStage.quote;
        reseller_id = none;
        updated_at = 1;
      }
      ∷ [];
  contracts = [];
  portal_users = [];
}

abbrev pub transfer_of : ℤ → PaymentInput
transfer_of amount = record {
  amount = amount;
  method = PaymentMethod.transfer;
  tendered_amount = none;
  change_amount = none;
}
