-- ===== src/Vouchers.antt =====
-- VouchersRepository (src/modules/vouchers/vouchers.repository.ts): the settlement of a voucher at
-- the counter, which pays the subscriber's invoices, oldest first.
pub mod Settling
pub mod Leftover
pub mod Redeemed
use mathlib.Core.Option
use isp_cms_be.Prelude.{
  ℕ, ℤ, pos, ◌+ℤ◌, ◌-ℤ◌, min_ℤ, leb_ℤ, String, Bool, true, false, Option, none, some, List, [], ◌∷◌,
  ◌==◌, if◌then◌else◌,
}
use text.Mathlib.Text.{◌==◌ as str_eq}
use isp_cms_be.Prelude.Table.{find, select_where, update_where, order_by}
use isp_cms_be.Store.Rows.{
  Invoice, InvoiceStatus, Payment, PaymentMethod, PaymentSource, Customer, Voucher, VoucherStatus,
}
use isp_cms_be.Store.Monad.{
  Db, Server, Action, Result, ok, err, Exception, not_found, unprocessable, pure, throw, gets,
  or_throw, transaction, ◌>>=◌, ◌>>◌,
}
use isp_cms_be.Store.Statements.{
  invoice_at, find_customer, update_invoices, insert_payment, store_outstanding,
}
use isp_cms_be.Balance.{invoice_total, balance_of, owed_by}

abbrev pub voucher_at : ℕ → Voucher → Bool
voucher_at k r = r.id == k

-- `findById`, without the joined reseller name
abbrev pub find_voucher : ℕ → Db → Option Voucher
find_voucher k db = find (voucher_at k) db.vouchers

-- `update(vouchers).set(f).where(p).returning()`, of which the code takes the first row
unfoldable pub update_vouchers : (Voucher → Bool) → (Voucher → Voucher) → Action (Option Voucher)
update_vouchers p f db =
    (ok (Option.map f (find p db.vouchers)), record db { vouchers = update_where p f db.vouchers })

-- the `set` of an invoice that `allocateToInvoices` pays `applied` to, from the locked row
abbrev pub set_allocation : Server → ℤ → Invoice → Invoice → Invoice
set_allocation srv applied locked r =
    let paid = locked.paid_amount +ℤ applied in
    let full = leb_ℤ (invoice_total locked) paid in
    record r {
      paid_amount = paid;
      status = if full then InvoiceStatus.paid else InvoiceStatus.partial;
      paid_at = if full then some srv.now else locked.paid_at;
      updated_at = srv.now;
    }

-- The loop of `allocateToInvoices`: the amount left over and the invoices afterwards. An invoice
-- with no balance is skipped; at nothing left the loop ends.
unfoldable pub allocate : Server → ℤ → List Invoice → List Invoice → ℤ × List Invoice
allocate srv remaining [] rows = (remaining, rows)
allocate srv remaining (inv ∷ unpaid) rows =
    let balance = balance_of inv in
    let applied = min_ℤ remaining balance in
    let skipped = allocate srv remaining unpaid rows in
    let paid =
      allocate srv (remaining -ℤ applied) unpaid
        (update_where (invoice_at inv.id) (set_allocation srv applied inv) rows) in
    if leb_ℤ remaining (pos 0)
    then (remaining, rows)
    else (if leb_ℤ balance (pos 0) then skipped else paid)

-- the customer's unpaid invoices, oldest due date first
abbrev pub unpaid_of : ℕ → Db → List Invoice
unpaid_of customer_id db =
    order_by (λ (r : Invoice). r.due_date) (select_where (owed_by customer_id) db.invoices)

-- `allocateToInvoices`
unfoldable pub allocate_to_invoices : Server → ℕ → ℤ → Action (Unit {0})
unfolding allocate store_outstanding
allocate_to_invoices srv customer_id amount db = elim (unpaid_of customer_id db) [
  | [] ↦ (ok tt, db)
  | inv ∷ rest ↦
      store_outstanding srv customer_id
        (record db { invoices = (allocate srv amount (inv ∷ rest) db.invoices).1 })
]

pub record SettleInput : Type 0 where
  pub redeemed_customer_id : Option ℕ
  pub used_by : Option String

abbrev pub or_else {ℓ} : {A : Type ℓ} → Option A → Option A → Option A
or_else none b = b
or_else (some a) b = some a

-- `opts.usedBy ? ...`: an empty text counts as absent
abbrev pub non_empty : Option String → Option String
non_empty none = none
non_empty (some text) = if str_eq text "" then none else some text

-- the `set` of `settle`: `used_by` falls back to the column and then to the counter's label
abbrev pub with_redemption : Server → SettleInput → Voucher → Voucher
with_redemption srv opts v = record v {
  status = VoucherStatus.used;
  used_at = some srv.now;
  used_by = or_else (non_empty opts.used_by) (or_else v.used_by (some "Admin (manual)"));
  redeemed_customer_id = or_else opts.redeemed_customer_id v.redeemed_customer_id;
  updated_at = srv.now;
}

abbrev pub voucher_payment : Server → ℕ → SettleInput → Option String → ℤ → Payment
voucher_payment srv id opts name price = record {
  id = srv.key;
  invoice_id = none;
  invoice_no = none;
  customer_id = opts.redeemed_customer_id;
  customer_name = name;
  amount = price;
  method = PaymentMethod.cash;
  source = PaymentSource.voucher;
  voucher_id = some id;
  tendered_amount = some price;
  change_amount = some (pos 0);
  paid_at = srv.now;
  created_at = srv.now;
}

-- the allocation to the subscriber, and the name for the payment row
unfoldable pub credit_subscriber : Server → SettleInput → Voucher → Action (Option String)
unfolding allocate_to_invoices
credit_subscriber srv opts redeemed = elim opts.redeemed_customer_id [
  | none ↦ pure redeemed.used_by
  | some customer_id ↦ do
    customer ← gets (find_customer customer_id)
    elim customer [
      | none ↦ pure redeemed.used_by
      | some c ↦ allocate_to_invoices srv customer_id redeemed.price_idr >> pure (some c.full_name)
    ]
]

-- `settle` of an unused voucher
unfoldable pub settle_unused : Server → ℕ → SettleInput → Action Voucher
unfolding update_vouchers credit_subscriber insert_payment
settle_unused srv id opts = do
  row ← update_vouchers (voucher_at id) (with_redemption srv opts)
  redeemed ← or_throw row (not_found "voucher not found")
  name ← credit_subscriber srv opts redeemed
  insert_payment (voucher_payment srv id opts name redeemed.price_idr)
  pure redeemed

-- `settle`
unfoldable pub settle : Server → ℕ → SettleInput → Action Voucher
unfolding settle_unused transaction
settle srv id opts = transaction do
  voucher ← or_throw (← gets (find_voucher id)) (not_found "voucher not found")
  elim voucher.status [
    | VoucherStatus.used ↦ pure voucher
    | VoucherStatus.expired ↦ throw (unprocessable "Voucher sudah kedaluwarsa, tidak bisa ditukar")
    | VoucherStatus.unused ↦ settle_unused srv id opts
  ]
