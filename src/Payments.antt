-- ===== src/Payments.antt =====
-- InvoicesService.pay (src/modules/invoices/invoices.service.ts): the checks of a payment, its
-- recording, the switch of the PPPoE secret (router-resources/secrets.repository.ts), and the
-- reseller's commission.
use isp_cms_be.Prelude.{
  ℕ, zero, suc, ℤ, pos, ◌-ℤ◌, ltb_ℤ, leb_ℤ, String, Bool, true, false, Option, none, some,
  if◌then◌else◌,
}
pub mod Paying
use Prim.Native.String.{◌++◌}
use isp_cms_be.Prelude.Table.{update_where, holds_key}
use isp_cms_be.Store.Rows.{Invoice, PaymentMethod, Secret, Customer, Reseller}
use isp_cms_be.Store.Monad.{
  Db, Server, Action, Result, ok, err, Exception, not_found, bad_request, unprocessable, pure,
  throw, gets, or_throw, throw_if, modify, ◌>>=◌, ◌>>◌,
}
use isp_cms_be.Store.Statements.{find_invoice, find_customer}
use isp_cms_be.Balance.{invoice_total, balance_of, is_paid}
use isp_cms_be.Secrets.{set_disabled_by_customer_id}
use isp_cms_be.Resellers.{find_reseller, post_commission_for_invoice}
use isp_cms_be.Invoices.{PaymentInput, record_payment}

pub record PayInput : Type 0 where
  pub amount : Option ℤ
  pub method : PaymentMethod
  pub tendered_amount : Option ℤ

abbrev pub get_or : ℤ → Option ℤ → ℤ
get_or d none = d
get_or d (some a) = a

abbrev pub is_cash : PaymentMethod → Bool
is_cash PaymentMethod.cash = true
is_cash PaymentMethod.qris = false
is_cash PaymentMethod.va = false
is_cash PaymentMethod.ewallet = false
is_cash PaymentMethod.transfer = false

-- the tendered amount and the change of a cash payment; null for the other rails
abbrev pub tender : PayInput → ℤ → Action (PaymentInput)
tender input amount =
    let tendered = get_or amount input.tendered_amount in
    if is_cash input.method
    then (throw_if (ltb_ℤ tendered amount)
          (bad_request "Uang yang diterima kurang dari jumlah pembayaran")
        >> pure (record {
          amount = amount;
          method = input.method;
          tendered_amount = some tendered;
          change_amount = some (tendered -ℤ amount);
        }))
    else pure (record {
      amount = amount;
      method = input.method;
      tendered_amount = none;
      change_amount = none;
    })

-- `Math.round(total * pct)` is a float operation of the language and comes as an argument.
module _ (round_share : ℤ → ℕ → ℤ) where
  -- `postResellerCommission` once the customer and the reseller are read
  unfoldable pub post_share : Server → ℕ → ℤ → Reseller → Action (Unit {0})
  post_share srv invoice_id total reseller =
      let share = round_share total reseller.commission_pct in
      if leb_ℤ share (pos 0)
      then pure tt
      else (post_commission_for_invoice srv reseller.id share invoice_id
            ("Komisi tagihan " ++ srv.id_text invoice_id)
          >> pure tt)

  -- `postResellerCommission`
  unfoldable pub post_reseller_commission : Server → ℕ → ℕ → ℤ → Action (Unit {0})
  unfolding post_share
  post_reseller_commission srv customer_id invoice_id total = do
    customer ← gets (find_customer customer_id)
    elim customer [
      | none ↦ pure tt
      | some c ↦ elim c.reseller_id [
        | none ↦ pure tt
        | some reseller_id ↦ do
          reseller ← gets (find_reseller reseller_id)
          elim reseller [
            | none ↦ pure tt
            | some r ↦ elim r.commission_pct [
              | zero ↦ pure tt
              | suc _ ↦ post_share srv invoice_id total r
            ]
          ]
      ]
    ]

  -- what follows a recorded payment
  unfoldable pub after_payment : Server → Invoice → Invoice → Bool → Action Invoice
  after_payment srv inv updated reactivated = do
    if reactivated then set_disabled_by_customer_id srv inv.customer_id false else pure tt
    if is_paid updated.status
        then post_reseller_commission srv inv.customer_id inv.id (invoice_total inv)
        else pure tt
    pure updated

  -- `pay` on an invoice that is not paid
  unfoldable pub pay_open : Server → ℕ → PayInput → Invoice → Action Invoice
  pay_open srv id input inv = do
    let amount = get_or (balance_of inv) input.amount
    throw_if (leb_ℤ amount (pos 0)) (bad_request "Jumlah pembayaran harus lebih dari nol")
    throw_if (ltb_ℤ (balance_of inv) amount)
        (unprocessable "Jumlah pembayaran melebihi sisa tagihan")
    payment ← tender input amount
    (updated, reactivated) ← record_payment srv id payment
    after_payment srv inv updated reactivated

  -- `pay`
  unfoldable pub pay : Server → ℕ → PayInput → Action Invoice
  unfolding pay_open
  pay srv id input = do
    inv ← or_throw (← gets (find_invoice id)) (not_found "invoice not found")
    if is_paid inv.status then pure inv else pay_open srv id input inv
