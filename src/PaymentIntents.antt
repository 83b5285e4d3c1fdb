-- ===== src/PaymentIntents.antt =====
-- PaymentIntentsRepository and PaymentIntentsService
-- (src/modules/invoices/payment-intents.repository.ts, payment-intents.service.ts): a charge at the
-- gateway and its settlement.
pub mod Gateway
pub mod Waiting
use mathlib.Core.Option
use isp_cms_be.Prelude.{
  ℕ, ℤ, pos, leb_ℤ, eqb_ℤ, String, Bool, true, false, not, ◌&&◌, ◌||◌, Option, none, some, List,
  ◌∷◌, ltb, leb, ◌==◌, if◌then◌else◌,
}
use isp_cms_be.Prelude.Table.{find, update_where, select_where, count_where}
use isp_cms_be.Store.Rows.{
  Invoice, PaymentIntent, PaymentIntentStatus, PaymentChannel, PaymentMethod,
}
use isp_cms_be.Store.Monad.{
  Db, Server, Action, Result, ok, err, Exception, not_found, conflict, pure, throw, gets, or_throw,
  throw_if, modify, ◌>>=◌, ◌>>◌,
}
use isp_cms_be.Store.Statements.{find_invoice}
use isp_cms_be.Balance.{balance_due, is_paid}
use isp_cms_be.Payments.{pay}

abbrev pub intent_at : ℕ → PaymentIntent → Bool
intent_at k r = r.id == k

-- `findById`
abbrev pub find_intent : ℕ → Db → Option PaymentIntent
find_intent k db = find (intent_at k) db.payment_intents

abbrev pub is_intent_pending : PaymentIntentStatus → Bool
is_intent_pending PaymentIntentStatus.pending = true
is_intent_pending PaymentIntentStatus.paid = false
is_intent_pending PaymentIntentStatus.expired = false

unfoldable pub set_intents :
    (PaymentIntent → Bool) → (PaymentIntent → PaymentIntent) → Action (Unit {0})
set_intents p f = modify λ db. record db { payment_intents = update_where p f db.payment_intents }

abbrev pub with_paid : Server → PaymentIntent → PaymentIntent
with_paid srv i = record i { status = PaymentIntentStatus.paid; paid_at = some srv.now }

abbrev pub with_expired : PaymentIntent → PaymentIntent
with_expired i = record i { status = PaymentIntentStatus.expired }

-- `markPaid`
unfoldable pub mark_intent_paid : Server → ℕ → Action PaymentIntent
unfolding set_intents
mark_intent_paid srv id = do
  row ← gets (find_intent id)
  set_intents (intent_at id) (with_paid srv)
  found ← or_throw row (not_found "payment intent not found")
  pure (with_paid srv found)

-- `markExpired`
unfoldable pub mark_intent_expired : ℕ → Action (Unit {0})
unfolding set_intents
mark_intent_expired id = set_intents (intent_at id) with_expired

abbrev pub is_stale : ℕ → PaymentIntent → Bool
is_stale now i = is_intent_pending i.status && ltb i.expires_at now

-- `expireStalePending`: how many it expired; `expireStale` of the service
unfoldable pub expire_stale_pending : Server → Action ℕ
unfolding set_intents
expire_stale_pending srv = do
  n ← gets (λ db. count_where (is_stale srv.now) db.payment_intents)
  set_intents (is_stale srv.now) with_expired
  pure n

-- `channelToMethod`
unfoldable pub channel_to_method : PaymentChannel → PaymentMethod
channel_to_method PaymentChannel.qris = PaymentMethod.qris
channel_to_method PaymentChannel.va_bca = PaymentMethod.va
channel_to_method PaymentChannel.va_mandiri = PaymentMethod.va
channel_to_method PaymentChannel.va_bri = PaymentMethod.va
channel_to_method PaymentChannel.va_bni = PaymentMethod.va
channel_to_method PaymentChannel.gopay = PaymentMethod.ewallet
channel_to_method PaymentChannel.ovo = PaymentMethod.ewallet
channel_to_method PaymentChannel.dana = PaymentMethod.ewallet
channel_to_method PaymentChannel.shopeepay = PaymentMethod.ewallet

-- what `PaymentGateway.createCharge` answers
pub record Charge : Type 0 where
  pub reference : Option ℕ
  pub pay_code : Option String
  pub qr_payload : Option String
  pub checkout_url : Option String
  pub expires_at : ℕ

abbrev pub or_else {ℓ} : {A : Type ℓ} → Option A → Option A → Option A
or_else none b = b
or_else (some a) b = some a

abbrev pub intent_row : Server → Invoice → PaymentChannel → Charge → PaymentIntent
intent_row srv inv channel charge = record {
  id = srv.key;
  invoice_id = inv.id;
  invoice_no = inv.invoice_no;
  customer_name = inv.customer_name;
  amount = balance_due inv;
  channel = channel;
  status = PaymentIntentStatus.pending;
  va_number = charge.pay_code;
  qr_payload = or_else charge.qr_payload charge.checkout_url;
  gateway_reference = charge.reference;
  expires_at = charge.expires_at;
  paid_at = none;
  created_at = srv.now;
}

-- The gateway is code of its own (payment-gateway/); its answer to a charge is an argument.
-- `create`
unfoldable pub create :
    Server → (ℕ → ℤ → PaymentChannel → Charge) → ℕ → PaymentChannel → Action PaymentIntent
create srv create_charge invoice_id channel = do
  inv ← or_throw (← gets (find_invoice invoice_id)) (not_found "invoice not found")
  throw_if (is_paid inv.status) (conflict "invoice already paid")
  throw_if (leb_ℤ (balance_due inv) (pos 0)) (conflict "invoice has no balance due")
  let row = intent_row srv inv channel (create_charge srv.key (balance_due inv) channel)
  modify λ db. record db { payment_intents = row ∷ db.payment_intents }
  pure row

-- `createForCustomer`: only for the customer's own invoice
unfoldable pub create_for_customer :
    Server → (ℕ → ℤ → PaymentChannel → Charge) → ℕ → ℕ → PaymentChannel → Action PaymentIntent
unfolding create
create_for_customer srv create_charge customer_id invoice_id channel = do
  inv ← or_throw (← gets (find_invoice invoice_id)) (not_found "invoice not found")
  throw_if (not (inv.customer_id == customer_id)) (not_found "invoice not found")
  create srv create_charge invoice_id channel

-- `findForCustomer`
unfoldable pub find_for_customer : ℕ → ℕ → Action PaymentIntent
find_for_customer customer_id id = do
  intent ← or_throw (← gets (find_intent id)) (not_found "payment intent not found")
  inv ← or_throw (← gets (find_invoice intent.invoice_id)) (not_found "invoice not found")
  throw_if (not (inv.customer_id == customer_id)) (not_found "payment intent not found")
  pure intent

pub data Refusal : Type 0 where
  unknown_intent reference_mismatch amount_mismatch : Refusal

-- `SettleFromGatewayResult`
pub data Settlement : Type 0 where
  settled : Settlement
  refused : Refusal → Settlement

-- what the verified callback carries
pub record Callback : Type 0 where
  pub reference : ℕ
  pub invoice_ref : ℕ
  pub amount : ℤ

-- `intent.gatewayReference && intent.gatewayReference !== parsed.reference`
abbrev pub mismatches : Option ℕ → ℕ → Bool
mismatches none reference = false
mismatches (some expected) reference = not (expected == reference)

module _ (round_share : ℤ → ℕ → ℤ) where
  -- `settleIntent`
  unfoldable pub settle_intent : Server → PaymentIntent → Action PaymentIntent
  unfolding mark_intent_paid
  settle_intent srv intent = do
    pay round_share srv intent.invoice_id (record {
      amount = none;
      method = channel_to_method intent.channel;
      tendered_amount = none;
    })
    mark_intent_paid srv intent.id

  -- `confirm`
  unfoldable pub confirm : Server → ℕ → Action PaymentIntent
  unfolding settle_intent mark_intent_expired
  confirm srv id = do
    intent ← or_throw (← gets (find_intent id)) (not_found "payment intent not found")
    elim intent.status [
      | PaymentIntentStatus.paid ↦ pure intent
      | PaymentIntentStatus.expired ↦ throw (conflict "payment intent expired")
      | PaymentIntentStatus.pending ↦
          if leb intent.expires_at srv.now
          then (mark_intent_expired id >> throw (conflict "payment intent expired"))
          else settle_intent srv intent
    ]

  -- `settleFromGateway` on an intent that is not paid
  unfoldable pub settle_unpaid : Server → Callback → PaymentIntent → Action Settlement
  unfolding settle_intent
  settle_unpaid srv parsed intent =
      if mismatches intent.gateway_reference parsed.reference
      then pure (refused reference_mismatch)
      else (do
        inv ← or_throw (← gets (find_invoice intent.invoice_id)) (not_found "invoice not found")
        if eqb_ℤ (balance_due inv) parsed.amount
            then (settle_intent srv intent >> pure settled)
            else pure (refused amount_mismatch))

  -- `settleFromGateway`
  unfoldable pub settle_from_gateway : Server → Callback → Action Settlement
  unfolding settle_unpaid
  settle_from_gateway srv parsed = do
    found ← gets (find_intent parsed.invoice_ref)
    elim found [
      | none ↦ pure (refused unknown_intent)
      | some intent ↦ elim intent.status [
        | PaymentIntentStatus.paid ↦ pure settled
        | PaymentIntentStatus.pending ↦ settle_unpaid srv parsed intent
        | PaymentIntentStatus.expired ↦ settle_unpaid srv parsed intent
      ]
    ]

-- `markGatewayNonSettlement`
unfoldable pub mark_gateway_non_settlement : ℕ → Action (Unit {0})
unfolding mark_intent_expired
mark_gateway_non_settlement invoice_ref = do
  found ← gets (find_intent invoice_ref)
  elim found [
    | none ↦ pure tt
    | some intent ↦
        if is_intent_pending intent.status then mark_intent_expired intent.id else pure tt
  ]
