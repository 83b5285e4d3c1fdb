-- ===== src/PaymentIntents/Gateway.antt =====
-- A callback of the gateway (`settleFromGateway`): what it may change.

use isp_cms_be.Prelude.{
  ℕ, ℤ, pos, max_ℤ_positive, ltb_ℤ, leb_ℤ, eqb_ℤ, Bool, true, false, none, some, ◌∷◌, ◌≡◌, ◌≢◌,
  refl, sym, ap, ◌∙◌, inl, inr, arith, Bool-cases, Option-cases, subst,
}
use isp_cms_be.Prelude.Table.{find, update_where}
use isp_cms_be.Prelude.Table.Laws.{find_holds, find-update_self}
use isp_cms_be.Store.Rows.{Invoice, PaymentIntent, PaymentIntentStatus}
use isp_cms_be.Store.Monad.{Db, Server, Result, ok, err}
use isp_cms_be.Store.Statements.{invoice_at, find_invoice}
use isp_cms_be.Balance.{balance_of, balance_due, is_paid}
use isp_cms_be.Invoices.{PaymentInput, payment_row, set_payment}
use isp_cms_be.Payments.{PayInput, pay, tender}
use isp_cms_be.Payments.Paying.{pay-stored}
use isp_cms_be.PaymentIntents.{
  intent_at, find_intent, set_intents, with_paid, mark_intent_paid, channel_to_method, settled,
  refused, Refusal, Callback, mismatches, settle_intent, settle_unpaid, settle_from_gateway,
}

abbrev pub is_intent_paid : PaymentIntentStatus → Bool
is_intent_paid PaymentIntentStatus.paid = true
is_intent_paid PaymentIntentStatus.pending = false
is_intent_paid PaymentIntentStatus.expired = false

intent_paid_sound :
    (s : PaymentIntentStatus) → is_intent_paid s ≡ true → s ≡ PaymentIntentStatus.paid
intent_paid_sound s h = ground arith

mark_intent_paid-found :
    (srv : Server) (id : ℕ) (i : PaymentIntent) (d d' : Db)
    → mark_intent_paid srv id d ≡ (ok i, d')
    → (j : PaymentIntent) × (find_intent id d' ≡ some j) × (j.status ≡ PaymentIntentStatus.paid)
unfolding mark_intent_paid set_intents
mark_intent_paid-found srv id i d d' e = elim (Option-cases (find_intent id d)) [
  | inl missing ↦ absurd (ground arith)
  | inr (j, found) ↦
      let updated : d'.payment_intents
          ≡ update_where (intent_at id) (with_paid srv) d.payment_intents =
        ground arith in
      (
        with_paid srv j,
        ap (find (intent_at id)) updated
            ∙ find-update_self (λ (r : PaymentIntent). r.id) id (with_paid srv) d.payment_intents
                (λ r. refl)
            ∙ rw found refl,
        refl,
      )
]

-- What a settlement pays: no cash changes hands.
abbrev pub gateway_payment : PaymentIntent → ℤ → PaymentInput
gateway_payment intent amount = record {
  amount = amount;
  method = channel_to_method intent.channel;
  tendered_amount = none;
  change_amount = none;
}

module _ (round_share : ℤ → ℕ → ℤ) where
  paid_again :
      (srv : Server) (parsed : Callback) (d : Db) (j : PaymentIntent)
      → find_intent parsed.invoice_ref d ≡ some j
      → j.status ≡ PaymentIntentStatus.paid
      → settle_from_gateway round_share srv parsed d ≡ (ok settled, d)
  unfolding settle_from_gateway
  paid_again srv parsed d j found done = ground arith

  not_settled :
      (srv : Server) (parsed : Callback) (db d : Db)
      → find_intent parsed.invoice_ref db ≡ none
      → settle_from_gateway round_share srv parsed db ≢ (ok settled, d)
  unfolding settle_from_gateway
  not_settled srv parsed db d missing e = absurd (ground arith)

  already :
      (srv : Server) (parsed : Callback) (db d : Db) (j : PaymentIntent)
      → find_intent parsed.invoice_ref db ≡ some j
      → is_intent_paid j.status ≡ true
      → settle_from_gateway round_share srv parsed db ≡ (ok settled, d)
      → d ≡ db
  unfolding settle_from_gateway
  already srv parsed db d j found done e = ground arith

  unpaid_step :
      (srv : Server) (parsed : Callback) (d : Db) (j : PaymentIntent)
      → find_intent parsed.invoice_ref d ≡ some j
      → is_intent_paid j.status ≡ false
      → settle_from_gateway round_share srv parsed d ≡ settle_unpaid round_share srv parsed j d
  unfolding settle_from_gateway
  unpaid_step srv parsed d j found open' = ground arith

  unpaid_settles :
      (srv : Server) (parsed : Callback) (d d' : Db) (j : PaymentIntent)
      (o : Result PaymentIntent × Db)
      → settle_intent round_share srv j d ≡ o
      → settle_unpaid round_share srv parsed j d ≡ (ok settled, d')
      → (i : PaymentIntent) × (settle_intent round_share srv j d ≡ (ok i, d'))
  unfolding settle_unpaid
  unpaid_settles srv parsed d d' j (ok i, d'') outcome e = (i, ground arith)
  unpaid_settles srv parsed d d' j (err x, d'') outcome e = absurd (ground arith)

  settles_marked :
      (srv : Server) (i j : PaymentIntent) (d d' : Db) (o : Result Invoice × Db)
      → pay round_share srv j.invoice_id
          (record { amount = none; method = channel_to_method j.channel; tendered_amount = none })
          d
        ≡ o
      → settle_intent round_share srv j d ≡ (ok i, d')
      → (e : Db) × (mark_intent_paid srv j.id e ≡ (ok i, d'))
  unfolding settle_intent
  settles_marked srv i j d d' (ok inv, e) outcome h = (e, ground arith)
  settles_marked srv i j d d' (err x, e) outcome h = absurd (ground arith)

  settled_from_unpaid :
      (srv : Server) (parsed : Callback) (db d : Db) (j : PaymentIntent)
      → find_intent parsed.invoice_ref db ≡ some j
      → settle_unpaid round_share srv parsed j db ≡ (ok settled, d)
      → (i : PaymentIntent) × (find_intent parsed.invoice_ref d ≡ some i)
        × (i.status ≡ PaymentIntentStatus.paid)
  settled_from_unpaid srv parsed db d j found e =
      let (i, marked) = unpaid_settles srv parsed db d j _ refl e in
      let (d', written) = settles_marked srv i j db d _ refl marked in
      let own : j.id ≡ parsed.invoice_ref =
        ground (arith, find_holds (intent_at parsed.invoice_ref) db.payment_intents found) in
      mark_intent_paid-found srv parsed.invoice_ref i d' d
        (subst (λ k. mark_intent_paid srv k d' ≡ (ok i, d)) own written)

  settled_paid :
      (srv : Server) (parsed : Callback) (db d : Db)
      → settle_from_gateway round_share srv parsed db ≡ (ok settled, d)
      → (j : PaymentIntent) × (find_intent parsed.invoice_ref d ≡ some j)
        × (j.status ≡ PaymentIntentStatus.paid)
  settled_paid srv parsed db d e = elim (Option-cases (find_intent parsed.invoice_ref db)) [
    | inl missing ↦ absurd (not_settled srv parsed db d missing e)
    | inr (j, found) ↦ elim (Bool-cases (is_intent_paid j.status)) [
      | inl done ↦
          (j, rw (already srv parsed db d j found done e) found, intent_paid_sound j.status done)
      | inr owing ↦
          settled_from_unpaid srv parsed db d j found
            (sym (unpaid_step srv parsed db j found owing) ∙ e)
    ]
  ]

  -- After a callback that answered `settled`, the same callback answers `settled` again and changes
  -- no table.
  pub settle_from_gateway-once :
      (srv srv' : Server) (parsed : Callback) (db d : Db)
      → settle_from_gateway round_share srv parsed db ≡ (ok settled, d)
      → settle_from_gateway round_share srv' parsed d ≡ (ok settled, d)
  settle_from_gateway-once srv srv' parsed db d e =
      let (j, found, done) = settled_paid srv parsed db d e in paid_again srv' parsed d j found done

  -- A callback that is answered with a refusal changes no table.
  pub settle_from_gateway-refused :
      (srv : Server) (parsed : Callback) (db d : Db) (r : Refusal)
      → settle_from_gateway round_share srv parsed db ≡ (ok (refused r), d)
      → d ≡ db
  unfolding settle_from_gateway settle_unpaid
  settle_from_gateway-refused srv parsed db d r e = ground arith

  module _ (srv : Server) (parsed : Callback) (db : Db) (intent : PaymentIntent)
      (inv : Invoice) where
    abbrev paid_input : PayInput
    paid_input = record {
      amount = none;
      method = channel_to_method intent.channel;
      tendered_amount = none;
    }

    exact_step :
        mismatches intent.gateway_reference parsed.reference ≡ false
        → find_invoice intent.invoice_id db ≡ some inv
        → eqb_ℤ (balance_due inv) parsed.amount ≡ true
        → (settle_unpaid round_share srv parsed intent db).1
          ≡ (settle_intent round_share srv intent db).1
    unfolding settle_unpaid
    exact_step genuine here exact = ground arith

    settle_intent-books :
        let d = (pay round_share srv intent.invoice_id paid_input db).1 in
        let d' = (settle_intent round_share srv intent db).1 in
        (d'.payments ≡ d.payments) × (d'.invoices ≡ d.invoices)
    unfolding settle_intent mark_intent_paid set_intents
    settle_intent-books = (ground arith, ground arith)

    exact_amount :
        leb_ℤ parsed.amount (pos 0) ≡ false
        → eqb_ℤ (balance_due inv) parsed.amount ≡ true
        → balance_of inv ≡ parsed.amount
    unfolding balance_due balance_of
    exact_amount positive exact = max_ℤ_positive (balance_of inv) parsed.amount positive exact

    not_cash : (amount : ℤ) → tender paid_input amount db ≡ (ok (gateway_payment intent amount), db)
    unfolding channel_to_method
    not_cash amount = ground arith

    self_covers : ltb_ℤ (balance_of inv) (balance_of inv) ≡ false
    self_covers = ground arith

  -- A gateway callback for an intent that is not paid, whose reference does not mismatch, whose
  -- amount is positive and equals the balance due of an invoice that is not paid, adds exactly one
  -- payment of that amount and adds that amount to exactly that invoice, even when a later step
  -- throws.
  pub settle_from_gateway-books :
      (srv : Server) (parsed : Callback) (db : Db) (intent : PaymentIntent) (inv : Invoice)
      → find_intent parsed.invoice_ref db ≡ some intent
      → is_intent_paid intent.status ≡ false
      → mismatches intent.gateway_reference parsed.reference ≡ false
      → find_invoice intent.invoice_id db ≡ some inv
      → is_paid inv.status ≡ false
      → leb_ℤ parsed.amount (pos 0) ≡ false
      → eqb_ℤ (balance_due inv) parsed.amount ≡ true
      → let d = (settle_from_gateway round_share srv parsed db).1 in
        (d.payments ≡ payment_row srv (gateway_payment intent parsed.amount) inv ∷ db.payments)
        × (d.invoices
            ≡ update_where
                (invoice_at intent.invoice_id)
                (set_payment srv parsed.amount inv)
                db.invoices)
  settle_from_gateway-books srv parsed db intent inv found owing genuine here unpaid positive
        exact =
      let amount : balance_of inv ≡ parsed.amount =
        exact_amount srv parsed db intent inv positive exact in
      let kept = settle_intent-books srv parsed db intent inv in
      let stored =
        pay-stored round_share srv intent.invoice_id (paid_input srv parsed db intent inv) db inv
          (gateway_payment intent (balance_of inv)) here unpaid (rw amount positive)
          (self_covers srv parsed db intent inv)
          (not_cash srv parsed db intent inv (balance_of inv)) in
      rw
        (
          unpaid_step srv parsed db intent found owing,
          exact_step srv parsed db intent inv genuine here exact,
          sym amount,
        )
        (kept.0 ∙ stored.1, kept.1 ∙ stored.0)
