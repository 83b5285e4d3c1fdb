-- ===== src/PaymentIntents/Waiting.antt =====
-- Only an intent that waits is changed by `markGatewayNonSettlement` and by the sweep of stale intents.
use isp_cms_be.Prelude.{
  ℕ, true, some, ◌≡◌, ◌≢◌, ◌⊎◌, refl, ap, ◌∙◌, inl, inr, arith, Bool-cases, Option-cases, subst,
}
use isp_cms_be.Prelude.Table.{find, update_where}
use isp_cms_be.Prelude.Table.Laws.{find_holds, find-update_ne, find-update_where}
use isp_cms_be.Store.Rows.{PaymentIntent, PaymentIntentStatus}
use isp_cms_be.Store.Monad.{Db, Server}
use isp_cms_be.PaymentIntents.{
  intent_at, find_intent, is_intent_pending, set_intents, with_expired, is_stale,
  mark_intent_expired, expire_stale_pending, mark_gateway_non_settlement,
}

waiting_not_paid :
    (db : Db) (k m : ℕ) (i j : PaymentIntent)
    → find_intent k db ≡ some i
    → i.status ≡ PaymentIntentStatus.paid
    → find_intent m db ≡ some j
    → is_intent_pending j.status ≡ true
    → k ≢ m
waiting_not_paid db k m i j found done there waits e =
    let same : i ≡ j = cc (subst (λ n. find_intent n db ≡ some i) e found) in absurd (ground arith)

non_settlement_step :
    (k : ℕ) (db : Db)
    → let d = (mark_gateway_non_settlement k db).1 in
      (d ≡ db)
      ⊎ ((j : PaymentIntent) × (find_intent k db ≡ some j)
          × (is_intent_pending j.status ≡ true)
          × (d.payment_intents ≡ update_where (intent_at j.id) with_expired db.payment_intents))
unfolding mark_gateway_non_settlement mark_intent_expired set_intents
non_settlement_step k db = elim (Option-cases (find_intent k db)) [
  | inl missing ↦ inl (ground arith)
  | inr (j, found) ↦ elim (Bool-cases (is_intent_pending j.status)) [
    | inl waits ↦ inr (j, found, waits, ground arith)
    | inr over ↦ inl (ground arith)
  ]
]

-- An intent that is found under its key and reads `paid` is the same row after any callback that is
-- no settlement.
pub mark_gateway_non_settlement-keeps_paid :
    (invoice_ref k : ℕ) (db : Db) (i : PaymentIntent)
    → find_intent k db ≡ some i
    → i.status ≡ PaymentIntentStatus.paid
    → find_intent k (mark_gateway_non_settlement invoice_ref db).1 ≡ some i
mark_gateway_non_settlement-keeps_paid invoice_ref k db i found done =
    elim (non_settlement_step invoice_ref db) [
      | inl same ↦ rw same found
      | inr (j, there, waits, moved) ↦
          let own : j.id ≡ invoice_ref =
            ground (arith, find_holds (intent_at invoice_ref) db.payment_intents there) in
          let other : k ≢ j.id =
            λ e. waiting_not_paid db k invoice_ref i j found done there waits (e ∙ own) in
          ap (find (intent_at k)) moved
          ∙ find-update_ne (λ (r : PaymentIntent). r.id) k j.id with_expired db.payment_intents
              (λ _. refl) other
          ∙ found
    ]

-- An intent that is found under its key and reads `paid` is the same row after the sweep of stale
-- intents.
pub expire_stale_pending-keeps_paid :
    (srv : Server) (k : ℕ) (db : Db) (i : PaymentIntent)
    → find_intent k db ≡ some i
    → i.status ≡ PaymentIntentStatus.paid
    → find_intent k (expire_stale_pending srv db).1 ≡ some i
unfolding expire_stale_pending set_intents
expire_stale_pending-keeps_paid srv k db i found done =
    find-update_where (intent_at k) (is_stale srv.now) with_expired db.payment_intents (λ _. refl)
    ∙ rw (found, done) refl
