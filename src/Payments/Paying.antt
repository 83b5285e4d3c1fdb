-- ===== src/Payments/Paying.antt =====
-- A payment through the service: what is stored once the recording has gone through, whatever
-- happens to the steps after it.

use Prim.Native.String.{◌++◌}
use isp_cms_be.Prelude.{
  ◌⊎◌, ℕ, ℤ, pos, ◌-ℤ◌, ltb_ℤ, leb_ℤ, String, Bool, true, false, some, ◌==◌, ◌≡◌, refl, ◌∙◌, inl,
  inr, arith, Bool-cases, Option-cases,
}
use isp_cms_be.Store.Rows.{Invoice, Reseller, LedgerType}
use isp_cms_be.Store.Monad.{Db, Server, ok}
use isp_cms_be.Store.Statements.{find_invoice, find_customer}
use isp_cms_be.Balance.{invoice_total, balance_of, is_paid}
use isp_cms_be.Resellers.{LedgerInput, find_reseller, add_ledger_entry, post_commission_for_invoice}
use isp_cms_be.Resellers.Ledger.{add_ledger_entry_cases}
use isp_cms_be.Invoices.{PaymentInput, set_payment, record_payment}
use isp_cms_be.Invoices.Recording.{recorded, recorded_reactivates, record_payment_applied}
use isp_cms_be.Secrets.{set_disabled_by_customer_id}
use isp_cms_be.Payments.{
  PayInput, get_or, tender, post_share, post_reseller_commission, after_payment, pay_open, pay,
}

-- The tables that the steps after a payment leave alone.
abbrev pub SameBooks : Db → Db → Type 0
SameBooks d d' =
    (d'.invoices ≡ d.invoices)
    × (d'.payments ≡ d.payments)
    × (d'.payment_intents ≡ d.payment_intents)

SameBooks-refl : (d : Db) → SameBooks d d
SameBooks-refl d = (refl, refl, refl)

add_ledger_entry-SameBooks :
    (srv : Server) (k : ℕ) (input : LedgerInput) (d : Db)
    → SameBooks d (add_ledger_entry srv k input d).1
add_ledger_entry-SameBooks srv k input d =
    add_ledger_entry_cases srv k input d (λ o. SameBooks d o.1) (λ e. SameBooks-refl d)
      (λ r found covered free. (refl, refl, refl))

post_commission-SameBooks :
    (srv : Server) (k : ℕ) (amount : ℤ) (invoice_id : ℕ) (note : String) (d : Db)
    → SameBooks d (post_commission_for_invoice srv k amount invoice_id note d).1
unfolding post_commission_for_invoice
post_commission-SameBooks srv k amount invoice_id note d =
    let input : LedgerInput = record {
      type = LedgerType.commission;
      amount = amount;
      note = note;
      ref = some invoice_id;
    } in
    let kept = add_ledger_entry-SameBooks srv k input d in
    (ground (arith, kept.0), ground (arith, kept.1), ground (arith, kept.2))

module _ (round_share : ℤ → ℕ → ℤ) where
  post_share-SameBooks :
      (srv : Server) (invoice_id : ℕ) (total : ℤ) (r : Reseller) (d : Db)
      → SameBooks d (post_share round_share srv invoice_id total r d).1
  unfolding post_share
  post_share-SameBooks srv invoice_id total r d =
      let kept =
        post_commission-SameBooks srv r.id (round_share total r.commission_pct) invoice_id
          ("Komisi tagihan " ++ srv.id_text invoice_id) d in
      (ground (arith, kept.0), ground (arith, kept.1), ground (arith, kept.2))

  -- The commission step is nothing, or the posting of a share.
  commission_step :
      (srv : Server) (customer_id invoice_id : ℕ) (total : ℤ) (d : Db)
      → let step = post_reseller_commission round_share srv customer_id invoice_id total d in
        (step ≡ (ok tt, d))
        ⊎ ((r : Reseller) × (step ≡ post_share round_share srv invoice_id total r d))
  unfolding post_reseller_commission
  commission_step srv customer_id invoice_id total d =
      elim (Option-cases (find_customer customer_id d)) [
        | inl e ↦ inl (ground arith)
        | inr (c, e) ↦ elim (Option-cases c.reseller_id) [
          | inl e' ↦ inl (ground arith)
          | inr (k, e') ↦ elim (Option-cases (find_reseller k d)) [
            | inl e'' ↦ inl (ground arith)
            | inr (r, e'') ↦ elim (Bool-cases (r.commission_pct == 0)) [
              | inl z ↦ inl (ground arith)
              | inr nz ↦ inr (r, ground arith)
            ]
          ]
        ]
      ]

  post_reseller_commission-SameBooks :
      (srv : Server) (customer_id invoice_id : ℕ) (total : ℤ) (d : Db)
      → SameBooks d (post_reseller_commission round_share srv customer_id invoice_id total d).1
  post_reseller_commission-SameBooks srv customer_id invoice_id total d =
      elim (commission_step srv customer_id invoice_id total d) [
        | inl nothing ↦ rw nothing (SameBooks-refl d)
        | inr (r, share) ↦ rw share (post_share-SameBooks srv invoice_id total r d)
      ]

  switched : Server → Invoice → Bool → Db → Db
  switched srv inv false d = d
  switched srv inv true d = (set_disabled_by_customer_id srv inv.customer_id false d).1

  switched-SameBooks :
      (srv : Server) (inv : Invoice) (reactivated : Bool) (d : Db)
      → SameBooks d (switched srv inv reactivated d)
  unfolding switched set_disabled_by_customer_id
  switched-SameBooks srv inv false d = SameBooks-refl d
  switched-SameBooks srv inv true d = SameBooks-refl d

  after_step :
      (srv : Server) (inv updated : Invoice) (reactivated : Bool) (d : Db)
      → let d' = switched srv inv reactivated d in
        let out = (after_payment round_share srv inv updated reactivated d).1 in
        (out ≡ d')
        ⊎ (out
            ≡ (post_reseller_commission round_share srv inv.customer_id inv.id
                (invoice_total inv)
                d').1)
  unfolding after_payment set_disabled_by_customer_id switched
  after_step srv inv updated reactivated d = elim (Bool-cases (is_paid updated.status)) [
    | inl full ↦ inr (ground arith)
    | inr owes ↦ inl (ground arith)
  ]

  after_payment-SameBooks :
      (srv : Server) (inv updated : Invoice) (reactivated : Bool) (d : Db)
      → SameBooks d (after_payment round_share srv inv updated reactivated d).1
  after_payment-SameBooks srv inv updated reactivated d =
      let own = switched-SameBooks srv inv reactivated d in
      elim (after_step srv inv updated reactivated d) [
        | inl stops ↦ rw stops own
        | inr posts ↦
            let post =
              post_reseller_commission-SameBooks srv inv.customer_id inv.id (invoice_total inv)
                (switched srv inv reactivated d) in
            rw posts (post.0 ∙ own.0, post.1 ∙ own.1, post.2 ∙ own.2)
      ]

  tender_amount :
      (input : PayInput) (amount : ℤ) (d d' : Db) (payment : PaymentInput)
      → tender input amount d ≡ (ok payment, d')
      → (payment.amount ≡ amount) × (d' ≡ d)
  tender_amount input amount d d' payment e = (ground arith, ground arith)

  module _ (srv : Server) (id : ℕ) (input : PayInput) (db : Db) where
    fits :
        (inv : Invoice) (payment : PaymentInput)
        → payment.amount ≡ get_or (balance_of inv) input.amount
        → ltb_ℤ (balance_of inv) (get_or (balance_of inv) input.amount) ≡ false
        → ltb_ℤ (invoice_total inv -ℤ inv.paid_amount) payment.amount ≡ false
    unfolding balance_of
    fits inv payment own covered = rw own covered

    pay_step :
        (inv updated : Invoice) (payment : PaymentInput) (reactivated : Bool) (d : Db)
        → find_invoice id db ≡ some inv
        → is_paid inv.status ≡ false
        → leb_ℤ (get_or (balance_of inv) input.amount) (pos 0) ≡ false
        → ltb_ℤ (balance_of inv) (get_or (balance_of inv) input.amount) ≡ false
        → tender input (get_or (balance_of inv) input.amount) db ≡ (ok payment, db)
        → record_payment srv id payment db ≡ (ok (updated, reactivated), d)
        → pay round_share srv id input db ≡ after_payment round_share srv inv updated reactivated d
    unfolding pay pay_open
    pay_step inv updated payment reactivated d found owing positive covered tendered done =
        rw (found, owing, pay_open, positive, covered) (ground arith)

    -- A payment through `pay` on an invoice that is not paid, with a positive amount within the
    -- balance and an accepted tender, leaves the invoices, the payments and the intents exactly as
    -- the recorded payment leaves them, whatever the reseller's commission step does.
    pub pay-stored :
        (inv : Invoice) (payment : PaymentInput)
        → find_invoice id db ≡ some inv
        → is_paid inv.status ≡ false
        → let amount = get_or (balance_of inv) input.amount in
          leb_ℤ amount (pos 0) ≡ false
          → ltb_ℤ (balance_of inv) amount ≡ false
          → tender input amount db ≡ (ok payment, db)
          → SameBooks (recorded srv id payment db inv) (pay round_share srv id input db).1
    pay-stored inv payment found owing positive covered tendered =
        let (own, _) = tender_amount input _ db db payment tendered in
        rw
          (pay_step inv (set_payment srv payment.amount inv inv) payment
            (recorded_reactivates srv id payment db inv) (recorded srv id payment db inv) found
            owing positive covered tendered
            (record_payment_applied srv id payment db inv found owing
              (fits inv payment own covered)))
          (after_payment-SameBooks srv inv (set_payment srv payment.amount inv inv)
            (recorded_reactivates srv id payment db inv) (recorded srv id payment db inv))
