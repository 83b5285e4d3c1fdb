-- ===== src/Resellers/Ownership.antt =====
-- What the checks of the service keep: a partner's own reseller, the cap, and the payout workflow.
use isp_cms_be.Prelude.{
  ℕ, ℤ, pos, ◌≤ℤ◌, ◌<ℤ◌, ltb_ℤ, String, true, false, Option, some, List, ◌≡◌, ◌≢◌, refl, inl, inr,
  arith, Bool-cases, Option-cases, not_ltb_ℤ,
}
use isp_cms_be.Prelude.Table.{select_where, holds_key}
use isp_cms_be.Store.Rows.{Reseller, LedgerEntry, LedgerType, Payout, PayoutStatus}
use isp_cms_be.Store.Monad.{Db, Server, ok, err, Exception, not_found, unprocessable}
use isp_cms_be.Resellers.{LedgerInput, find_reseller, find_payout, add_ledger_entry, create_payout}
use isp_cms_be.Resellers.PayoutLife.{Decision}
use isp_cms_be.Resellers.Ledger.{add_ledger_entry_cases}
use isp_cms_be.Resellers.Access.{
  AuthUser, is_mitra, require_reseller, assert_reseller_access, is_withdrawal, post_entry,
  cap_request, request_payout, require_payout_for_reseller, decide_payout_of, disburse_payout_of,
}

abbrev pub withdrawals : Db → List LedgerEntry
withdrawals d = select_where (λ (e : LedgerEntry). is_withdrawal e.type) d.reseller_ledger

entry-withdrawals :
    (srv : Server) (id : ℕ) (input : LedgerInput) (db : Db)
    → is_withdrawal input.type ≡ false
    → withdrawals (add_ledger_entry srv id input db).1 ≡ withdrawals db
unfolding select_where
entry-withdrawals srv id input db h =
    add_ledger_entry_cases srv id input db (λ o. withdrawals o.1 ≡ withdrawals db) (λ e. refl)
      λ r found covered free. rw h refl

module _ (srv : Server) (id : ℕ) (db : Db) where
  -- Posting an entry through the service leaves the withdrawals of the ledger as they are, whatever
  -- its type, amount and note.
  pub post_entry-withdrawals :
      (type : LedgerType) (amount : ℤ) (remark : Option String)
      → withdrawals (post_entry srv id type amount remark db).1 ≡ withdrawals db
  unfolding post_entry
  post_entry-withdrawals type amount remark = elim (Bool-cases (is_withdrawal type)) [
    | inl refused ↦ rw refused refl
    | inr posts ↦ rw posts (entry-withdrawals srv id _ db posts)
  ]

  cap_short :
      (amount : ℤ) (user : AuthUser) (r : Reseller)
      → is_mitra user.role ≡ true
      → find_reseller id db ≡ some r
      → ltb_ℤ r.balance amount ≡ true
      → cap_request id amount user db
        ≡ (err (unprocessable "Saldo tidak mencukupi untuk pengajuan ini"), db)
  unfolding cap_request require_reseller
  cap_short amount user r partner found short = rw partner (ground arith)

  request_short :
      (amount : ℤ) (remark : Option String) (user : AuthUser) (e : Exception) (p : Payout) (d : Db)
      → cap_request id amount user db ≡ (err e, db)
      → request_payout srv id amount remark user db ≢ (ok p, d)
  unfolding request_payout assert_reseller_access
  request_short amount remark user e p d short done = absurd (ground arith)

  -- When the request of a `mitra` login goes through, the login belongs to that reseller, and the
  -- new payout is that reseller's, reads `requested`, and asks for a positive amount within the
  -- balance.
  pub request_payout-mitra :
      (amount : ℤ) (remark : Option String) (user : AuthUser) (p : Payout) (d : Db)
      → is_mitra user.role ≡ true
      → request_payout srv id amount remark user db ≡ (ok p, d)
      → (holds_key user.reseller_id id ≡ true)
        × (p.reseller_id ≡ id)
        × (p.status ≡ PayoutStatus.requested)
        × (pos 0 <ℤ p.amount)
        × ((r : Reseller) × (find_reseller id db ≡ some r) × (p.amount ≤ℤ r.balance))
  unfolding request_payout assert_reseller_access cap_request require_reseller create_payout
  request_payout-mitra amount remark user p d partner e =
      elim (Option-cases (find_reseller id db)) [
        | inl missing ↦ absurd (ground arith)
        | inr (r, found) ↦
            let own : p.amount ≡ amount = ground arith in
            (
              ground arith,
              ground arith,
              ground arith,
              ground arith,
              (
                r,
                found,
                rw own (elim (Bool-cases (ltb_ℤ r.balance amount)) [
                  | inr covered ↦ not_ltb_ℤ r.balance amount covered
                  | inl short ↦ absurd (
                      request_short amount remark user _ p d
                        (cap_short amount user r partner found short) e)
                ]),
              ),
            )
      ]

  -- A decision on a payout, or its disbursement, under a reseller that it does not belong to is
  -- refused and changes no table.
  pub foreign_payout-refused :
      (srv' : Server) (decision : Decision) (payout_id : ℕ) (actor : Option ℕ) (p : Payout)
      → find_payout payout_id db ≡ some p
      → p.reseller_id ≢ id
      → ((e : Exception) × (decide_payout_of srv decision id payout_id actor db ≡ (err e, db)))
        × ((e : Exception) × (disburse_payout_of srv' id payout_id db ≡ (err e, db)))
  unfolding decide_payout_of disburse_payout_of require_payout_for_reseller require_reseller
  foreign_payout-refused srv' decision payout_id actor p found other =
      elim (Option-cases (find_reseller id db)) [
        | inl missing ↦
            let e = not_found "reseller not found" in ((e, ground arith), (e, ground arith))
        | inr (r, there) ↦
            let e = not_found "payout not found" in ((e, ground arith), (e, ground arith))
      ]
