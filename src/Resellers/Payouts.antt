-- ===== src/Resellers/Payouts.antt =====
-- The life of a payout: `transitionPayout` and `disbursePayout`.

use isp_cms_be.Prelude.{
  ℕ, ◌-ℤ◌, ◌≤ℤ◌, ltb_ℤ, true, false, none, some, ◌∷◌, ◌≡◌, refl, ap, subst, ◌∙◌, inl, inr, arith,
  int_laws, not_ltb_ℤ, Bool-cases, Option-cases,
}
use Prim.Native.String.{◌++◌}
use isp_cms_be.Prelude.Table.{find, update_where}
use isp_cms_be.Prelude.Table.Laws.{find_holds, find-some, find-update_where}
use isp_cms_be.Store.Rows.{Reseller, Payout, PayoutStatus}
use isp_cms_be.Store.Monad.{
  Db, Server, Result, ok, err, Exception, not_found, unprocessable, internal, transaction,
}
use isp_cms_be.Resellers.{reseller_at, payout_at, find_reseller, find_payout, index_refuses}
use isp_cms_be.Resellers.PayoutLife.{
  status_text, same_status, transition_matches, withdrawal_row, with_disbursement, disburse_locked,
  disburse_payout,
}
use isp_cms_be.Resellers.Ledger.{
  AllBooked, UniqueResellers, with_balance, post-IsBooked, insert_entry-refused, insert_entry-free,
}

module _ (srv : Server) (id : ℕ) (db : Db) where
  -- The tables after a disbursement of `payout` from the reseller row `r`.
  abbrev pub disbursed : Payout → Reseller → Db
  disbursed payout r = record db {
    reseller_ledger = withdrawal_row srv payout (r.balance -ℤ payout.amount) ∷ db.reseller_ledger;
    resellers =
        update_where (reseller_at payout.reseller_id)
          (with_balance srv (r.balance -ℤ payout.amount)) db.resellers;
    reseller_payouts =
        update_where (transition_matches id PayoutStatus.approved) (with_disbursement srv)
          db.reseller_payouts;
  }

  disburse_undecided :
      (payout : Payout)
      → same_status payout.status PayoutStatus.approved ≡ false
      → (e : Exception) × (disburse_locked srv id payout db ≡ (err e, db))
  unfolding disburse_locked
  disburse_undecided payout h = (
    unprocessable ("Payout berstatus '" ++ status_text payout.status ++ "', tidak bisa dicairkan"),
    ground arith,
  )

  disburse_homeless :
      (payout : Payout)
      → same_status payout.status PayoutStatus.approved ≡ true
      → find_reseller payout.reseller_id db ≡ none
      → (e : Exception) × (disburse_locked srv id payout db ≡ (err e, db))
  unfolding disburse_locked
  disburse_homeless payout h missing = (not_found "reseller not found", ground arith)

  module _ (payout : Payout) (r : Reseller)
      (approved : same_status payout.status PayoutStatus.approved ≡ true)
      (found : find_reseller payout.reseller_id db ≡ some r) where
    disburse_short :
        ltb_ℤ r.balance payout.amount ≡ true
        → (e : Exception) × (disburse_locked srv id payout db ≡ (err e, db))
    unfolding disburse_locked
    disburse_short short = (unprocessable "Saldo tidak mencukupi", ground arith)

    disburse_taken :
        ltb_ℤ r.balance payout.amount ≡ false
        → index_refuses (withdrawal_row srv payout (r.balance -ℤ payout.amount)) db.reseller_ledger
          ≡ true
        → (e : Exception) × (disburse_locked srv id payout db ≡ (err e, db))
    unfolding disburse_locked
    disburse_taken covered taken = (
      internal "reseller_ledger_reseller_type_ref_idx",
      ground (
        arith,
        insert_entry-refused (withdrawal_row srv payout (r.balance -ℤ payout.amount)) db taken,
      ),
    )

    disburse_pays :
        (row : Payout)
        → ltb_ℤ r.balance payout.amount ≡ false
        → index_refuses (withdrawal_row srv payout (r.balance -ℤ payout.amount)) db.reseller_ledger
          ≡ false
        → find (transition_matches id PayoutStatus.approved) db.reseller_payouts ≡ some row
        → disburse_locked srv id payout db ≡ (ok (with_disbursement srv row), disbursed payout r)
    unfolding disburse_locked
    disburse_pays row covered free there =
        ground (
          arith,
          insert_entry-free (withdrawal_row srv payout (r.balance -ℤ payout.amount)) db free,
        )

  pub disburse_payout_cases {ℓ} :
      (P : Result Payout × Db → Type ℓ)
      → ((e : Exception) → P (err e, db))
      → ((payout row : Payout) (r : Reseller)
          → find_payout id db ≡ some payout
          → same_status payout.status PayoutStatus.approved ≡ true
          → find_reseller payout.reseller_id db ≡ some r
          → ltb_ℤ r.balance payout.amount ≡ false
          → find (transition_matches id PayoutStatus.approved) db.reseller_payouts ≡ some row
          → P (ok (with_disbursement srv row), disbursed payout r))
      → P (disburse_payout srv id db)
  unfolding disburse_payout transaction
  disburse_payout_cases P failed paid = elim (Option-cases (find_payout id db)) [
    | inl missing ↦ rw (missing, disburse_payout) (failed _)
    | inr (payout, found) ↦ elim (Bool-cases (same_status payout.status PayoutStatus.approved)) [
      | inr undecided ↦
          rw (found, (disburse_undecided payout undecided).1, disburse_payout) (failed _)
      | inl approved ↦ elim (Option-cases (find_reseller payout.reseller_id db)) [
        | inl missing ↦
            rw (found, (disburse_homeless payout approved missing).1, disburse_payout) (failed _)
        | inr (r, there) ↦ rest payout r found approved there
      ]
    ]
  ]
    where
      rest :
          (payout : Payout) (r : Reseller)
          → find_payout id db ≡ some payout
          → same_status payout.status PayoutStatus.approved ≡ true
          → find_reseller payout.reseller_id db ≡ some r
          → P (disburse_payout srv id db)
      rest payout r found approved there = elim (Bool-cases (ltb_ℤ r.balance payout.amount)) [
        | inl short ↦
            rw (found, (disburse_short payout r approved there short).1, disburse_payout) (failed _)
        | inr covered ↦
            elim (Bool-cases (
              index_refuses (withdrawal_row srv payout (r.balance -ℤ payout.amount))
                db.reseller_ledger)) [
                  | inl taken ↦
                      rw
                        (
                          found,
                          (disburse_taken payout r approved there covered taken).1,
                          disburse_payout,
                        )
                        (failed _)
                  | inr free ↦
                      let (row, matched) =
                        find-some (payout_at id) (transition_matches id PayoutStatus.approved)
                          db.reseller_payouts found
                          (ground (arith, find_holds (payout_at id) db.reseller_payouts found)) in
                      rw
                        (
                          found,
                          disburse_pays payout r approved there row covered free matched,
                          disburse_payout,
                        )
                        (paid payout row r found approved there covered matched)
                ]
      ]

  -- When the resellers' keys are unique and every reseller's balance is the sum of its ledger
  -- entries and not negative, the same holds after `disbursePayout`, on every branch.
  pub disburse_payout-AllBooked :
      UniqueResellers db → AllBooked db → AllBooked (disburse_payout srv id db).1
  disburse_payout-AllBooked u h =
      disburse_payout_cases (λ o. AllBooked o.1) (λ e. h)
        λ payout row r found approved there covered matched.
          post-IsBooked srv payout.reseller_id
            (withdrawal_row srv payout (r.balance -ℤ payout.amount)) (r.balance -ℤ payout.amount)
            db.resellers db.reseller_ledger u there refl (omega int_laws)
            (let fits : payout.amount ≤ℤ r.balance = not_ltb_ℤ r.balance payout.amount covered in
              omega int_laws)
            h

not_approved_refused :
    (srv : Server) (id : ℕ) (d : Db) (q : Payout)
    → find_payout id d ≡ some q
    → same_status q.status PayoutStatus.approved ≡ false
    → (e : Exception) × (disburse_payout srv id d ≡ (err e, d))
unfolding disburse_payout transaction
not_approved_refused srv id d q found h =
    let (e, refused) = disburse_undecided srv id d q h in (e, rw (found, refused, disburse_payout))

disbursed_found :
    (srv : Server) (id : ℕ) (db : Db) (payout : Payout) (r : Reseller)
    → find_payout id db ≡ some payout
    → same_status payout.status PayoutStatus.approved ≡ true
    → find_payout id (disbursed srv id db payout r) ≡ some (with_disbursement srv payout)
disbursed_found srv id db payout r here approved =
    find-update_where (payout_at id) (transition_matches id PayoutStatus.approved)
      (with_disbursement srv) db.reseller_payouts (λ _. refl)
    ∙ (let own = find_holds (payout_at id) db.reseller_payouts here in rw (here, own, approved))

-- After a disbursement that succeeded, any other disbursement of the same payout is refused and
-- changes no table.
pub disburse_payout-once :
    (srv srv' : Server) (id : ℕ) (db d : Db) (p : Payout)
    → disburse_payout srv id db ≡ (ok p, d)
    → (e : Exception) × (disburse_payout srv' id d ≡ (err e, d))
disburse_payout-once srv srv' id db d p =
    disburse_payout_cases srv id db
      (λ o. o ≡ (ok p, d) → (e : Exception) × (disburse_payout srv' id d ≡ (err e, d)))
      (λ e bad. absurd (ground arith))
      λ payout row r here approved there covered matched done.
        let after : disbursed srv id db payout r ≡ d = ap (λ (o : Result Payout × Db). o.1) done in
        not_approved_refused srv' id d (with_disbursement srv payout)
          (subst (λ x. find_payout id x ≡ some (with_disbursement srv payout)) after
            (disbursed_found srv id db payout r here approved))
          refl
