-- ===== src/Resellers/PayoutLife.antt =====
-- The life of a payout: transitionPayout and disbursePayout of
-- src/modules/resellers/resellers.repository.ts.
use isp_cms_be.Prelude.{
  ℕ, ℤ, pos, ◌-ℤ◌, ltb_ℤ, String, Bool, true, false, not, ◌&&◌, Option, none, some, ◌==◌,
  if◌then◌else◌,
}
use text.Mathlib.Text.{◌==◌ as str_eq}
use Prim.Native.String.{◌++◌}
use isp_cms_be.Prelude.Table.{find, update_where}
use isp_cms_be.Store.Rows.{LedgerEntry, LedgerType, Payout, PayoutStatus}
use isp_cms_be.Store.Monad.{
  Server, Action, not_found, unprocessable, pure, throw, gets, or_throw, throw_if, transaction,
  modify, ◌>>=◌, ◌>>◌,
}
use isp_cms_be.Resellers.{find_payout, find_reseller, insert_entry, set_balance}

abbrev pub same_status : PayoutStatus → PayoutStatus → Bool
same_status PayoutStatus.requested PayoutStatus.requested = true
same_status PayoutStatus.approved PayoutStatus.approved = true
same_status PayoutStatus.rejected PayoutStatus.rejected = true
same_status PayoutStatus.paid PayoutStatus.paid = true
same_status _ _ = false

abbrev pub status_text : PayoutStatus → String
status_text PayoutStatus.requested = "requested"
status_text PayoutStatus.approved = "approved"
status_text PayoutStatus.rejected = "rejected"
status_text PayoutStatus.paid = "paid"

-- The decision that `approvePayout` and `rejectPayout` take.
pub data Decision : Type 0 where
  approve reject : Decision

abbrev pub decided : Decision → PayoutStatus
decided approve = PayoutStatus.approved
decided reject = PayoutStatus.rejected

abbrev pub transition_matches : ℕ → PayoutStatus → Payout → Bool
transition_matches payout_id from p = p.id == payout_id && same_status p.status from

abbrev pub with_decision : Server → PayoutStatus → Option ℕ → Payout → Payout
with_decision srv to actor p = record p {
  status = to;
  decided_by = actor;
  decided_at = some srv.now;
  updated_at = srv.now;
}

-- what `transitionPayout` throws when its update matched no row
abbrev pub refuse_transition : ℕ → PayoutStatus → Action Payout
refuse_transition payout_id to = do
  existing ← or_throw (← gets (find_payout payout_id)) (not_found "payout not found")
  throw (
      unprocessable (
        "Payout berstatus '"
        ++ status_text existing.status
        ++ "', tidak bisa diproses ke '"
        ++ status_text to
        ++ "'"))

-- `transitionPayout`
unfoldable pub transition_payout :
    Server → ℕ → PayoutStatus → PayoutStatus → Option ℕ → Action Payout
transition_payout srv payout_id from to actor = do
  row ← gets λ db. find (transition_matches payout_id from) db.reseller_payouts
  elim row [
    | some p ↦
        modify (λ db. record db {
          reseller_payouts =
              update_where (transition_matches payout_id from) (with_decision srv to actor)
                db.reseller_payouts;
        })
        >> pure (with_decision srv to actor p)
    | none ↦ refuse_transition payout_id to
  ]

-- `approvePayout` and `rejectPayout`
unfoldable pub decide_payout : Server → Decision → ℕ → Option ℕ → Action Payout
unfolding transition_payout
decide_payout srv decision payout_id actor =
    transition_payout srv payout_id PayoutStatus.requested (decided decision) actor

abbrev pub withdrawal_row : Server → Payout → ℤ → LedgerEntry
withdrawal_row srv payout next = record {
  id = srv.key;
  reseller_id = payout.reseller_id;
  type = LedgerType.withdrawal;
  amount = pos 0 -ℤ payout.amount;
  note = if str_eq payout.note "" then "Pencairan payout" else payout.note;
  balance_after = next;
  ref = some payout.id;
  at = srv.now;
}

abbrev pub with_disbursement : Server → Payout → Payout
with_disbursement srv p = record p {
  status = PayoutStatus.paid;
  ledger_entry_id = some srv.key;
  updated_at = srv.now;
}

-- `disbursePayout` from the check of the status on
unfoldable pub disburse_locked : Server → ℕ → Payout → Action Payout
unfolding set_balance
disburse_locked srv payout_id payout = do
  throw_if (not (same_status payout.status PayoutStatus.approved)) (
      unprocessable
        ("Payout berstatus '" ++ status_text payout.status ++ "', tidak bisa dicairkan"))
  reseller ← or_throw (← gets (find_reseller payout.reseller_id)) (not_found "reseller not found")
  throw_if (ltb_ℤ reseller.balance payout.amount) (unprocessable "Saldo tidak mencukupi")
  let next = reseller.balance -ℤ payout.amount
  insert_entry (withdrawal_row srv payout next)
  set_balance srv payout.reseller_id next
  row ← gets λ db. find (transition_matches payout_id PayoutStatus.approved) db.reseller_payouts
  modify λ db. record db {
    reseller_payouts =
        update_where (transition_matches payout_id PayoutStatus.approved) (with_disbursement srv)
          db.reseller_payouts;
  }
  updated ← or_throw row (unprocessable "Payout sedang diproses oleh permintaan lain")
  pure (with_disbursement srv updated)

-- `disbursePayout`
unfoldable pub disburse_payout : Server → ℕ → Action Payout
unfolding disburse_locked transaction
disburse_payout srv payout_id = transaction do
  payout ← or_throw (← gets (find_payout payout_id)) (not_found "payout not found")
  disburse_locked srv payout_id payout
