-- ===== src/Witnesses/Partners.antt =====
-- Runs of the theorems on resellers, vouchers and SLA credits.
use isp_cms_be.Prelude.{ℤ, pos, ◌≤ℤ◌, true, false, none, some, ◌≡◌, ◌⊎◌, refl, arith, ◌<ℤ◌, ◌∷◌}
use isp_cms_be.Prelude.Int.{◌+ℤ◌, ◌-ℤ◌}
use isp_cms_be.Prelude.Table.{find, update_where, sum_where, holds_key, All}
use isp_cms_be.Store.Rows.{LedgerType, Payout, PayoutStatus, Reseller}
use isp_cms_be.Store.Monad.{Db, ok, err, Exception, transaction}
use isp_cms_be.Balance.Laws.{AllAccounted}
use isp_cms_be.Invoices.Books.{received, ledger}
use isp_cms_be.Resellers.{
  LedgerInput, index_refuses, insert_entry, set_balance, enter_ledger, add_ledger_entry_among,
  add_ledger_entry, ledger_row, post_commission_for_invoice, find_reseller, create_payout,
}
use isp_cms_be.Resellers.PayoutLife.{disburse_locked, disburse_payout}
use isp_cms_be.Resellers.Ledger.{
  with_balance, UniqueResellers, AllBooked, add_ledger_entry-AllBooked, post_commission-once,
}
use isp_cms_be.Resellers.Access.{
  AuthUser, UserRole, require_reseller, assert_reseller_access, cap_request, request_payout,
}
use isp_cms_be.Resellers.Ownership.{request_payout-mitra}
use isp_cms_be.Resellers.Payouts.{disburse_payout-AllBooked, disburse_payout-once}
use isp_cms_be.Resellers.Outdated.{IsDrifted, add_ledger_entry_among-IsDrifted}
use isp_cms_be.Witnesses.Sample.{reseller, server, db, voucher, payout_of}
use isp_cms_be.Vouchers.{SettleInput, settle}
use isp_cms_be.Vouchers.Redeemed.{settle-AllAccounted, settle-books}
use isp_cms_be.Witnesses.Billing.{unique_invoices, all_accounted}

unique_resellers : UniqueResellers db
unfolding find
unique_resellers = (refl, tt)

all_booked : AllBooked db
unfolding sum_where ◌+ℤ◌
all_booked = ((ground arith, refl), tt)

abbrev deduction : LedgerInput
deduction = record { type = LedgerType.deduction; amount = pos 5; note = "biaya"; ref = none }

abbrev top_up : LedgerInput
top_up = record { type = LedgerType.topup; amount = pos 7; note = ""; ref = none }

-- what another transaction commits between the select and the writes
abbrev others : Db → Db
others d = (add_ledger_entry server 5 top_up d).1

abbrev lost_update : Db
lost_update = (add_ledger_entry_among others server 5 deduction db).1

add_ledger_entry_among-IsDrifted_example :
    ((x : Exception) × (add_ledger_entry_among others server 5 deduction db ≡ (err x, others db)))
    ⊎ (((add_ledger_entry_among others server 5 deduction db).0
          ≡ ok (with_balance server (pos 15) (with_balance server (pos 27) reseller)))
        × (lost_update.reseller_ledger
            ≡ ledger_row server 5 deduction (pos 15) ∷ (others db).reseller_ledger)
        × All (IsDrifted 5 (pos 20 -ℤ pos 27) lost_update.reseller_ledger) lost_update.resellers)
unfolding add_ledger_entry add_ledger_entry_among enter_ledger insert_entry index_refuses
    set_balance transaction find ◌+ℤ◌ ◌-ℤ◌ update_where
add_ledger_entry_among-IsDrifted_example =
    add_ledger_entry_among-IsDrifted others server 5 deduction db reseller
      (with_balance server (pos 27) reseller) refl refl (refl, tt)
      (add_ledger_entry-AllBooked server 5 top_up db unique_resellers all_booked)

abbrev with_commission : Db
with_commission = (post_commission_for_invoice server 5 (pos 3) 1 "Komisi" db).1

post_commission-once_example :
    post_commission_for_invoice server 5 (pos 4) 1 "Ulang" with_commission
    ≡ (ok false, with_commission)
unfolding post_commission_for_invoice add_ledger_entry add_ledger_entry_among enter_ledger
    insert_entry index_refuses set_balance transaction find ◌+ℤ◌ update_where
post_commission-once_example =
    post_commission-once server 5 (pos 3) 1 "Komisi" db server (pos 4) "Ulang" true with_commission
      refl

disburse_payout-AllBooked_example : AllBooked (disburse_payout server 7 db).1
disburse_payout-AllBooked_example =
    disburse_payout-AllBooked server 7 db unique_resellers all_booked

abbrev disbursed_db : Db
disbursed_db = (disburse_payout server 7 db).1

abbrev paid_out : Payout
paid_out = record (payout_of 7 PayoutStatus.approved) {
  status = PayoutStatus.paid;
  ledger_entry_id = some 90;
  updated_at = 1000;
}

disburse_payout-once_example :
    (e : Exception) × (disburse_payout server 7 disbursed_db ≡ (err e, disbursed_db))
unfolding disburse_payout disburse_locked insert_entry index_refuses set_balance transaction find
    ◌-ℤ◌ ◌+ℤ◌ update_where
disburse_payout-once_example = disburse_payout-once server server 7 db disbursed_db paid_out refl

abbrev sale : SettleInput
sale = record { redeemed_customer_id = some 1; used_by = none }

settle-AllAccounted_example : AllAccounted (settle server 3 sale db).1.invoices
settle-AllAccounted_example = settle-AllAccounted server 3 sale db unique_invoices all_accounted

settle-books_example :
    (left : ℤ) × (pos 0 ≤ℤ left)
    × (left ≤ℤ pos 130)
    × (received (settle server 3 sale db).1 +ℤ left +ℤ ledger db
        ≡ received db +ℤ ledger (settle server 3 sale db).1)
unfolding find
settle-books_example = settle-books server 3 sale db voucher unique_invoices refl (ground arith)

abbrev redeemed_db : Db
redeemed_db = (settle server 3 sale db).1

abbrev partner : AuthUser
partner = record { id = 50; role = UserRole.mitra; reseller_id = some 5 }

abbrev request : Payout
request = record (payout_of 90 PayoutStatus.requested) {
  requested_by = some 50;
  created_at = 1000;
  updated_at = 1000;
}

request_payout-mitra_example :
    (holds_key partner.reseller_id 5 ≡ true)
    × (request.reseller_id ≡ 5)
    × (request.status ≡ PayoutStatus.requested)
    × (pos 0 <ℤ request.amount)
    × ((r : Reseller) × (find_reseller 5 db ≡ some r) × (request.amount ≤ℤ r.balance))
unfolding request_payout assert_reseller_access cap_request require_reseller create_payout find
request_payout-mitra_example =
    request_payout-mitra server 5 db (pos 15) none partner request
      (request_payout server 5 (pos 15) none partner db).1 refl refl
