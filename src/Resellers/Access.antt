-- ===== src/Resellers/Access.antt =====
-- ResellersService (src/modules/resellers/resellers.service.ts): who may post, request, decide and
-- disburse.
use isp_cms_be.Prelude.{
  ℕ, ℤ, ltb_ℤ, String, Bool, true, false, not, Option, none, some, ◌==◌, if◌then◌else◌,
}
use isp_cms_be.Prelude.Table.{holds_key}
use isp_cms_be.Store.Rows.{Reseller, LedgerType, Payout}
use isp_cms_be.Store.Monad.{
  Server, Action, not_found, unprocessable, pure, throw, gets, or_throw, throw_if, ◌>>=◌, ◌>>◌,
}
use isp_cms_be.Resellers.{find_reseller, find_payout, add_ledger_entry, create_payout}
use isp_cms_be.Resellers.PayoutLife.{Decision, decide_payout, disburse_payout}

-- The roles of a login; only `mitra` is restricted here.
pub data UserRole : Type 0 where
  admin staff customer teknisi mitra : UserRole

pub record AuthUser : Type 0 where
  pub id : ℕ
  pub role : UserRole
  pub reseller_id : Option ℕ

abbrev pub is_mitra : UserRole → Bool
is_mitra UserRole.mitra = true
is_mitra _ = false

-- `requireById`
unfoldable pub require_reseller : ℕ → Action Reseller
require_reseller id = do or_throw (← gets (find_reseller id)) (not_found "reseller not found")

-- `assertResellerAccess` of a login
unfoldable pub assert_reseller_access : ℕ → AuthUser → Action (Unit {0})
assert_reseller_access id user =
    if is_mitra user.role
    then throw_if (not (holds_key user.reseller_id id)) (not_found "reseller not found")
    else pure tt

abbrev pub is_withdrawal : LedgerType → Bool
is_withdrawal LedgerType.withdrawal = true
is_withdrawal LedgerType.topup = false
is_withdrawal LedgerType.commission = false
is_withdrawal LedgerType.deduction = false

-- `addLedgerEntry`, without the count of customers in its answer
unfoldable pub post_entry : Server → ℕ → LedgerType → ℤ → Option String → Action Reseller
post_entry srv id type amount note =
    if is_withdrawal type
    then throw (unprocessable "Gunakan alur payout")
    else add_ledger_entry srv id (record {
      type = type;
      amount = amount;
      note = elim note [ none ↦ "" | some text ↦ text ];
      ref = none;
    })

-- the cap of a partner's request
unfoldable pub cap_request : ℕ → ℤ → AuthUser → Action (Unit {0})
unfolding require_reseller
cap_request id amount user =
    if is_mitra user.role
    then (do
      reseller ← require_reseller id
      throw_if (ltb_ℤ reseller.balance amount)
          (unprocessable "Saldo tidak mencukupi untuk pengajuan ini"))
    else pure tt

-- `requestPayout`
unfoldable pub request_payout : Server → ℕ → ℤ → Option String → AuthUser → Action Payout
unfolding assert_reseller_access cap_request
request_payout srv id amount note user = do
  assert_reseller_access id user
  cap_request id amount user
  create_payout srv id amount note (some user.id)

-- `requirePayoutForReseller`
unfoldable pub require_payout_for_reseller : ℕ → ℕ → Action (Unit {0})
unfolding require_reseller
require_payout_for_reseller reseller_id payout_id = do
  require_reseller reseller_id
  payout ← or_throw (← gets (find_payout payout_id)) (not_found "payout not found")
  throw_if (not (payout.reseller_id == reseller_id)) (not_found "payout not found")

-- `approvePayout` and `rejectPayout`
unfoldable pub decide_payout_of : Server → Decision → ℕ → ℕ → Option ℕ → Action Payout
unfolding require_payout_for_reseller
decide_payout_of srv decision id payout_id actor = do
  require_payout_for_reseller id payout_id
  decide_payout srv decision payout_id actor

-- `disbursePayout`
unfoldable pub disburse_payout_of : Server → ℕ → ℕ → Action Payout
unfolding require_payout_for_reseller
disburse_payout_of srv id payout_id = do
  require_payout_for_reseller id payout_id
  disburse_payout srv payout_id
