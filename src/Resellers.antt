-- ===== src/Resellers.antt =====
-- ResellersRepository (src/modules/resellers/resellers.repository.ts): the ledger of a reseller's
-- balance, and the creation of a payout.
use isp_cms_be.Prelude.{
  ℕ, ℤ, pos, ◌+ℤ◌, ◌-ℤ◌, ltb_ℤ, leb_ℤ, String, Bool, true, false, not, ◌&&◌, Option, none, some,
  List, ◌∷◌, ◌==◌, if◌then◌else◌,
}
pub mod Ledger
pub mod Outdated
pub mod PayoutLife
pub mod Access
pub mod Ownership
pub mod Payouts
pub mod Workflow
use text.Mathlib.Text.{◌==◌ as str_eq}
use Prim.Native.String.{◌++◌}
use isp_cms_be.Prelude.Table.{find, update_where, holds_key}
use isp_cms_be.Store.Rows.{Reseller, LedgerEntry, LedgerType, Payout, PayoutStatus}
use isp_cms_be.Store.Monad.{
  Db, Server, Action, Result, ok, err, Exception, not_found, unprocessable, internal, pure, throw,
  gets, or_throw, throw_if, transaction, modify, ◌>>=◌, ◌>>◌,
}

abbrev pub reseller_at : ℕ → Reseller → Bool
reseller_at k r = r.id == k

abbrev pub payout_at : ℕ → Payout → Bool
payout_at k r = r.id == k

-- `findById`
abbrev pub find_reseller : ℕ → Db → Option Reseller
find_reseller k db = find (reseller_at k) db.resellers

-- `findPayoutById`
abbrev pub find_payout : ℕ → Db → Option Payout
find_payout k db = find (payout_at k) db.reseller_payouts

abbrev pub same_type : LedgerType → LedgerType → Bool
same_type LedgerType.topup LedgerType.topup = true
same_type LedgerType.commission LedgerType.commission = true
same_type LedgerType.deduction LedgerType.deduction = true
same_type LedgerType.withdrawal LedgerType.withdrawal = true
same_type _ _ = false

-- A row with this reseller, type and ref: the lookup of `postCommissionForInvoice`, and the columns
-- of the index `reseller_ledger_reseller_type_ref_idx`.
abbrev pub posted_for : ℕ → LedgerType → ℕ → LedgerEntry → Bool
posted_for reseller_id type ref e =
    e.reseller_id == reseller_id && (same_type e.type type && holds_key e.ref ref)

-- Whether the unique index refuses the row; a row with no ref is not indexed.
unfoldable pub index_refuses : LedgerEntry → List LedgerEntry → Bool
index_refuses entry rows = elim entry.ref [
  | none ↦ false
  | some ref ↦ elim (find (posted_for entry.reseller_id entry.type ref) rows) [
    | none ↦ false
    | some _ ↦ true
  ]
]

-- `insert(resellerLedger).values(entry)`
unfoldable pub insert_entry : LedgerEntry → Action (Unit {0})
insert_entry entry = do
  refused ← gets (λ db. index_refuses entry db.reseller_ledger)
  throw_if refused (internal "reseller_ledger_reseller_type_ref_idx")
  modify λ db. record db { reseller_ledger = entry ∷ db.reseller_ledger }

-- `update(resellers).set({ balance, updatedAt })`
unfoldable pub set_balance : Server → ℕ → ℤ → Action (Unit {0})
set_balance srv reseller_id balance = modify λ db. record db {
  resellers =
      update_where (reseller_at reseller_id)
        (λ r. record r { balance = balance; updated_at = srv.now }) db.resellers;
}

pub record LedgerInput : Type 0 where
  pub type : LedgerType
  pub amount : ℤ
  pub note : String
  pub ref : Option ℕ

-- CREDIT_TYPES
abbrev pub is_credit : LedgerType → Bool
is_credit LedgerType.topup = true
is_credit LedgerType.commission = true
is_credit LedgerType.deduction = false
is_credit LedgerType.withdrawal = false

abbrev pub signed : LedgerInput → ℤ
signed input = if is_credit input.type then input.amount else pos 0 -ℤ input.amount

abbrev pub ledger_row : Server → ℕ → LedgerInput → ℤ → LedgerEntry
ledger_row srv reseller_id input next = record {
  id = srv.key;
  reseller_id = reseller_id;
  type = input.type;
  amount = signed input;
  note = input.note;
  balance_after = next;
  ref = input.ref;
  at = srv.now;
}

-- `addLedgerEntry` on the row that it selected
unfoldable pub enter_ledger : Server → ℕ → LedgerInput → Reseller → Action Reseller
unfolding set_balance
enter_ledger srv reseller_id input reseller = do
  let next = reseller.balance +ℤ signed input
  throw_if (ltb_ℤ next (pos 0)) (unprocessable "Saldo tidak mencukupi")
  insert_entry (ledger_row srv reseller_id input next)
  set_balance srv reseller_id next
  or_throw (← gets (find_reseller reseller_id)) (not_found "reseller not found")

-- `addLedgerEntry`. Its select takes no lock: `others` is what other transactions commit before it
-- writes, and a throw takes back its own writes alone.
unfoldable pub add_ledger_entry_among : (Db → Db) → Server → ℕ → LedgerInput → Action Reseller
unfolding transaction enter_ledger
add_ledger_entry_among others srv reseller_id input = do
  reseller ← or_throw (← gets (find_reseller reseller_id)) (not_found "reseller not found")
  modify others
  transaction (enter_ledger srv reseller_id input reseller)

-- `addLedgerEntry` where nothing is committed in between
unfoldable pub add_ledger_entry : Server → ℕ → LedgerInput → Action Reseller
unfolding add_ledger_entry_among
add_ledger_entry srv reseller_id input = add_ledger_entry_among (λ db. db) srv reseller_id input

-- `postCommissionForInvoice`: whether it posted
unfoldable pub post_commission_for_invoice : Server → ℕ → ℤ → ℕ → String → Action Bool
unfolding add_ledger_entry
post_commission_for_invoice srv reseller_id amount invoice_id note = do
  existing ←
      gets λ db. find (posted_for reseller_id LedgerType.commission invoice_id) db.reseller_ledger
  elim existing [
    | some _ ↦ pure false
    | none ↦
        add_ledger_entry srv reseller_id (record {
          type = LedgerType.commission;
          amount = amount;
          note = note;
          ref = some invoice_id;
        })
        >> pure true
  ]

-- `createPayout`
unfoldable pub create_payout : Server → ℕ → ℤ → Option String → Option ℕ → Action Payout
create_payout srv reseller_id amount note requested_by = do
  throw_if (leb_ℤ amount (pos 0)) (unprocessable "Jumlah payout harus lebih dari 0")
  or_throw (← gets (find_reseller reseller_id)) (not_found "reseller not found")
  let row : Payout = record {
    id = srv.key;
    reseller_id = reseller_id;
    amount = amount;
    status = PayoutStatus.requested;
    note = elim note [ none ↦ "" | some text ↦ text ];
    requested_by = requested_by;
    decided_by = none;
    ledger_entry_id = none;
    created_at = srv.now;
    updated_at = srv.now;
    decided_at = none;
  }
  modify λ db. record db { reseller_payouts = row ∷ db.reseller_payouts }
  pure row
