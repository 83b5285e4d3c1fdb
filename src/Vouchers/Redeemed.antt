-- ===== src/Vouchers/Redeemed.antt =====
-- `settle`: the rows that a settled voucher moves.

use isp_cms_be.Prelude.{
  ℕ, ℤ, pos, ◌+ℤ◌, ◌≤ℤ◌, String, Option, some, List, [], ◌∷◌, ◌≡◌, ◌⊎◌, refl, sym, ap, ◌∙◌, inl,
  inr, arith, int_laws, Option-cases, subst,
}
use isp_cms_be.Prelude.Table.{find, update_where, sum_where}
use isp_cms_be.Prelude.Table.Laws.{find-update_self}
use isp_cms_be.Prelude.Table.Order.{Found-order_select, Unique-order_select}
use isp_cms_be.Store.Rows.{Invoice, Voucher, VoucherStatus}
use isp_cms_be.Store.Monad.{Db, Server, Result, ok, err, Exception, transaction}
use isp_cms_be.Store.Statements.{find_customer, store_outstanding, insert_payment, update_customers}
use isp_cms_be.Balance.{owed_by}
use isp_cms_be.Balance.Laws.{AllAccounted}
use isp_cms_be.Invoices.Books.{received, ledger, UniqueInvoices}
use isp_cms_be.Vouchers.{
  SettleInput, voucher_at, find_voucher, update_vouchers, with_redemption, voucher_payment,
  allocate, unpaid_of, allocate_to_invoices, credit_subscriber, settle_unused, settle,
}
use isp_cms_be.Vouchers.Settling.{allocate-conserves, allocate-AllAccounted, allocate-leftover}

-- The tables after an allocation.
allocated : Server → ℕ → ℤ → Db → List Invoice → Db
allocated srv c amount db [] = db
allocated srv c amount db (inv ∷ rest) =
    (store_outstanding srv c
      (record db { invoices = (allocate srv amount (inv ∷ rest) db.invoices).1 })).1

allocate_to_invoices_eq :
    (srv : Server) (c : ℕ) (amount : ℤ) (db : Db) (unpaid : List Invoice)
    → unpaid_of c db ≡ unpaid
    → allocate_to_invoices srv c amount db ≡ (ok tt, allocated srv c amount db unpaid)
unfolding allocate_to_invoices allocated store_outstanding update_customers
allocate_to_invoices_eq srv c amount db [] e = rw (e, allocate_to_invoices) refl
allocate_to_invoices_eq srv c amount db (inv ∷ rest) e = rw (e, allocate_to_invoices) refl

allocated-rows :
    (srv : Server) (c : ℕ) (amount : ℤ) (db : Db) (unpaid : List Invoice)
    → let d = allocated srv c amount db unpaid in
      (d.invoices ≡ (allocate srv amount unpaid db.invoices).1)
      × (d.payments ≡ db.payments)
      × (d.vouchers ≡ db.vouchers)
unfolding allocated allocate store_outstanding update_customers
allocated-rows srv c amount db [] = (refl, refl, refl)
allocated-rows srv c amount db (inv ∷ rest) = (refl, refl, refl)

allocate_to_invoices-rows :
    (srv : Server) (c : ℕ) (amount : ℤ) (db : Db)
    → (d : Db) × (allocate_to_invoices srv c amount db ≡ (ok tt, d))
      × (d.invoices ≡ (allocate srv amount (unpaid_of c db) db.invoices).1)
      × (d.payments ≡ db.payments)
      × (d.vouchers ≡ db.vouchers)
allocate_to_invoices-rows srv c amount db =
    let (rows, kept, vs) = allocated-rows srv c amount db (unpaid_of c db) in
    (
      allocated srv c amount db (unpaid_of c db),
      allocate_to_invoices_eq srv c amount db (unpaid_of c db) refl,
      rows,
      kept,
      vs,
    )

abbrev pub AfterCredit : Server → SettleInput → ℤ → Db → List Invoice → Type 0
AfterCredit srv opts price db rows =
    (rows ≡ db.invoices) ⊎ ((c : ℕ) × (rows ≡ (allocate srv price (unpaid_of c db) db.invoices).1))

credit_subscriber-rows :
    (srv : Server) (opts : SettleInput) (v : Voucher) (db : Db)
    → (d : Db) × (name : Option String) × (credit_subscriber srv opts v db ≡ (ok name, d))
      × (AfterCredit srv opts v.price_idr db d.invoices)
      × (d.payments ≡ db.payments)
      × (d.vouchers ≡ db.vouchers)
unfolding credit_subscriber
credit_subscriber-rows srv opts v db = elim (Option-cases opts.redeemed_customer_id) [
  | inl e ↦ (db, v.used_by, ground arith, inl refl, refl, refl)
  | inr (c, e) ↦ elim (Option-cases (find_customer c db)) [
    | inl e' ↦ (db, v.used_by, ground arith, inl refl, refl, refl)
    | inr (row, e') ↦
        let (d, done, rows, kept, vs) = allocate_to_invoices-rows srv c v.price_idr db in
        (d, some row.full_name, ground arith, inr (c, rows), kept, vs)
  ]
]

at_most : (a : ℤ) → a ≤ℤ a
at_most a = omega int_laws

regrouped :
    (after left before price old : ℤ)
    → after +ℤ left ≡ before +ℤ price
    → after +ℤ left +ℤ old ≡ before +ℤ (price +ℤ old)
regrouped after left before price old e = grind int_laws

paid_ledger :
    (srv : Server) (id : ℕ) (opts : SettleInput) (name : Option String) (price : ℤ) (db d : Db)
    → d.payments ≡ voucher_payment srv id opts name price ∷ db.payments
    → ledger d ≡ price +ℤ ledger db
unfolding sum_where
paid_ledger srv id opts name price db d e = rw e refl

used_stays :
    (srv : Server) (id : ℕ) (opts : SettleInput) (d : Db) (v : Voucher)
    → find_voucher id d ≡ some v
    → v.status ≡ VoucherStatus.used
    → settle srv id opts d ≡ (ok v, d)
unfolding settle transaction
used_stays srv id opts d v found s = ground arith

status_cases :
    (s : VoucherStatus)
    → (s ≡ VoucherStatus.used) ⊎ ((s ≡ VoucherStatus.expired) ⊎ (s ≡ VoucherStatus.unused))
status_cases VoucherStatus.used = inl refl
status_cases VoucherStatus.expired = inr (inl refl)
status_cases VoucherStatus.unused = inr (inr refl)

module _ (srv : Server) (id : ℕ) (opts : SettleInput) (db : Db) where
  -- The rows after the settlement of the unused voucher `v`.
  abbrev pub Redeemed : Voucher → Db → Type 0
  Redeemed v d =
      (AfterCredit srv opts v.price_idr db d.invoices)
      × ((name : Option String) × (d.payments
            ≡ voucher_payment srv id opts name v.price_idr ∷ db.payments))
      × (d.vouchers ≡ update_where (voucher_at id) (with_redemption srv opts) db.vouchers)

  settle_unused-rows :
      (v : Voucher)
      → find_voucher id db ≡ some v
      → (d : Db) × (settle_unused srv id opts db ≡ (ok (with_redemption srv opts v), d))
        × Redeemed v d
  unfolding settle_unused update_vouchers insert_payment
  settle_unused-rows v found =
      let taken = record db {
        vouchers = update_where (voucher_at id) (with_redemption srv opts) db.vouchers;
      } in
      let (d, name, done, rows, kept, vs) =
        credit_subscriber-rows srv opts (with_redemption srv opts v) taken in
      (
        record d { payments = voucher_payment srv id opts name v.price_idr ∷ d.payments },
        ground arith,
        (rows, (name, rw kept refl), vs),
      )

  pub settle_cases {ℓ} :
      (P : Result Voucher × Db → Type ℓ)
      → ((e : Exception) → P (err e, db))
      → ((v : Voucher) → find_voucher id db ≡ some v → v.status ≡ VoucherStatus.used → P (ok v, db))
      → ((v : Voucher) (d : Db)
          → find_voucher id db ≡ some v
          → Redeemed v d
          → P (ok (with_redemption srv opts v), d))
      → P (settle srv id opts db)
  unfolding settle transaction
  settle_cases P failed already redeemed = elim (Option-cases (find_voucher id db)) [
    | inl missing ↦ rw (missing, settle) (failed _)
    | inr (v, found) ↦ elim (status_cases v.status) [
      | inl s ↦ rw (found, s, settle) (already v found s)
      | inr (inl s) ↦ rw (found, s, settle) (failed _)
      | inr (inr s) ↦
          let (d, done, moved) = settle_unused-rows v found in
          rw (found, s, done, settle) (redeemed v d found moved)
    ]
  ]

  -- When the invoices' keys are unique and every invoice has received at most its total, and
  -- exactly its total if it reads `paid`, the same holds after the settlement of a voucher, on
  -- every branch.
  pub settle-AllAccounted :
      UniqueInvoices db → AllAccounted db.invoices → AllAccounted (settle srv id opts db).1.invoices
  settle-AllAccounted u acc =
      settle_cases (λ o. AllAccounted o.1.invoices) (λ e. acc) (λ v found s. acc)
        λ v d found moved. elim moved.0 [
          | inl same ↦ rw same acc
          | inr (c, rows) ↦ rw rows (
              allocate-AllAccounted srv v.price_idr (unpaid_of c db) db.invoices u
                (Unique-order_select (λ (r : Invoice). r.id) (λ r. r.due_date) (owed_by c)
                  db.invoices u)
                (Found-order_select (λ (r : Invoice). r.id) (λ r. r.due_date) (owed_by c)
                  db.invoices u)
                acc)
        ]

  -- When the invoices' keys are unique and the voucher's price is not negative, some amount between
  -- zero and the price accounts for `settle`: the payments grow by what the invoices receive and
  -- that amount.
  pub settle-books :
      (v : Voucher)
      → UniqueInvoices db
      → find_voucher id db ≡ some v
      → pos 0 ≤ℤ v.price_idr
      → let d = (settle srv id opts db).1 in
        (left : ℤ) × (pos 0 ≤ℤ left)
        × (left ≤ℤ v.price_idr)
        × (received d +ℤ left +ℤ ledger db ≡ received db +ℤ ledger d)
  unfolding sum_where
  settle-books v u here nonneg =
      settle_cases
        (λ o.
          (left : ℤ) × (pos 0 ≤ℤ left)
          × (left ≤ℤ v.price_idr)
          × (received o.1 +ℤ left +ℤ ledger db ≡ received db +ℤ ledger o.1))
        (λ e. (pos 0, ground arith, nonneg, grind int_laws))
        (λ w found s. (pos 0, ground arith, nonneg, grind int_laws))
        λ w d found moved.
          let same : w ≡ v = cc in
          let (name, booked) = rw same at moved.1 in
          let grown : ledger d ≡ v.price_idr +ℤ ledger db =
            paid_ledger srv id opts name v.price_idr db d booked in
          elim (rw same at moved.0) [
            | inl kept ↦
                (v.price_idr, nonneg, at_most v.price_idr, rw (kept, grown) (grind int_laws))
            | inr (c, rows) ↦
                let (low, high) =
                  allocate-leftover srv v.price_idr (unpaid_of c db) db.invoices nonneg in
                let conserved =
                  allocate-conserves srv v.price_idr (unpaid_of c db) db.invoices u
                    (Unique-order_select (λ (r : Invoice). r.id) (λ r. r.due_date) (owed_by c)
                      db.invoices u)
                    (Found-order_select (λ (r : Invoice). r.id) (λ r. r.due_date) (owed_by c)
                      db.invoices u) in
                (
                  (allocate srv v.price_idr (unpaid_of c db) db.invoices).0,
                  low,
                  high,
                  rw (rows, grown) (regrouped _ _ _ _ _ conserved),
                )
          ]

-- After a settlement that returned a voucher, any settlement of the same voucher returns that
-- voucher and changes no table.
pub settle-once :
    (srv srv' : Server) (id : ℕ) (opts opts' : SettleInput) (db d : Db) (v : Voucher)
    → settle srv id opts db ≡ (ok v, d)
    → settle srv' id opts' d ≡ (ok v, d)
settle-once srv srv' id opts opts' db d v =
    settle_cases srv id opts db (λ o. o ≡ (ok v, d) → settle srv' id opts' d ≡ (ok v, d))
      (λ e bad. absurd (ground arith))
      (λ w found s same.
        let here : db ≡ d = ap (λ (o : Result Voucher × Db). o.1) same in
        let own : w ≡ v = ground arith in
        used_stays srv' id opts' d v
          (subst (λ x. find_voucher id x ≡ some v) here (found ∙ ap (λ (x : Voucher). some x) own))
          (rw own at s))
      λ w e found moved done.
        let here : e ≡ d = ap (λ (o : Result Voucher × Db). o.1) done in
        let own : with_redemption srv opts w ≡ v = ground arith in
        used_stays srv' id opts' d v
          (subst (λ x. find_voucher id x ≡ some v) here
            (ap (find (voucher_at id)) moved.2
              ∙ find-update_self (λ (r : Voucher). r.id) id (with_redemption srv opts) db.vouchers
                  (λ _. refl)
              ∙ rw (found, own) refl))
          (rw (sym own) refl)
