-- ===== src/Resellers/Outdated.antt =====
-- `addLedgerEntry` on a row that other transactions changed after it was selected.

use isp_cms_be.Prelude.{
  ℕ, ℤ, pos, ◌+ℤ◌, ◌-ℤ◌, ◌≤ℤ◌, ltb_ℤ, true, false, some, List, ◌∷◌, ◌==◌, ◌≡◌, ◌⊎◌, if◌then◌else◌,
  refl, sym, ap, ◌∙◌, inl, inr, arith, int_laws, not_ltb_ℤ, Bool-cases,
}
use isp_cms_be.Prelude.Table.{sum_where, All}
use isp_cms_be.Prelude.Table.Laws.{find_holds, All-update_to, find-update_self}
use isp_cms_be.Store.Rows.{Reseller, LedgerEntry}
use isp_cms_be.Store.Monad.{Db, Server, ok, err, Exception, unprocessable, internal, transaction}
use isp_cms_be.Resellers.{
  reseller_at, find_reseller, index_refuses, LedgerInput, signed, ledger_row, enter_ledger,
  add_ledger_entry_among,
}
use isp_cms_be.Resellers.Ledger.{
  entry_of, IsBooked, AllBooked, UniqueResellers, with_balance, entered, enter_short, enter_taken,
  insert_entry-free, sum-cons_other, sum-cons_own,
}

-- The balance is not negative; that of the reseller `k` is off the sum of his entries by `drift`,
-- and any other is the sum.
abbrev pub IsDrifted : ℕ → ℤ → List LedgerEntry → Reseller → Type 0
IsDrifted k drift entries t =
    (pos 0 ≤ℤ t.balance)
    × (t.balance
        ≡ sum_where (entry_of t.id) (λ (e : LedgerEntry). e.amount) entries
          +ℤ (if t.id == k then drift else pos 0))

drifts :
    (selected current amount sum : ℤ)
    → current ≡ sum
    → selected +ℤ amount ≡ amount +ℤ sum +ℤ (selected -ℤ current)
drifts selected current amount sum e = grind int_laws

plus_none : (a : ℤ) → a ≡ a +ℤ pos 0
plus_none a = omega int_laws

module _ (srv : Server) (k : ℕ) (input : LedgerInput) (r : Reseller) (d : Db) where
  post-IsDrifted :
      (s : Reseller)
      → find_reseller k d ≡ some s
      → UniqueResellers d
      → AllBooked d
      → pos 0 ≤ℤ r.balance +ℤ signed input
      → let e = entered srv k input d r in
        All (IsDrifted k (r.balance -ℤ s.balance) e.reseller_ledger) e.resellers
  post-IsDrifted s found u h nonneg =
      let own : s.id ≡ k = ground (arith, find_holds (reseller_at k) d.resellers found) in
      let entry = ledger_row srv k input (r.balance +ℤ signed input) in
      All-update_to (λ (t : Reseller). t.id) (IsBooked d.reseller_ledger)
        (IsDrifted k (r.balance -ℤ s.balance) (entry ∷ d.reseller_ledger)) k
        (with_balance srv (r.balance +ℤ signed input)) d.resellers u found
        (λ t other b. (
          b.0,
          let miss : (t.id == k) ≡ false = ground arith in
              rw miss (
                b.1
                ∙ sym (sum-cons_other t.id entry d.reseller_ledger (λ e. other (sym e)))
                ∙ plus_none _),
        ))
        (λ b. (
          nonneg,
          let hit : (s.id == k) ≡ true = ground arith in
              rw hit (
                drifts r.balance s.balance (signed input) _ b.1
                ∙ ap (λ (v : ℤ). v +ℤ (r.balance -ℤ s.balance))
                    (sym (sum-cons_own s.id entry d.reseller_ledger (sym own)))),
        ))
        h

  enter_writes :
      (s : Reseller)
      → find_reseller k d ≡ some s
      → ltb_ℤ (r.balance +ℤ signed input) (pos 0) ≡ false
      → index_refuses (ledger_row srv k input (r.balance +ℤ signed input)) d.reseller_ledger ≡ false
      → enter_ledger srv k input r d
        ≡ (ok (with_balance srv (r.balance +ℤ signed input) s), entered srv k input d r)
  unfolding enter_ledger
  enter_writes s found covered free = ground (
    arith,
    insert_entry-free (ledger_row srv k input (r.balance +ℤ signed input)) d free,
    find-update_self (λ (t : Reseller). t.id) k (with_balance srv (r.balance +ℤ signed input))
        d.resellers (λ t. refl),
  )

-- Whatever other transactions commit between the select of `addLedgerEntry`, which takes no lock,
-- and its writes: when the reseller is there before and after them, and after them the resellers'
-- keys are unique and every balance is the sum of its ledger entries and not negative, the call
-- either throws and writes nothing, or adds its one entry, no balance is negative, the balance of
-- every other reseller is the sum of his entries, and that of this reseller differs from his sum by
-- the balance that was selected less the balance after those transactions.
pub add_ledger_entry_among-IsDrifted :
    (others : Db → Db) (srv : Server) (k : ℕ) (input : LedgerInput) (db : Db) (r s : Reseller)
    → find_reseller k db ≡ some r
    → find_reseller k (others db) ≡ some s
    → UniqueResellers (others db)
    → AllBooked (others db)
    → let out = add_ledger_entry_among others srv k input db in
      ((x : Exception) × (out ≡ (err x, others db)))
      ⊎ ((out.0 ≡ ok (with_balance srv (r.balance +ℤ signed input) s))
          × (out.1.reseller_ledger
              ≡ ledger_row srv k input (r.balance +ℤ signed input) ∷ (others db).reseller_ledger)
          × All (IsDrifted k (r.balance -ℤ s.balance) out.1.reseller_ledger) out.1.resellers)
unfolding add_ledger_entry_among transaction
add_ledger_entry_among-IsDrifted others srv k input db r s selected current u h =
    let next = r.balance +ℤ signed input in
    let d = others db in
    elim (Bool-cases (ltb_ℤ next (pos 0))) [
      | inl short ↦ inl (
        unprocessable "Saldo tidak mencukupi",
        rw (selected, enter_short srv k input d r short) refl,
      )
      | inr covered ↦
          elim (Bool-cases (index_refuses (ledger_row srv k input next) d.reseller_ledger)) [
            | inl taken ↦ inl (
              internal "reseller_ledger_reseller_type_ref_idx",
              rw (selected, enter_taken srv k input d r covered taken) refl,
            )
            | inr free ↦
                let wrote = enter_writes srv k input r d s current covered free in
                inr (
                  rw (selected, wrote)
                    (
                      refl,
                      refl,
                      post-IsDrifted srv k input r d s current u h (not_ltb_ℤ next (pos 0) covered),
                    ))
          ]
    ]
