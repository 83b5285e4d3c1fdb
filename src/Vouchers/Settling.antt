-- ===== src/Vouchers/Settling.antt =====
-- The allocation of a voucher's price to invoices (`allocateToInvoices`), and its settlement.
use isp_cms_be.Prelude.{
  ℕ, ℤ, pos, ◌+ℤ◌, ◌-ℤ◌, ◌≤ℤ◌, min_ℤ, leb_ℤ, true, false, none, List, [], ◌∷◌, ◌==◌, ◌≡◌, ◌≢◌, refl,
  ◌∙◌, inl, inr, arith, int_laws, Bool-cases, min_ℤ_le, min_ℤ_nonneg,
}
use isp_cms_be.Prelude.Table.{find, update_where, sum_where, All, Unique}
use isp_cms_be.Prelude.Table.Laws.{
  All-update_key, Unique-update_where, find-update_ne, sum-update_key,
}
use isp_cms_be.Prelude.Table.Order.{Found}
use isp_cms_be.Store.Rows.{Invoice}
use isp_cms_be.Store.Monad.{Server}
use isp_cms_be.Store.Statements.{invoice_at}
use isp_cms_be.Balance.{invoice_total, balance_of}
use isp_cms_be.Balance.Laws.{IsAccounted, AllAccounted}
use isp_cms_be.Vouchers.{set_allocation, allocate}

abbrev key_of : Invoice → ℕ
key_of r = r.id

abbrev pub sum_paid : List Invoice → ℤ
sum_paid rows = sum_where (λ _. true) (λ (r : Invoice). r.paid_amount) rows

shifted :
    (after held before applied remaining total left : ℤ)
    → after +ℤ held ≡ before +ℤ (held +ℤ applied)
    → total +ℤ left ≡ after +ℤ (remaining -ℤ applied)
    → total +ℤ left ≡ before +ℤ remaining
shifted after held before applied remaining total left e f = grind int_laws

at_most : (a : ℤ) → a ≤ℤ a
at_most a = omega int_laws

not_leb_ℤ : (a : ℤ) → leb_ℤ a (pos 0) ≡ false → pos 0 ≤ℤ a
not_leb_ℤ a h = ground arith

module _ (srv : Server) where
  abbrev portion : ℤ → Invoice → List Invoice → List Invoice
  portion applied inv rows = update_where (invoice_at inv.id) (set_allocation srv applied inv) rows

  -- The rows that a loop still has to visit are not touched by a step on another.
  rest-Found :
      (applied : ℤ) (inv : Invoice) (rows rest : List Invoice)
      → find (λ (s : Invoice). s.id == inv.id) rest ≡ none
      → All (Found key_of rows) rest
      → All (Found key_of (portion applied inv rows)) rest
  unfolding find
  rest-Found applied inv rows [] absent h = tt
  rest-Found applied inv rows (r ∷ rest) absent h =
      let other : r.id ≢ inv.id = λ e. absurd (ground arith) in
      (
        find-update_ne key_of r.id inv.id (set_allocation srv applied inv) rows (λ _. refl) other
            ∙ h.0,
        rest-Found applied inv rows rest (ground arith) h.1,
      )

  -- A property of the loop's outcome, by its three ways to go on.
  allocate_cases {ℓ} :
      (P : ℤ × List Invoice → Type ℓ) (remaining : ℤ) (inv : Invoice) (unpaid rows : List Invoice)
      → P (remaining, rows)
      → P (allocate srv remaining unpaid rows)
      → (let applied = min_ℤ remaining (balance_of inv) in
          leb_ℤ remaining (pos 0) ≡ false
          → leb_ℤ (balance_of inv) (pos 0) ≡ false
          → P (allocate srv (remaining -ℤ applied) unpaid (portion applied inv rows)))
      → P (allocate srv remaining (inv ∷ unpaid) rows)
  unfolding allocate
  allocate_cases P remaining inv unpaid rows stop skip step =
      elim (Bool-cases (leb_ℤ remaining (pos 0))) [
        | inl empty ↦ rw empty stop
        | inr left ↦ elim (Bool-cases (leb_ℤ (balance_of inv) (pos 0))) [
          | inl covered ↦ rw (left, covered) skip
          | inr owing ↦ rw (left, owing) (step left owing)
        ]
      ]

  -- When the keys of the invoices are unique and the list to visit names each of its invoices once,
  -- as it is stored, the paid amounts and what is left of the price add up to the same before and
  -- after the loop.
  pub allocate-conserves :
      (remaining : ℤ) (unpaid rows : List Invoice)
      → Unique key_of rows
      → Unique key_of unpaid
      → All (Found key_of rows) unpaid
      → let out = allocate srv remaining unpaid rows in
        sum_paid out.1 +ℤ out.0 ≡ sum_paid rows +ℤ remaining
  unfolding allocate
  allocate-conserves remaining [] rows u v h = refl
  allocate-conserves remaining (inv ∷ unpaid) rows u v h =
      allocate_cases (λ out. sum_paid out.1 +ℤ out.0 ≡ sum_paid rows +ℤ remaining) remaining inv
        unpaid rows refl (allocate-conserves remaining unpaid rows u v.1 h.1)
        λ left owing.
          let applied = min_ℤ remaining (balance_of inv) in
          let moved =
            sum-update_key key_of (λ _. true) (λ r. r.paid_amount) inv.id
              (set_allocation srv applied inv) rows u h.0 in
          let rest =
            allocate-conserves (remaining -ℤ applied) unpaid (portion applied inv rows)
              (Unique-update_where key_of (invoice_at inv.id) (set_allocation srv applied inv) rows
                (λ _. refl) u)
              v.1 (rest-Found applied inv rows unpaid v.0 h.1) in
          shifted _ _ _ _ _ _ _ moved rest

  set_allocation-IsAccounted :
      (remaining : ℤ) (inv : Invoice)
      → IsAccounted (set_allocation srv (min_ℤ remaining (balance_of inv)) inv inv)
  unfolding invoice_total balance_of
  set_allocation-IsAccounted remaining inv =
      let fits = min_ℤ_le remaining (balance_of inv) in grind int_laws

  -- When the keys of the invoices are unique, the list to visit names each of its invoices once, as
  -- it is stored, and the invoices are accounted for, they are accounted for after the loop.
  pub allocate-AllAccounted :
      (remaining : ℤ) (unpaid rows : List Invoice)
      → Unique key_of rows
      → Unique key_of unpaid
      → All (Found key_of rows) unpaid
      → AllAccounted rows
      → AllAccounted (allocate srv remaining unpaid rows).1
  unfolding allocate
  allocate-AllAccounted remaining [] rows u v h acc = acc
  allocate-AllAccounted remaining (inv ∷ unpaid) rows u v h acc =
      allocate_cases (λ out. AllAccounted out.1) remaining inv unpaid rows acc
        (allocate-AllAccounted remaining unpaid rows u v.1 h.1 acc)
        λ left owing.
          let applied = min_ℤ remaining (balance_of inv) in
          allocate-AllAccounted (remaining -ℤ applied) unpaid (portion applied inv rows)
            (Unique-update_where key_of (invoice_at inv.id) (set_allocation srv applied inv) rows
              (λ _. refl) u)
            v.1 (rest-Found applied inv rows unpaid v.0 h.1)
            (All-update_key key_of IsAccounted inv.id (set_allocation srv applied inv) rows u h.0
              (λ _. set_allocation-IsAccounted remaining inv) acc)

  -- What is left over is neither negative nor more than what there was.
  pub allocate-leftover :
      (remaining : ℤ) (unpaid rows : List Invoice)
      → pos 0 ≤ℤ remaining
      → let left = (allocate srv remaining unpaid rows).0 in (pos 0 ≤ℤ left) × (left ≤ℤ remaining)
  unfolding allocate
  allocate-leftover remaining [] rows nonneg = (nonneg, at_most remaining)
  allocate-leftover remaining (inv ∷ unpaid) rows nonneg =
      allocate_cases (λ out. (pos 0 ≤ℤ out.0) × (out.0 ≤ℤ remaining)) remaining inv unpaid rows
        (nonneg, at_most remaining) (allocate-leftover remaining unpaid rows nonneg)
        λ left owing.
          let applied = min_ℤ remaining (balance_of inv) in
          let fits = min_ℤ_le remaining (balance_of inv) in
          let some_applied =
            min_ℤ_nonneg remaining (balance_of inv) nonneg (not_leb_ℤ (balance_of inv) owing) in
          let (low, high) =
            allocate-leftover (remaining -ℤ applied) unpaid (portion applied inv rows)
              (omega int_laws) in
          (low, omega int_laws)
