-- ===== src/Vouchers/Leftover.antt =====
-- The allocation loop against a closed formula: what is left of a voucher's price.
use isp_cms_be.Prelude.{
  ℤ, pos, ◌+ℤ◌, ◌-ℤ◌, ◌≤ℤ◌, leb_ℤ, true, false, List, [], ◌∷◌, ◌≡◌, refl, ap, ◌∙◌, sym, inl, inr,
  arith, int_laws, Bool-cases,
}
use isp_cms_be.Prelude.Int.{min_ℤ, max_ℤ}
use isp_cms_be.Store.Rows.{Invoice}
use isp_cms_be.Store.Monad.{Server}
use isp_cms_be.Balance.{balance_of}
use isp_cms_be.Prelude.Table.{update_where}
use isp_cms_be.Store.Statements.{invoice_at}
use isp_cms_be.Vouchers.{allocate, set_allocation}

-- What a list of invoices can absorb: the balances that are positive.
unfoldable pub capacity : List Invoice → ℤ
capacity [] = pos 0
capacity (inv ∷ unpaid) = max_ℤ (pos 0) (balance_of inv) +ℤ capacity unpaid

max_nonneg : (a : ℤ) → pos 0 ≤ℤ max_ℤ (pos 0) a
unfolding max_ℤ
max_nonneg a = ground arith

capacity_nonneg : (unpaid : List Invoice) → pos 0 ≤ℤ capacity unpaid
unfolding capacity
capacity_nonneg [] = omega arith
capacity_nonneg (inv ∷ unpaid) =
    omega (int_laws, max_nonneg (balance_of inv), capacity_nonneg unpaid)

max_lower : (a : ℤ) → a ≤ℤ pos 0 → max_ℤ (pos 0) a ≡ pos 0
unfolding max_ℤ
max_lower a h = ground arith

max_upper : (a : ℤ) → pos 0 ≤ℤ a → max_ℤ (pos 0) a ≡ a
unfolding max_ℤ
max_upper a h = ground arith

min_left : (a b : ℤ) → a ≤ℤ b → min_ℤ a b ≡ a
unfolding min_ℤ
min_left a b h = ground arith

min_right : (a b : ℤ) → leb_ℤ a b ≡ false → min_ℤ a b ≡ b
unfolding min_ℤ
min_right a b h = ground arith

le_of_leb : (a b : ℤ) → leb_ℤ a b ≡ true → a ≤ℤ b
le_of_leb a b h = ground arith

lt_of_leb : (a b : ℤ) → leb_ℤ a b ≡ false → b ≤ℤ a
lt_of_leb a b h = ground arith

minus_zero : (a : ℤ) → a -ℤ pos 0 ≡ a
minus_zero a = omega int_laws

-- One visited invoice, in the closed formula.
spent_all :
    (remaining balance rest : ℤ)
    → pos 0 ≤ℤ rest
    → pos 0 ≤ℤ remaining
    → leb_ℤ remaining (pos 0) ≡ true
    → remaining ≡ max_ℤ (pos 0) (remaining -ℤ (max_ℤ (pos 0) balance +ℤ rest))
spent_all remaining balance rest hr h e =
    let zero_left = le_of_leb remaining (pos 0) e in
    let below : (remaining -ℤ (max_ℤ (pos 0) balance +ℤ rest)) ≤ℤ pos 0 =
      omega (int_laws, max_nonneg balance) in
    rw (max_lower _ below) (omega int_laws)

skips :
    (remaining balance rest : ℤ)
    → leb_ℤ balance (pos 0) ≡ true
    → remaining -ℤ rest ≡ remaining -ℤ (max_ℤ (pos 0) balance +ℤ rest)
skips remaining balance rest e =
    rw (max_lower balance (le_of_leb balance (pos 0) e)) (omega int_laws)

takes :
    (remaining balance rest : ℤ)
    → pos 0 ≤ℤ rest
    → leb_ℤ balance (pos 0) ≡ false
    → max_ℤ (pos 0) (remaining -ℤ min_ℤ remaining balance -ℤ rest)
      ≡ max_ℤ (pos 0) (remaining -ℤ (max_ℤ (pos 0) balance +ℤ rest))
takes remaining balance rest hr e = elim (Bool-cases (leb_ℤ remaining balance)) [
  | inl fits ↦
      let le = le_of_leb remaining balance fits in
      let small : (remaining -ℤ remaining -ℤ rest) ≤ℤ pos 0 = omega int_laws in
      let also : (remaining -ℤ (balance +ℤ rest)) ≤ℤ pos 0 = omega int_laws in
      rw (min_left remaining balance le, max_upper balance (lt_of_leb balance (pos 0) e))
        (max_lower _ small ∙ sym (max_lower _ also))
  | inr more ↦
      let same : remaining -ℤ balance -ℤ rest ≡ remaining -ℤ (balance +ℤ rest) = omega int_laws in
      rw (min_right remaining balance more, max_upper balance (lt_of_leb balance (pos 0) e), same)
        refl
]

left_nonneg : (a b : ℤ) → pos 0 ≤ℤ a -ℤ min_ℤ a b
unfolding min_ℤ
left_nonneg a b = elim (Bool-cases (leb_ℤ a b)) [
  | inl fits ↦ rw (min_left a b (le_of_leb a b fits)) (omega int_laws)
  | inr more ↦ let le = lt_of_leb a b more in rw (min_right a b more) (omega int_laws)
]

-- For an amount that is not negative, what the allocation loop leaves over is the amount less the
-- positive balances of the invoices that it visits, or zero if they exceed it.
pub allocate-left :
    (srv : Server) (remaining : ℤ) (unpaid rows : List Invoice)
    → pos 0 ≤ℤ remaining
    → (allocate srv remaining unpaid rows).0 ≡ max_ℤ (pos 0) (remaining -ℤ capacity unpaid)
unfolding allocate capacity
allocate-left srv remaining [] rows h = rw (minus_zero remaining) (sym (max_upper remaining h))
allocate-left srv remaining (inv ∷ unpaid) rows h =
    let room = capacity_nonneg unpaid in
    elim (Bool-cases (leb_ℤ remaining (pos 0))) [
      | inl spent ↦
          rw (spent, allocate) (spent_all remaining (balance_of inv) (capacity unpaid) room h spent)
      | inr some_left ↦ elim (Bool-cases (leb_ℤ (balance_of inv) (pos 0))) [
        | inl covered ↦
            rw (some_left, covered, allocate)
              (allocate-left srv remaining unpaid rows h
                ∙ ap (max_ℤ (pos 0)) (skips remaining (balance_of inv) (capacity unpaid) covered))
        | inr owing ↦
            rw (some_left, owing, allocate)
              (allocate-left srv (remaining -ℤ min_ℤ remaining (balance_of inv)) unpaid
                  (update_where (invoice_at inv.id)
                    (set_allocation srv (min_ℤ remaining (balance_of inv)) inv) rows)
                  (left_nonneg remaining (balance_of inv))
                ∙ takes remaining (balance_of inv) (capacity unpaid) room owing)
      ]
    ]
