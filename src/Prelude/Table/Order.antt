-- ===== src/Prelude/Table/Order.antt =====
-- What a filter and an `order by` keep: the rows' properties and their keys.
use Prim.Native.Nat.{ℕ}
use mathlib.Core.Path.{◌≡◌, refl, subst}
use mathlib.Core.Logic.{inl, inr}
use mathlib.Core.Bool.{Bool, true, false}
use mathlib.Core.Option.{none, some}
use mathlib.Core.List.{List, [], ◌∷◌}
use native.Mathlib.Omega.{arith}
use isp_cms_be.Prelude.Tests.{leb, ◌==◌, Bool-cases}
use isp_cms_be.Prelude.Table.{find, first, select_where, insert_by, order_by, All, Unique}
use isp_cms_be.Prelude.Table.Laws.{All-map}

module _ {ℓ} {A : Type ℓ} where
  All-select_where {κ} :
      (P : A → Type κ) (p : A → Bool) (rows : List A) → All P rows → All P (select_where p rows)
  unfolding select_where
  All-select_where P p [] h = tt
  All-select_where P p (r ∷ rows) h = elim (Bool-cases (p r)) [
    | inl hit ↦ rw hit (h.0, All-select_where P p rows h.1)
    | inr miss ↦ rw miss (All-select_where P p rows h.1)
  ]

  All-insert_by {κ} :
      (P : A → Type κ) (by : A → ℕ) (r : A) (rows : List A)
      → P r
      → All P rows
      → All P (insert_by by r rows)
  unfolding insert_by
  All-insert_by P by r [] hr h = (hr, tt)
  All-insert_by P by r (s ∷ rows) hr h = elim (Bool-cases (leb (by r) (by s))) [
    | inl before ↦ rw before (hr, h)
    | inr after ↦ rw after (h.0, All-insert_by P by r rows hr h.1)
  ]

  All-order_by {κ} :
      (P : A → Type κ) (by : A → ℕ) (rows : List A) → All P rows → All P (order_by by rows)
  unfolding order_by
  All-order_by P by [] h = tt
  All-order_by P by (r ∷ rows) h =
      All-insert_by P by r (order_by by rows) h.0 (All-order_by P by rows h.1)

  absent-select_where :
      (q p : A → Bool) (rows : List A) → find q rows ≡ none → find q (select_where p rows) ≡ none
  unfolding find select_where
  absent-select_where q p [] h = refl
  absent-select_where q p (r ∷ rows) h = ground (arith, absent-select_where q p rows)

  absent-insert_by :
      (q : A → Bool) (by : A → ℕ) (r : A) (rows : List A)
      → q r ≡ false
      → find q rows ≡ none
      → find q (insert_by by r rows) ≡ none
  unfolding find insert_by
  absent-insert_by q by r [] miss h = ground arith
  absent-insert_by q by r (s ∷ rows) miss h = ground (arith, absent-insert_by q by r rows miss)

  absent-order_by :
      (q : A → Bool) (by : A → ℕ) (rows : List A)
      → find q rows ≡ none
      → find q (order_by by rows) ≡ none
  unfolding find order_by
  absent-order_by q by [] h = refl
  absent-order_by q by (r ∷ rows) h = elim (Bool-cases (q r)) [
    | inl hit ↦ absurd (ground arith)
    | inr miss ↦
        absent-insert_by q by r (order_by by rows) miss (absent-order_by q by rows (ground arith))
  ]

module _ {ℓ} {A : Type ℓ} (key : A → ℕ) where
  Unique-select_where :
      (p : A → Bool) (rows : List A) → Unique key rows → Unique key (select_where p rows)
  unfolding select_where
  Unique-select_where p [] u = tt
  Unique-select_where p (r ∷ rows) u = elim (Bool-cases (p r)) [
    | inl hit ↦
        rw hit
          (absent-select_where (λ s. key s == key r) p rows u.0, Unique-select_where p rows u.1)
    | inr miss ↦ rw miss (Unique-select_where p rows u.1)
  ]

  Unique-insert_by :
      (by : A → ℕ) (r : A) (rows : List A)
      → find (λ s. key s == key r) rows ≡ none
      → Unique key rows
      → Unique key (insert_by by r rows)
  unfolding find insert_by
  Unique-insert_by by r [] miss u = (refl, tt)
  Unique-insert_by by r (s ∷ rows) miss u = elim (Bool-cases (leb (by r) (by s))) [
    | inl before ↦ rw before (miss, u)
    | inr after ↦ rw after (
      absent-insert_by (λ t. key t == key s) by r rows (ground arith) u.0,
      Unique-insert_by by r rows (ground arith) u.1,
    )
  ]

  Unique-order_by : (by : A → ℕ) (rows : List A) → Unique key rows → Unique key (order_by by rows)
  unfolding order_by
  Unique-order_by by [] u = tt
  Unique-order_by by (r ∷ rows) u =
      Unique-insert_by by r (order_by by rows) (absent-order_by (λ s. key s == key r) by rows u.0)
        (Unique-order_by by rows u.1)

  -- The rows of an ordered selection are unique.
  pub Unique-order_select :
      (by : A → ℕ) (p : A → Bool) (rows : List A)
      → Unique key rows
      → Unique key (order_by by (select_where p rows))
  Unique-order_select by p rows u =
      Unique-order_by by (select_where p rows) (Unique-select_where p rows u)

  -- The rows that the key finds.
  abbrev pub Found : List A → A → Type ℓ
  Found rows r = find (λ s. key s == key r) rows ≡ some r

  find_later :
      (s r : A) (rows : List A)
      → find (λ t. key t == key s) rows ≡ none
      → Found rows r
      → Found (s ∷ rows) r
  unfolding find
  find_later s r rows miss found = elim (Bool-cases (key s == key r)) [
    | inl hit ↦
        let same : key s ≡ key r = ground arith in
        absurd (cc (subst (λ k. find (λ t. key t == k) rows ≡ none) same miss))
    | inr other ↦ rw other found
  ]

  pub Unique-Found : (rows : List A) → Unique key rows → All (Found rows) rows
  unfolding find
  Unique-Found [] u = tt
  Unique-Found (r ∷ rows) u = (
    ground arith,
    All-map (Found rows) (Found (r ∷ rows)) rows (λ s. find_later r s rows u.0)
        (Unique-Found rows u.1),
  )

  -- A selected row is the row that its key finds.
  pub Found-order_select :
      (by : A → ℕ) (p : A → Bool) (rows : List A)
      → Unique key rows
      → All (Found rows) (order_by by (select_where p rows))
  Found-order_select by p rows u =
      All-order_by (Found rows) by (select_where p rows)
        (All-select_where (Found rows) p rows (Unique-Found rows u))

module _ {ℓ} {A : Type ℓ} where
  All-selected : (p : A → Bool) (rows : List A) → All (λ r. p r ≡ true) (select_where p rows)
  unfolding select_where
  All-selected p [] = tt
  All-selected p (r ∷ rows) = elim (Bool-cases (p r)) [
    | inl hit ↦ rw hit (hit, All-selected p rows)
    | inr miss ↦ rw miss (All-selected p rows)
  ]

  All-first {κ} : (P : A → Type κ) (rows : List A) {r : A} → All P rows → first rows ≡ some r → P r
  All-first P [] h e = cc
  All-first P (s ∷ rows) {r} h e = let same : s ≡ r = ground arith in subst P same h.0

  -- The first row of an ordered selection passes the test, and is the row that its key finds.
  pub first-order_select :
      (key by : A → ℕ) (p : A → Bool) (rows : List A) {r : A}
      → Unique key rows
      → first (order_by by (select_where p rows)) ≡ some r
      → (p r ≡ true) × Found key rows r
  first-order_select key by p rows u e = (
    All-first (λ r. p r ≡ true) (order_by by (select_where p rows))
        (All-order_by (λ r. p r ≡ true) by (select_where p rows) (All-selected p rows)) e,
    All-first (Found key rows) (order_by by (select_where p rows))
        (Found-order_select key by p rows u) e,
  )
