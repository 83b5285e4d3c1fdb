-- ===== src/Prelude/Table/Laws.antt =====
-- What the statements on a table do to its rows, its keys and its sums.
use mathlib.Core.Option
use Prim.Native.Nat.{ℕ}
use mathlib.Core.Path.{◌≡◌, refl}
use mathlib.Core.Logic.{◌≢◌, inl, inr}
use mathlib.Core.Bool.{Bool, true, false}
use mathlib.Core.Option.{Option, none, some}
use mathlib.Core.List.{List, [], ◌∷◌}
use native.Mathlib.Omega.{arith}
use isp_cms_be.Prelude.Tests.{◌==◌, if◌then◌else◌, Bool-cases, Option-cases}
use isp_cms_be.Prelude.Int.{ℤ, pos, ◌+ℤ◌, int_laws}
use isp_cms_be.Prelude.Table.{find, update_where, select_where, count_where, sum_where, All, Unique}

module _ {ℓ} {A : Type ℓ} where
  pub find_holds : (p : A → Bool) (rows : List A) {r : A} → find p rows ≡ some r → p r ≡ true
  unfolding find
  find_holds p [] e = cc
  find_holds p (s ∷ rows) e = elim (Bool-cases (p s)) [
    | inl hit ↦ ground arith
    | inr miss ↦ find_holds p rows (ground arith)
  ]

  -- A row that passes the test makes the lookup succeed.
  pub find-some :
      (q p : A → Bool) (rows : List A) {r : A}
      → find q rows ≡ some r
      → p r ≡ true
      → (s : A) × (find p rows ≡ some s)
  unfolding find
  find-some q p [] e h = absurd (cc)
  find-some q p (s ∷ rows) {r} e h = elim (Bool-cases (p s)) [
    | inl hit ↦ (s, rw hit)
    | inr miss ↦ let (t, there) = find-some q p rows {r = r} (ground arith) h in (t, rw miss there)
  ]

  pub All-find {κ} :
      (P : A → Type κ) (p : A → Bool) (rows : List A) {r : A}
      → All P rows
      → find p rows ≡ some r
      → P r
  unfolding find
  All-find P p [] h e = cc
  All-find P p (s ∷ rows) {r} h e = elim (Bool-cases (p s)) [
    | inl hit ↦ rw (let same : s ≡ r = ground arith in same) at h.0
    | inr miss ↦ All-find P p rows h.1 (ground arith)
  ]

  pub All-update_where {κ} :
      (P : A → Type κ) (p : A → Bool) (f : A → A) (rows : List A)
      → ((r : A) → P r → p r ≡ true → P (f r))
      → All P rows
      → All P (update_where p f rows)
  unfolding update_where
  All-update_where P p f [] keep h = tt
  All-update_where P p f (r ∷ rows) keep h = elim (Bool-cases (p r)) [
    | inl hit ↦ rw hit (keep r h.0 hit, All-update_where P p f rows keep h.1)
    | inr miss ↦ rw miss (h.0, All-update_where P p f rows keep h.1)
  ]

  -- One property before the update and another after it, row by row.
  pub All-update_each {κ μ} :
      (P : A → Type κ) (Q : A → Type μ) (p : A → Bool) (f : A → A) (rows : List A)
      → ((r : A) → p r ≡ true → P r → Q (f r))
      → ((r : A) → p r ≡ false → P r → Q r)
      → All P rows
      → All Q (update_where p f rows)
  unfolding update_where
  All-update_each P Q p f [] here others h = tt
  All-update_each P Q p f (r ∷ rows) here others h = elim (Bool-cases (p r)) [
    | inl hit ↦ rw hit (here r hit h.0, All-update_each P Q p f rows here others h.1)
    | inr miss ↦ rw miss (others r miss h.0, All-update_each P Q p f rows here others h.1)
  ]

  pub All-map {κ μ} :
      (P : A → Type κ) (Q : A → Type μ) (rows : List A)
      → ((r : A) → P r → Q r)
      → All P rows
      → All Q rows
  All-map P Q [] f h = tt
  All-map P Q (r ∷ rows) f h = (f r h.0, All-map P Q rows f h.1)

  -- An update that does not change what is looked up.
  pub find-update_where :
      (q p : A → Bool) (f : A → A) (rows : List A)
      → ((r : A) → q (f r) ≡ q r)
      → find q (update_where p f rows) ≡ Option.map (λ r. if p r then f r else r) (find q rows)
  unfolding find update_where
  find-update_where q p f [] keep = refl
  find-update_where q p f (r ∷ rows) keep =
      ground (arith, keep r, find-update_where q p f rows keep)

  -- Rows that the test refuses.
  pub update_where-refused :
      (p : A → Bool) (f : A → A) (rows : List A)
      → All (λ r. p r ≡ false) rows
      → update_where p f rows ≡ rows
  unfolding update_where
  update_where-refused p f [] h = refl
  update_where-refused p f (r ∷ rows) h = rw (h.0, update_where-refused p f rows h.1) refl

  pub select_where-refused :
      (p : A → Bool) (rows : List A) → All (λ r. p r ≡ false) rows → select_where p rows ≡ []
  unfolding select_where
  select_where-refused p [] h = refl
  select_where-refused p (r ∷ rows) h = rw h.0 (select_where-refused p rows h.1)

  pub count_where-refused :
      (p : A → Bool) (rows : List A) → All (λ r. p r ≡ false) rows → count_where p rows ≡ 0
  unfolding count_where
  count_where-refused p [] h = refl
  count_where-refused p (r ∷ rows) h = rw h.0 (omega (arith, count_where-refused p rows h.1))

  -- A sum over columns that the update leaves alone.
  pub sum-update_same :
      (q p : A → Bool) (v : A → ℤ) (f : A → A) (rows : List A)
      → ((r : A) → p r ≡ true → q (f r) ≡ q r)
      → ((r : A) → p r ≡ true → v (f r) ≡ v r)
      → sum_where q v (update_where p f rows) ≡ sum_where q v rows
  unfolding sum_where update_where
  sum-update_same q p v f [] hq hv = refl
  sum-update_same q p v f (r ∷ rows) hq hv =
      ground (arith, hq r, hv r, sum-update_same q p v f rows hq hv)

module _ {ℓ} {A : Type ℓ} (key : A → ℕ) where
  pub update_where_absent :
      (k : ℕ) (f : A → A) (rows : List A)
      → find (λ r. key r == k) rows ≡ none
      → update_where (λ r. key r == k) f rows ≡ rows
  unfolding find update_where
  update_where_absent k f [] e = refl
  update_where_absent k f (r ∷ rows) e = ground (arith, update_where_absent k f rows)

  pub Unique-update_where :
      (p : A → Bool) (f : A → A) (rows : List A)
      → ((r : A) → key (f r) ≡ key r)
      → Unique key rows
      → Unique key (update_where p f rows)
  unfolding find update_where
  Unique-update_where p f [] keep u = tt
  Unique-update_where p f (r ∷ rows) keep u = ground (
    arith,
    keep r,
    find-update_where (λ s. key s == key r) p f rows (λ s. rw (keep s)),
    Unique-update_where p f rows keep u.1,
  )

  -- One row changes, so the sum changes by that row.
  pub sum-update_key :
      (q : A → Bool) (v : A → ℤ) (k : ℕ) (f : A → A) (rows : List A) {r : A}
      → Unique key rows
      → find (λ s. key s == k) rows ≡ some r
      → sum_where q v (update_where (λ s. key s == k) f rows) +ℤ (if q r then v r else pos 0)
        ≡ sum_where q v rows +ℤ (if q (f r) then v (f r) else pos 0)
  unfolding find update_where sum_where
  sum-update_key q v k f [] u e = cc
  sum-update_key q v k f (s ∷ rows) {r} u e = elim (Bool-cases (key s == k)) [
    | inl hit ↦
        let same : s ≡ r = ground arith in
        rw (hit, update_where_absent k f rows (ground arith), same) (omega int_laws)
    | inr miss ↦ grind (int_laws, sum-update_key q v k f rows {r = r} u.1 (ground arith))
  ]

  -- Only the row that is found changes.
  pub All-update_key {κ} :
      (P : A → Type κ) (k : ℕ) (f : A → A) (rows : List A) {r : A}
      → Unique key rows
      → find (λ s. key s == k) rows ≡ some r
      → (P r → P (f r))
      → All P rows
      → All P (update_where (λ s. key s == k) f rows)
  unfolding find update_where
  All-update_key P k f [] u e keep h = tt
  All-update_key P k f (s ∷ rows) {r} u e keep h = elim (Bool-cases (key s == k)) [
    | inl hit ↦
        let same : s ≡ r = ground arith in
        rw (hit, update_where_absent k f rows (ground arith)) (rw same (keep (rw same at h.0)), h.1)
    | inr miss ↦ rw miss (h.0, All-update_key P k f rows u.1 (ground arith) keep h.1)
  ]

  pub find-update_self :
      (k : ℕ) (f : A → A) (rows : List A)
      → ((r : A) → key (f r) ≡ key r)
      → find (λ s. key s == k) (update_where (λ s. key s == k) f rows)
        ≡ Option.map f (find (λ s. key s == k) rows)
  unfolding find update_where
  find-update_self k f [] keep = refl
  find-update_self k f (r ∷ rows) keep = ground (arith, keep r, find-update_self k f rows keep)

  pub find-update_ne :
      (j k : ℕ) (f : A → A) (rows : List A)
      → ((r : A) → key (f r) ≡ key r)
      → j ≢ k
      → find (λ s. key s == j) (update_where (λ s. key s == k) f rows) ≡ find (λ s. key s == j) rows
  unfolding find update_where
  find-update_ne j k f [] keep h = refl
  find-update_ne j k f (r ∷ rows) keep h = ground (arith, keep r, find-update_ne j k f rows keep h)

  -- A row that is found after the update comes from the row found before it.
  pub find-update_self_inv :
      (k : ℕ) (f : A → A) (rows : List A) {r : A}
      → ((s : A) → key (f s) ≡ key s)
      → find (λ s. key s == k) (update_where (λ s. key s == k) f rows) ≡ some r
      → (s : A) × (find (λ s. key s == k) rows ≡ some s) × (r ≡ f s)
  find-update_self_inv k f rows {r} keep e = elim (Option-cases (find (λ s. key s == k) rows)) [
    | inl missing ↦ absurd (cc (find-update_self k f rows keep))
    | inr (s, found) ↦ (s, found, cc (find-update_self k f rows keep))
  ]

  All-update_absent {κ μ} :
      (P : A → Type κ) (Q : A → Type μ) (k : ℕ) (f : A → A) (rows : List A)
      → find (λ s. key s == k) rows ≡ none
      → ((s : A) → key s ≢ k → P s → Q s)
      → All P rows
      → All Q (update_where (λ s. key s == k) f rows)
  unfolding find update_where
  All-update_absent P Q k f [] e others h = tt
  All-update_absent P Q k f (s ∷ rows) e others h = elim (Bool-cases (key s == k)) [
    | inl hit ↦ absurd (ground arith)
    | inr miss ↦
        rw miss
          (others s (ground arith) h.0, All-update_absent P Q k f rows (ground arith) others h.1)
  ]

  -- One property before the update, another after it.
  pub All-update_to {κ μ} :
      (P : A → Type κ) (Q : A → Type μ) (k : ℕ) (f : A → A) (rows : List A) {r : A}
      → Unique key rows
      → find (λ s. key s == k) rows ≡ some r
      → ((s : A) → key s ≢ k → P s → Q s)
      → (P r → Q (f r))
      → All P rows
      → All Q (update_where (λ s. key s == k) f rows)
  unfolding find update_where
  All-update_to P Q k f [] u e others here h = cc
  All-update_to P Q k f (s ∷ rows) {r} u e others here h = elim (Bool-cases (key s == k)) [
    | inl hit ↦
        let same : s ≡ r = ground arith in
        rw hit (
          rw same (here (rw same at h.0)),
          All-update_absent P Q k f rows (ground arith) others h.1,
        )
    | inr miss ↦
        rw miss (
          others s (ground arith) h.0,
          All-update_to P Q k f rows u.1 (ground arith) others here h.1,
        )
  ]
