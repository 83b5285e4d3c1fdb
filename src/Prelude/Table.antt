-- ===== src/Prelude/Table.antt =====
-- A table as the list of its rows, with the SQL statements the repositories build: a `select` that
-- takes the first row, an `update ... where`, a `sum` with a filter, an `order by`. A row is found
-- by its primary key; the key is unique where a theorem needs it.
pub mod Laws
pub mod Order
pub mod Deleted
use Prim.Native.Nat.{ℕ, ◌+◌}
use mathlib.Core.Path.{◌≡◌}
use mathlib.Core.Bool.{Bool, false, ◌||◌}
use mathlib.Core.Option.{Option, none, some}
use mathlib.Core.List.{List, [], ◌∷◌}
use isp_cms_be.Prelude.Tests.{leb, ◌==◌, if◌then◌else◌}
use isp_cms_be.Prelude.Int.{ℤ, pos, ◌+ℤ◌}

module _ {ℓ} {A : Type ℓ} where
  -- `select ... where p limit 1`
  unfoldable pub find : (A → Bool) → List A → Option A
  find p [] = none
  find p (r ∷ rs) = if p r then some r else find p rs

  -- `update ... set f where p`
  unfoldable pub update_where : (A → Bool) → (A → A) → List A → List A
  update_where p f [] = []
  update_where p f (r ∷ rs) = (if p r then f r else r) ∷ update_where p f rs

  -- `select ... where p`
  unfoldable pub select_where : (A → Bool) → List A → List A
  select_where p [] = []
  select_where p (r ∷ rs) = let rest = select_where p rs in if p r then r ∷ rest else rest

  -- `delete ... where p`
  unfoldable pub delete_where : (A → Bool) → List A → List A
  delete_where p [] = []
  delete_where p (r ∷ rs) = let rest = delete_where p rs in if p r then rest else r ∷ rest

  -- `select count(*) where p`, and the `rowCount` of an update
  unfoldable pub count_where : (A → Bool) → List A → ℕ
  count_where p [] = 0
  count_where p (r ∷ rs) = (if p r then 1 else 0) + count_where p rs

  -- `select coalesce(sum(value), 0) where p`
  unfoldable pub sum_where : (A → Bool) → (A → ℤ) → List A → ℤ
  sum_where p value [] = pos 0
  sum_where p value (r ∷ rs) = (if p r then value r else pos 0) +ℤ sum_where p value rs

  -- `order by key asc`, stable
  unfoldable pub insert_by : (A → ℕ) → A → List A → List A
  insert_by key r [] = r ∷ []
  insert_by key r (s ∷ rs) = if leb (key r) (key s) then r ∷ s ∷ rs else s ∷ insert_by key r rs

  unfoldable pub order_by : (A → ℕ) → List A → List A
  unfolding insert_by
  order_by key [] = []
  order_by key (r ∷ rs) = insert_by key r (order_by key rs)

  -- the first row of a result, `const [row] = ...`
  abbrev pub first : List A → Option A
  first [] = none
  first (r ∷ rs) = some r

  -- Every row has the property.
  abbrev pub All {κ} : (A → Type κ) → List A → Type κ
  All P [] = Unit
  All P (r ∷ rs) = P r × All P rs

  -- The key is unique.
  abbrev pub Unique : (A → ℕ) → List A → Type ℓ
  Unique key [] = Unit
  Unique key (r ∷ rs) = (find (λ s. key s == key r) rs ≡ none) × Unique key rs

-- `eq(column, value)` at a nullable column: null is equal to nothing.
abbrev pub holds_key : Option ℕ → ℕ → Bool
holds_key none k = false
holds_key (some j) k = j == k

-- `inArray(column, values)`
unfoldable pub in_array : List ℕ → ℕ → Bool
in_array [] k = false
in_array (j ∷ js) k = k == j || in_array js k
