-- ===== src/Prelude/Table/Deleted.antt =====
-- What `delete ... where` leaves.
use Prim.Native.Nat.{◌≤◌}
use mathlib.Core.Path.{◌≡◌, refl}
use mathlib.Core.Bool.{Bool, true, false}
use mathlib.Core.Option.{none}
use mathlib.Core.List.{List, [], ◌∷◌}
use native.Mathlib.Omega.{arith}
use isp_cms_be.Prelude.Table.{find, delete_where, count_where}

module _ {ℓ} {A : Type ℓ} where
  pub find-delete_where : (p : A → Bool) (rows : List A) → find p (delete_where p rows) ≡ none
  unfolding find delete_where
  find-delete_where p [] = refl
  find-delete_where p (r ∷ rs) = ground (arith, find-delete_where p rs)

  pub find-delete_where-none :
      (p q : A → Bool) (rows : List A) → find p rows ≡ none → find p (delete_where q rows) ≡ none
  unfolding find delete_where
  find-delete_where-none p q [] h = refl
  find-delete_where-none p q (r ∷ rs) h = ground (arith, find-delete_where-none p q rs)

  pub find-delete_where_other :
      (p q : A → Bool) (rows : List A)
      → ((r : A) → p r ≡ true → q r ≡ false)
      → find p (delete_where q rows) ≡ find p rows
  unfolding find delete_where
  find-delete_where_other p q [] apart = refl
  find-delete_where_other p q (r ∷ rs) apart =
      ground (arith, apart r, find-delete_where_other p q rs apart)

  pub count-delete_where_le :
      (p q : A → Bool) (rows : List A) → count_where p (delete_where q rows) ≤ count_where p rows
  unfolding count_where delete_where
  count-delete_where_le p q [] = omega arith
  count-delete_where_le p q (r ∷ rs) = ground (arith, count-delete_where_le p q rs)
