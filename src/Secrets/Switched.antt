-- ===== src/Secrets/Switched.antt =====
-- What the enforcement of a customer's secrets leaves in the tables, whatever the devices answer.
use isp_cms_be.Prelude.{
  ℕ, Bool, true, false, not, ◌&&◌, Option, none, some, List, [], ◌∷◌, ◌==◌, ◌≡◌, refl, inl, inr,
  arith, Option-cases,
}
use isp_cms_be.Prelude.Table.{find, select_where, update_where}
use isp_cms_be.Store.Rows.{Secret}
use isp_cms_be.Store.Monad.{Db, Server, Exception}
use isp_cms_be.Secrets.{
  secret_of, with_disabled, set_disabled_by_customer_id, push_all, apply_disabled_for_customer,
}

-- an enabled secret of the customer
abbrev pub is_live : ℕ → Secret → Bool
is_live k s = secret_of k s && not s.disabled

abbrev pub is_cut : List Secret → ℕ → Bool
is_cut secrets k = elim (find (is_live k) secrets) [ none ↦ true | some _ ↦ false ]

abbrev pub switched : Server → ℕ → Bool → List Secret → List Secret
switched srv id disabled secrets = update_where (secret_of id) (with_disabled srv disabled) secrets

pub cut_self :
    (srv : Server) (id : ℕ) (ss : List Secret) → is_cut (switched srv id true ss) id ≡ true
unfolding find update_where
cut_self srv id [] = refl
cut_self srv id (s ∷ ss) = ground (arith, cut_self srv id ss)

pub cut_disabled :
    (srv : Server) (id k : ℕ) (ss : List Secret)
    → is_cut ss k ≡ true
    → is_cut (switched srv id true ss) k ≡ true
unfolding find update_where
cut_disabled srv id k [] h = refl
cut_disabled srv id k (s ∷ ss) h = ground (arith, cut_disabled srv id k ss)

pub cut_other :
    (srv : Server) (id k : ℕ) (b : Bool) (ss : List Secret)
    → (k == id) ≡ false
    → is_cut (switched srv id b ss) k ≡ is_cut ss k
unfolding find update_where
cut_other srv id k b [] h = refl
cut_other srv id k b (s ∷ ss) h = ground (arith, cut_other srv id k b ss)

module _ (push : Secret → Bool → Option Exception) where
  push_all-tables : (ss : List Secret) (b : Bool) (db : Db) → (push_all push ss b db).1 ≡ db
  unfolding push_all
  push_all-tables [] b db = refl
  push_all-tables (s ∷ ss) b db = elim (Option-cases (push s b)) [
    | inl sent ↦ rw (sent, push_all) (push_all-tables ss b db)
    | inr (e, failed) ↦ rw (failed, push_all) refl
  ]

  pub apply_disabled_for_customer-tables :
      (srv : Server) (id : ℕ) (b : Bool) (db : Db)
      → (apply_disabled_for_customer push srv id b db).1
        ≡ record db { ppp_secrets = switched srv id b db.ppp_secrets }
  unfolding apply_disabled_for_customer set_disabled_by_customer_id
  apply_disabled_for_customer-tables srv id b db =
      push_all-tables (select_where (secret_of id) db.ppp_secrets) b
        (record db { ppp_secrets = switched srv id b db.ppp_secrets })
