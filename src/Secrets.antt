-- ===== src/Secrets.antt =====
-- The PPPoE secrets of a customer (src/modules/router-resources): the switch of SecretsRepository
-- (secrets.repository.ts) and the enforcement of SecretEnforcementService
-- (secret-enforcement.service.ts).
pub mod Switched
use isp_cms_be.Prelude.{ℕ, Bool, true, false, Option, none, some, List, [], ◌∷◌}
use isp_cms_be.Prelude.Table.{find, select_where, update_where, holds_key}
use isp_cms_be.Store.Rows.{Secret}
use isp_cms_be.Store.Monad.{
  Db, Server, Action, Result, ok, err, Exception, pure, throw, gets, modify, ◌>>=◌, ◌>>◌,
}

abbrev pub secret_of : ℕ → Secret → Bool
secret_of customer_id s = holds_key s.customer_id customer_id

-- `findByCustomerId`
abbrev pub find_by_customer_id : ℕ → Db → Option Secret
find_by_customer_id customer_id db = find (secret_of customer_id) db.ppp_secrets

abbrev pub with_disabled : Server → Bool → Secret → Secret
with_disabled srv disabled s = record s { disabled = disabled; updated_at = srv.now }

-- `setDisabledByCustomerId`
unfoldable pub set_disabled_by_customer_id : Server → ℕ → Bool → Action (Unit {0})
set_disabled_by_customer_id srv customer_id disabled = modify λ db. record db {
  ppp_secrets = update_where (secret_of customer_id) (with_disabled srv disabled) db.ppp_secrets;
}

-- The router adapter is a service: `push s disabled` is the exception that it gives up with, if any.
module _ (push : Secret → Bool → Option Exception) where
  -- the loop over the targets of `applyDisabledForCustomer`
  unfoldable pub push_all : List Secret → Bool → Action (Unit {0})
  push_all [] disabled db = pure tt db
  push_all (s ∷ ss) disabled db =
      let rest = push_all ss disabled db in
      elim (push s disabled) [ none ↦ rest | some e ↦ throw e db ]

  -- `applyDisabledForCustomer`: the rows first, then the devices
  unfoldable pub apply_disabled_for_customer : Server → ℕ → Bool → Action (Unit {0})
  unfolding set_disabled_by_customer_id push_all
  apply_disabled_for_customer srv customer_id disabled = do
    targets ← gets (λ db. select_where (secret_of customer_id) db.ppp_secrets)
    set_disabled_by_customer_id srv customer_id disabled
    push_all targets disabled
