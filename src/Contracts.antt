-- ===== src/Contracts.antt =====
-- ContractsService and ContractsRepository (src/modules/contracts): the subscription contract (PKS) of
-- a customer, of whom each has one at most.
pub mod Signed
use isp_cms_be.Prelude.{ℕ, Bool, true, false, Option, none, some, ◌∷◌, ◌==◌}
use isp_cms_be.Prelude.Table.{find, update_where}
use isp_cms_be.Store.SalesRows.{Contract, ContractStatus}
use isp_cms_be.Store.Monad.{
  Db, Server, Action, not_found, bad_request, pure, throw, gets, or_throw, throw_if, modify, ◌>>=◌,
  ◌>>◌,
}
use isp_cms_be.WorkOrders.Provisioning.{CustomerRow, find_customer_row}

abbrev pub contract_of : ℕ → Contract → Bool
contract_of customer_id c = c.customer_id == customer_id

-- `findByCustomerId`
abbrev pub find_contract : ℕ → Db → Option Contract
find_contract customer_id db = find (contract_of customer_id) db.contracts

abbrev pub is_signed : ContractStatus → Bool
is_signed ContractStatus.signed = true
is_signed ContractStatus.sent = false
is_signed ContractStatus.draft = false

abbrev pub contract_row : Server → ℕ → CustomerRow → Contract
contract_row srv customer_id row = record {
  id = srv.key;
  number = srv.contract_no;
  customer_id = customer_id;
  customer_name = row.customer.full_name;
  plan_name = row.plan_name;
  status = ContractStatus.draft;
  meterai = false;
  signed_at = none;
  updated_at = srv.now;
}

abbrev pub insert_contract : Contract → Action Contract
insert_contract c = modify (λ db. record db { contracts = c ∷ db.contracts }) >> pure c

-- `create` for a customer without a contract
unfoldable pub create_missing : Server → ℕ → Action Contract
create_missing srv customer_id = do
  row ← or_throw (← gets (find_customer_row customer_id)) (not_found "customer not found")
  insert_contract (contract_row srv customer_id row)

-- `create`
unfoldable pub create_contract : Server → ℕ → Action Contract
unfolding create_missing
create_contract srv customer_id = do
  existing ← gets (find_contract customer_id)
  elim existing [ some c ↦ pure c | none ↦ create_missing srv customer_id ]

-- `update(contracts).set(f).where(eq(customerId)).returning()`
unfoldable pub update_contract : ℕ → (Contract → Contract) → Action Contract
update_contract customer_id f = do
  modify (λ db. record db { contracts = update_where (contract_of customer_id) f db.contracts })
  or_throw (← gets (find_contract customer_id)) (not_found "contract not found")

-- the sets of `markSent` and `markSigned`
abbrev pub with_sent : Server → Contract → Contract
with_sent srv c = record c { status = ContractStatus.sent; updated_at = srv.now }

abbrev pub with_signature : Server → Contract → Contract
with_signature srv c = record c {
  status = ContractStatus.signed;
  meterai = true;
  signed_at = some srv.now;
  updated_at = srv.now;
}

-- `send`
unfoldable pub send : Server → ℕ → Action Contract
unfolding update_contract
send srv customer_id = do
  c ← or_throw (← gets (find_contract customer_id)) (not_found "contract not found")
  throw_if (is_signed c.status) (bad_request "contract already signed")
  update_contract customer_id (with_sent srv)

-- `sign`
unfoldable pub sign : Server → ℕ → Action Contract
unfolding update_contract
sign srv customer_id = do
  c ← or_throw (← gets (find_contract customer_id)) (not_found "contract not found")
  elim (is_signed c.status) [
    | true ↦ pure c
    | false ↦ update_contract customer_id (with_signature srv)
  ]
