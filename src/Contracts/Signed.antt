-- ===== src/Contracts/Signed.antt =====
-- A signed contract is final.
use isp_cms_be.Prelude.{ℕ, false, some, List, [], ◌∷◌, ◌≡◌, refl, ◌==◌, arith, Bool-cases, inl, inr}
use isp_cms_be.Prelude.Table.{find, update_where}
use isp_cms_be.Store.SalesRows.{Contract, ContractStatus}
use isp_cms_be.Store.Monad.{Db, Server}
use isp_cms_be.Contracts.{
  contract_of, find_contract, create_missing, create_contract, update_contract, with_sent,
  with_signature, send, sign,
}

-- The calls of the service, for any customer.
pub data Step : Db → Db → Type 0 where
  creates : (d : Db) (srv : Server) (customer_id : ℕ) → Step d (create_contract srv customer_id d).1
  sends : (d : Db) (srv : Server) (customer_id : ℕ) → Step d (send srv customer_id d).1
  signs : (d : Db) (srv : Server) (customer_id : ℕ) → Step d (sign srv customer_id d).1

pub data Reach (d : Db) : Db → Type 0 where
  here : Reach d d
  next : {e f : Db} → Reach d e → Step e f → Reach d f

-- Another customer's contract is not found by an update.
update_other :
    (k j : ℕ) (f : Contract → Contract) (rows : List Contract)
    → ((c : Contract) → (f c).customer_id ≡ c.customer_id)
    → j == k ≡ false
    → find (contract_of k) (update_where (contract_of j) f rows) ≡ find (contract_of k) rows
unfolding find update_where
update_other k j f [] keep other = refl
update_other k j f (c ∷ rows) keep other =
    ground (arith, keep c, update_other k j f rows keep other)

module _ (k : ℕ) (c : Contract) (final : c.status ≡ ContractStatus.signed) where
  create-stays :
      (srv : Server) (j : ℕ) (d : Db)
      → find_contract k d ≡ some c
      → find_contract k (create_contract srv j d).1 ≡ some c
  unfolding create_contract create_missing find
  create-stays srv j d found = elim (Bool-cases (j == k)) [
    | inl same ↦ let e : j ≡ k = ground arith in rw e (ground arith)
    | inr other ↦ ground arith
  ]

  send-stays :
      (srv : Server) (j : ℕ) (d : Db)
      → find_contract k d ≡ some c
      → find_contract k (send srv j d).1 ≡ some c
  unfolding send update_contract
  send-stays srv j d found = elim (Bool-cases (j == k)) [
    | inl same ↦ let e : j ≡ k = ground arith in rw e (ground arith)
    | inr other ↦ ground (arith, update_other k j (with_sent srv) d.contracts (λ r. refl) other)
  ]

  sign-stays :
      (srv : Server) (j : ℕ) (d : Db)
      → find_contract k d ≡ some c
      → find_contract k (sign srv j d).1 ≡ some c
  unfolding sign update_contract
  sign-stays srv j d found = elim (Bool-cases (j == k)) [
    | inl same ↦ let e : j ≡ k = ground arith in rw e (ground arith)
    | inr other ↦
        ground (arith, update_other k j (with_signature srv) d.contracts (λ r. refl) other)
  ]

  Step-stays : {d e : Db} → Step d e → find_contract k d ≡ some c → find_contract k e ≡ some c
  Step-stays (creates d srv j) found = create-stays srv j d found
  Step-stays (sends d srv j) found = send-stays srv j d found
  Step-stays (signs d srv j) found = sign-stays srv j d found

  -- The contract that is found for a customer and reads `signed` is the same row after any sequence
  -- of calls of `create`, `send` and `sign`.
  pub Reach-stays_signed :
      {d e : Db} → Reach d e → find_contract k d ≡ some c → find_contract k e ≡ some c
  Reach-stays_signed here found = found
  Reach-stays_signed (next r st) found = Step-stays st (Reach-stays_signed r found)
