-- ===== src/Customers/Reached.antt =====
-- When no router gives up, the sweep reaches every active debtor who is past the grace days.
use mathlib.Core.Option
use isp_cms_be.Prelude.{
  ℕ, ℤ, Bool, true, false, ◌&&◌, Option, none, some, List, [], ◌∷◌, map, ◌==◌, if◌then◌else◌, ◌≡◌,
  refl, ap, ◌∙◌, inl, inr, arith, Bool-cases,
}
use isp_cms_be.Prelude.Table.{find, select_where, in_array}
use isp_cms_be.Prelude.Table.Laws.{find_holds, find-update_where}
use isp_cms_be.Store.Rows.{Invoice, Customer, CustomerStatus, Secret}
use isp_cms_be.Store.Monad.{Db, Server, ok, Exception}
use isp_cms_be.Store.Statements.{customer_at, find_customer}
use isp_cms_be.Balance.{sum_unpaid_by_customer}
use isp_cms_be.Invoices.Automation.{past_grace, distinct, customer_ids_isolir_eligible}
use isp_cms_be.Secrets.{secret_of, apply_disabled_for_customer, push_all}
use isp_cms_be.Secrets.Switched.{switched, apply_disabled_for_customer-tables}
use isp_cms_be.Customers.Isolation.{with_billing, isolation, isolate_debtor, isolate_active_debtors}
use isp_cms_be.Customers.Sweep.{isolated, set_billing-tables, isolate_each-reaches}

in_array-distinct : (ks : List ℕ) (k : ℕ) → in_array (distinct ks) k ≡ in_array ks k
unfolding in_array distinct
in_array-distinct [] k = refl
in_array-distinct (j ∷ ks) k = elim (Bool-cases (in_array ks j)) [
  | inl again ↦ ground (arith, in_array-distinct ks k, same)
  | inr once ↦ ground (arith, in_array-distinct ks k)
]
  where
    same : (k == j) ≡ true → in_array ks k ≡ in_array ks j
    same h = ap (in_array ks) (let e : k ≡ j = ground arith in e)

abbrev pub is_debt_of : Server → ℕ → ℕ → Invoice → Bool
is_debt_of srv grace k inv = past_grace srv grace inv && inv.customer_id == k

listed :
    (srv : Server) (grace k : ℕ) (rows : List Invoice) {inv : Invoice}
    → find (is_debt_of srv grace k) rows ≡ some inv
    → in_array (map (λ (r : Invoice). r.customer_id) (select_where (past_grace srv grace) rows)) k
      ≡ true
unfolding in_array find select_where
listed srv grace k [] e = cc
listed srv grace k (r ∷ rows) {inv} e = ground (arith, listed srv grace k rows {inv = inv})

-- The customer is suspended and owes what his unpaid invoices say.
abbrev pub Suspended : ℕ → ℤ → Db → Type 0
Suspended k amount d =
    (c : Customer) × (find_customer k d ≡ some c)
    × (c.status ≡ CustomerStatus.isolir)
    × (c.outstanding ≡ amount)

abbrev Present : ℕ → Db → Type 0
Present k d = (c : Customer) × (find_customer k d ≡ some c)

module _ (push : Secret → Bool → Option Exception)
    (answers : (s : Secret) (b : Bool) → push s b ≡ none) (srv : Server) where
  push_all-ok : (ss : List Secret) (b : Bool) (d : Db) → (push_all push ss b d).0 ≡ ok tt
  unfolding push_all
  push_all-ok [] b d = refl
  push_all-ok (s ∷ ss) b d = rw (answers s b, push_all) (push_all-ok ss b d)

  answered : (id : ℕ) (d : Db) → (apply_disabled_for_customer push srv id true d).0 ≡ ok tt
  unfolding apply_disabled_for_customer
  answered id d =
      push_all-ok (select_where (secret_of id) d.ppp_secrets) true
        (record d { ppp_secrets = switched srv id true d.ppp_secrets })

  isolate_debtor-done :
      (id : ℕ) (outstanding : ℤ) (d : Db)
      → (isolate_debtor push srv id outstanding d).1 ≡ isolated push srv id outstanding d
  unfolding isolate_debtor
  isolate_debtor-done id outstanding d = ground (
    arith,
    apply_disabled_for_customer-tables push srv id true d,
    answered id d,
    set_billing-tables push srv id outstanding d,
  )

  -- One round, seen from the customer `k`.
  round_row :
      (id k : ℕ) (outstanding : ℤ) (d : Db)
      → find_customer k (isolate_debtor push srv id outstanding d).1
        ≡ Option.map
            (λ r. if customer_at id r then with_billing srv (isolation outstanding) r else r)
            (find_customer k d)
  round_row id k outstanding d = rw (isolate_debtor-done id outstanding d) (
      find-update_where (customer_at k) (customer_at id) (with_billing srv (isolation outstanding))
        d.customers (λ _. refl))

  round-Present :
      (id k : ℕ) (outstanding : ℤ) (d : Db)
      → Present k d
      → Present k (isolate_debtor push srv id outstanding d).1
  round-Present id k outstanding d (c, found) = (
    if customer_at id c then with_billing srv (isolation outstanding) c else c,
    round_row id k outstanding d ∙ rw found refl,
  )

  round-Suspended :
      (k : ℕ) (outstanding : ℤ) (d : Db)
      → Present k d
      → Suspended k outstanding (isolate_debtor push srv k outstanding d).1
  round-Suspended k outstanding d (c, found) = (
    with_billing srv (isolation outstanding) c,
    round_row k k outstanding d
        ∙ rw
            (
              found,
              let hit : customer_at k c ≡ true = find_holds (customer_at k) d.customers found in
                  hit,
            )
            refl,
    refl,
    refl,
  )

  round-still :
      (fetched : Db) (id k : ℕ) (d : Db)
      → Suspended k (sum_unpaid_by_customer k fetched.invoices) d
      → Suspended k
          (sum_unpaid_by_customer k fetched.invoices)
          (isolate_debtor push srv id (sum_unpaid_by_customer id fetched.invoices) d).1
  round-still fetched id k d (c, found, held, owes) = elim (Bool-cases (k == id)) [
    | inl hit ↦
        let same : k ≡ id = ground arith in
        rw (← same) (round-Suspended k (sum_unpaid_by_customer k fetched.invoices) d (c, found))
    | inr other ↦ (c, round_row id k _ d ∙ rw (found, apart other) refl, held, owes)
  ]
    where
      apart : (k == id) ≡ false → customer_at id c ≡ false
      apart h = ground (arith, find_holds (customer_at k) d.customers found)

  -- When no router gives up, the sweep leaves every customer who was active and has an overdue
  -- invoice past the grace days suspended, with his outstanding amount equal to the sum over his
  -- unpaid invoices.
  pub isolate_active_debtors-reaches :
      (grace_days k : ℕ) (db : Db) (c : Customer) (inv : Invoice)
      → find_customer k db ≡ some c
      → c.status ≡ CustomerStatus.aktif
      → find (is_debt_of srv grace_days k) db.invoices ≡ some inv
      → Suspended k
          (sum_unpaid_by_customer k db.invoices)
          (isolate_active_debtors push srv grace_days db).1
  unfolding isolate_active_debtors customer_ids_isolir_eligible
  isolate_active_debtors-reaches grace_days k db c inv found active debt =
      isolate_each-reaches push srv (Present k) (Suspended k (sum_unpaid_by_customer k db.invoices))
        db k (λ id d p. round-Present id k _ d p) (λ d p. round-Suspended k _ d p)
        (λ id d s. round-still db id k d s) (customer_ids_isolir_eligible srv grace_days db) _ db
        (in_array-distinct _ k ∙ listed srv grace_days k db.invoices debt) (ground arith) (c, found)
