-- ===== src/Customers/Sweep.antt =====
-- The sweep of active debtors: it never leaves a suspended customer connected, and it reaches every
-- debtor when the routers answer.

use isp_cms_be.Prelude.{
  ℕ, suc, ℤ, Bool, true, false, Option, some, List, [], ◌∷◌, ◌++◌, ◌==◌, ◌≡◌, refl, sym, subst, ◌∙◌,
  ◌⊎◌, inl, inr, arith, Bool-cases, Option-cases,
}
use isp_cms_be.Prelude.Table.{update_where, in_array}
use isp_cms_be.Prelude.Table.Laws.{All-update_each, All-map, find_holds, find-update_where}
use isp_cms_be.Store.Rows.{Customer, Secret}
use isp_cms_be.Store.Monad.{Db, Server, Result, ok, err, Exception}
use isp_cms_be.Store.Statements.{customer_at, find_customer}
use isp_cms_be.Balance.{sum_unpaid_by_customer}
use isp_cms_be.Secrets.{apply_disabled_for_customer}
use isp_cms_be.Secrets.Switched.{
  switched, cut_self, cut_disabled, apply_disabled_for_customer-tables,
}
use isp_cms_be.Invoices.Automation.{customer_ids_isolir_eligible}
use isp_cms_be.Customers.{is_aktif, update_customer}
use isp_cms_be.Customers.Lifecycle.{AllEnforced, is_enforced, other_enforced}
use isp_cms_be.Customers.Isolation.{
  with_billing, isolation, set_billing, isolate_debtor, isolate_each, isolate_active_debtors,
  was_aktif, SweepResult,
}

module _ (push : Secret → Bool → Option Exception) (srv : Server) where
  abbrev pub cut : ℕ → Db → Db
  cut id d = record d { ppp_secrets = switched srv id true d.ppp_secrets }

  abbrev pub isolated : ℕ → ℤ → Db → Db
  isolated id outstanding d = record (cut id d) {
    customers =
        update_where (customer_at id) (with_billing srv (isolation outstanding)) d.customers;
  }

  pub set_billing-tables :
      (id : ℕ) (outstanding : ℤ) (d : Db)
      → (set_billing srv id (isolation outstanding) (cut id d)).1 ≡ isolated id outstanding d
  unfolding set_billing update_customer
  set_billing-tables id outstanding d = elim (Option-cases (find_customer id d)) [
    | inl missing ↦ ground arith
    | inr (c, found) ↦ ground arith
  ]

  -- The rows of one round: the secrets are switched, and then perhaps the customer.
  pub isolate_debtor-cases :
      (id : ℕ) (outstanding : ℤ) (d : Db)
      → ((isolate_debtor push srv id outstanding d).1 ≡ cut id d)
        ⊎ ((isolate_debtor push srv id outstanding d).1 ≡ isolated id outstanding d)
  unfolding isolate_debtor
  isolate_debtor-cases id outstanding d =
      by_answer (apply_disabled_for_customer push srv id true d) refl
    where
      by_answer :
          (o : Result (Unit {0}) × Db)
          → apply_disabled_for_customer push srv id true d ≡ o
          → ((isolate_debtor push srv id outstanding d).1 ≡ cut id d)
            ⊎ ((isolate_debtor push srv id outstanding d).1 ≡ isolated id outstanding d)
      by_answer (ok t, e) h = inr (
          ground (
            arith,
            apply_disabled_for_customer-tables push srv id true d,
            set_billing-tables id outstanding d,
          ))
      by_answer (err x, e) h =
          inl (ground (arith, apply_disabled_for_customer-tables push srv id true d))

  isolate_debtor-AllEnforced :
      (id : ℕ) (outstanding : ℤ) (d : Db)
      → AllEnforced d
      → AllEnforced (isolate_debtor push srv id outstanding d).1
  isolate_debtor-AllEnforced id outstanding d h = elim (isolate_debtor-cases id outstanding d) [
    | inl failed ↦ subst AllEnforced (sym failed) (All-map _ _ d.customers (λ c. kept c) h)
    | inr done ↦ subst AllEnforced (sym done) (
        All-update_each (λ c. is_enforced d.ppp_secrets c ≡ true)
          (λ c. is_enforced (cut id d).ppp_secrets c ≡ true) (customer_at id)
          (with_billing srv (isolation outstanding)) d.customers (λ c here _. suspended c here)
          (λ c other. other_enforced srv id d.ppp_secrets true c other) h)
  ]
    where
      kept :
          (c : Customer)
          → is_enforced d.ppp_secrets c ≡ true
          → is_enforced (cut id d).ppp_secrets c ≡ true
      kept c e = ground (arith, cut_disabled srv id c.id d.ppp_secrets)

      suspended :
          (c : Customer)
          → customer_at id c ≡ true
          → is_enforced (cut id d).ppp_secrets (with_billing srv (isolation outstanding) c) ≡ true
      suspended c here =
          let same : c.id ≡ id = ground arith in rw same (cut_self srv id d.ppp_secrets)

  -- A round leaves the row of another customer.
  isolate_debtor-other :
      (id k : ℕ) (outstanding : ℤ) (d : Db) {c : Customer}
      → find_customer k d ≡ some c
      → customer_at id c ≡ false
      → find_customer k (isolate_debtor push srv id outstanding d).1 ≡ some c
  isolate_debtor-other id k outstanding d {c} found other =
      elim (isolate_debtor-cases id outstanding d) [
        | inl failed ↦ rw failed found
        | inr done ↦ rw done (
            find-update_where (customer_at k) (customer_at id)
              (with_billing srv (isolation outstanding)) d.customers (λ _. refl)
            ∙ rw (found, other) refl)
      ]

  -- The loop goes on after a round, whatever the round answered.
  pub isolate_each-round :
      (fetched : Db) (id : ℕ) (ids : List ℕ) (acc : SweepResult) (d : Db)
      → was_aktif fetched id ≡ true
      → (acc' : SweepResult) × (isolate_each push srv fetched (id ∷ ids) acc d
          ≡ isolate_each push srv fetched ids acc'
              (isolate_debtor push srv id (sum_unpaid_by_customer id fetched.invoices) d).1)
  unfolding isolate_each
  isolate_each-round fetched id ids acc d active = by_answer round.0 refl
    where
      round : Result (Unit {0}) × Db
      round = isolate_debtor push srv id (sum_unpaid_by_customer id fetched.invoices) d

      by_answer :
          (r : Result (Unit {0}))
          → round.0 ≡ r
          → (acc' : SweepResult) × (isolate_each push srv fetched (id ∷ ids) acc d
              ≡ isolate_each push srv fetched ids acc' round.1)
      by_answer (ok t) e =
          (record acc { isolated = suc acc.isolated }, rw (active, e, isolate_each) refl)
      by_answer (err x) e = (
        record acc { failed_customer_ids = acc.failed_customer_ids ++ (id ∷ []) },
        rw (active, e, isolate_each) refl,
      )

  pub isolate_each-idle :
      (fetched : Db) (id : ℕ) (ids : List ℕ) (acc : SweepResult) (d : Db)
      → was_aktif fetched id ≡ false
      → isolate_each push srv fetched (id ∷ ids) acc d ≡ isolate_each push srv fetched ids acc d
  unfolding isolate_each
  isolate_each-idle fetched id ids acc d idle = rw (idle, isolate_each) refl

  -- What every round of the loop keeps, the loop keeps.
  pub isolate_each-keeps :
      (P : Db → Type 0) (fetched : Db)
      → ((id : ℕ) (d : Db)
          → was_aktif fetched id ≡ true
          → P d
          → P (isolate_debtor push srv id (sum_unpaid_by_customer id fetched.invoices) d).1)
      → (ids : List ℕ) (acc : SweepResult) (d : Db) → P d
      → P (isolate_each push srv fetched ids acc d).1
  unfolding isolate_each
  isolate_each-keeps P fetched keep [] acc d h = h
  isolate_each-keeps P fetched keep (id ∷ ids) acc d h = elim (Bool-cases (was_aktif fetched id)) [
    | inl active ↦
        let (acc', step) = isolate_each-round fetched id ids acc d active in
        rw step (isolate_each-keeps P fetched keep ids acc' _ (keep id d active h))
    | inr idle ↦
        rw (isolate_each-idle fetched id ids acc d idle)
          (isolate_each-keeps P fetched keep ids acc d h)
  ]

  -- What a round establishes for `k`, and every later round keeps, the loop establishes.
  pub isolate_each-reaches :
      (P Q : Db → Type 0) (fetched : Db) (k : ℕ)
      → ((id : ℕ) (d : Db)
          → P d
          → P (isolate_debtor push srv id (sum_unpaid_by_customer id fetched.invoices) d).1)
      → ((d : Db)
          → P d
          → Q (isolate_debtor push srv k (sum_unpaid_by_customer k fetched.invoices) d).1)
      → ((id : ℕ) (d : Db)
          → Q d
          → Q (isolate_debtor push srv id (sum_unpaid_by_customer id fetched.invoices) d).1)
      → (ids : List ℕ) (acc : SweepResult) (d : Db) → in_array ids k ≡ true
      → was_aktif fetched k ≡ true
      → P d
      → Q (isolate_each push srv fetched ids acc d).1
  unfolding isolate_each in_array
  isolate_each-reaches P Q fetched k keep reach stay [] acc d listed awake h = absurd (cc)
  isolate_each-reaches P Q fetched k keep reach stay (id ∷ ids) acc d listed awake h =
      elim (Bool-cases (k == id)) [
        | inl hit ↦
            let same : k ≡ id = ground arith in
            let (acc', step) = isolate_each-round fetched k ids acc d awake in
            rw (← same, step)
              (isolate_each-keeps Q fetched (λ i e _. stay i e) ids acc' _ (reach d h))
        | inr other ↦ elim (Bool-cases (was_aktif fetched id)) [
          | inl active ↦
              let (acc', step) = isolate_each-round fetched id ids acc d active in
              rw step (
                isolate_each-reaches P Q fetched k keep reach stay ids acc' _ (ground arith) awake
                  (keep id d h))
          | inr idle ↦
              rw (isolate_each-idle fetched id ids acc d idle) (
                isolate_each-reaches P Q fetched k keep reach stay ids acc d (ground arith) awake h)
        ]
      ]

  pub isolate_active_debtors-AllEnforced :
      (grace_days : ℕ) (db : Db)
      → AllEnforced db
      → AllEnforced (isolate_active_debtors push srv grace_days db).1
  unfolding isolate_active_debtors
  isolate_active_debtors-AllEnforced grace_days db h =
      isolate_each-keeps AllEnforced db
        (λ id d _ e. isolate_debtor-AllEnforced id (sum_unpaid_by_customer id db.invoices) d e)
        (customer_ids_isolir_eligible srv grace_days db) _ db h

  -- The sweep does not touch the row of a customer who is not active.
  pub isolate_active_debtors-idle :
      (grace_days k : ℕ) (db : Db) (c : Customer)
      → find_customer k db ≡ some c
      → is_aktif c.status ≡ false
      → find_customer k (isolate_active_debtors push srv grace_days db).1 ≡ some c
  unfolding isolate_active_debtors
  isolate_active_debtors-idle grace_days k db c found idle =
      isolate_each-keeps (λ d. find_customer k d ≡ some c) db
        (λ id d active here.
          isolate_debtor-other id k (sum_unpaid_by_customer id db.invoices) d here
            (apart id active))
        (customer_ids_isolir_eligible srv grace_days db) _ db found
    where
      apart : (id : ℕ) → was_aktif db id ≡ true → customer_at id c ≡ false
      apart id active = elim (Bool-cases (customer_at id c)) [
        | inr other ↦ other
        | inl hit ↦
            let same : k ≡ id = ground (arith, find_holds (customer_at k) db.customers found) in
            absurd (ground (arith, subst (λ (i : ℕ). find_customer i db ≡ some c) same found))
      ]
