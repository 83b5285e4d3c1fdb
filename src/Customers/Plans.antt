-- ===== src/Customers/Plans.antt =====
-- The change of a plan: it is made once, and the balance follows the invoices.

use Prim.Native.String.{◌++◌}
use isp_cms_be.Prelude.{
  ℕ, pos, ◌-ℤ◌, eqb_ℤ, true, false, some, ◌==◌, ◌≡◌, refl, ◌∙◌, inl, inr, arith, Bool-cases,
}
use isp_cms_be.Prelude.Table.{update_where}
use isp_cms_be.Prelude.Table.Laws.{find-update_self}
use isp_cms_be.Store.Rows.{Customer}
use isp_cms_be.Store.FieldRows.{Plan}
use isp_cms_be.Store.Monad.{Db, Server, ok, transaction}
use isp_cms_be.Store.Statements.{customer_at, find_customer}
use isp_cms_be.Balance.{sum_unpaid_by_customer}
use isp_cms_be.Invoices.Books.{UniqueInvoices}
use isp_cms_be.Customers.PlanChange.{
  find_plan, with_plan, price_delta, plan_name, change_plan_locked, change_plan_tx,
}
use isp_cms_be.Customers.Proration.{balanced, IsProrated, apply_delta_tx-tables}
use isp_cms_be.Customers.Lifecycle.{update_customer-found}

-- The customer has the plan, and owes what his unpaid invoices say.
abbrev pub IsSettledOn : ℕ → ℕ → Db → Type 0
IsSettledOn id target d =
    (c : Customer) × (find_customer id d ≡ some c)
    × (c.plan_id ≡ target)
    × (c.outstanding ≡ sum_unpaid_by_customer id d.invoices)

module _ (srv : Server) (id : ℕ) where
  abbrev replanned : ℕ → Db → Db
  replanned target d = record d {
    customers = update_where (customer_at id) (with_plan srv target) d.customers;
  }

  settled :
      (target : ℕ) (c : Customer) (d e : Db)
      → find_customer id d ≡ some c
      → e.customers
        ≡ update_where (customer_at id) (balanced srv id e) (replanned target d).customers
      → IsSettledOn id target e
  settled target c d e found rows = (
    balanced srv id e (with_plan srv target c),
    rw rows (
        find-update_self (λ (r : Customer). r.id) id (balanced srv id e)
          (replanned target d).customers (λ _. refl)
        ∙ rw
            (
              find-update_self (λ (r : Customer). r.id) id (with_plan srv target) d.customers
                  (λ _. refl),
              found,
            )
            refl),
    refl,
    refl,
  )

  module _ (target due_days : ℕ) (db : Db) where
    -- A change that moves the price.
    locked-priced :
        (c : Customer) (to : Plan)
        → find_customer id db ≡ some c
        → eqb_ℤ (price_delta to (find_plan c.plan_id db)) (pos 0) ≡ false
        → (e : Db) × (change_plan_locked srv id target due_days c to db
            ≡ (ok (record { applied = true; delta = price_delta to (find_plan c.plan_id db) }), e))
          × IsSettledOn id target e
          × (UniqueInvoices db → IsProrated id (price_delta to (find_plan c.plan_id db)) db e)
    unfolding change_plan_locked
    locked-priced c to found priced =
        let (e, step, rows, prorated) =
          apply_delta_tx-tables srv id (price_delta to (find_plan c.plan_id db)) c.full_name
            ("Proration plan change: " ++ plan_name (find_plan c.plan_id db) ++ " -> " ++ to.name)
            due_days (replanned target db) in
        (
          e,
          ground (arith, step, update_customer-found id db (with_plan srv target) c found),
          settled target c db e found rows,
          prorated,
        )

    unpriced :
        (c : Customer) (to : Plan)
        → find_customer id db ≡ some c
        → (c.plan_id == target) ≡ false
        → find_plan target db ≡ some to
        → eqb_ℤ (price_delta to (find_plan c.plan_id db)) (pos 0) ≡ true
        → find_customer id (change_plan_tx srv id target due_days db).1
          ≡ some (with_plan srv target c)
    unfolding change_plan_tx change_plan_locked transaction
    unpriced c to found moves plan free = ground (
      arith,
      update_customer-found id db (with_plan srv target) c found,
      find-update_self (λ (r : Customer). r.id) id (with_plan srv target) db.customers (λ _. refl),
    )

    -- When the invoices' keys are unique, a change from a plan to another of another price reports
    -- the price difference as applied and leaves the customer on the new plan with an outstanding
    -- amount equal to the sum over his unpaid invoices. A rise adds one invoice of the difference
    -- for him, by which that sum grows, and grants no credit; a fall lowers the sum by the
    -- difference and grants no credit where the oldest unpaid invoice can absorb it, and otherwise
    -- leaves the invoices and grants him one pending credit of the difference.
    pub change_plan_tx-settles :
        (c : Customer) (from to : Plan)
        → find_customer id db ≡ some c
        → (c.plan_id == target) ≡ false
        → find_plan c.plan_id db ≡ some from
        → find_plan target db ≡ some to
        → eqb_ℤ (to.price_monthly -ℤ from.price_monthly) (pos 0) ≡ false
        → UniqueInvoices db
        → let delta = to.price_monthly -ℤ from.price_monthly in
          let out = change_plan_tx srv id target due_days db in
          (out.0 ≡ ok (record { applied = true; delta = delta }))
          × IsSettledOn id target out.1
          × IsProrated id delta db out.1
    unfolding change_plan_tx transaction
    change_plan_tx-settles c from to found moves left plan priced u =
        let delta : price_delta to (find_plan c.plan_id db)
            ≡ to.price_monthly -ℤ from.price_monthly =
          rw left refl in
        let (e, done, holds, prorated) = locked-priced c to found (rw delta priced) in
        let run : change_plan_tx srv id target due_days db
            ≡ (ok (record { applied = true; delta = to.price_monthly -ℤ from.price_monthly }), e) =
          ground arith in
        (rw run refl, rw run holds, rw run (rw delta at prorated u))

    -- What the call finds when it is repeated.
    already_there :
        (srv' : Server) (days : ℕ) (e : Db) (c : Customer)
        → find_customer id e ≡ some c
        → c.plan_id ≡ target
        → change_plan_tx srv' id target days e ≡ (ok (record { applied = false; delta = pos 0 }), e)
    unfolding change_plan_tx transaction
    already_there srv' days e c found plan = ground arith

    -- After a change to another plan that exists, a second change to the same plan reports that
    -- nothing was applied and changes no table.
    pub change_plan_tx-once :
        (c : Customer) (to : Plan) (srv' : Server) (days : ℕ)
        → find_customer id db ≡ some c
        → (c.plan_id == target) ≡ false
        → find_plan target db ≡ some to
        → let d = (change_plan_tx srv id target due_days db).1 in
          change_plan_tx srv' id target days d ≡ (ok (record { applied = false; delta = pos 0 }), d)
    unfolding change_plan_tx transaction
    change_plan_tx-once c to srv' days found moves plan =
        elim (Bool-cases (eqb_ℤ (price_delta to (find_plan c.plan_id db)) (pos 0))) [
          | inr priced ↦
              let (e, done, (r, here, on, _), _) = locked-priced c to found priced in
              let run : (change_plan_tx srv id target due_days db).1 ≡ e = ground arith in
              rw run (already_there srv' days e r here on)
          | inl free ↦
              already_there srv' days _ (with_plan srv target c)
                (unpriced c to found moves plan free) refl
        ]
