-- ===== src/WorkOrders/Orders.antt =====
-- The states of a work order: what starting, cancelling, assigning and rescheduling may do.
use mathlib.Core.Option
use isp_cms_be.Prelude.{
  ℕ, String, false, some, if◌then◌else◌, ◌≡◌, refl, sym, subst, ◌∙◌, ◌⊎◌, inl, inr, arith,
  Bool-cases, Option-cases,
}
use isp_cms_be.Prelude.Table.{update_where}
use isp_cms_be.Prelude.Table.Laws.{find_holds, find-update_where}
use isp_cms_be.Store.FieldRows.{WorkOrder, WorkOrderStatus}
use isp_cms_be.Store.Monad.{Db, Server}
use isp_cms_be.WorkOrders.{
  order_at, find_order, update_order, with_status, with_technician, with_schedule, is_over,
  require_open, start, cancel, assign, reschedule,
}

-- The steps of the workflow that are no completion.
pub data Moves : WorkOrderStatus → WorkOrderStatus → Type 0 where
  stays : (s : WorkOrderStatus) → Moves s s
  starts : Moves WorkOrderStatus.scheduled WorkOrderStatus.in_progress
  gives_up : (s : WorkOrderStatus) → is_over s ≡ false → Moves s WorkOrderStatus.cancelled

module _ (id : ℕ) (d : Db) where
  abbrev stored : (WorkOrder → WorkOrder) → Db
  stored f = record d { work_orders = update_where (order_at id) f d.work_orders }

  -- A call that stores a legal step, or nothing.
  changed_row :
      (f : WorkOrder → WorkOrder) (wo : WorkOrder) (k : ℕ) (w : WorkOrder)
      → find_order id d ≡ some wo
      → ((r : WorkOrder) → (f r).id ≡ r.id)
      → Moves wo.status (f wo).status
      → find_order k d ≡ some w
      → (w' : WorkOrder) × (find_order k (stored f) ≡ some w') × Moves w.status w'.status
  changed_row f wo k w here key step found = elim (Bool-cases (order_at id w)) [
    | inr other ↦ (w, seen ∙ rw (found, other) refl, stays w.status)
    | inl hit ↦
        let same : k ≡ id = ground (arith, find_holds (order_at k) d.work_orders found) in
        let row : wo ≡ w = cc in
        (f w, seen ∙ rw (found, hit) refl, subst (λ r. Moves r.status (f r).status) row step)
  ]
    where
      seen :
          find_order k (stored f)
          ≡ Option.map (λ r. if order_at id r then f r else r) (find_order k d)
      seen = find-update_where (order_at k) (order_at id) f d.work_orders (λ r. rw (key r) refl)

  update_order-tables :
      (f : WorkOrder → WorkOrder) (wo : WorkOrder)
      → find_order id d ≡ some wo
      → (update_order id f d).1 ≡ stored f
  unfolding update_order
  update_order-tables f wo here = ground arith

-- The operations on an order that is not completed by them, whether they succeed or throw.
pub data Step (db : Db) : Db → Type 0 where
  started : (srv : Server) (id : ℕ) → Step db (start srv id db).1
  stopped : (srv : Server) (id : ℕ) → Step db (cancel srv id db).1
  assigned : (srv : Server) (id : ℕ) (technician : String) → Step db (assign srv id technician db).1
  planned : (srv : Server) (id at : ℕ) → Step db (reschedule srv id at db).1

module _ (srv : Server) (id : ℕ) (d : Db) where
  start-cases :
      ((start srv id d).1 ≡ d)
      ⊎ ((wo : WorkOrder) × (find_order id d ≡ some wo)
          × (wo.status ≡ WorkOrderStatus.scheduled)
          × ((start srv id d).1 ≡ stored id d (with_status srv WorkOrderStatus.in_progress)))
  unfolding start require_open
  start-cases = elim (Option-cases (find_order id d)) [
    | inl missing ↦ inl (ground arith)
    | inr (wo, found) ↦ by_status wo found wo.status refl
  ]
    where
      by_status :
          (wo : WorkOrder)
          → find_order id d ≡ some wo
          → (s : WorkOrderStatus) → wo.status ≡ s
          → ((start srv id d).1 ≡ d)
            ⊎ ((wo : WorkOrder) × (find_order id d ≡ some wo)
                × (wo.status ≡ WorkOrderStatus.scheduled)
                × ((start srv id d).1 ≡ stored id d (with_status srv WorkOrderStatus.in_progress)))
      by_status wo found WorkOrderStatus.scheduled e = inr (
        wo,
        found,
        e,
        ground (
          arith,
          update_order-tables id d (with_status srv WorkOrderStatus.in_progress) wo found,
        ),
      )
      by_status wo found WorkOrderStatus.in_progress e = inl (ground arith)
      by_status wo found WorkOrderStatus.done e = inl (ground arith)
      by_status wo found WorkOrderStatus.cancelled e = inl (ground arith)

  cancel-cases :
      ((cancel srv id d).1 ≡ d)
      ⊎ ((wo : WorkOrder) × (find_order id d ≡ some wo)
          × (is_over wo.status ≡ false)
          × ((cancel srv id d).1 ≡ stored id d (with_status srv WorkOrderStatus.cancelled)))
  unfolding cancel
  cancel-cases = elim (Option-cases (find_order id d)) [
    | inl missing ↦ inl (ground arith)
    | inr (wo, found) ↦ by_status wo found wo.status refl
  ]
    where
      by_status :
          (wo : WorkOrder)
          → find_order id d ≡ some wo
          → (s : WorkOrderStatus) → wo.status ≡ s
          → ((cancel srv id d).1 ≡ d)
            ⊎ ((wo : WorkOrder) × (find_order id d ≡ some wo)
                × (is_over wo.status ≡ false)
                × ((cancel srv id d).1 ≡ stored id d (with_status srv WorkOrderStatus.cancelled)))
      by_status wo found WorkOrderStatus.scheduled e = inr (
        wo,
        found,
        rw e refl,
        ground
            (arith, update_order-tables id d (with_status srv WorkOrderStatus.cancelled) wo found),
      )
      by_status wo found WorkOrderStatus.in_progress e = inr (
        wo,
        found,
        rw e refl,
        ground
            (arith, update_order-tables id d (with_status srv WorkOrderStatus.cancelled) wo found),
      )
      by_status wo found WorkOrderStatus.done e = inl (ground arith)
      by_status wo found WorkOrderStatus.cancelled e = inl (ground arith)

  assign-cases :
      (technician : String)
      → ((assign srv id technician d).1 ≡ d)
        ⊎ ((wo : WorkOrder) × (find_order wo.id d ≡ some wo)
            × ((assign srv id technician d).1 ≡ stored wo.id d (with_technician srv technician)))
  unfolding assign require_open
  assign-cases technician = elim (Option-cases (find_order id d)) [
    | inl missing ↦ inl (ground arith)
    | inr (wo, found) ↦ elim (Bool-cases (is_over wo.status)) [
      | inl over ↦ inl (ground arith)
      | inr still ↦
          let same : wo.id ≡ id = ground (arith, find_holds (order_at id) d.work_orders found) in
          let here : find_order wo.id d ≡ some wo =
            subst (λ i. find_order i d ≡ some wo) (sym same) found in
          inr (
            wo,
            here,
            ground (arith, update_order-tables wo.id d (with_technician srv technician) wo here),
          )
    ]
  ]

  reschedule-cases :
      (at : ℕ)
      → ((reschedule srv id at d).1 ≡ d)
        ⊎ ((wo : WorkOrder) × (find_order wo.id d ≡ some wo)
            × ((reschedule srv id at d).1 ≡ stored wo.id d (with_schedule srv at)))
  unfolding reschedule require_open
  reschedule-cases at = elim (Option-cases (find_order id d)) [
    | inl missing ↦ inl (ground arith)
    | inr (wo, found) ↦ elim (Bool-cases (is_over wo.status)) [
      | inl over ↦ inl (ground arith)
      | inr still ↦
          let same : wo.id ≡ id = ground (arith, find_holds (order_at id) d.work_orders found) in
          let here : find_order wo.id d ≡ some wo =
            subst (λ i. find_order i d ≡ some wo) (sym same) found in
          inr (wo, here, ground (arith, update_order-tables wo.id d (with_schedule srv at) wo here))
    ]
  ]

-- Every order that exists before it is started, cancelled, assigned or rescheduled exists after it,
-- and its status is the same, or goes from `scheduled` to `in_progress`, or from one that is
-- neither `done` nor `cancelled` to `cancelled`.
pub Step-Moves :
    (db d : Db) (k : ℕ) (w : WorkOrder)
    → Step db d
    → find_order k db ≡ some w
    → (w' : WorkOrder) × (find_order k d ≡ some w') × Moves w.status w'.status
Step-Moves db d k w (started srv id) found = elim (start-cases srv id db) [
  | inl same ↦ (w, rw same found, stays w.status)
  | inr (wo, here, e, done) ↦ rw done (
      changed_row id db (with_status srv WorkOrderStatus.in_progress) wo k w here (λ _. refl)
        (rw e starts) found)
]
Step-Moves db d k w (stopped srv id) found = elim (cancel-cases srv id db) [
  | inl same ↦ (w, rw same found, stays w.status)
  | inr (wo, here, e, done) ↦ rw done (
      changed_row id db (with_status srv WorkOrderStatus.cancelled) wo k w here (λ _. refl)
        (gives_up wo.status e) found)
]
Step-Moves db d k w (assigned srv id technician) found = elim (assign-cases srv id db technician) [
  | inl same ↦ (w, rw same found, stays w.status)
  | inr (wo, here, done) ↦ rw done (
      changed_row wo.id db (with_technician srv technician) wo k w here (λ _. refl)
        (stays wo.status) found)
]
Step-Moves db d k w (planned srv id at) found = elim (reschedule-cases srv id db at) [
  | inl same ↦ (w, rw same found, stays w.status)
  | inr (wo, here, done) ↦
      rw done (
        changed_row wo.id db (with_schedule srv at) wo k w here (λ _. refl) (stays wo.status) found)
]
