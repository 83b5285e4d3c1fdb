-- ===== src/WorkOrders/Completed.antt =====
-- A completed order stays completed, and provisioning gives a customer one secret.

use isp_cms_be.Prelude.{
  ℕ, ◌≤◌, String, Bool, true, Option, none, some, List, [], ◌∷◌, ◌≡◌, refl, ◌∙◌, ◌⊎◌, inl, inr,
  arith, Bool-cases, Option-cases,
}
use isp_cms_be.Prelude.Table.{find, update_where, count_where}
use isp_cms_be.Prelude.Table.Laws.{find-update_self}
use isp_cms_be.Store.Rows.{Secret}
use isp_cms_be.Store.FieldRows.{WorkOrder, WorkOrderType, WorkOrderStatus}
use isp_cms_be.Store.Monad.{Db, Server, Result, ok, err}
use isp_cms_be.Secrets.{secret_of, find_by_customer_id}
use isp_cms_be.Tickets.{
  find_ticket, is_closed, resolve_from_work_order, resolve_open, add_event, update_ticket,
}
use isp_cms_be.WorkOrders.{find_order, order_at, update_order, same_status}
use isp_cms_be.WorkOrders.Completing.{
  activate, with_completion, close_ticket, finish, complete_open, complete,
}
use isp_cms_be.WorkOrders.Provisioning.{
  Texts, BillingTerms, CompletionInput, CustomerRow, find_first, list_by_router, secret_row,
  pick_profile, adjust_secret_count, provision_new, provision_secret,
}

-- The order is the row under its key, and reads `done`.
abbrev pub IsDone : ℕ → WorkOrder → Db → Type 0
IsDone id w d = (find_order id d ≡ some w) × (w.status ≡ WorkOrderStatus.done)

module _ (srv : Server) where
  resolved_orders :
      (id : ℕ) (code author : String) (d : Db)
      → (resolve_from_work_order srv id code author d).1.work_orders ≡ d.work_orders
  unfolding resolve_from_work_order resolve_open add_event update_ticket
  resolved_orders id code author d = elim (Option-cases (find_ticket id d)) [
    | inl missing ↦ ground arith
    | inr (t, found) ↦ elim (Bool-cases (is_closed t.status)) [
      | inl closed ↦ ground arith
      | inr still ↦ ground arith
    ]
  ]

  closed_orders :
      (wo : WorkOrder) (code author : String) (d : Db)
      → (close_ticket srv wo code author d).1.work_orders ≡ d.work_orders
  unfolding close_ticket
  closed_orders wo code author d = by_kind wo.type wo.ticket_id refl refl
    where
      by_kind :
          (t : WorkOrderType) (o : Option ℕ)
          → wo.type ≡ t
          → wo.ticket_id ≡ o
          → (close_ticket srv wo code author d).1.work_orders ≡ d.work_orders
      by_kind WorkOrderType.install o et eo = ground arith
      by_kind WorkOrderType.dismantle o et eo = ground arith
      by_kind WorkOrderType.repair none et eo = ground arith
      by_kind WorkOrderType.repair (some k) et eo =
          rw (et, eo, close_ticket) (resolved_orders k code author d)

  update_order-found :
      (id : ℕ) (f : WorkOrder → WorkOrder) (w : WorkOrder) (d : Db)
      → find_order id d ≡ some w
      → update_order id f d
        ≡ (ok (f w), record d { work_orders = update_where (order_at id) f d.work_orders })
  unfolding update_order
  update_order-found id f w d found = rw (found, update_order) refl

  finish-IsDone :
      (wo : WorkOrder) (author : String) (input : CompletionInput) (id : ℕ) (d : Db) {w : WorkOrder}
      {e : Db}
      → finish srv wo author input id d ≡ (ok w, e)
      → IsDone id w e
  unfolding finish update_order
  finish-IsDone wo author input id d {w} {e} ran = elim (Option-cases (find_order id d)) [
    | inl missing ↦ absurd (missing_throws missing)
    | inr (w0, found) ↦
        by_answer w0 found (close_ticket srv wo (marked w0).code author (stored d)).0 refl
  ]
    where
      marked : WorkOrder → WorkOrder
      marked w0 = with_completion srv author input w0

      stored : Db → Db
      stored d' = record d' {
        work_orders = update_where (order_at id) (with_completion srv author input) d'.work_orders;
      }

      missing_throws : find_order id d ≡ none → ⊥
      missing_throws missing = ground arith

      by_answer :
          (w0 : WorkOrder)
          → find_order id d ≡ some w0
          → (r : Result (Unit {0})) → (close_ticket srv wo (marked w0).code author (stored d)).0 ≡ r
          → IsDone id w e
      by_answer w0 found (err x) er =
          absurd
            (ground (arith, update_order-found id (with_completion srv author input) w0 d found))
      by_answer w0 found (ok t) er =
          let (final, answer) : ((close_ticket srv wo (marked w0).code author (stored d)).1 ≡ e)
              × (marked w0 ≡ w) =
            (
              ground (arith, update_order-found id (with_completion srv author input) w0 d found),
              ground (arith, update_order-found id (with_completion srv author input) w0 d found),
            ) in
          rw (← final, ← answer)
            (
              rw (closed_orders wo (marked w0).code author (stored d)) (
                  find-update_self (λ (r : WorkOrder). r.id) id (with_completion srv author input)
                    d.work_orders (λ _. refl)
                  ∙ rw found refl),
              refl,
            )

module _ (txt : Texts) (terms : BillingTerms) (srv : Server) where
  complete_open-IsDone :
      (wo : WorkOrder) (author : String) (input : CompletionInput) (id : ℕ) (d : Db) {w : WorkOrder}
      {e : Db}
      → complete_open txt terms srv wo author input id d ≡ (ok w, e)
      → IsDone id w e
  unfolding complete_open
  complete_open-IsDone wo author input id d {w} {e} ran =
      by_answer (activate txt terms srv wo input d).0 refl
    where
      by_answer :
          (r : Result (Unit {0})) → (activate txt terms srv wo input d).0 ≡ r → IsDone id w e
      by_answer (err x) er = absurd (ground arith)
      by_answer (ok t) er =
          finish-IsDone srv wo author input id (activate txt terms srv wo input d).1 {w = w} {e = e}
            (ground arith)

  done_idle :
      (id : ℕ) (author : String) (input : CompletionInput) (w : WorkOrder) (d : Db)
      → IsDone id w d
      → complete txt terms srv id author input d ≡ (ok w, d)
  unfolding complete
  done_idle id author input w d (found, is_done) = ground arith

  complete-IsDone :
      (id : ℕ) (author : String) (input : CompletionInput) (d : Db) {w : WorkOrder} {e : Db}
      → complete txt terms srv id author input d ≡ (ok w, e)
      → IsDone id w e
  unfolding complete
  complete-IsDone id author input d {w} {e} ran = elim (Option-cases (find_order id d)) [
    | inl missing ↦ absurd (ground arith)
    | inr (wo, found) ↦ elim (Bool-cases (same_status wo.status WorkOrderStatus.done)) [
      | inl already ↦ unchanged wo found already wo.status refl
      | inr fresh ↦ complete_open-IsDone wo author input id d {w = w} {e = e} (ground arith)
    ]
  ]
    where
      unchanged :
          (wo : WorkOrder)
          → find_order id d ≡ some wo
          → same_status wo.status WorkOrderStatus.done ≡ true
          → (s : WorkOrderStatus) → wo.status ≡ s
          → IsDone id w e
      unchanged wo found already WorkOrderStatus.done es =
          let (row, same) : (wo ≡ w) × (d ≡ e) = (ground arith, ground arith) in
          rw (← row, ← same) (found, es)
      unchanged wo found already WorkOrderStatus.scheduled es = absurd (ground arith)
      unchanged wo found already WorkOrderStatus.in_progress es = absurd (ground arith)
      unchanged wo found already WorkOrderStatus.cancelled es = absurd (ground arith)

-- After a call of `complete` that returned an order, the order reads `done`, and any later call for
-- it returns the same order and changes no table.
pub complete-once :
    (txt : Texts) (terms terms' : BillingTerms) (srv srv' : Server) (id : ℕ)
    (author author' : String) (input input' : CompletionInput) (db d : Db) (w : WorkOrder)
    → complete txt terms srv id author input db ≡ (ok w, d)
    → (w.status ≡ WorkOrderStatus.done) × (complete txt terms' srv' id author' input' d ≡ (ok w, d))
complete-once txt terms terms' srv srv' id author author' input input' db d w ran =
    let row = complete-IsDone txt terms srv id author input db ran in
    (row.1, done_idle txt terms' srv' id author' input' w d row)

module _ (txt : Texts) (srv : Server) (row : CustomerRow) where
  abbrev mine : Secret → Bool
  mine = secret_of row.customer.id

  pub absent_count : (rows : List Secret) → find mine rows ≡ none → count_where mine rows ≡ 0
  unfolding find count_where
  absent_count [] h = refl
  absent_count (s ∷ rows) h = ground (arith, absent_count rows)

  pub provision_new-secrets :
      (d : Db)
      → ((provision_new txt srv row d) ≡ (ok tt, d))
        ⊎ ((s : Secret) × ((provision_new txt srv row d).1.ppp_secrets ≡ s ∷ d.ppp_secrets)
            × (s.customer_id ≡ some row.customer.id))
  unfolding provision_new adjust_secret_count
  provision_new-secrets d = elim (Option-cases (find_first srv d)) [
    | inl none_there ↦ inl (ground arith)
    | inr (r, there) ↦
        elim (Option-cases (pick_profile row.plan_name (list_by_router srv r.id d))) [
          | inl bare ↦ inl (ground arith)
          | inr (p, picked) ↦ inr (secret_row txt srv row r p, ground arith, refl)
        ]
  ]

  pub provisioned :
      (s : Secret) (d : Db)
      → find_by_customer_id row.customer.id d ≡ some s
      → provision_secret txt srv row d ≡ (ok tt, d)
  unfolding provision_secret
  provisioned s d held = ground arith

  pub unprovisioned :
      (d : Db)
      → find_by_customer_id row.customer.id d ≡ none
      → provision_secret txt srv row d ≡ provision_new txt srv row d
  unfolding provision_secret
  unprovisioned d unheld = ground arith

  -- Provisioning leaves a customer that has at most one secret with at most one.
  pub provision_secret-one :
      (d : Db)
      → count_where (secret_of row.customer.id) d.ppp_secrets ≤ 1
      → count_where (secret_of row.customer.id) (provision_secret txt srv row d).1.ppp_secrets ≤ 1
  unfolding count_where
  provision_secret-one d h = elim (Option-cases (find_by_customer_id row.customer.id d)) [
    | inr (s, held) ↦ rw (provisioned s d held) h
    | inl unheld ↦ elim (provision_new-secrets d) [
      | inl skipped ↦ rw (unprovisioned d unheld, skipped) h
      | inr (s, made, his) ↦
          rw (unprovisioned d unheld, made) (ground (arith, absent_count d.ppp_secrets unheld))
    ]
  ]
