-- ===== src/WorkOrders/Provisioned.antt =====
-- The cascade as a whole, retried or not, gives a customer at most one PPPoE secret.

use isp_cms_be.Prelude.{ℕ, String, none, some, ◌==◌, ◌≡◌, inl, inr, arith, Bool-cases, Option-cases}
use isp_cms_be.Prelude.Table.{count_where}
use isp_cms_be.Store.Rows.{Connection}
use isp_cms_be.Store.FieldRows.{WorkOrder, WorkOrderType, WorkOrderStatus}
use isp_cms_be.Store.Monad.{Db, Server, not_found, bad_request, throw, pure}
use isp_cms_be.Store.Keeps.{
  Keeps, pure-Keeps, throw-Keeps, gets-Keeps, or_throw-Keeps, bind-Keeps, then-Keeps, option-Keeps,
  if-Keeps,
}
use isp_cms_be.Store.Statements.{find_customer}
use isp_cms_be.Secrets.{find_by_customer_id}
use isp_cms_be.WorkOrders.Completed.{
  provision_new-secrets, provisioned, unprovisioned, provision_secret-one,
}
use isp_cms_be.Customers.{update_customer}
use isp_cms_be.Tickets.{
  find_ticket, is_closed, resolve_from_work_order, resolve_open, add_event, update_ticket,
}
use isp_cms_be.WorkOrders.{find_order, update_order, same_status}
use isp_cms_be.WorkOrders.Completing.{
  install, activate, close_ticket, finish, complete_open, complete, with_completion,
}
use isp_cms_be.WorkOrders.Provisioning.{
  find_customer_row, build_connection, Texts, BillingTerms, CompletionInput, CustomerRow,
  mark_installed, provision_secret,
}
use isp_cms_be.WorkOrders.Devices.{HasAtMostOne, same-Keeps, assign_onu-Keeps}
use isp_cms_be.WorkOrders.FirstInvoice.{generate_first_invoice-Keeps}

module _ (k : ℕ) (srv : Server) where
  mark_installed-Keeps :
      (id : ℕ) (connection : Connection) → Keeps (HasAtMostOne k) (mark_installed srv id connection)
  unfolding mark_installed update_customer
  mark_installed-Keeps id connection = same-Keeps k (mark_installed srv id connection) λ d.
      elim (Option-cases (find_customer id d)) [
        | inl missing ↦ ground arith
        | inr (c, found) ↦ ground arith
      ]

  provision_secret-Keeps :
      (txt : Texts) (row : CustomerRow) → Keeps (HasAtMostOne k) (provision_secret txt srv row)
  unfolding Keeps count_where
  provision_secret-Keeps txt row d h = elim (Bool-cases (row.customer.id == k)) [
    | inl his ↦
        let same : row.customer.id ≡ k = ground arith in
        rw (← same) (provision_secret-one txt srv row d (rw same h))
    | inr other ↦ elim (Option-cases (find_by_customer_id row.customer.id d)) [
      | inr (s, held) ↦ rw (provisioned txt srv row s d held) h
      | inl unheld ↦ elim (provision_new-secrets txt srv row d) [
        | inl skipped ↦ rw (unprovisioned txt srv row d unheld, skipped) h
        | inr (s, made, owner) ↦
            rw (unprovisioned txt srv row d unheld, made, owner, other) (omega (arith, h))
      ]
    ]
  ]

  install-Keeps :
      (txt : Texts) (terms : BillingTerms) (wo : WorkOrder) (input : CompletionInput) (id : ℕ)
      → Keeps (HasAtMostOne k) (install txt terms srv wo input id)
  unfolding install
  install-Keeps txt terms wo input id =
      bind-Keeps _ _ _ (gets-Keeps _ (find_customer_row id)) (λ row.
        option-Keeps _ row _ _ (pure-Keeps _ tt) (λ c.
          bind-Keeps _ _ _ (assign_onu-Keeps k srv c.customer.full_name wo.id input.onu_serial)
            (λ onu_serial.
              then-Keeps _ _ _
                (mark_installed-Keeps id (build_connection txt c onu_serial input.rx_power))
                (then-Keeps _ _ _ (provision_secret-Keeps txt c)
                  (generate_first_invoice-Keeps k srv terms id)))))

  activate-Keeps :
      (txt : Texts) (terms : BillingTerms) (wo : WorkOrder) (input : CompletionInput)
      → Keeps (HasAtMostOne k) (activate txt terms srv wo input)
  unfolding activate
  activate-Keeps txt terms wo input = by_type wo.type
    where
      by_type :
          (t : WorkOrderType)
          → Keeps (HasAtMostOne k) {A = Unit {0}} (elim t [
            | WorkOrderType.install ↦ elim wo.customer_id [
              | none ↦ throw (bad_request "install work order is not linked to a customer")
              | some customer_id ↦ install txt terms srv wo input customer_id
            ]
            | _ ↦ pure tt
          ])
      by_type WorkOrderType.install =
          option-Keeps _ wo.customer_id _ _
            (throw-Keeps _ _ (bad_request "install work order is not linked to a customer"))
            (λ id. install-Keeps txt terms wo input id)
      by_type WorkOrderType.repair = pure-Keeps _ tt
      by_type WorkOrderType.dismantle = pure-Keeps _ tt

  resolve_from_work_order-Keeps :
      (id : ℕ) (code author : String)
      → Keeps (HasAtMostOne k) (resolve_from_work_order srv id code author)
  unfolding resolve_from_work_order resolve_open add_event update_ticket
  resolve_from_work_order-Keeps id code author =
      same-Keeps k (resolve_from_work_order srv id code author) λ d.
        elim (Option-cases (find_ticket id d)) [
          | inl missing ↦ ground arith
          | inr (t, found) ↦ elim (Bool-cases (is_closed t.status)) [
            | inl closed ↦ ground arith
            | inr still ↦ ground arith
          ]
        ]

  close_ticket-Keeps :
      (wo : WorkOrder) (code author : String)
      → Keeps (HasAtMostOne k) (close_ticket srv wo code author)
  unfolding close_ticket
  close_ticket-Keeps wo code author = by_type wo.type
    where
      by_type :
          (t : WorkOrderType)
          → Keeps (HasAtMostOne k) {A = Unit {0}} (elim t [
            | WorkOrderType.repair ↦ elim wo.ticket_id [
              | none ↦ pure tt
              | some ticket_id ↦ resolve_from_work_order srv ticket_id code author
            ]
            | _ ↦ pure tt
          ])
      by_type WorkOrderType.install = pure-Keeps _ tt
      by_type WorkOrderType.dismantle = pure-Keeps _ tt
      by_type WorkOrderType.repair =
          option-Keeps _ wo.ticket_id _ _ (pure-Keeps _ tt)
            (λ id. resolve_from_work_order-Keeps id code author)

  update_order-Keeps :
      (id : ℕ) (f : WorkOrder → WorkOrder) → Keeps (HasAtMostOne k) (update_order id f)
  unfolding update_order
  update_order-Keeps id f = same-Keeps k (update_order id f) λ d.
      elim (Option-cases (find_order id d)) [
        | inl missing ↦ ground arith
        | inr (w, found) ↦ ground arith
      ]

  finish-Keeps :
      (wo : WorkOrder) (author : String) (input : CompletionInput) (id : ℕ)
      → Keeps (HasAtMostOne k) (finish srv wo author input id)
  unfolding finish
  finish-Keeps wo author input id =
      bind-Keeps _ _ _ (update_order-Keeps id (with_completion srv author input))
        (λ done. then-Keeps _ _ _ (close_ticket-Keeps wo done.code author) (pure-Keeps _ done))

  complete-Keeps :
      (txt : Texts) (terms : BillingTerms) (id : ℕ) (author : String) (input : CompletionInput)
      → Keeps (HasAtMostOne k) (complete txt terms srv id author input)
  unfolding complete complete_open
  complete-Keeps txt terms id author input = bind-Keeps _ _ _ (gets-Keeps _ (find_order id)) (λ o.
      bind-Keeps _ _ _ (or_throw-Keeps _ o (not_found "work order not found")) (λ wo.
        if-Keeps _ (same_status wo.status WorkOrderStatus.done) _ _ (pure-Keeps _ wo)
          (then-Keeps _ _ _ (activate-Keeps txt terms wo input) (finish-Keeps wo author input id))))

-- A customer who has at most one PPPoE secret has at most one after any call of `complete`, for any
-- order, whether the call returns or throws half-way, and so after every retry.
pub complete-HasAtMostOne :
    (k : ℕ) (txt : Texts) (terms : BillingTerms) (srv : Server) (id : ℕ) (author : String)
    (input : CompletionInput) (db : Db)
    → HasAtMostOne k db
    → HasAtMostOne k (complete txt terms srv id author input db).1
unfolding Keeps
complete-HasAtMostOne k txt terms srv id author input db h =
    complete-Keeps k srv txt terms id author input db h
