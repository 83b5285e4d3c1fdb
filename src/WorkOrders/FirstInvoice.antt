-- ===== src/WorkOrders/FirstInvoice.antt =====
-- The first invoice of an installation leaves the table of secrets alone.

use isp_cms_be.Prelude.{
  ℕ, ℤ, ◌+ℤ◌, String, none, some, List, [], ◌∷◌, refl, inl, inr, arith, Bool-cases,
}
use isp_cms_be.Store.Monad.{Server}
use isp_cms_be.Store.Keeps.{
  Keeps, pure-Keeps, gets-Keeps, bind-Keeps, then-Keeps, transaction-Keeps, option-Keeps, if-Keeps,
}
use isp_cms_be.Store.Statements.{find_customer, update_customers}
use isp_cms_be.SlaCredits.{mark_applied_with_invoice}
use isp_cms_be.Invoices.{refresh_outstanding_tx}
use isp_cms_be.Invoices.Billing.{
  NewInvoice, exists_for_period, resolve_sla_discount, insert_invoice, create_billed, bill_customer,
}
use isp_cms_be.Customers.PlanChange.{find_plan}
use isp_cms_be.WorkOrders.Completing.{generate_first_invoice}
use isp_cms_be.WorkOrders.Provisioning.{BillingTerms}
use isp_cms_be.WorkOrders.Devices.{HasAtMostOne, same-Keeps}

module _ (k : ℕ) (srv : Server) where
  insert_invoice-Keeps : (input : NewInvoice) → Keeps (HasAtMostOne k) (insert_invoice srv input)
  unfolding insert_invoice
  insert_invoice-Keeps input = same-Keeps k (insert_invoice srv input) λ d.
      elim (Bool-cases (exists_for_period input.customer_id input.period_start d)) [
        | inl billed ↦ ground arith
        | inr unbilled ↦ ground arith
      ]

  mark_applied_with_invoice-Keeps :
      (ids : List ℕ) (invoice_id : ℕ)
      → Keeps (HasAtMostOne k) (mark_applied_with_invoice srv ids invoice_id)
  unfolding mark_applied_with_invoice
  mark_applied_with_invoice-Keeps [] invoice_id = pure-Keeps _ 0
  mark_applied_with_invoice-Keeps (id ∷ ids) invoice_id =
      same-Keeps k (mark_applied_with_invoice srv (id ∷ ids) invoice_id) (λ d. refl)

  refresh-Keeps : (id : ℕ) → Keeps (HasAtMostOne k) (refresh_outstanding_tx srv id)
  unfolding refresh_outstanding_tx update_customers
  refresh-Keeps id = same-Keeps k (refresh_outstanding_tx srv id) (λ d. refl)

  create_billed-Keeps :
      (input : NewInvoice) (ids : List ℕ) → Keeps (HasAtMostOne k) (create_billed srv input ids)
  unfolding create_billed
  create_billed-Keeps input ids = transaction-Keeps _ _ (
      bind-Keeps _ _ _ (insert_invoice-Keeps input) (λ inv.
        then-Keeps _ _ _ (mark_applied_with_invoice-Keeps ids inv.id)
          (then-Keeps _ _ _ (refresh-Keeps inv.customer_id) (pure-Keeps _ inv))))

  bill_customer-Keeps :
      (ppn : ℤ → ℤ) (id : ℕ) (name : String) (price : ℤ) (from to due : ℕ)
      → Keeps (HasAtMostOne k) (bill_customer srv ppn id name price from to due)
  unfolding bill_customer
  bill_customer-Keeps ppn id name price from to due =
      bind-Keeps _ _ _ (gets-Keeps _ (exists_for_period id from)) (λ billed.
        if-Keeps _ billed _ _ (pure-Keeps _ none) (
          bind-Keeps _ _ _ (gets-Keeps _ (resolve_sla_discount id (price +ℤ ppn price))) (λ d.
            bind-Keeps _ _ _
              (create_billed-Keeps
                (record {
                  customer_id = id;
                  customer_name = name;
                  period_start = from;
                  period_end = to;
                  due_date = due;
                  amount = price;
                  tax_amount = ppn price;
                  discount_amount = d.discount_amount;
                })
                d.credit_ids)
              (λ inv. pure-Keeps _ (some inv)))))

  pub generate_first_invoice-Keeps :
      (terms : BillingTerms) (id : ℕ) → Keeps (HasAtMostOne k) (generate_first_invoice terms srv id)
  unfolding generate_first_invoice
  generate_first_invoice-Keeps terms id =
      bind-Keeps _ _ _ (gets-Keeps _ (find_customer id)) (λ info.
        option-Keeps _ info _ _ (pure-Keeps _ tt) (λ c.
          bind-Keeps _ _ _ (gets-Keeps _ (find_plan c.plan_id)) (λ plan.
            option-Keeps _ plan _ _ (pure-Keeps _ tt) (λ p.
              then-Keeps _ _ _
                (bill_customer-Keeps terms.ppn id c.full_name p.price_monthly terms.period_start
                  terms.period_end terms.due_date)
                (pure-Keeps _ tt)))))
