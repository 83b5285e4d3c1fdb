-- ===== src/Witnesses/Gateway.antt =====
-- Runs of the theorems on gateway callbacks.
use isp_cms_be.Prelude.{ℕ, ℤ, pos, ◌∷◌, ◌≡◌, refl}
use isp_cms_be.Prelude.Int.{◌+ℤ◌, ◌-ℤ◌, max_ℤ}
use isp_cms_be.Prelude.Table.{find, update_where, sum_where}
use isp_cms_be.Store.Monad.{Db, ok, transaction}
use isp_cms_be.Store.Statements.{invoice_at, update_invoices, insert_payment, update_customers}
use isp_cms_be.Balance.{invoice_total, balance_of, balance_due, sum_unpaid_by_customer}
use isp_cms_be.Resellers.{
  index_refuses, insert_entry, set_balance, enter_ledger, add_ledger_entry_among, add_ledger_entry,
  post_commission_for_invoice,
}
use isp_cms_be.Invoices.{
  payment_row, set_payment, refresh_outstanding_tx, record_payment_locked, record_payment,
}
use isp_cms_be.Secrets.{set_disabled_by_customer_id}
use isp_cms_be.Payments.{post_share, post_reseller_commission, after_payment, pay_open, pay}
use isp_cms_be.PaymentIntents.{
  set_intents, mark_intent_paid, channel_to_method, settled, Callback, settle_intent, settle_unpaid,
  settle_from_gateway,
}
use isp_cms_be.PaymentIntents.Gateway.{
  gateway_payment, settle_from_gateway-once, settle_from_gateway-books,
}
use isp_cms_be.Witnesses.Sample.{server, db, first_invoice, waiting_intent}

abbrev callback : ℤ → Callback
callback amount = record { reference = 77; invoice_ref = 6; amount = amount }

abbrev one_percent : ℤ → ℕ → ℤ
one_percent total pct = pos 1

abbrev settled_db : Db
settled_db = (settle_from_gateway one_percent server (callback (pos 111)) db).1

settle_from_gateway-once_example :
    settle_from_gateway one_percent server (callback (pos 111)) settled_db
    ≡ (ok settled, settled_db)
unfolding settle_from_gateway settle_unpaid settle_intent mark_intent_paid set_intents
    channel_to_method pay pay_open after_payment set_disabled_by_customer_id
    post_reseller_commission post_share post_commission_for_invoice add_ledger_entry
    add_ledger_entry_among enter_ledger insert_entry index_refuses set_balance record_payment
    record_payment_locked refresh_outstanding_tx update_invoices insert_payment update_customers
    transaction sum_unpaid_by_customer sum_where balance_due balance_of invoice_total find
    update_where ◌+ℤ◌ ◌-ℤ◌ max_ℤ
settle_from_gateway-once_example =
    settle_from_gateway-once one_percent server server (callback (pos 111)) db settled_db refl

settle_from_gateway-books_example :
    (settled_db.payments
      ≡ payment_row server (gateway_payment waiting_intent (pos 111)) first_invoice ∷ db.payments)
    × (settled_db.invoices
        ≡ update_where (invoice_at 1) (set_payment server (pos 111) first_invoice) db.invoices)
unfolding balance_due invoice_total find ◌+ℤ◌ ◌-ℤ◌ max_ℤ
settle_from_gateway-books_example =
    settle_from_gateway-books one_percent server (callback (pos 111)) db waiting_intent
      first_invoice refl refl refl refl refl refl refl
