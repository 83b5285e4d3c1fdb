-- ===== src/Lib.antt =====
-- The money core, the acquisition and the lifecycle of a subscriber, the field work, the fibre
-- planners and the accounts of the ISP management backend (src/modules, NestJS over PostgreSQL and
-- Redis).
--
-- A request runs a service, which checks and then calls repositories; a repository runs SQL, and
-- what must hold together runs in one `db.transaction`. Billing issues invoices (invoices), which
-- are paid at the counter (InvoicesService.pay), by a gateway callback (payment-intents), by a
-- voucher (vouchers) or reduced by an SLA credit (sla-credits). A payment recomputes the customer's
-- outstanding amount, may reactivate him, and earns his reseller a commission (resellers), which is
-- paid out through a payout. The lifecycle verbs and the nightly sweep switch a customer's PPPoE
-- secrets with his status (customers, billing-automation, secret-enforcement). A work order takes a
-- device from the stock, activates the customer, provisions his secret and issues his first invoice,
-- or closes the ticket of a repair (work-orders, inventory, tickets). The topology planners compute
-- the rows of a fibre drop. Onboarding reserves a port, makes a login, a customer, his work order and
-- his contract (onboarding, leads, odp, coverage, contracts). A login checks a password and a
-- two-factor code and mints a refresh token, which buys the next one or ends its session (auth,
-- security, sessions).
--
-- Files:
-- Prelude: shared names; Prelude/Tests (Boolean tests), Prelude/Int (integers over the native
-- numbers), Prelude/Table (SQL on a list of rows, with Table/Laws, Order and Deleted).
-- Store/Rows: the tables of src/infrastructure/database/schema. Store/Monad: a call as a function of
-- the tables, with exceptions and the rollback of a transaction. Store/Statements: SQL that several
-- repositories run.
-- Store/FieldRows: the rows of the field tables; Store/Plant: those of the fibre plant;
-- Store/SalesRows: those of sales. Store/Keeps: what the steps of a call keep; Store/Ran: the steps
-- of a call that returned.
-- Balance, Balance/Laws: the total and the balance of an invoice, and when it is accounted for.
-- Invoices: recordPayment, applyPayment, markPaid and refreshOutstandingTx of
-- src/modules/invoices/invoices.repository.ts; Invoices/Billing: createBilled and one customer's
-- round of InvoicesService.run; Invoices/Automation: the overdue transition and the reminders.
-- Invoices/Recording, Books, Overdue and Issued hold the proofs.
-- Payments, Payments/Paying: InvoicesService.pay and postResellerCommission
-- (src/modules/invoices/invoices.service.ts).
-- Secrets, Secrets/Switched: secrets.repository.ts and secret-enforcement.service.ts of
-- src/modules/router-resources.
-- Customers, Customers/PlanChange, Lifecycle, Proration, Plans, Runs: the verbs and the change of a
-- plan of src/modules/customers; Customers/Isolation, Customers/Sweep, Customers/Reached:
-- src/modules/invoices/billing-automation.service.ts.
-- Inventory, Inventory/Reconciled: src/modules/inventory.
-- Tickets, Tickets/Updating, Swept, Deadlines, Closing: src/modules/tickets.
-- WorkOrders, WorkOrders/Orders: the workflow of src/modules/work-orders; WorkOrders/Provisioning,
-- Completing, Completed, Devices, FirstInvoice and Provisioned: `complete` of work-orders.service.ts.
-- PaymentIntents, PaymentIntents/Gateway, Waiting: src/modules/invoices/payment-intents.service.ts and
-- payment-intents.repository.ts.
-- SlaCredits, SlaCredits/Applying: src/modules/sla-credits.
-- Vouchers, Vouchers/Settling, Vouchers/Redeemed, Vouchers/Leftover: settle and allocateToInvoices of
-- src/modules/vouchers/vouchers.repository.ts.
-- Resellers, Resellers/PayoutLife, Ledger, Outdated, Payouts, Workflow:
-- src/modules/resellers/resellers.repository.ts;
-- Resellers/Access, Resellers/Ownership: the checks of src/modules/resellers/resellers.service.ts.
-- Onboarding: src/modules/onboarding/onboarding.service.ts with the reservation of a port
-- (src/modules/odp), the serviceability of an area (src/modules/coverage) and `onboard` of
-- src/modules/customers/customers.service.ts; Onboarding/Leads: src/modules/leads; Onboarding/Steps,
-- Ports, Acquired and Converted hold the proofs.
-- Contracts, Contracts/Signed: src/modules/contracts.
-- Accounts/World: the keys of Redis and the rows of users and user_security; Accounts/Program: a
-- request as a sequence of atomic commands. Accounts/Tokens:
-- src/modules/sessions/refresh-token.service.ts; Accounts/Security, Accounts/TwoFactor:
-- src/modules/security; Accounts/Login: src/modules/auth/auth.service.ts with the first administrator
-- of src/modules/users. Accounts/Pool: requests in flight at once. Accounts/Rules, Quiet, Reviews,
-- Issued and Runs: what the commands of each request keep; Accounts/Budget: what replies may cost;
-- Accounts/OneUse, TokenOnce, CodeOnce, FirstAdmin, Alone, Revoked, Ended and Granted hold the proofs.
-- Topology, Topology/Ports, Resized: src/modules/topology/topology.allocator.ts; Topology/Uplink: the walk of
-- topology.graph.ts.
-- Witnesses: the theorems at a small database.
--
-- A method is a function of its name in snake case. A uuid is a number, a timestamp its
-- milliseconds, a date its day, money an unbounded integer (the bound of the `integer` columns is
-- not modelled). A table is the list of its rows, newest first. What the server supplies (the
-- time, the key of an inserted row, the invoice number) is an argument. Transactions run one
-- after another, as the row locks make them run; addLedgerEntry takes no lock, so what others
-- commit between its select and its writes is an argument of add_ledger_entry_among, and
-- add_ledger_entry is the call with nothing in between. Of accounts, a request is the sequence of
-- its commands to Redis and the database, each with its answer, and a command or a script of
-- Redis is one step: other requests run between any two commands, a request may die between them,
-- and a key may run out. Loops are structural and need no fuel, but the walk up to the OLT: it
-- has one more fuel than there are nodes, since every step takes a node not seen before.
--
-- Arguments of the definitions: the answer of the payment gateway to a charge, and what floats of
-- the language compute (the product of a commission, the tax of an amount, the distance between two
-- coordinates), what its text functions compute for a PPPoE login and an address, the exception
-- with which the router adapter gives up on a push, the hash of a refresh token, the tokens and keys
-- that a request draws, what argon2 and otplib compute, and the cipher of the stored secrets.
--
-- Not modelled: lists and dashboards, messages and audit records, column widths, overflow,
-- foreign keys (but for that of `stock_movements.item_id`, which the removal of an item meets), the
-- other modules of src/modules, and interleavings inside a request but for those of accounts.
pub mod Prelude
pub mod Store
pub mod Balance
pub mod Invoices
pub mod Resellers
pub mod SlaCredits
pub mod Vouchers
pub mod Payments
pub mod PaymentIntents
pub mod Secrets
pub mod Inventory
pub mod Tickets
pub mod Customers
pub mod WorkOrders
pub mod Topology
pub mod Contracts
pub mod Onboarding
pub mod Accounts
pub mod Witnesses
