-- ===== src/WorkOrders/Provisioning.antt =====
-- The steps of WorkOrdersService.complete that a subscriber's installation needs: the connection, the
-- ONU, and the PPPoE secret (src/modules/work-orders/work-orders.service.ts).
use mathlib.Core.Option
use text.Mathlib.Text.{◌==◌ as str_eq}
use Prim.Native.String.{◌++◌}
use isp_cms_be.Prelude.{
  ℕ, ◌+◌, ◌*◌, ◌%◌, ℤ, pos, ◌+ℤ◌, ◌-ℤ◌, max_ℤ, String, false, Option, none, some, List, ◌∷◌, ◌==◌,
  if◌then◌else◌,
}
use isp_cms_be.Prelude.Table.{find, first, select_where, update_where, order_by}
use isp_cms_be.Store.Rows.{Customer, CustomerStatus, Connection, ConnectionType, Secret}
use isp_cms_be.Store.FieldRows.{InventoryItem, Router, Profile, Plan}
use isp_cms_be.Store.Monad.{Db, Server, Action, pure, gets, modify, ◌>>=◌, ◌>>◌}
use isp_cms_be.Store.Statements.{find_customer}
use isp_cms_be.Secrets.{find_by_customer_id}
use isp_cms_be.Inventory.{find_by_serial, find_available_onu, in_warehouse, MoveType, move}
use isp_cms_be.Customers.{update_customer}
use isp_cms_be.Customers.PlanChange.{find_plan}

-- What the text functions of the language compute: `toLowerCase()`, `replace('-', '')`,
-- `Number(s.replace(/\D/g, '')) || 0`, and the decimal text of a number.
pub record Texts : Type 0 where
  pub lower_case : String → String
  pub without_dash : String → String
  pub digits_value : String → ℕ
  pub decimal : ℕ → String

-- What the billing policy and the calendar give: the tax of an amount, the period, the due date.
pub record BillingTerms : Type 0 where
  pub ppn : ℤ → ℤ
  pub period_start : ℕ
  pub period_end : ℕ
  pub due_date : ℕ

-- the fields of `CompleteWorkOrderInput` that are read
pub record CompletionInput : Type 0 where
  pub onu_serial : Option String
  pub rx_power : Option ℤ
  pub notes : Option String

-- A `CustomerRow`: the columns with the joined plan name.
pub record CustomerRow : Type 0 where
  pub customer : Customer
  pub plan_name : String

-- `CustomersRepository.findById`, an inner join on the plan
abbrev pub find_customer_row : ℕ → Db → Option CustomerRow
find_customer_row id db = elim (find_customer id db) [
  | none ↦ none
  | some c ↦
      Option.map (λ (p : Plan). record { customer = c; plan_name = p.name })
        (find_plan c.plan_id db)
]

-- `pppoeUsername`
abbrev pub pppoe_username : Texts → String → String
pppoe_username txt customer_no = txt.without_dash (txt.lower_case customer_no)

abbrev pub serial_or : String → Option String → String
serial_or d none = d
serial_or d (some s) = s

abbrev pub power_or : ℤ → Option ℤ → ℤ
power_or d none = d
power_or d (some p) = p

-- `buildConnection`; the reading is in thousandths
abbrev pub build_connection : Texts → CustomerRow → Option String → Option ℤ → Connection
build_connection txt row onu_serial measured =
    let n = txt.digits_value row.customer.customer_no in
    record {
      type = ConnectionType.gpon;
      pppoe_username = pppoe_username txt row.customer.customer_no;
      profile = row.plan_name;
      ip_address = "100.64." ++ txt.decimal (100 + n % 150) ++ ".2";
      onu_serial = some (serial_or ("ZTEG" ++ txt.decimal (20000000 + n % 100000)) onu_serial);
      olt = some "OLT-1";
      pon_port = some ("0/" ++ txt.decimal (n % 8) ++ "/" ++ txt.decimal (n % 16));
      rx_power = some (power_or (pos 0 -ℤ pos (20000 + 1000 * (n % 6))) measured);
    }

abbrev pub take_item : Server → InventoryItem → String → ℕ → Action (Option String)
take_item srv item name order_id =
    move srv item.id MoveType.assign (some name) (some order_id) >> pure (some item.serial)

-- `assignOnu` with a scanned serial
unfoldable pub assign_scanned : Server → String → ℕ → String → Action (Option String)
unfolding move
assign_scanned srv name order_id serial = do
  scanned ← gets (find_by_serial serial)
  elim scanned [
    | none ↦ pure (some serial)
    | some item ↦
        if in_warehouse item.status then take_item srv item name order_id else pure (some serial)
  ]

-- `assignOnu` without one: the oldest ONU, or none when the stock is dry
unfoldable pub assign_oldest : Server → String → ℕ → Action (Option String)
unfolding move
assign_oldest srv name order_id = do
  onu ← gets find_available_onu
  elim onu [ none ↦ pure none | some item ↦ take_item srv item name order_id ]

-- `assignOnu`; an empty serial is false
unfoldable pub assign_onu : Server → String → ℕ → Option String → Action (Option String)
unfolding assign_scanned assign_oldest
assign_onu srv name order_id none = assign_oldest srv name order_id
assign_onu srv name order_id (some serial) =
    if str_eq serial ""
    then assign_oldest srv name order_id
    else assign_scanned srv name order_id serial

abbrev pub with_installation : Server → Connection → Customer → Customer
with_installation srv connection c = record c {
  status = CustomerStatus.aktif;
  connection = some connection;
  updated_at = srv.now;
}

-- `markInstalled`
unfoldable pub mark_installed : Server → ℕ → Connection → Action (Unit {0})
unfolding update_customer
mark_installed srv id connection = update_customer id (with_installation srv connection) >> pure tt

-- `RoutersRepository.findFirst`
abbrev pub find_first : Server → Db → Option Router
find_first srv db = first (order_by (λ (r : Router). srv.collate r.name) db.routers)

-- `ProfilesRepository.listByRouter`
abbrev pub list_by_router : Server → ℕ → Db → List Profile
list_by_router srv router_id db =
    order_by (λ (p : Profile). srv.collate p.name)
      (select_where (λ (p : Profile). p.router_id == router_id) db.ppp_profiles)

-- `profiles.find((p) => p.name === customer.planName) ?? profiles[0]`
abbrev pub pick_profile : String → List Profile → Option Profile
pick_profile plan profiles = elim (find (λ (p : Profile). str_eq p.name plan) profiles) [
  | some p ↦ some p
  | none ↦ first profiles
]

abbrev pub secret_row : Texts → Server → CustomerRow → Router → Profile → Secret
secret_row txt srv row router profile = record {
  id = srv.key;
  router_id = router.id;
  username = pppoe_username txt row.customer.customer_no;
  profile_id = profile.id;
  profile_name = profile.name;
  customer_id = some row.customer.id;
  customer_name = some row.customer.full_name;
  disabled = false;
  updated_at = srv.now;
}

-- `adjustSecretCount`
unfoldable pub adjust_secret_count : Server → ℕ → ℤ → Action (Unit {0})
adjust_secret_count srv id delta = modify λ db. record db {
  routers =
      update_where (λ (r : Router). r.id == id)
        (λ r. record r {
          secret_count = max_ℤ (pos 0) (r.secret_count +ℤ delta);
          updated_at = srv.now;
        })
        db.routers;
}

-- `SecretsRepository.create`
abbrev pub insert_secret : Secret → Action (Unit {0})
insert_secret s = modify λ db. record db { ppp_secrets = s ∷ db.ppp_secrets }

-- `provisionSecret` for a customer who has no secret
unfoldable pub provision_new : Texts → Server → CustomerRow → Action (Unit {0})
unfolding adjust_secret_count
provision_new txt srv row = do
  router ← gets (find_first srv)
  elim router [
    | none ↦ pure tt
    | some r ↦ do
      profiles ← gets (list_by_router srv r.id)
      elim (pick_profile row.plan_name profiles) [
        | none ↦ pure tt
        | some p ↦
            insert_secret (secret_row txt srv row r p) >> adjust_secret_count srv r.id (pos 1)
      ]
  ]

-- `provisionSecret`
unfoldable pub provision_secret : Texts → Server → CustomerRow → Action (Unit {0})
unfolding provision_new
provision_secret txt srv row = do
  existing ← gets (find_by_customer_id row.customer.id)
  elim existing [ some _ ↦ pure tt | none ↦ provision_new txt srv row ]
