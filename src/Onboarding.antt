-- ===== src/Onboarding.antt =====
-- OnboardingService (src/modules/onboarding/onboarding.service.ts) with what it takes of the coverage,
-- odp, users, customers, work-orders and contracts modules: how a subscriber is acquired.
pub mod Leads
pub mod Steps
pub mod Ports
pub mod Converted
pub mod Acquired
use mathlib.Core.Option
use text.Mathlib.Text.{◌==◌ as str_eq}
use isp_cms_be.Prelude.{
  ℕ, ◌+◌, ◌-◌, ltb, pos, String, Bool, true, false, ◌&&◌, not, Option, none, some, List, [], ◌∷◌,
  if◌then◌else◌,
}
use isp_cms_be.Prelude.Table.{find, update_where}
use isp_cms_be.Store.Rows.{Customer, CustomerStatus}
use isp_cms_be.Store.SalesRows.{OdpRecord, CoverageArea, CoverageStatus, PortalUser}
use isp_cms_be.Store.Monad.{
  Db, Server, Action, Result, ok, err, Exception, not_found, conflict, bad_request, unprocessable,
  internal, pure, throw, gets, or_throw, modify, ◌>>=◌, ◌>>◌,
}
use isp_cms_be.Customers.PlanChange.{find_plan}
use isp_cms_be.Resellers.{find_reseller}
use isp_cms_be.WorkOrders.{schedule_install_for_customer, schedule_install}
use isp_cms_be.WorkOrders.Provisioning.{CustomerRow, find_customer_row}
use isp_cms_be.Contracts.{create_contract}

-- What the text functions compute: `ilike` of two texts without wildcards, and the normal form of an
-- email that is not empty.
pub record Names : Type 0 where
  pub same_name : String → String → Bool
  pub normalize_email : String → String

abbrev pub odp_at : String → OdpRecord → Bool
odp_at id o = str_eq o.id id

abbrev pub has_room : String → OdpRecord → Bool
has_room id o = odp_at id o && ltb o.used_ports o.total_ports

abbrev pub in_use : String → OdpRecord → Bool
in_use id o = odp_at id o && ltb 0 o.used_ports

abbrev pub with_port : Server → OdpRecord → OdpRecord
with_port srv o = record o { used_ports = o.used_ports + 1; updated_at = srv.now }

abbrev pub without_port : Server → OdpRecord → OdpRecord
without_port srv o = record o { used_ports = o.used_ports - 1; updated_at = srv.now }

-- `update(odp_records).set(f).where(p).returning()`: the row that it updated
unfoldable pub update_odp : (OdpRecord → Bool) → (OdpRecord → OdpRecord) → Action (Option OdpRecord)
update_odp p f = do
  row ← gets (λ db. find p db.odp_records)
  modify (λ db. record db { odp_records = update_where p f db.odp_records })
  pure (Option.map f row)

-- OdpService.assignPort and releasePort
unfoldable pub assign_port : Server → String → Action OdpRecord
unfolding update_odp
assign_port srv id = do
  or_throw (← update_odp (has_room id) (with_port srv)) (conflict "ODP penuh atau tidak ditemukan")

unfoldable pub release_port : Server → String → Action (Option OdpRecord)
unfolding update_odp
release_port srv id = update_odp (in_use id) (without_port srv)

-- `checkServiceability`, and the exception for an area that is not served
abbrev pub unserved : Option CoverageArea → Option String
unserved none = some "Area di luar jangkauan layanan"
unserved (some a) = elim a.status [
  | CoverageStatus.down ↦ some "Area sedang gangguan, belum bisa dilayani"
  | _ ↦ none
]

abbrev pub find_area : Names → String → Db → Option CoverageArea
find_area names name db = find (λ a. names.same_name a.name name) db.coverage_areas

-- DEFAULTS
abbrev pub coverage_area : String → CoverageStatus → CoverageArea
coverage_area name status = record { name = name; status = status }

abbrev pub default_areas : List CoverageArea
default_areas =
    coverage_area "POP Jepara" CoverageStatus.operational
    ∷ coverage_area "Area Tahunan" CoverageStatus.operational
    ∷ coverage_area "POP Pecangaan" CoverageStatus.maintenance
    ∷ coverage_area "Area Kalinyamatan" CoverageStatus.down
    ∷ coverage_area "POP Mlonggo" CoverageStatus.operational
    ∷ coverage_area "Area Bangsri" CoverageStatus.operational
    ∷ coverage_area "POP Mayong" CoverageStatus.maintenance
    ∷ coverage_area "Area Batealit" CoverageStatus.down
    ∷ []

abbrev pub area_named : String → CoverageArea → Bool
area_named name a = str_eq a.name name

-- `insert(coverageAreas).values(rows).onConflictDoNothing()`: a name is unique.
unfoldable pub insert_missing : List CoverageArea → List CoverageArea → List CoverageArea
insert_missing [] areas = areas
insert_missing (a ∷ rows) areas =
    insert_missing rows
      (elim (find (area_named a.name) areas) [ none ↦ a ∷ areas | some _ ↦ areas ])

-- `ensureSeeded(DEFAULTS)`
unfoldable pub ensure_seeded : Action (Unit {0})
ensure_seeded =
    modify (λ db. record db { coverage_areas = insert_missing default_areas db.coverage_areas })

unfoldable pub require_served : Names → String → Action (Unit {0})
unfolding ensure_seeded
require_served names area = do
  ensure_seeded
  reason ← gets (λ db. unserved (find_area names area db))
  elim reason [ none ↦ pure tt | some r ↦ throw (unprocessable r) ]

-- `provisionLogin`: the login that it made. UsersService.create refuses an email that is in use, and
-- that refusal is caught.
abbrev pub find_login : Names → String → Db → Option PortalUser
find_login names email db =
    find (λ u. str_eq u.email (names.normalize_email email) && not u.deleted) db.portal_users

-- `users.email` is unique, also among the users that are deleted.
abbrev pub email_taken : String → Db → Option PortalUser
email_taken email db = find (λ u. str_eq u.email email) db.portal_users

-- UsersRepository.create
unfoldable pub insert_login : PortalUser → Action PortalUser
insert_login user = do
  taken ← gets (email_taken user.email)
  elim taken [
    | some _ ↦ throw (internal "users_email_unique")
    | none ↦ modify (λ db. record db { portal_users = user ∷ db.portal_users }) >> pure user
  ]

abbrev pub portal_user : Names → Server → String → String → PortalUser
portal_user names srv email full_name = record {
  id = srv.key;
  email = names.normalize_email email;
  full_name = full_name;
  deleted = false;
}

unfoldable pub provision_login : Names → Server → String → String → Action (Option PortalUser)
unfolding insert_login
provision_login names srv email full_name =
    if str_eq email ""
    then pure none
    else (gets (find_login names email) >>= λ existing. elim existing [
      | some _ ↦ pure none
      | none ↦ insert_login (portal_user names srv email full_name) >>= λ user. pure (some user)
    ])

-- what the wizard sends, of the columns that are modelled
pub record OnboardInput : Type 0 where
  pub full_name : String
  pub email : String
  pub area_name : String
  pub plan_id : ℕ
  pub odp_id : Option String
  pub technician : String
  pub scheduled_at : ℕ
  pub reseller_id : Option ℕ

-- the row of CustomersService.onboard
abbrev pub customer_row :
    Server → String → ℕ → Option ℕ → Option String → Option PortalUser → Customer
customer_row srv full_name plan_id reseller_id odp_id login = record {
  id = srv.key;
  customer_no = srv.customer_no;
  full_name = full_name;
  plan_id = plan_id;
  status = CustomerStatus.instalasi;
  hold_reason = none;
  outstanding = pos 0;
  reseller_id = reseller_id;
  connection = none;
  odp_id = odp_id;
  user_id = Option.map (λ (u : PortalUser). u.id) login;
  updated_at = srv.now;
}

-- `requireResellerIfProvided`
unfoldable pub require_reseller : Option ℕ → Action (Unit {0})
require_reseller none = pure tt
require_reseller (some id) = do
  reseller ← or_throw (← gets (find_reseller id)) (bad_request "reseller not found")
  pure tt

-- CustomersService.onboard
unfoldable pub onboard_customer : Customer → Action CustomerRow
unfolding require_reseller
onboard_customer c = do
  plan ← or_throw (← gets (find_plan c.plan_id)) (bad_request "plan not found")
  require_reseller c.reseller_id
  modify (λ db. record db { customers = c ∷ db.customers })
  or_throw (← gets (find_customer_row c.id)) (not_found "customer not found")

-- `if (input.odpId) assignPort`
unfoldable pub reserve : Server → Option String → Action (Unit {0})
unfolding assign_port
reserve srv none = pure tt
reserve srv (some id) = if str_eq id "" then pure tt else (assign_port srv id >> pure tt)

-- `onboard`: the customer and the login
unfoldable pub onboard : Names → Server → OnboardInput → Action (CustomerRow × Option PortalUser)
unfolding require_served reserve provision_login onboard_customer schedule_install_for_customer
    create_contract
onboard names srv input = do
  require_served names input.area_name
  reserve srv input.odp_id
  login ← provision_login names srv input.email input.full_name
  c ←
      onboard_customer
        (customer_row srv input.full_name input.plan_id input.reseller_id input.odp_id login)
  schedule_install_for_customer srv c.customer.id c.customer.full_name input.technician
      input.scheduled_at
  create_contract srv c.customer.id
  pure (c, login)

-- `onboardFromLead`, which has no email and no distribution point
unfoldable pub onboard_from_lead :
    Names → Server → String → String → ℕ → Option ℕ → Action CustomerRow
unfolding require_served provision_login onboard_customer schedule_install create_contract
onboard_from_lead names srv full_name area_name plan_id reseller_id = do
  require_served names area_name
  login ← provision_login names srv "" full_name
  c ← onboard_customer (customer_row srv full_name plan_id reseller_id none login)
  schedule_install srv c.customer.id c.customer.full_name
  create_contract srv c.customer.id
  pure c
