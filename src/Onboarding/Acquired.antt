-- ===== src/Onboarding/Acquired.antt =====
-- What a subscriber is acquired with.

use text.Mathlib.Text.{◌==◌ as str_eq}
use isp_cms_be.Prelude.{◌≢◌, ℕ, String, Option, none, some, List, ◌∷◌, ◌≡◌, if◌then◌else◌, arith}
use isp_cms_be.Prelude.Table.{update_where}
use isp_cms_be.Store.FieldRows.{WorkOrderType}
use isp_cms_be.Store.SalesRows.{OdpRecord, PortalUser, Contract, CoverageArea, CoverageStatus}
use isp_cms_be.Store.Monad.{Db, Server, Action, pure, ok, ◌>>=◌, ◌>>◌}
use isp_cms_be.WorkOrders.{order_row, schedule_install_for_customer}
use isp_cms_be.WorkOrders.Provisioning.{CustomerRow}
use isp_cms_be.Contracts.{find_contract, create_contract}
use isp_cms_be.Onboarding.{
  Names, has_room, with_port, insert_missing, default_areas, find_area, provision_login,
  OnboardInput, customer_row, require_reseller, onboard_customer,
}

-- the distribution points once the port that was asked for is reserved
abbrev pub reserved : Server → Option String → List OdpRecord → List OdpRecord
reserved srv none rows = rows
reserved srv (some id) rows =
    if str_eq id "" then rows else update_where (has_room id) (with_port srv) rows

-- the tables once the default areas are there
abbrev pub seeded : Db → Db
seeded d = record d { coverage_areas = insert_missing default_areas d.coverage_areas }

-- The area is known, and it is not down.
abbrev pub IsServed : Names → String → Db → Type 0
IsServed names area d =
    (a : CoverageArea) × ((find_area names area d ≡ some a) × (a.status ≢ CoverageStatus.down))

require_reseller-ran : (id : Option ℕ) (d e : Db) → require_reseller id d ≡ (ok tt, e) → e ≡ d
unfolding require_reseller
require_reseller-ran none d e h = ground arith
require_reseller-ran (some id) d e h = ground arith

module _ (names : Names) (srv : Server) (input : OnboardInput) where
  -- the steps of `onboard` that are left after each step
  abbrev with_contract : Option PortalUser → CustomerRow → Action (CustomerRow × Option PortalUser)
  with_contract login c = create_contract srv c.customer.id >> pure (c, login)

  abbrev with_visit : Option PortalUser → CustomerRow → Action (CustomerRow × Option PortalUser)
  with_visit login c =
      schedule_install_for_customer srv c.customer.id c.customer.full_name input.technician
        input.scheduled_at
      >> with_contract login c

  abbrev with_customer : Option PortalUser → Action (CustomerRow × Option PortalUser)
  with_customer login =
      onboard_customer
        (customer_row srv input.full_name input.plan_id input.reseller_id input.odp_id login)
      >>= with_visit login

  abbrev with_login : Action (CustomerRow × Option PortalUser)
  with_login = provision_login names srv input.email input.full_name >>= with_customer

  -- what an onboarding adds
  abbrev pub Acquired : CustomerRow → Option PortalUser → Db → Db → Type 0
  Acquired c login d e =
      let row =
        customer_row srv input.full_name input.plan_id input.reseller_id input.odp_id login in
      IsServed names input.area_name (seeded d)
      × (e.coverage_areas ≡ (seeded d).coverage_areas)
      × (c.customer ≡ row)
      × (e.customers ≡ row ∷ d.customers)
      × (e.odp_records ≡ reserved srv input.odp_id d.odp_records)
      × (e.work_orders
          ≡ order_row srv WorkOrderType.install none (some srv.key) input.full_name
              (some input.technician) input.scheduled_at
            ∷ d.work_orders)
      × ((signed : Contract) × (find_contract srv.key e ≡ some signed))
