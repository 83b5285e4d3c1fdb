-- ===== src/Onboarding/Steps.antt =====
-- What the steps of an onboarding keep of the distribution points and of the leads.
use isp_cms_be.Prelude.{ℕ, ◌∷◌, String, Option, none, some, ◌≡◌, refl, arith}
use isp_cms_be.Store.Rows.{Customer}
use isp_cms_be.Store.Monad.{Db, Server, Action, bad_request, not_found}
use isp_cms_be.Store.Keeps.{
  Keeps, pure-Keeps, gets-Keeps, or_throw-Keeps, modify-Keeps, bind-Keeps, then-Keeps,
}
use isp_cms_be.Customers.PlanChange.{find_plan}
use isp_cms_be.Resellers.{find_reseller}
use isp_cms_be.WorkOrders.{schedule_install, schedule_install_for_customer}
use isp_cms_be.WorkOrders.Provisioning.{find_customer_row}
use isp_cms_be.Contracts.{create_missing, create_contract}
use isp_cms_be.Onboarding.{
  ensure_seeded, Names, require_served, provision_login, insert_login, OnboardInput, customer_row,
  require_reseller, onboard_customer, reserve, onboard, onboard_from_lead,
}

module _ (P : Db → Type 0)
    (same : (d e : Db) → e.odp_records ≡ d.odp_records → e.leads ≡ d.leads → P d → P e) where
  -- What leaves the distribution points and the leads alone keeps what is said of them.
  same-Keeps :
      {A : Type 0} (m : Action A)
      → ((d : Db) → (m d).1.odp_records ≡ d.odp_records)
      → ((d : Db) → (m d).1.leads ≡ d.leads)
      → Keeps P m
  unfolding Keeps
  same-Keeps m points leads d h = same d (m d).1 (points d) (leads d) h

  require_served-Keeps : (names : Names) (area : String) → Keeps P (require_served names area)
  unfolding require_served ensure_seeded
  require_served-Keeps names area =
      same-Keeps (require_served names area) (λ d. ground arith) (λ d. ground arith)

  provision_login-Keeps :
      (names : Names) (srv : Server) (email name : String)
      → Keeps P (provision_login names srv email name)
  unfolding provision_login insert_login
  provision_login-Keeps names srv email name =
      same-Keeps (provision_login names srv email name) (λ d. ground arith) (λ d. ground arith)

  require_reseller-Keeps : (id : Option ℕ) → Keeps P (require_reseller id)
  unfolding require_reseller
  require_reseller-Keeps none = pure-Keeps _ tt
  require_reseller-Keeps (some id) = bind-Keeps _ _ _ (gets-Keeps _ (find_reseller id)) (λ o.
      bind-Keeps _ _ _ (or_throw-Keeps _ o (bad_request "reseller not found"))
        (λ r. pure-Keeps _ tt))

  onboard_customer-Keeps : (c : Customer) → Keeps P (onboard_customer c)
  unfolding onboard_customer
  onboard_customer-Keeps c = bind-Keeps _ _ _ (gets-Keeps _ (find_plan c.plan_id)) (λ o.
      bind-Keeps _ _ _ (or_throw-Keeps _ o (bad_request "plan not found")) (λ plan.
        then-Keeps _ _ _ (require_reseller-Keeps c.reseller_id) (
          then-Keeps _ _ _
            (modify-Keeps _ (λ db. record db { customers = c ∷ db.customers })
              (λ d h. same d (record d { customers = c ∷ d.customers }) refl refl h))
            (bind-Keeps _ _ _ (gets-Keeps _ (find_customer_row c.id))
              (λ row. or_throw-Keeps _ row (not_found "customer not found"))))))

  create_contract-Keeps : (srv : Server) (id : ℕ) → Keeps P (create_contract srv id)
  unfolding create_contract create_missing
  create_contract-Keeps srv id =
      same-Keeps (create_contract srv id) (λ d. ground arith) (λ d. ground arith)

  schedule_install-Keeps :
      (srv : Server) (id : ℕ) (name : String) → Keeps P (schedule_install srv id name)
  unfolding schedule_install
  schedule_install-Keeps srv id name =
      same-Keeps (schedule_install srv id name) (λ d. refl) (λ d. refl)

  schedule_for-Keeps :
      (srv : Server) (id : ℕ) (name technician : String) (at : ℕ)
      → Keeps P (schedule_install_for_customer srv id name technician at)
  unfolding schedule_install_for_customer
  schedule_for-Keeps srv id name technician at =
      same-Keeps (schedule_install_for_customer srv id name technician at) (λ d. refl) (λ d. refl)

  pub onboard-Keeps :
      (names : Names) (srv : Server) (input : OnboardInput)
      → Keeps P (reserve srv input.odp_id)
      → Keeps P (onboard names srv input)
  unfolding onboard
  onboard-Keeps names srv input reserves =
      then-Keeps _ _ _ (require_served-Keeps names input.area_name) (
        then-Keeps _ _ _ reserves (
          bind-Keeps _ _ _ (provision_login-Keeps names srv input.email input.full_name) (λ login.
            bind-Keeps _ _ _
              (onboard_customer-Keeps (
                customer_row srv input.full_name input.plan_id input.reseller_id input.odp_id
                  login))
              (λ c.
                then-Keeps _ _ _
                  (schedule_for-Keeps srv c.customer.id c.customer.full_name input.technician
                    input.scheduled_at)
                  (then-Keeps _ _ _ (create_contract-Keeps srv c.customer.id)
                    (pure-Keeps _ (c, login)))))))

  pub onboard_from_lead-Keeps :
      (names : Names) (srv : Server) (full_name area_name : String) (plan_id : ℕ)
      (reseller_id : Option ℕ)
      → Keeps P (onboard_from_lead names srv full_name area_name plan_id reseller_id)
  unfolding onboard_from_lead
  onboard_from_lead-Keeps names srv full_name area_name plan_id reseller_id =
      then-Keeps _ _ _ (require_served-Keeps names area_name) (
        bind-Keeps _ _ _ (provision_login-Keeps names srv "" full_name) (λ login.
          bind-Keeps _ _ _
            (onboard_customer-Keeps (customer_row srv full_name plan_id reseller_id none login))
            (λ c.
              then-Keeps _ _ _ (schedule_install-Keeps srv c.customer.id c.customer.full_name)
                (then-Keeps _ _ _ (create_contract-Keeps srv c.customer.id) (pure-Keeps _ c)))))
