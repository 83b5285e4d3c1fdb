-- ===== src/Store/SalesRows.antt =====
-- The rows of the tables that a sale writes: odp_records, coverage_areas, leads, contracts, and the
-- logins of customers in users (src/infrastructure/database/schema).
use isp_cms_be.Prelude.{ℕ, String, Bool, Option}

-- `used_ports` is not negative: the fixtures start so, and `releasePort` is guarded.
pub record OdpRecord : Type 0 where
  pub id : String
  pub total_ports : ℕ
  pub used_ports : ℕ
  pub updated_at : ℕ

pub data CoverageStatus : Type 0 where
  operational maintenance down : CoverageStatus

pub record CoverageArea : Type 0 where
  pub name : String
  pub status : CoverageStatus

pub data LeadStage : Type 0 where
  new survey quote won lost : LeadStage

pub record Lead : Type 0 where
  pub id : ℕ
  pub name : String
  pub area_name : String
  pub plan_name : String
  pub stage : LeadStage
  pub reseller_id : Option ℕ
  pub updated_at : ℕ

pub data ContractStatus : Type 0 where
  draft sent signed : ContractStatus

pub record Contract : Type 0 where
  pub id : ℕ
  pub number : String
  pub customer_id : ℕ
  pub customer_name : String
  pub plan_name : String
  pub status : ContractStatus
  pub meterai : Bool
  pub signed_at : Option ℕ
  pub updated_at : ℕ

-- the columns of `users` that onboarding reads or writes, but for the role `customer` of a new one
pub record PortalUser : Type 0 where
  pub id : ℕ
  pub email : String
  pub full_name : String
  pub deleted : Bool
