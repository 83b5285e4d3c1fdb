-- ===== src/Witnesses/Sales.antt =====
-- Runs of the theorems on contracts and onboarding.
use text.Mathlib.Text.{◌==◌ as str_eq}
use isp_cms_be.Prelude.{arith, true, none, some, [], ◌∷◌, ◌≡◌, refl}
use isp_cms_be.Prelude.Table.{find, update_where}
use isp_cms_be.Store.SalesRows.{Contract, ContractStatus, Lead, LeadStage}
use isp_cms_be.Store.Monad.{Db, ok}
use isp_cms_be.WorkOrders.{create_order, schedule_install}
use isp_cms_be.WorkOrders.Provisioning.{CustomerRow}
use isp_cms_be.Contracts.{find_contract, create_contract, create_missing, send, sign}
use isp_cms_be.Contracts.Signed as Signed
use isp_cms_be.Contracts.Signed.{Reach-stays_signed}
use isp_cms_be.Onboarding.{
  Names, OnboardInput, assign_port, onboard, onboard_from_lead, onboard_customer, require_served,
  ensure_seeded, insert_missing, require_reseller, provision_login, portal_user, customer_row,
}
use isp_cms_be.Onboarding.Leads.{convert, convert_at, convert_open, convert_planned, set_stage}
use isp_cms_be.Onboarding.Ports.{AllWithin, Reach-AllWithin, here, next, reserves, onboards}
use isp_cms_be.Onboarding.Converted as Converted
use isp_cms_be.Onboarding.Converted.{convert-once}
use isp_cms_be.Onboarding.Acquired.{Acquired}
use isp_cms_be.Witnesses.Sample.{server, db}

abbrev names : Names
names = record { same_name = str_eq; normalize_email = λ email. email }

abbrev contract : Contract
contract = record {
  id = 1;
  number = "PKS-0";
  customer_id = 1;
  customer_name = "Budi";
  plan_name = "10M";
  status = ContractStatus.signed;
  meterai = true;
  signed_at = some 1;
  updated_at = 1;
}

abbrev signed_db : Db
signed_db = record db { contracts = contract ∷ [] }

abbrev sent_again : Db
sent_again = (sign server 1 (send server 1 signed_db).1).1

Reach-stays_signed_example : find_contract 1 sent_again ≡ some contract
unfolding find
Reach-stays_signed_example =
    Reach-stays_signed 1 contract refl
      (Signed.next (Signed.next Signed.here (Signed.sends signed_db server 1))
        (Signed.signs (send server 1 signed_db).1 server 1))
      refl

abbrev input : OnboardInput
input = record {
  full_name = "Tono";
  email = "tono@b.id";
  area_name = "Kota";
  plan_id = 1;
  odp_id = some "odp-1";
  technician = "Adi";
  scheduled_at = 9;
  reseller_id = none;
}

abbrev full : Db
full = (assign_port server "odp-1" (onboard names server input db).1).1

Reach-AllWithin_example : AllWithin full
Reach-AllWithin_example =
    Reach-AllWithin
      (next (next here (onboards db server input))
        (reserves (onboard names server input db).1 server "odp-1"))
      (omega arith, tt)

abbrev won : Lead
won = record {
  id = 4;
  name = "Sari";
  area_name = "Kota";
  plan_name = "10M";
  stage = LeadStage.won;
  reseller_id = none;
  updated_at = 1000;
}

abbrev converted : Db
converted = (convert names server 4 db).1

-- an onboarding and another conversion
abbrev acquired : Db
acquired = (convert names server 4 (onboard names server input converted).1).1

convert-once_example :
    (won.stage ≡ LeadStage.won) × (convert names server 4 acquired ≡ (ok won, acquired))
unfolding convert convert_at convert_open convert_planned onboard_from_lead onboard_customer
    require_served ensure_seeded insert_missing require_reseller provision_login schedule_install
    create_order create_contract create_missing set_stage find update_where
convert-once_example = convert-once names server server 4 db converted acquired won refl (
    Converted.next (Converted.next Converted.here (Converted.onboards converted server input))
      (Converted.converts (onboard names server input converted).1 server 4))

abbrev subscriber : CustomerRow
subscriber = record {
  customer =
      customer_row server "Tono" 1 none (some "odp-1")
        (some (portal_user names server "tono@b.id" "Tono"));
  plan_name = "10M";
}
