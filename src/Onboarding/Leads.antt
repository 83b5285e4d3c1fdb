-- ===== src/Onboarding/Leads.antt =====
-- LeadsService and LeadsRepository (src/modules/leads): the stages of a lead, and its conversion into
-- a subscriber.
use text.Mathlib.Text.{◌==◌ as str_eq}
use isp_cms_be.Prelude.{ℕ, String, Bool, Option, ◌∷◌, ◌==◌}
use isp_cms_be.Prelude.Table.{find, update_where}
use isp_cms_be.Store.FieldRows.{Plan}
use isp_cms_be.Store.SalesRows.{Lead, LeadStage}
use isp_cms_be.Store.Monad.{
  Db, Server, Action, not_found, bad_request, pure, gets, or_throw, modify, ◌>>=◌, ◌>>◌,
}
use isp_cms_be.Onboarding.{Names, onboard_from_lead}

abbrev pub lead_at : ℕ → Lead → Bool
lead_at id l = l.id == id

-- `findById`
abbrev pub find_lead : ℕ → Db → Option Lead
find_lead id db = find (lead_at id) db.leads

-- PlansRepository.findByName
abbrev pub find_plan_named : String → Db → Option Plan
find_plan_named name db = find (λ p. str_eq p.name name) db.plans

pub record CreateLeadInput : Type 0 where
  pub name : String
  pub area_name : String
  pub plan_name : String
  pub reseller_id : Option ℕ

abbrev pub lead_row : Server → CreateLeadInput → Lead
lead_row srv input = record {
  id = srv.key;
  name = input.name;
  area_name = input.area_name;
  plan_name = input.plan_name;
  stage = LeadStage.new;
  reseller_id = input.reseller_id;
  updated_at = srv.now;
}

-- `create`
unfoldable pub create_lead : Server → CreateLeadInput → Action Lead
create_lead srv input =
    modify (λ db. record db { leads = lead_row srv input ∷ db.leads }) >> pure (lead_row srv input)

abbrev pub with_stage : Server → LeadStage → Lead → Lead
with_stage srv stage l = record l { stage = stage; updated_at = srv.now }

-- `setStage`, and `updateStage`
unfoldable pub set_stage : Server → ℕ → LeadStage → Action Lead
set_stage srv id stage = do
  modify (λ db. record db { leads = update_where (lead_at id) (with_stage srv stage) db.leads })
  or_throw (← gets (find_lead id)) (not_found "lead not found")

-- `convert` of a lead that is not won, once its plan is read
unfoldable pub convert_planned : Names → Server → Lead → Plan → Action Lead
unfolding onboard_from_lead set_stage
convert_planned names srv lead plan = do
  onboard_from_lead names srv lead.name lead.area_name plan.id lead.reseller_id
  set_stage srv lead.id LeadStage.won

unfoldable pub convert_open : Names → Server → Lead → Action Lead
unfolding convert_planned
convert_open names srv lead = do
  plan ← or_throw (← gets (find_plan_named lead.plan_name)) (bad_request "plan not found for lead")
  convert_planned names srv lead plan

-- `convert` of a lead that was read; a lead that is won already is its own answer
unfoldable pub convert_at : Names → Server → Lead → LeadStage → Action Lead
unfolding convert_open
convert_at names srv lead LeadStage.won = pure lead
convert_at names srv lead stage = convert_open names srv lead

-- `convert`
unfoldable pub convert : Names → Server → ℕ → Action Lead
unfolding convert_at
convert names srv id = do
  lead ← or_throw (← gets (find_lead id)) (not_found "lead not found")
  convert_at names srv lead lead.stage
