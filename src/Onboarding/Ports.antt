-- ===== src/Onboarding/Ports.antt =====
-- A distribution point never has more ports in use than it has.
use isp_cms_be.Prelude.{ℕ, ◌≤◌, Bool, true, String, Option, none, some, ◌≡◌, arith}
use text.Mathlib.Text.{◌==◌ as str_eq}
use isp_cms_be.Prelude.Table.{All}
use isp_cms_be.Prelude.Table.Laws.{All-update_where}
use isp_cms_be.Store.FieldRows.{Plan}
use isp_cms_be.Store.SalesRows.{OdpRecord, Lead, LeadStage}
use isp_cms_be.Store.Monad.{Db, Server, conflict, bad_request, not_found}
use isp_cms_be.Store.Keeps.{
  Keeps, pure-Keeps, gets-Keeps, or_throw-Keeps, bind-Keeps, then-Keeps, if-Keeps,
}
use isp_cms_be.Onboarding.{
  Names, has_room, in_use, with_port, without_port, update_odp, assign_port, release_port,
  OnboardInput, reserve, onboard,
}
use isp_cms_be.Onboarding.Leads.{
  find_lead, find_plan_named, set_stage, convert_planned, convert_open, convert_at, convert,
}
use isp_cms_be.Onboarding.Steps.{onboard-Keeps, onboard_from_lead-Keeps}

abbrev pub IsWithin : OdpRecord → Type 0
IsWithin o = o.used_ports ≤ o.total_ports

abbrev pub AllWithin : Db → Type 0
AllWithin db = All IsWithin db.odp_records

update_odp-Keeps :
    (p : OdpRecord → Bool) (f : OdpRecord → OdpRecord)
    → ((o : OdpRecord) → IsWithin o → p o ≡ true → IsWithin (f o))
    → Keeps AllWithin (update_odp p f)
unfolding Keeps update_odp
update_odp-Keeps p f fits d h = All-update_where IsWithin p f d.odp_records fits h

assign_port-Keeps : (srv : Server) (id : String) → Keeps AllWithin (assign_port srv id)
unfolding assign_port
assign_port-Keeps srv id =
    bind-Keeps _ _ _ (update_odp-Keeps (has_room id) (with_port srv) (λ o h room. ground arith))
      (λ row. or_throw-Keeps _ row (conflict "ODP penuh atau tidak ditemukan"))

release_port-Keeps : (srv : Server) (id : String) → Keeps AllWithin (release_port srv id)
unfolding release_port
release_port-Keeps srv id =
    update_odp-Keeps (in_use id) (without_port srv) (λ o h used. ground arith)

reserve-Keeps : (srv : Server) (odp : Option String) → Keeps AllWithin (reserve srv odp)
unfolding reserve
reserve-Keeps srv none = pure-Keeps _ tt
reserve-Keeps srv (some id) =
    if-Keeps _ (str_eq id "") _ _ (pure-Keeps _ tt)
      (then-Keeps _ _ _ (assign_port-Keeps srv id) (pure-Keeps _ tt))

same : (d e : Db) → e.odp_records ≡ d.odp_records → e.leads ≡ d.leads → AllWithin d → AllWithin e
same d e points leads h = rw points h

set_stage-Keeps :
    (srv : Server) (id : ℕ) (stage : LeadStage) → Keeps AllWithin (set_stage srv id stage)
unfolding set_stage Keeps
set_stage-Keeps srv id stage d h = ground arith

convert_planned-Keeps :
    (names : Names) (srv : Server) (lead : Lead) (plan : Plan)
    → Keeps AllWithin (convert_planned names srv lead plan)
unfolding convert_planned
convert_planned-Keeps names srv lead plan =
    then-Keeps _ _ _
      (onboard_from_lead-Keeps AllWithin same names srv lead.name lead.area_name plan.id
        lead.reseller_id)
      (set_stage-Keeps srv lead.id LeadStage.won)

convert_open-Keeps :
    (names : Names) (srv : Server) (lead : Lead) → Keeps AllWithin (convert_open names srv lead)
unfolding convert_open
convert_open-Keeps names srv lead =
    bind-Keeps _ _ _ (gets-Keeps _ (find_plan_named lead.plan_name)) (λ o.
      bind-Keeps _ _ _ (or_throw-Keeps _ o (bad_request "plan not found for lead"))
        (convert_planned-Keeps names srv lead))

convert_at-Keeps :
    (names : Names) (srv : Server) (lead : Lead) (stage : LeadStage)
    → Keeps AllWithin (convert_at names srv lead stage)
unfolding convert_at
convert_at-Keeps names srv lead LeadStage.won = pure-Keeps _ lead
convert_at-Keeps names srv lead LeadStage.new = convert_open-Keeps names srv lead
convert_at-Keeps names srv lead LeadStage.survey = convert_open-Keeps names srv lead
convert_at-Keeps names srv lead LeadStage.quote = convert_open-Keeps names srv lead
convert_at-Keeps names srv lead LeadStage.lost = convert_open-Keeps names srv lead

convert-Keeps : (names : Names) (srv : Server) (id : ℕ) → Keeps AllWithin (convert names srv id)
unfolding convert
convert-Keeps names srv id = bind-Keeps _ _ _ (gets-Keeps _ (find_lead id)) (λ o.
    bind-Keeps _ _ _ (or_throw-Keeps _ o (not_found "lead not found"))
      (λ lead. convert_at-Keeps names srv lead lead.stage))

-- The calls that acquire a subscriber or move a port; a call that throws leaves what it wrote.
pub data Step (names : Names) : Db → Db → Type 0 where
  reserves : (d : Db) (srv : Server) (id : String) → Step names d (assign_port srv id d).1
  releases : (d : Db) (srv : Server) (id : String) → Step names d (release_port srv id d).1
  onboards :
      (d : Db) (srv : Server) (input : OnboardInput) → Step names d (onboard names srv input d).1
  converts : (d : Db) (srv : Server) (id : ℕ) → Step names d (convert names srv id d).1

pub data Reach (names : Names) (d : Db) : Db → Type 0 where
  here : Reach names d d
  next : {e f : Db} → Reach names d e → Step names e f → Reach names d f

Step-AllWithin : {names : Names} {d e : Db} → Step names d e → AllWithin d → AllWithin e
unfolding Keeps
Step-AllWithin (reserves d srv id) h = assign_port-Keeps srv id d h
Step-AllWithin (releases d srv id) h = release_port-Keeps srv id d h
Step-AllWithin {names} (onboards d srv input) h =
    onboard-Keeps AllWithin same names srv input (reserve-Keeps srv input.odp_id) d h
Step-AllWithin {names} (converts d srv id) h = convert-Keeps names srv id d h

-- When no distribution point has more ports in use than it has ports, the same holds after any
-- sequence of port assignments, releases, onboardings and conversions of leads, whether they return
-- or throw half-way.
pub Reach-AllWithin : {names : Names} {d e : Db} → Reach names d e → AllWithin d → AllWithin e
Reach-AllWithin here h = h
Reach-AllWithin (next r st) h = Step-AllWithin st (Reach-AllWithin r h)
