-- ===== src/Onboarding/Converted.antt =====
-- A lead is converted once.

use isp_cms_be.Prelude.{
  ℕ, ◌==◌, String, false, Option, none, Option-cases, some, List, [], ◌∷◌, ◌≡◌, refl, arith,
  Bool-cases, inl, inr,
}
use isp_cms_be.Prelude.Table.{find, update_where}
use isp_cms_be.Store.SalesRows.{Lead, LeadStage}
use isp_cms_be.Store.Monad.{Db, Server, ok, not_found, bad_request, or_throw}
use isp_cms_be.Store.Ran.{bind-ran, or_throw-ran}
use isp_cms_be.Onboarding.{
  Names, OnboardInput, update_odp, assign_port, reserve, onboard, onboard_from_lead,
}
use isp_cms_be.Onboarding.Steps.{onboard-Keeps, onboard_from_lead-Keeps}
use isp_cms_be.Prelude.Table.Laws.{find-update_ne}
use isp_cms_be.Store.Keeps.{Keeps, pure-Keeps, gets-Keeps, or_throw-Keeps, bind-Keeps, then-Keeps}
use isp_cms_be.Onboarding.Leads.{
  lead_at, find_lead, find_plan_named, set_stage, with_stage, convert_planned, convert_open,
  convert_at, convert, CreateLeadInput, create_lead,
}

-- the row that an update found
updated-found :
    (srv : Server) (id : ℕ) (stage : LeadStage) (rows : List Lead) (l : Lead)
    → find (lead_at id) (update_where (lead_at id) (with_stage srv stage) rows) ≡ some l
    → (l.id ≡ id) × (l.stage ≡ stage)
unfolding find update_where
updated-found srv id stage [] l h = absurd (cc)
updated-found srv id stage (r ∷ rows) l h = elim (Bool-cases (lead_at id r)) [
  | inl hit ↦ ground arith
  | inr miss ↦ updated-found srv id stage rows l (ground arith)
]

set_stage-ran :
    (srv : Server) (id : ℕ) (stage : LeadStage) (d d' : Db) (l : Lead)
    → set_stage srv id stage d ≡ (ok l, d')
    → (find_lead id d' ≡ some l) × ((l.id ≡ id) × (l.stage ≡ stage))
unfolding set_stage
set_stage-ran srv id stage d d' l h =
    let e : Db = record d { leads = update_where (lead_at id) (with_stage srv stage) d.leads } in
    let (found, same) = or_throw-ran (find_lead id e) (not_found "lead not found") e d' l h in
    (rw (← same) found, updated-found srv id stage d.leads l found)

-- A lead that is found has the id.
found-id : (id : ℕ) (rows : List Lead) (l : Lead) → find (lead_at id) rows ≡ some l → l.id ≡ id
unfolding find
found-id id [] l h = absurd (cc)
found-id id (r ∷ rows) l h = elim (Bool-cases (lead_at id r)) [
  | inl hit ↦ ground arith
  | inr miss ↦ found-id id rows l (ground arith)
]

convert_open-ran :
    (names : Names) (srv : Server) (lead : Lead) (d d' : Db) (l : Lead)
    → convert_open names srv lead d ≡ (ok l, d')
    → (find_lead lead.id d' ≡ some l) × ((l.id ≡ lead.id) × (l.stage ≡ LeadStage.won))
unfolding convert_open convert_planned
convert_open-ran names srv lead d d' l h =
    let (plan, (d1, planned, h1)) =
      bind-ran (or_throw (find_plan_named lead.plan_name d) (bad_request "plan not found for lead"))
        (convert_planned names srv lead) d d' l h in
    let (c, (d2, acquired, h2)) =
      bind-ran (onboard_from_lead names srv lead.name lead.area_name plan.id lead.reseller_id)
        (λ c. set_stage srv lead.id LeadStage.won) d1 d' l h1 in
    set_stage-ran srv lead.id LeadStage.won d2 d' l h2

-- A lead that reads `won` is returned as it is.
convert-won :
    (names : Names) (srv : Server) (id : ℕ) (d : Db) (l : Lead)
    → find_lead id d ≡ some l
    → l.stage ≡ LeadStage.won
    → convert names srv id d ≡ (ok l, d)
unfolding convert convert_at
convert-won names srv id d l found won = ground arith

convert_at-ran :
    (names : Names) (srv : Server) (lead : Lead) (stage : LeadStage) (d d' : Db) (l : Lead)
    → lead.stage ≡ stage
    → find_lead lead.id d ≡ some lead
    → convert_at names srv lead stage d ≡ (ok l, d')
    → (find_lead lead.id d' ≡ some l) × ((l.id ≡ lead.id) × (l.stage ≡ LeadStage.won))
unfolding convert_at
convert_at-ran names srv lead LeadStage.won d d' l is found h =
    let same : lead ≡ l = cc in
    let kept : d ≡ d' = cc in (rw (← same, ← kept) found, rw (← same) (refl, is))
convert_at-ran names srv lead LeadStage.new d d' l is found h =
    convert_open-ran names srv lead d d' l h
convert_at-ran names srv lead LeadStage.survey d d' l is found h =
    convert_open-ran names srv lead d d' l h
convert_at-ran names srv lead LeadStage.quote d d' l is found h =
    convert_open-ran names srv lead d d' l h
convert_at-ran names srv lead LeadStage.lost d d' l is found h =
    convert_open-ran names srv lead d d' l h

-- The conversion of the lead returned it, and it reads `won`.
converted :
    (names : Names) (srv : Server) (id : ℕ) (d d' : Db) (l : Lead)
    → convert names srv id d ≡ (ok l, d')
    → (find_lead id d' ≡ some l) × (l.stage ≡ LeadStage.won)
unfolding convert
converted names srv id d d' l h =
    let (lead, (e, read, rest)) =
      bind-ran (or_throw (find_lead id d) (not_found "lead not found"))
        (λ lead. convert_at names srv lead lead.stage) d d' l h in
    let (found, same) = or_throw-ran (find_lead id d) (not_found "lead not found") d e lead read in
    let its : lead.id ≡ id = found-id id d.leads lead found in
    let (after, (kept, won)) =
      convert_at-ran names srv lead lead.stage d d' l refl (rw its found) (rw same rest) in
    (rw (← its) after, won)

-- The calls that acquire subscribers and work on leads. The lead `id` itself is moved by no
-- `updateStage`, and a new lead has a key of its own.
pub data Step (names : Names) (id : ℕ) : Db → Db → Type 0 where
  onboards :
      (d : Db) (srv : Server) (input : OnboardInput) → Step names id d (onboard names srv input d).1
  converts : (d : Db) (srv : Server) (j : ℕ) → Step names id d (convert names srv j d).1
  stages :
      (d : Db) (srv : Server) (j : ℕ) (stage : LeadStage)
      → j == id ≡ false
      → Step names id d (set_stage srv j stage d).1
  arrives :
      (d : Db) (srv : Server) (input : CreateLeadInput)
      → srv.key == id ≡ false
      → Step names id d (create_lead srv input d).1

pub data Reach (names : Names) (id : ℕ) (d : Db) : Db → Type 0 where
  here : Reach names id d d
  next : {e f : Db} → Reach names id d e → Step names id e f → Reach names id d f

module _ (names : Names) (id : ℕ) (l : Lead) (won : l.stage ≡ LeadStage.won) where
  -- The lead is there, as it is.
  abbrev Stays : Db → Type 0
  Stays d = find_lead id d ≡ some l

  same : (d e : Db) → e.odp_records ≡ d.odp_records → e.leads ≡ d.leads → Stays d → Stays e
  same d e points leads h = rw leads h

  reserve-Keeps : (srv : Server) (odp : Option String) → Keeps Stays (reserve srv odp)
  unfolding Keeps reserve assign_port update_odp
  reserve-Keeps srv none d h = h
  reserve-Keeps srv (some point) d h =
      let leads : (reserve srv (some point) d).1.leads ≡ d.leads = ground arith in rw leads h

  set_stage-Keeps :
      (srv : Server) (j : ℕ) (stage : LeadStage)
      → j == id ≡ false
      → Keeps Stays (set_stage srv j stage)
  unfolding Keeps set_stage
  set_stage-Keeps srv j stage other d h =
      let rows =
        find-update_ne (λ (r : Lead). r.id) id j (with_stage srv stage) d.leads (λ _. refl)
          (λ e. absurd (ground arith)) in
      ground (arith, rows)

  convert_open-Keeps :
      (srv : Server) (lead : Lead)
      → lead.id == id ≡ false
      → Keeps Stays (convert_open names srv lead)
  unfolding convert_open convert_planned
  convert_open-Keeps srv lead other =
      bind-Keeps _ _ _ (gets-Keeps _ (find_plan_named lead.plan_name)) (λ o.
        bind-Keeps _ _ _ (or_throw-Keeps _ o (bad_request "plan not found for lead")) (λ plan.
          then-Keeps _ _ _
            (onboard_from_lead-Keeps Stays same names srv lead.name lead.area_name plan.id
              lead.reseller_id)
            (set_stage-Keeps srv lead.id LeadStage.won other)))

  convert_at-Keeps :
      (srv : Server) (lead : Lead) (stage : LeadStage)
      → lead.id == id ≡ false
      → Keeps Stays (convert_at names srv lead stage)
  unfolding convert_at
  convert_at-Keeps srv lead LeadStage.won other = pure-Keeps _ lead
  convert_at-Keeps srv lead LeadStage.new other = convert_open-Keeps srv lead other
  convert_at-Keeps srv lead LeadStage.survey other = convert_open-Keeps srv lead other
  convert_at-Keeps srv lead LeadStage.quote other = convert_open-Keeps srv lead other
  convert_at-Keeps srv lead LeadStage.lost other = convert_open-Keeps srv lead other

  convert_other :
      (srv : Server) (j : ℕ) (d : Db) → j == id ≡ false → Stays d → Stays (convert names srv j d).1
  unfolding convert Keeps
  convert_other srv j d other h = elim (Option-cases (find_lead j d)) [
    | inl missing ↦ let ran : (convert names srv j d).1 ≡ d = ground arith in rw ran h
    | inr (lead, found) ↦
        let its : lead.id ≡ j = found-id j d.leads lead found in
        let ran : convert names srv j d ≡ convert_at names srv lead lead.stage d = ground arith in
        rw ran (convert_at-Keeps srv lead lead.stage (rw its other) d h)
  ]

  Step-Stays : {d e : Db} → Step names id d e → Stays d → Stays e
  unfolding Keeps create_lead find
  Step-Stays (onboards d srv input) h =
      onboard-Keeps Stays same names srv input (reserve-Keeps srv input.odp_id) d h
  Step-Stays (converts d srv j) h = elim (Bool-cases (j == id)) [
    | inl own ↦ let e : j ≡ id = ground arith in rw e (rw (convert-won names srv id d l h won) h)
    | inr other ↦ convert_other srv j d other h
  ]
  Step-Stays (stages d srv j stage other) h = set_stage-Keeps srv j stage other d h
  Step-Stays (arrives d srv input other) h = ground (arith, h)

  Reach-Stays : {d e : Db} → Reach names id d e → Stays d → Stays e
  Reach-Stays here h = h
  Reach-Stays (next r st) h = Step-Stays st (Reach-Stays r h)

-- After a conversion that returned a lead, the lead reads `won`, and after any sequence of
-- onboardings, conversions, new leads under other keys and `updateStage` of other leads, another
-- conversion of it returns the same lead and changes no table.
pub convert-once :
    (names : Names) (srv srv' : Server) (id : ℕ) (d d' e : Db) (l : Lead)
    → convert names srv id d ≡ (ok l, d')
    → Reach names id d' e
    → (l.stage ≡ LeadStage.won) × (convert names srv' id e ≡ (ok l, e))
convert-once names srv srv' id d d' e l h r =
    let (after, won) = converted names srv id d d' l h in
    (won, convert-won names srv' id e l (Reach-Stays names id l won r after) won)
