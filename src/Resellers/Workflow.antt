-- ===== src/Resellers/Workflow.antt =====
-- The workflow of a payout (`transitionPayout`, `approvePayout`, `rejectPayout`, `disbursePayout`).
use mathlib.Core.Option
use isp_cms_be.Prelude.{
  ℕ, true, Option, none, some, List, if◌then◌else◌, ◌≡◌, refl, ◌∙◌, inl, inr, arith, Bool-cases,
  Option-cases,
}
use isp_cms_be.Prelude.Table.{find, update_where}
use isp_cms_be.Prelude.Table.Laws.{find-update_where}
use isp_cms_be.Store.Rows.{Payout, PayoutStatus}
use isp_cms_be.Store.Monad.{Db, Server}
use isp_cms_be.Resellers.{payout_at, find_payout}
use isp_cms_be.Resellers.PayoutLife.{
  approve, reject, same_status, Decision, decided, transition_matches, with_decision, decide_payout,
  with_disbursement, disburse_payout,
}
use isp_cms_be.Resellers.Payouts.{disburse_payout_cases}

-- The transitions that the payout workflow admits; a payout may also stay as it is.
pub data Legal : PayoutStatus → PayoutStatus → Type 0 where
  stays : (s : PayoutStatus) → Legal s s
  approves : Legal PayoutStatus.requested PayoutStatus.approved
  rejects : Legal PayoutStatus.requested PayoutStatus.rejected
  pays : Legal PayoutStatus.approved PayoutStatus.paid

same_status_sound : (s t : PayoutStatus) → same_status s t ≡ true → s ≡ t
same_status_sound s t h = ground arith

same_status_refl : (s : PayoutStatus) → same_status s s ≡ true
same_status_refl s = ground arith

-- An update by a conditional transition moves a payout by a legal step, and only those that match.
update-Legal :
    (id : ℕ) (from to : PayoutStatus) (f : Payout → Payout) (rows : List Payout)
    → ((p : Payout) → (f p).id ≡ p.id)
    → ((p : Payout) → (f p).status ≡ to)
    → Legal from to
    → (k : ℕ) (p : Payout) → find (payout_at k) rows ≡ some p
    → (q : Payout) × (find (payout_at k) (update_where (transition_matches id from) f rows)
        ≡ some q)
      × Legal p.status q.status
update-Legal id from to f rows keep sets step k p found =
    let moved : find (payout_at k) (update_where (transition_matches id from) f rows)
        ≡ Option.map (λ r. if transition_matches id from r then f r else r)
            (find (payout_at k) rows) =
      find-update_where (payout_at k) (transition_matches id from) f rows (λ r. rw (keep r)) in
    elim (Bool-cases (transition_matches id from p)) [
      | inl hit ↦
          let was : p.status ≡ from = same_status_sound p.status from (ground arith) in
          (f p, moved ∙ rw (found, hit) refl, rw (sets p, was) step)
      | inr miss ↦ (p, moved ∙ rw (found, miss) refl, stays p.status)
    ]

decision-Legal : (decision : Decision) → Legal PayoutStatus.requested (decided decision)
decision-Legal approve = approves
decision-Legal reject = rejects

module _ (srv : Server) (decision : Decision) (id : ℕ) (actor : Option ℕ) (db : Db) where
  refused_same :
      find (transition_matches id PayoutStatus.requested) db.reseller_payouts ≡ none
      → (decide_payout srv decision id actor db).1 ≡ db
  unfolding decide_payout
  refused_same missed = ground arith

  decided_rows :
      (row : Payout)
      → find (transition_matches id PayoutStatus.requested) db.reseller_payouts ≡ some row
      → (decide_payout srv decision id actor db).1.reseller_payouts
        ≡ update_where
            (transition_matches id PayoutStatus.requested)
            (with_decision srv (decided decision) actor)
            db.reseller_payouts
  unfolding decide_payout
  decided_rows row matched = ground arith

  -- Every payout that exists before an approval or a rejection exists after it, and its status is
  -- the same or has moved by a step of the payout workflow.
  pub decide_payout-Legal :
      (k : ℕ) (p : Payout)
      → find_payout k db ≡ some p
      → (q : Payout) × (find_payout k (decide_payout srv decision id actor db).1 ≡ some q)
        × Legal p.status q.status
  decide_payout-Legal k p found =
      elim (Option-cases
        (find (transition_matches id PayoutStatus.requested) db.reseller_payouts)) [
          | inl missed ↦ (p, rw (refused_same missed) found, stays p.status)
          | inr (row, matched) ↦ rw (decided_rows row matched) (
              update-Legal id PayoutStatus.requested (decided decision)
                (with_decision srv (decided decision) actor) db.reseller_payouts (λ _. refl)
                (λ _. refl) (decision-Legal decision) k p found)
        ]

-- Every payout that exists before a disbursement exists after it, and its status is the same or has
-- moved by a step of the payout workflow.
pub disburse_payout-Legal :
    (srv : Server) (id : ℕ) (db : Db) (k : ℕ) (p : Payout)
    → find_payout k db ≡ some p
    → (q : Payout) × (find_payout k (disburse_payout srv id db).1 ≡ some q)
      × Legal p.status q.status
disburse_payout-Legal srv id db k p found =
    disburse_payout_cases srv id db
      (λ o. (q : Payout) × (find_payout k o.1 ≡ some q) × Legal p.status q.status)
      (λ e. (p, found, stays p.status))
      λ payout row r here approved there covered matched.
        update-Legal id PayoutStatus.approved PayoutStatus.paid (with_disbursement srv)
          db.reseller_payouts (λ _. refl) (λ _. refl) pays k p found
