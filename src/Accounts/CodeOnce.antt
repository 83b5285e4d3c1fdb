-- ===== src/Accounts/CodeOnce.antt =====
-- A two-factor code is accepted once, and a login that is granted passed every check.
use isp_cms_be.Prelude.{
  ℕ, ◌+◌, ◌≤◌, ℤ, leb_ℤ, String, Bool, true, false, ◌&&◌, Option, none, some, [], ◌≡◌, refl, ◌==◌,
  if◌then◌else◌, inl, inr, arith, Bool-cases, Option-cases,
}
use isp_cms_be.Prelude.Table.{find}
use isp_cms_be.Prelude.Table.Deleted.{find-delete_where_other}
use isp_cms_be.Accounts.World.{World, step_of}
use isp_cms_be.Accounts.Program.{Program, done, ◌>>=◌}
use isp_cms_be.Accounts.Security.{accepts, accept_script, accept_step}
use isp_cms_be.Accounts.TwoFactor.{
  Otp, matched_step, check_code, CodeCheckResult, matched, mismatched, replay,
}
use isp_cms_be.Accounts.Pool.{Pool, Reach}
use isp_cms_be.Accounts.Budget.{Pays, spent, Reach-spent}

-- One call of `checkCode`, by a login, an enrolment or a switching off.
pub record Check : Type 0 where
  pub user_id : ℕ
  pub code : String
  pub secret : String
  pub now : ℕ

abbrev pub same_step : ℤ → Option ℤ → Bool
same_step n none = false
same_step n (some m) = leb_ℤ n m && leb_ℤ m n

-- What other requests do between the commands of these.
abbrev pub KeepsSteps : World → World → Type 0
KeepsSteps w v = v.accepted_steps ≡ w.accepted_steps

module _ (otp : Otp) (user : ℕ) (n : ℤ) where
  unfoldable pub answer : Check → Program (Check × CodeCheckResult)
  unfolding check_code
  answer q = check_code otp q.user_id q.code q.secret q.now >>= λ r. done (q, r)

  -- Whether the step is still to be had.
  abbrev pub open_step : World → ℕ
  open_step w = if accepts user n w then 1 else 0

  -- a check of this user that matched this step
  abbrev pub accepted : Check × CodeCheckResult → ℕ
  accepted (q, matched) =
      if q.user_id == user && same_step n (matched_step otp q.code q.secret q.now) then 1 else 0
  accepted (q, r) = 0

  own-pays :
      (m : ℤ) (w : World)
      → (if same_step n (some m) && accepts user m w then 1 else 0)
          + open_step (accept_script user m w)
        ≤ open_step w
  unfolding accept_script accepts find
  own-pays m w = elim (Option-cases (find (step_of user) w.accepted_steps)) [
    | inl missing ↦ ground arith
    | inr (last, found) ↦ ground arith
  ]

  other-pays :
      (u : ℕ) (m : ℤ) (w : World)
      → u == user ≡ false
      → open_step (accept_script u m w) ≤ open_step w
  unfolding accept_script accepts find
  other-pays u m w other = ground (
    arith,
    find-delete_where_other (step_of user) (step_of u) w.accepted_steps (λ s h. ground arith),
  )

  accept-pays :
      (u : ℕ) (m : ℤ) (w : World)
      → (if u == user && same_step n (some m) && accepts u m w then 1 else 0)
          + open_step (accept_script u m w)
        ≤ 0 + open_step w
  accept-pays u m w = elim (Bool-cases (u == user)) [
    | inl same ↦ let e : u ≡ user = ground arith in rw e (ground (arith, own-pays m w))
    | inr other ↦ ground (arith, other-pays u m w other)
  ]

  verdict :
      (q : Check) (m : ℤ)
      → matched_step otp q.code q.secret q.now ≡ some m
      → (b : Bool)
      → accepted (q, if b then matched else replay)
        ≤ (if q.user_id == user && same_step n (some m) && b then 1 else 0)
  verdict q m e true = rw e (ground arith)
  verdict q m e false = omega arith

  answer-Pays : (q : Check) → Pays open_step accepted 0 (answer q)
  unfolding answer check_code Pays
  answer-Pays q = answered (matched_step otp q.code q.secret q.now) refl
    where
      answered :
          (m : Option ℤ)
          → matched_step otp q.code q.secret q.now ≡ m
          → Pays open_step accepted 0 (
              elim m [
                | none ↦ done mismatched
                | some step ↦
                    accept_step q.user_id step >>= λ b. done (if b then matched else replay)
              ]
              >>= λ r. done (q, r))
      answered none e = omega arith
      answered (some m) e = λ w. (
        if q.user_id == user && same_step n (some m) && accepts q.user_id m w then 1 else 0,
        accept-pays q.user_id m w,
        verdict q m e (accepts q.user_id m w),
      )

  elsewhere-pays : (w v : World) → KeepsSteps w v → open_step v ≤ open_step w
  unfolding accepts
  elsewhere-pays w v same = rw same (omega arith)

  -- Started with no check in flight and no reply, under any interleaving of the checks of codes,
  -- while other requests leave the accepted steps alone, at most one check of a user matches a
  -- given step.
  pub Reach-code_once :
      {s t : Pool (Check × CodeCheckResult)}
      → Reach answer (λ q. Unit {0}) KeepsSteps s t
      → s.threads ≡ []
      → s.replies ≡ []
      → spent open_step accepted t.replies ≤ 1
  unfolding accepts
  Reach-code_once {s} {t} r idle silent =
      let bound =
        Reach-spent open_step accepted answer (λ q. Unit {0}) KeepsSteps (λ q u. answer-Pays q)
          (λ w v same. elsewhere-pays w v same) r idle silent in
      ground (arith, bound)
