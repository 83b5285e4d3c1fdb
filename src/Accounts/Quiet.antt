-- ===== src/Accounts/Quiet.antt =====
-- The commands of a two-factor check are good where the simple commands are.
use isp_cms_be.Prelude.{
  ℕ, ℤ, String, Option, none, some, ◌≡◌, refl, ◌==◌, ◌+◌, if◌then◌else◌, arith,
}
use isp_cms_be.Accounts.World.{World, UserSecurity}
use isp_cms_be.Accounts.Program.{command, ask, tell}
use isp_cms_be.Accounts.Security.{
  is_locked, failures, incr, expire, record_failure, clear_failures, record_success, accepts,
  accept_script, accept_step, ensure_row, find_state, set_state, is_enabled, secret_of, non_empty,
}
use isp_cms_be.Accounts.TwoFactor.{
  Otp, matched_step, check_code, CodeCheckResult, matched, mismatched, replay, challenge_checked,
  challenge_enabled, verify_login_challenge, passed, required, invalid, locked,
}
use isp_cms_be.Accounts.Rules.{
  Commands, bind-Commands, done-Commands, command-Commands, if-Commands, option-Commands, IsLenient,
}

module _ {G : (World → World) → World → Type 0} (lenient : IsLenient G) where
  open lenient use {quiet, forgets, leaves, revokes}

  pub quiet-Commands :
      {A : Type 0} (effect : World → World) (reply : World → A)
      → ((w : World) → (effect w).refresh_tokens ≡ w.refresh_tokens)
      → ((w : World) → (effect w).session_index ≡ w.session_index)
      → ((w : World) → (effect w).users ≡ w.users)
      → Commands G (command effect reply)
  quiet-Commands effect reply a b c =
      command-Commands G effect reply (λ w. quiet effect w (a w) (b w) (c w))

  pub ask-Commands : {A : Type 0} (reply : World → A) → Commands G (ask reply)
  ask-Commands reply = quiet-Commands (λ w. w) reply (λ w. refl) (λ w. refl) (λ w. refl)

  -- a command on the tables that the tokens do not depend on
  aside-Commands :
      (effect : World → World)
      → ((w : World) → (effect w).refresh_tokens ≡ w.refresh_tokens)
      → ((w : World) → (effect w).session_index ≡ w.session_index)
      → ((w : World) → (effect w).users ≡ w.users)
      → Commands G (tell effect)
  aside-Commands effect = quiet-Commands effect (λ w. tt)

  pub record_failure-Commands : (user : ℕ) → Commands G (record_failure user)
  unfolding record_failure
  record_failure-Commands user =
      bind-Commands G _ _
        (quiet-Commands (incr user) (λ w. failures user w + 1) (λ w. refl) (λ w. refl) (λ w. refl))
        (λ count.
          if-Commands G (count == 1) _ _
            (aside-Commands (expire user) (λ w. refl) (λ w. refl) (λ w. refl)) (done-Commands G tt))

  pub clear_failures-Commands : (user : ℕ) → Commands G (record_success user)
  clear_failures-Commands user =
      aside-Commands (clear_failures user) (λ w. refl) (λ w. refl) (λ w. refl)

  accept_step-Commands : (user : ℕ) (step : ℤ) → Commands G (accept_step user step)
  unfolding accept_script
  accept_step-Commands user step =
      quiet-Commands (accept_script user step) (accepts user step) (λ w. ground arith)
        (λ w. ground arith) (λ w. ground arith)

  pub set_state-Commands :
      (user : ℕ) (f : UserSecurity → UserSecurity) → Commands G (tell (set_state user f))
  set_state-Commands user f = aside-Commands (set_state user f) (λ w. refl) (λ w. refl) (λ w. refl)

  pub ensure_row-Commands : (user : ℕ) → Commands G (tell (ensure_row user))
  ensure_row-Commands user =
      aside-Commands (ensure_row user) (λ w. ground arith) (λ w. ground arith) (λ w. ground arith)

  pub check_code-Commands :
      (otp : Otp) (user : ℕ) (code secret : String) (now : ℕ)
      → Commands G (check_code otp user code secret now)
  unfolding check_code
  check_code-Commands otp user code secret now =
      option-Commands G (matched_step otp code secret now) _ _ (done-Commands G mismatched) (λ step.
        bind-Commands G _ _ (accept_step-Commands user step)
          (λ accepted. done-Commands G (if accepted then matched else replay)))

  challenge_checked-Commands :
      (otp : Otp) (user : ℕ) (r : CodeCheckResult) → Commands G (challenge_checked otp user r)
  unfolding challenge_checked
  challenge_checked-Commands otp user matched =
      bind-Commands G _ _ (clear_failures-Commands user) (λ u. done-Commands G passed)
  challenge_checked-Commands otp user mismatched =
      bind-Commands G _ _ (record_failure-Commands user) (λ u. done-Commands G invalid)
  challenge_checked-Commands otp user replay = done-Commands G invalid

  challenge_enabled-Commands :
      (otp : Otp) (user : ℕ) (code blob : Option String) (now : ℕ)
      → Commands G (challenge_enabled otp user code blob now)
  unfolding challenge_enabled
  challenge_enabled-Commands otp user none blob now = done-Commands G required
  challenge_enabled-Commands otp user (some code) none now = done-Commands G invalid
  challenge_enabled-Commands otp user (some code) (some blob) now =
      bind-Commands G _ _ (ask-Commands (is_locked user)) (λ is_shut.
        if-Commands G is_shut _ _ (done-Commands G locked) (
          option-Commands G (non_empty (otp.decrypt blob)) _ _ (done-Commands G invalid) (λ secret.
            bind-Commands G _ _ (check_code-Commands otp user code secret now)
              (challenge_checked-Commands otp user))))

  pub verify_login_challenge-Commands :
      (otp : Otp) (user : ℕ) (code : Option String) (now : ℕ)
      → Commands G (verify_login_challenge otp user code now)
  unfolding verify_login_challenge
  verify_login_challenge-Commands otp user code now =
      bind-Commands G _ _ (ask-Commands (find_state user)) (λ state.
        if-Commands G (is_enabled state) _ _
          (challenge_enabled-Commands otp user (non_empty code) (non_empty (secret_of state)) now)
          (done-Commands G passed))
