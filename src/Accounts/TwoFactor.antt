-- ===== src/Accounts/TwoFactor.antt =====
-- SecurityService (src/modules/security/security.service.ts): two-factor codes at login and at
-- enrolment, and the sessions that a user reviews and revokes.
use isp_cms_be.Prelude.{
  ℕ, ◌*◌, ◌/◌, ℤ, pos, ◌+ℤ◌, String, Bool, Option, none, some, List, map, if◌then◌else◌,
}
use isp_cms_be.Prelude.Table.{holds_key}
use isp_cms_be.Store.Monad.{Exception, bad_request, not_found, unauthorized}
use isp_cms_be.Accounts.World.{UserSecurity}
use isp_cms_be.Accounts.Program.{Program, done, fail, ask, tell, ◌>>=◌, ◌>>◌}
use isp_cms_be.Accounts.Tokens.{revoke_session, revoke_other_sessions}
use isp_cms_be.Accounts.Security.{
  is_locked, record_failure, record_success, accept_step, ensure_row, find_state, set_state,
  with_secret, confirmed, cleared, is_enabled, secret_of, non_empty, SessionSummary, list_sessions,
}

-- What otplib and the cipher compute: the step that a code matches, relative to the clock; the length
-- of a step in seconds; the encryption of a secret and its inverse, null on a blob that does not
-- decrypt.
pub record Otp : Type 0 where
  pub check_delta : String → String → ℕ → Option ℤ
  pub step : ℕ
  pub encrypt : String → String
  pub decrypt : String → Option String

pub data LoginChallengeResult : Type 0 where
  passed required invalid locked : LoginChallengeResult

pub data CodeCheckResult : Type 0 where
  matched mismatched replay : CodeCheckResult

-- `SecuritySessionResponse`
pub record SessionResponse : Type 0 where
  pub id : ℕ
  pub device : String
  pub ip : String
  pub last_active_at : ℕ
  pub current : Bool

abbrev pub to_session_response : Option ℕ → SessionSummary → SessionResponse
to_session_response current s = record {
  id = s.id;
  device = s.user_agent;
  ip = s.ip;
  last_active_at = s.last_used_at;
  current = holds_key current s.id;
}

-- `SecurityStateResponse`
pub record SecurityState : Type 0 where
  pub two_factor_enabled : Bool
  pub sessions : List SessionResponse

abbrev pub security_state : Option UserSecurity → Option ℕ → List SessionSummary → SecurityState
security_state state current sessions = record {
  two_factor_enabled = is_enabled state;
  sessions = map (to_session_response current) sessions;
}

-- `buildState`
unfoldable pub build_state : ℕ → Option ℕ → Program SecurityState
unfolding list_sessions
build_state user current = do
  state ← ask (find_state user)
  sessions ← list_sessions user
  done (security_state state current sessions)

-- `getState`
unfoldable pub get_state : ℕ → Option ℕ → Program SecurityState
unfolding build_state
get_state user current = do tell (ensure_row user); build_state user current

abbrev pub locked_out : Exception
locked_out = unauthorized "too many failed two-factor attempts — try again later"

abbrev pub wrong_code : Exception
wrong_code = unauthorized "invalid two-factor authentication code"

abbrev pub not_started : Exception
not_started = bad_request "two-factor enrollment was not started"

module _ (otp : Otp) where
  -- the step that a code matches at a time
  abbrev pub step_at : ℕ → ℤ → ℤ
  step_at now delta = pos (now / (otp.step * 1000)) +ℤ delta

  abbrev pub matched_step : String → String → ℕ → Option ℤ
  matched_step code secret now = elim (otp.check_delta code secret now) [
    | none ↦ none
    | some delta ↦ some (step_at now delta)
  ]

  -- `checkCode`
  unfoldable pub check_code : ℕ → String → String → ℕ → Program CodeCheckResult
  check_code user code secret now = elim (matched_step code secret now) [
    | none ↦ done mismatched
    | some step ↦ accept_step user step >>= λ accepted. done (if accepted then matched else replay)
  ]

  -- `beginEnroll`; the secret is what otplib generated
  unfoldable pub begin_enroll : String → ℕ → Program String
  begin_enroll secret user = do
    tell (ensure_row user)
    tell (set_state user (with_secret (otp.encrypt secret)))
    done secret

  -- the secret of a row, where it is there and decrypts
  abbrev pub decrypted : Option String → Option String
  decrypted none = none
  decrypted (some blob) = non_empty (otp.decrypt blob)

  -- A wrong code counts as a failure, a replay does not.
  abbrev pub count_mismatch : ℕ → CodeCheckResult → Program (Unit {0})
  count_mismatch user mismatched = record_failure user
  count_mismatch user _ = done tt

  abbrev pub refused : Program SecurityState
  refused = fail wrong_code

  -- `confirmEnroll` on a code that was checked
  unfoldable pub confirm_checked : ℕ → Option ℕ → CodeCheckResult → Program SecurityState
  unfolding record_failure build_state
  confirm_checked user current matched = do
    record_success user
    tell (set_state user confirmed)
    revoke_other_sessions user current
    build_state user current
  confirm_checked user current r = count_mismatch user r >> refused

  -- `confirmEnroll`
  unfoldable pub confirm_enroll : ℕ → String → Option ℕ → ℕ → Program SecurityState
  unfolding confirm_checked check_code
  confirm_enroll user code current now = do
    tell (ensure_row user)
    state ← ask (find_state user)
    elim (non_empty (secret_of state)) [
      | none ↦ fail not_started
      | some blob ↦ do
        is_shut ← ask (is_locked user)
        if is_shut then fail locked_out else (elim (non_empty (otp.decrypt blob)) [
          | none ↦ refused
          | some secret ↦ check_code user code secret now >>= confirm_checked user current
        ])
    ]

  -- the check of `disableTwoFactor`: a code that is missing, or a secret that is, does not match
  abbrev pub check_sent : ℕ → Option String → Option String → ℕ → Program CodeCheckResult
  check_sent user (some code) (some secret) now = check_code user code secret now
  check_sent user _ _ now = done mismatched

  -- `disableTwoFactor` from `clearTwoFactor` on
  unfoldable pub clear_two_factor : ℕ → Option ℕ → Program SecurityState
  unfolding build_state
  clear_two_factor user current = do tell (set_state user cleared); build_state user current

  unfoldable pub disable_checked : ℕ → Option ℕ → CodeCheckResult → Program SecurityState
  unfolding record_failure clear_two_factor
  disable_checked user current matched = do record_success user; clear_two_factor user current
  disable_checked user current r = count_mismatch user r >> refused

  -- `disableTwoFactor`
  unfoldable pub disable_two_factor : ℕ → Option String → Option ℕ → ℕ → Program SecurityState
  unfolding disable_checked clear_two_factor check_code
  disable_two_factor user code current now = do
    tell (ensure_row user)
    state ← ask (find_state user)
    if is_enabled state
        then (ask (is_locked user) >>= λ is_shut.
            if is_shut
            then fail locked_out
            else (check_sent user (non_empty code) (decrypted (non_empty (secret_of state))) now
                >>= disable_checked user current))
        else clear_two_factor user current

  -- `verifyLoginChallenge` on a code that was checked
  unfoldable pub challenge_checked : ℕ → CodeCheckResult → Program LoginChallengeResult
  unfolding record_failure
  challenge_checked user matched = do record_success user; done passed
  challenge_checked user mismatched = do record_failure user; done invalid
  challenge_checked user replay = done invalid

  -- `verifyLoginChallenge` where two-factor login is on
  unfoldable pub challenge_enabled :
      ℕ → Option String → Option String → ℕ → Program LoginChallengeResult
  unfolding challenge_checked check_code
  challenge_enabled user none blob now = done required
  challenge_enabled user (some code) none now = done invalid
  challenge_enabled user (some code) (some blob) now = do
    is_shut ← ask (is_locked user)
    if is_shut then done locked else (elim (non_empty (otp.decrypt blob)) [
      | none ↦ done invalid
      | some secret ↦ check_code user code secret now >>= challenge_checked user
    ])

  -- `verifyLoginChallenge`
  unfoldable pub verify_login_challenge : ℕ → Option String → ℕ → Program LoginChallengeResult
  unfolding challenge_enabled
  verify_login_challenge user code now = do
    state ← ask (find_state user)
    if is_enabled state
        then challenge_enabled user (non_empty code) (non_empty (secret_of state)) now
        else done passed

-- SecurityService.revokeSession
unfoldable pub end_session : ℕ → ℕ → Program (Unit {0})
end_session user id = do
  existed ← revoke_session user id
  if existed then done tt else fail (not_found "session not found")
