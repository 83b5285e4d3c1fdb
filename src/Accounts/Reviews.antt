-- ===== src/Accounts/Reviews.antt =====
-- The requests of the security page issue no token: all their commands are good where the simple
-- commands are.
use isp_cms_be.Prelude.{ℕ, String, Option, none, some, List, [], ◌∷◌, ◌+◌, if◌then◌else◌}
use isp_cms_be.Prelude.Table.{holds_key}
use isp_cms_be.Accounts.World.{World, SessionId}
use isp_cms_be.Accounts.Program.{done, tell, ◌>>◌}
use isp_cms_be.Accounts.Tokens.{
  find_session, members_of, revoke_script, revoke_session, revoke_each, revoke_other_sessions,
}
use isp_cms_be.Accounts.Security.{
  is_locked, find_state, with_secret, confirmed, cleared, is_enabled, secret_of, non_empty,
  found_or_stale, newest_first, read_sessions, drop_ids, list_sessions,
}
use isp_cms_be.Accounts.TwoFactor.{
  locked_out, wrong_code, not_started, Otp, CodeCheckResult, matched, mismatched, replay,
  security_state, build_state, get_state, begin_enroll, count_mismatch, refused, confirm_checked,
  confirm_enroll, check_sent, decrypted, clear_two_factor, disable_checked, disable_two_factor,
  end_session,
}
use isp_cms_be.Accounts.Rules.{
  Commands, bind-Commands, done-Commands, fail-Commands, command-Commands, if-Commands,
  option-Commands, IsLenient,
}
use isp_cms_be.Accounts.Quiet.{
  ask-Commands, record_failure-Commands, clear_failures-Commands, check_code-Commands,
  set_state-Commands, ensure_row-Commands,
}

module _ {G : (World → World) → World → Type 0} (lenient : IsLenient G) where
  open lenient use {revokes, prunes}

  read_sessions-Commands : (user : ℕ) (ms : List SessionId) → Commands G (read_sessions user ms)
  unfolding read_sessions
  read_sessions-Commands user [] = done-Commands G _
  read_sessions-Commands user (m ∷ ms) =
      bind-Commands G _ _ (ask-Commands lenient (find_session user m.session_id)) (λ found.
        bind-Commands G _ _ (read_sessions-Commands user ms)
          (λ r. done-Commands G (found_or_stale m found r)))

  drop_ids-good : (user : ℕ) (ids : List ℕ) → Commands G (tell (drop_ids user ids))
  drop_ids-good user ids = command-Commands G (drop_ids user ids) (λ w. tt) (λ w. prunes user ids w)

  list_sessions-Commands : (user : ℕ) → Commands G (list_sessions user)
  unfolding list_sessions
  list_sessions-Commands user = bind-Commands G _ _ (ask-Commands lenient (members_of user)) (λ ids.
      bind-Commands G _ _ (read_sessions-Commands user ids)
        (λ r. bind-Commands G _ _ (drop_stale r.1) (λ u. done-Commands G (newest_first r.0))))
    where
      drop_stale :
          (stale : List ℕ)
          → Commands G {A = Unit {0}}
              (elim stale [ [] ↦ done tt | id ∷ ids ↦ tell (drop_ids user (id ∷ ids)) ])
      drop_stale [] = done-Commands G tt
      drop_stale (id ∷ ids) = drop_ids-good user (id ∷ ids)

  build_state-Commands : (user : ℕ) (current : Option ℕ) → Commands G (build_state user current)
  unfolding build_state
  build_state-Commands user current =
      bind-Commands G _ _ (ask-Commands lenient (find_state user)) (λ state.
        bind-Commands G _ _ (list_sessions-Commands user)
          (λ sessions. done-Commands G (security_state state current sessions)))

  pub get_state-Commands : (user : ℕ) (current : Option ℕ) → Commands G (get_state user current)
  unfolding get_state
  get_state-Commands user current =
      bind-Commands G _ _ (ensure_row-Commands lenient user)
        (λ u. build_state-Commands user current)

  revoke_session-Commands : (user id : ℕ) → Commands G (revoke_session user id)
  unfolding revoke_session
  revoke_session-Commands user id =
      command-Commands G (revoke_script user id) _ (λ w. revokes user id w)

  revoke_each-Commands :
      (user : ℕ) (keep : Option ℕ) (ms : List SessionId) → Commands G (revoke_each user keep ms)
  unfolding revoke_each
  revoke_each-Commands user keep [] = done-Commands G 0
  revoke_each-Commands user keep (m ∷ ms) =
      if-Commands G (holds_key keep m.session_id) _ _ (revoke_each-Commands user keep ms) (
        bind-Commands G _ _ (revoke_session-Commands user m.session_id) (λ revoked.
          bind-Commands G _ _ (revoke_each-Commands user keep ms)
            (λ n. done-Commands G ((if revoked then 1 else 0) + n))))

  pub revoke_other_sessions-Commands :
      (user : ℕ) (keep : Option ℕ) → Commands G (revoke_other_sessions user keep)
  unfolding revoke_other_sessions
  revoke_other_sessions-Commands user keep =
      bind-Commands G _ _ (ask-Commands lenient (members_of user)) (revoke_each-Commands user keep)

  pub end_session-Commands : (user id : ℕ) → Commands G (end_session user id)
  unfolding end_session
  end_session-Commands user id =
      bind-Commands G _ _ (revoke_session-Commands user id)
        (λ existed. if-Commands G existed _ _ (done-Commands G tt) (fail-Commands G _ _))

  pub begin_enroll-Commands :
      (otp : Otp) (secret : String) (user : ℕ) → Commands G (begin_enroll otp secret user)
  unfolding begin_enroll
  begin_enroll-Commands otp secret user =
      bind-Commands G _ _ (ensure_row-Commands lenient user) (λ u.
        bind-Commands G _ _ (set_state-Commands lenient user (with_secret (otp.encrypt secret)))
          (λ v. done-Commands G secret))

  count_mismatch-Commands :
      (otp : Otp) (user : ℕ) (r : CodeCheckResult) → Commands G (count_mismatch otp user r)
  count_mismatch-Commands otp user matched = done-Commands G tt
  count_mismatch-Commands otp user mismatched = record_failure-Commands lenient user
  count_mismatch-Commands otp user replay = done-Commands G tt

  refused-Commands :
      (otp : Otp) (user : ℕ) (r : CodeCheckResult)
      → Commands G (count_mismatch otp user r >> refused otp)
  refused-Commands otp user r =
      bind-Commands G _ _ (count_mismatch-Commands otp user r) (λ u. fail-Commands G _ _)

  confirm_checked-Commands :
      (otp : Otp) (user : ℕ) (current : Option ℕ) (r : CodeCheckResult)
      → Commands G (confirm_checked otp user current r)
  unfolding confirm_checked
  confirm_checked-Commands otp user current matched =
      bind-Commands G _ _ (clear_failures-Commands lenient user) (λ u.
        bind-Commands G _ _ (set_state-Commands lenient user confirmed) (λ v.
          bind-Commands G _ _ (revoke_other_sessions-Commands user current)
            (λ n. build_state-Commands user current)))
  confirm_checked-Commands otp user current mismatched = refused-Commands otp user mismatched
  confirm_checked-Commands otp user current replay = refused-Commands otp user replay

  pub confirm_enroll-Commands :
      (otp : Otp) (user : ℕ) (code : String) (current : Option ℕ) (now : ℕ)
      → Commands G (confirm_enroll otp user code current now)
  unfolding confirm_enroll
  confirm_enroll-Commands otp user code current now =
      bind-Commands G _ _ (ensure_row-Commands lenient user) (λ u.
        bind-Commands G _ _ (ask-Commands lenient (find_state user)) (λ state.
          option-Commands G (non_empty (secret_of state)) _ _ (fail-Commands G _ not_started)
            (λ blob. bind-Commands G _ _ (ask-Commands lenient (is_locked user)) (λ is_shut.
              if-Commands G is_shut _ _ (fail-Commands G _ locked_out) (
                option-Commands G (non_empty (otp.decrypt blob)) _ _ (fail-Commands G _ wrong_code)
                  (λ secret.
                    bind-Commands G _ _ (check_code-Commands lenient otp user code secret now)
                      (confirm_checked-Commands otp user current)))))))

  check_sent-Commands :
      (otp : Otp) (user : ℕ) (code secret : Option String) (now : ℕ)
      → Commands G (check_sent otp user code secret now)
  check_sent-Commands otp user none none now = done-Commands G _
  check_sent-Commands otp user none (some s) now = done-Commands G _
  check_sent-Commands otp user (some c) none now = done-Commands G _
  check_sent-Commands otp user (some c) (some s) now = check_code-Commands lenient otp user c s now

  clear_two_factor-Commands :
      (otp : Otp) (user : ℕ) (current : Option ℕ) → Commands G (clear_two_factor otp user current)
  unfolding clear_two_factor
  clear_two_factor-Commands otp user current =
      bind-Commands G _ _ (set_state-Commands lenient user cleared)
        (λ u. build_state-Commands user current)

  disable_checked-Commands :
      (otp : Otp) (user : ℕ) (current : Option ℕ) (r : CodeCheckResult)
      → Commands G (disable_checked otp user current r)
  unfolding disable_checked
  disable_checked-Commands otp user current matched =
      bind-Commands G _ _ (clear_failures-Commands lenient user)
        (λ u. clear_two_factor-Commands otp user current)
  disable_checked-Commands otp user current mismatched = refused-Commands otp user mismatched
  disable_checked-Commands otp user current replay = refused-Commands otp user replay

  pub disable_two_factor-Commands :
      (otp : Otp) (user : ℕ) (code : Option String) (current : Option ℕ) (now : ℕ)
      → Commands G (disable_two_factor otp user code current now)
  unfolding disable_two_factor
  disable_two_factor-Commands otp user code current now =
      bind-Commands G _ _ (ensure_row-Commands lenient user) (λ u.
        bind-Commands G _ _ (ask-Commands lenient (find_state user)) (λ state.
          if-Commands G (is_enabled state) _ _
            (bind-Commands G _ _ (ask-Commands lenient (is_locked user)) (λ is_shut.
              if-Commands G is_shut _ _ (fail-Commands G _ locked_out) (
                bind-Commands G _ _
                  (check_sent-Commands otp user (non_empty code)
                    (decrypted otp (non_empty (secret_of state))) now)
                  (disable_checked-Commands otp user current))))
            (clear_two_factor-Commands otp user current)))
