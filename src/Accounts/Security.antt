-- ===== src/Accounts/Security.antt =====
-- What SecurityService stands on: the lockout and the replay guard in Redis, the two-factor state in
-- user_security (src/modules/security), and the list of sessions.
use mathlib.Core.List.{reverse}
use isp_cms_be.Prelude.{
  ℕ, ◌+◌, ℤ, leb, leb_ℤ, String, Bool, true, false, Option, none, some, List, [], ◌∷◌, ◌==◌,
  if◌then◌else◌,
}
use isp_cms_be.Prelude.Table.{find, update_where, delete_where, order_by}
use isp_cms_be.Accounts.World.{
  World, StoredSession, SessionId, UserSecurity, put, failures_of, step_of, security_of,
}
use isp_cms_be.Accounts.Program.{Program, done, command, ask, tell, ◌>>=◌, ◌>>◌}
use isp_cms_be.Accounts.Tokens.{find_session, members_of, drop_id}

-- MAX_ATTEMPTS
abbrev pub max_attempts : ℕ
max_attempts = 5

abbrev pub failures : ℕ → World → ℕ
failures user w = elim (find (failures_of user) w.failure_counts) [ none ↦ 0 | some c ↦ c.count ]

-- `isLocked`
abbrev pub is_locked : ℕ → World → Bool
is_locked user w = leb max_attempts (failures user w)

-- `INCR`: a key that it makes has no TTL, and one that is there keeps its own.
abbrev pub expires_of : ℕ → World → Bool
expires_of user w = elim (find (failures_of user) w.failure_counts) [
  | none ↦ false
  | some c ↦ c.expires
]

abbrev pub incr : ℕ → World → World
incr user w = record w {
  failure_counts =
      put (failures_of user)
        (record { user_id = user; count = failures user w + 1; expires = expires_of user w })
        w.failure_counts;
}

-- `EXPIRE`
abbrev pub expire : ℕ → World → World
expire user w = record w {
  failure_counts =
      update_where (failures_of user) (λ c. record c { expires = true }) w.failure_counts;
}

-- `recordFailure`
unfoldable pub record_failure : ℕ → Program (Unit {0})
record_failure user = do
  count ← command (incr user) (λ w. failures user w + 1)
  if count == 1 then tell (expire user) else done tt

-- `recordSuccess`
abbrev pub clear_failures : ℕ → World → World
clear_failures user w = record w {
  failure_counts = delete_where (failures_of user) w.failure_counts;
}

abbrev pub record_success : ℕ → Program (Unit {0})
record_success user = tell (clear_failures user)

-- ACCEPT_STEP_SCRIPT: its answer, and what it writes
unfoldable pub accepts : ℕ → ℤ → World → Bool
accepts user step w = elim (find (step_of user) w.accepted_steps) [
  | none ↦ true
  | some last ↦ if leb_ℤ step last.step then false else true
]

unfoldable pub accept_script : ℕ → ℤ → World → World
unfolding accepts
accept_script user step w =
    if accepts user step w
    then record w {
      accepted_steps = put (step_of user) (record { user_id = user; step = step }) w.accepted_steps;
    }
    else w

-- `acceptStep`
abbrev pub accept_step : ℕ → ℤ → Program Bool
accept_step user step = command (accept_script user step) (accepts user step)

-- `ensureState`
abbrev pub ensure_row : ℕ → World → World
ensure_row user w = elim (find (security_of user) w.user_security) [
  | some _ ↦ w
  | none ↦ record w {
    user_security =
        record { user_id = user; two_factor_enabled = false; two_factor_secret = none }
        ∷ w.user_security;
  }
]

-- `findState`
abbrev pub find_state : ℕ → World → Option UserSecurity
find_state user w = find (security_of user) w.user_security

abbrev pub set_state : ℕ → (UserSecurity → UserSecurity) → World → World
set_state user f w = record w { user_security = update_where (security_of user) f w.user_security }

-- the sets of `saveTwoFactorSecret`, `confirmTwoFactor` and `clearTwoFactor`
abbrev pub with_secret : String → UserSecurity → UserSecurity
with_secret secret s = record s { two_factor_secret = some secret; two_factor_enabled = false }

abbrev pub confirmed : UserSecurity → UserSecurity
confirmed s = record s { two_factor_enabled = true }

abbrev pub cleared : UserSecurity → UserSecurity
cleared s = record s { two_factor_secret = none; two_factor_enabled = false }

abbrev pub is_enabled : Option UserSecurity → Bool
is_enabled none = false
is_enabled (some s) = s.two_factor_enabled

abbrev pub secret_of : Option UserSecurity → Option String
secret_of none = none
secret_of (some s) = s.two_factor_secret

-- A text that counts as true: it is there, and not empty.
abbrev pub non_empty : Option String → Option String
non_empty none = none
non_empty (some String.[]) = none
non_empty (some (String.◌∷◌ c s)) = some (String.◌∷◌ c s)

-- the answer of `listSessions` for one id
pub record SessionSummary : Type 0 where
  pub id : ℕ
  pub created_at : ℕ
  pub last_used_at : ℕ
  pub user_agent : String
  pub ip : String

abbrev pub summary_of : StoredSession → SessionSummary
summary_of s = record {
  id = s.id;
  created_at = s.created_at;
  last_used_at = s.last_used_at;
  user_agent = s.user_agent;
  ip = s.ip;
}

-- A session that is found adds to the summaries, an id that has none to the stale ids.
abbrev pub found_or_stale :
    SessionId → Option StoredSession → List SessionSummary × List ℕ → List SessionSummary × List ℕ
found_or_stale m none (summaries, stale) = (summaries, m.session_id ∷ stale)
found_or_stale m (some s) (summaries, stale) = (summary_of s ∷ summaries, stale)

-- the loop of `listSessions`: the summaries, and the stale ids
unfoldable pub read_sessions : ℕ → List SessionId → Program (List SessionSummary × List ℕ)
read_sessions user [] = done ([], [])
read_sessions user (m ∷ ms) =
    let rest = read_sessions user ms in
    ask (find_session user m.session_id) >>= λ found. rest >>= λ r. done (found_or_stale m found r)

-- `SREM` of several ids
unfoldable pub drop_ids : ℕ → List ℕ → World → World
drop_ids user [] w = w
drop_ids user (id ∷ ids) w = drop_ids user ids (drop_id user id w)

-- `sort` by the last use, which is stable
abbrev pub newest_first : List SessionSummary → List SessionSummary
newest_first summaries = reverse (order_by (λ s. s.last_used_at) (reverse summaries))

-- `listSessions`
unfoldable pub list_sessions : ℕ → Program (List SessionSummary)
unfolding read_sessions drop_ids
list_sessions user = do
  ids ← ask (members_of user)
  (summaries, stale) ← read_sessions user ids
  elim stale [ [] ↦ done tt | id ∷ ids ↦ tell (drop_ids user (id ∷ ids)) ]
  done (newest_first summaries)
