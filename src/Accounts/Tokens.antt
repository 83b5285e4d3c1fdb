-- ===== src/Accounts/Tokens.antt =====
-- RefreshTokenService (src/modules/sessions/refresh-token.service.ts). `refresh_key` is the key of a
-- raw token, from its sha256; `ttl` is the configured lifetime. That a key runs out is a step of the
-- store (Accounts/Pool).
use isp_cms_be.Prelude.{
  ℕ, ◌+◌, String, Bool, true, false, not, ◌||◌, Option, none, some, List, [], ◌∷◌, ◌==◌,
  if◌then◌else◌, given,
}
use isp_cms_be.Prelude.Table.{find, select_where, delete_where, holds_key}
use isp_cms_be.Store.Monad.{unauthorized, internal}
use isp_cms_be.Accounts.World.{
  World, RefreshToken, StoredSession, SessionId, put, token_at, session_at, id_at,
}
use isp_cms_be.Accounts.Program.{Program, done, fail, command, ask, tell, ◌>>=◌, ◌>>◌}

-- What a request draws: `randomBytes`, `randomUUID()` and the clock.
pub record Drawn : Type 0 where
  pub token : ℕ
  pub session_id : ℕ
  pub now : ℕ

-- `Partial<SessionMeta>`
pub record SessionMeta : Type 0 where
  pub user_agent : Option String
  pub ip : Option String

-- `MintedRefreshToken`
pub record Minted : Type 0 where
  pub token : ℕ
  pub expires_in_seconds : ℕ
  pub session_id : ℕ

-- the answer of `rotate`
pub record Rotated : Type 0 where
  pub user_id : ℕ
  pub session_id : ℕ
  pub refresh : Minted

-- `SISMEMBER`
abbrev pub is_member : ℕ → ℕ → World → Bool
is_member user id w = elim (find (id_at user id) w.session_index) [ none ↦ false | some _ ↦ true ]

-- `SADD`
abbrev pub add_id : ℕ → ℕ → List SessionId → List SessionId
add_id user id = put (id_at user id) (record { user_id = user; session_id = id })

-- REVOKE_SCRIPT: its answer, and what it writes
abbrev pub find_session : ℕ → ℕ → World → Option StoredSession
find_session user id w = find (session_at user id) w.stored_sessions

abbrev pub drop_id : ℕ → ℕ → World → World
drop_id user id w = record w { session_index = delete_where (id_at user id) w.session_index }

abbrev pub drop_session : ℕ → ℕ → World → World
drop_session user id w = record w {
  stored_sessions = delete_where (session_at user id) w.stored_sessions;
}

abbrev pub drop_token : ℕ → World → World
drop_token k w = record w { refresh_tokens = delete_where (token_at k) w.refresh_tokens }

unfoldable pub revoke_script : ℕ → ℕ → World → World
revoke_script user id w = elim (find_session user id w) [
  | none ↦ drop_id user id w
  | some s ↦ drop_id user id (drop_session user id (drop_token s.refresh_key w))
]

-- COMMIT_SCRIPT: whether the guard lets it write, and what it writes
abbrev pub commit_allowed : Bool → ℕ → ℕ → World → Bool
commit_allowed require_existing user id w = not require_existing || is_member user id w

unfoldable pub commit_script : Bool → RefreshToken → StoredSession → World → World
commit_script require_existing t s w =
    if commit_allowed require_existing t.user_id t.session_id w
    then record w {
      refresh_tokens = put (token_at t.key) t w.refresh_tokens;
      stored_sessions = put (session_at s.user_id s.id) s w.stored_sessions;
      session_index = add_id t.user_id t.session_id w.session_index;
    }
    else w

-- `a ?? b ?? c`
abbrev pub first_of {ℓ} : {A : Type ℓ} → Option A → Option A → A → A
first_of a b c = given (given c b) a

abbrev pub created_at_or : ℕ → Option StoredSession → ℕ
created_at_or now none = now
created_at_or now (some s) = s.created_at

abbrev pub user_agent_of : Option StoredSession → Option String
user_agent_of none = none
user_agent_of (some s) = some s.user_agent

abbrev pub ip_of : Option StoredSession → Option String
ip_of none = none
ip_of (some s) = some s.ip

-- `revoke` from `forgetSession` on
unfoldable pub end_token : RefreshToken → Program (Option ℕ)
end_token t = do
  tell (drop_session t.user_id t.session_id)
  tell (drop_id t.user_id t.session_id)
  done (some t.user_id)

unfoldable pub end_stored : Option RefreshToken → Program (Option ℕ)
unfolding end_token
end_stored none = done none
end_stored (some t) = end_token t

module _ (refresh_key : ℕ → ℕ) (ttl : ℕ) where
  -- the record of `commitMint`
  abbrev pub session_record : Drawn → ℕ → ℕ → SessionMeta → Option StoredSession → StoredSession
  session_record drawn user id meta existing = record {
    user_id = user;
    id = id;
    created_at = created_at_or drawn.now existing;
    last_used_at = drawn.now;
    user_agent = first_of meta.user_agent (user_agent_of existing) "unknown";
    ip = first_of meta.ip (ip_of existing) "unknown";
    refresh_key = refresh_key drawn.token;
  }

  abbrev pub token_row : Drawn → ℕ → ℕ → RefreshToken
  token_row drawn user id = record {
    key = refresh_key drawn.token;
    user_id = user;
    session_id = id;
  }

  abbrev pub minted_of : Drawn → ℕ → Minted
  minted_of drawn id = record { token = drawn.token; expires_in_seconds = ttl; session_id = id }

  -- `commitMint`
  unfoldable pub commit_mint : Drawn → ℕ → ℕ → Bool → SessionMeta → Program (Option Minted)
  unfolding commit_script
  commit_mint drawn user id require_existing meta = do
    existing ← ask (find_session user id)
    written ←
        command
          (commit_script require_existing (token_row drawn user id)
            (session_record drawn user id meta existing))
          (commit_allowed require_existing user id)
    done (if written then some (minted_of drawn id) else none)

  -- `mint`
  unfoldable pub mint : Drawn → ℕ → SessionMeta → Program Minted
  unfolding commit_mint
  mint drawn user meta = do
    minted ← commit_mint drawn user drawn.session_id false meta
    elim minted [
      | none ↦ fail (internal "failed to mint a new session — this should never happen")
      | some m ↦ done m
    ]

  -- `GETDEL`
  abbrev pub getdel : ℕ → Program (Option RefreshToken)
  getdel k = command (drop_token k) (λ w. find (token_at k) w.refresh_tokens)

  -- `rotate` once the token is consumed
  unfoldable pub rotate_token : Drawn → RefreshToken → SessionMeta → Program Rotated
  unfolding commit_mint
  rotate_token drawn t meta = do
    minted ← commit_mint drawn t.user_id t.session_id true meta
    elim minted [
      | none ↦ fail (unauthorized "invalid refresh token")
      | some m ↦ done (record { user_id = t.user_id; session_id = t.session_id; refresh = m })
    ]

  unfoldable pub rotate_stored : Drawn → SessionMeta → Option RefreshToken → Program Rotated
  unfolding rotate_token
  rotate_stored drawn meta none = fail (unauthorized "invalid refresh token")
  rotate_stored drawn meta (some t) = rotate_token drawn t meta

  -- `rotate`
  unfoldable pub rotate : Drawn → ℕ → SessionMeta → Program Rotated
  unfolding rotate_stored
  rotate drawn raw_token meta = do
    stored ← getdel (refresh_key raw_token)
    rotate_stored drawn meta stored

  -- `revoke`: the user whose token it was
  unfoldable pub revoke : ℕ → Program (Option ℕ)
  unfolding end_stored
  revoke raw_token = do stored ← getdel (refresh_key raw_token); end_stored stored

-- `revokeSession`
unfoldable pub revoke_session : ℕ → ℕ → Program Bool
unfolding revoke_script
revoke_session user id =
    command (revoke_script user id)
      (λ w. elim (find_session user id w) [ none ↦ false | some _ ↦ true ])

-- `SMEMBERS`
abbrev pub members_of : ℕ → World → List SessionId
members_of user w = select_where (λ m. m.user_id == user) w.session_index

-- the loop of `revokeOtherSessions`
unfoldable pub revoke_each : ℕ → Option ℕ → List SessionId → Program ℕ
unfolding revoke_session
revoke_each user keep [] = done 0
revoke_each user keep (m ∷ ms) =
    let rest = revoke_each user keep ms in
    if holds_key keep m.session_id
    then rest
    else (revoke_session user m.session_id >>= λ revoked.
        rest >>= λ n. done ((if revoked then 1 else 0) + n))

-- `revokeOtherSessions`
unfoldable pub revoke_other_sessions : ℕ → Option ℕ → Program ℕ
unfolding revoke_each
revoke_other_sessions user keep = do ids ← ask (members_of user); revoke_each user keep ids
