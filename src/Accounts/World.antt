-- ===== src/Accounts/World.antt =====
-- What the requests of accounts share: the keys of Redis that sessions.service and security.service
-- use, and the tables users and user_security (src/infrastructure/database/schema).
use isp_cms_be.Prelude.{ℕ, ℤ, String, Bool, ◌&&◌, Option, List, ◌∷◌, ◌==◌}
use isp_cms_be.Prelude.Table.{delete_where}

-- `refresh:<hash>` with its `StoredRefreshToken`
pub record RefreshToken : Type 0 where
  pub key : ℕ
  pub user_id : ℕ
  pub session_id : ℕ

-- `session:<userId>:<id>` with its `StoredSession`
pub record StoredSession : Type 0 where
  pub user_id : ℕ
  pub id : ℕ
  pub created_at : ℕ
  pub last_used_at : ℕ
  pub user_agent : String
  pub ip : String
  pub refresh_key : ℕ

-- one id of the set `sessions:<userId>`
pub record SessionId : Type 0 where
  pub user_id : ℕ
  pub session_id : ℕ

-- `totp:lockout:<userId>`; `expires` when a TTL is set
pub record FailureCount : Type 0 where
  pub user_id : ℕ
  pub count : ℕ
  pub expires : Bool

-- `totp:replay:<userId>`
pub record AcceptedStep : Type 0 where
  pub user_id : ℕ
  pub step : ℤ

-- the columns of `user_security` that are read
pub record UserSecurity : Type 0 where
  pub user_id : ℕ
  pub two_factor_enabled : Bool
  pub two_factor_secret : Option String

pub data Role : Type 0 where
  admin staff customer teknisi mitra : Role

-- the columns of `users` that are read
pub record User : Type 0 where
  pub id : ℕ
  pub email : String
  pub password_hash : String
  pub role : Role
  pub deleted : Bool

pub record World : Type 0 where
  pub refresh_tokens : List RefreshToken
  pub stored_sessions : List StoredSession
  pub session_index : List SessionId
  pub failure_counts : List FailureCount
  pub accepted_steps : List AcceptedStep
  pub user_security : List UserSecurity
  pub users : List User

-- `SET key value`: a key has one value.
abbrev pub put {ℓ} : {A : Type ℓ} → (A → Bool) → A → List A → List A
put p row rows = row ∷ delete_where p rows

abbrev pub token_at : ℕ → RefreshToken → Bool
token_at k t = t.key == k

abbrev pub session_at : ℕ → ℕ → StoredSession → Bool
session_at user id s = s.user_id == user && s.id == id

abbrev pub id_at : ℕ → ℕ → SessionId → Bool
id_at user id m = m.user_id == user && m.session_id == id

abbrev pub failures_of : ℕ → FailureCount → Bool
failures_of user c = c.user_id == user

abbrev pub step_of : ℕ → AcceptedStep → Bool
step_of user s = s.user_id == user

abbrev pub security_of : ℕ → UserSecurity → Bool
security_of user s = s.user_id == user
