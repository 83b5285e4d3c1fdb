-- ===== src/Accounts/Revoked.antt =====
-- A session that was revoked does not come back, whatever was in flight at that moment.
use isp_cms_be.Prelude.{
  ℕ, ◌≤◌, Bool, true, false, ◌&&◌, none, List, [], ◌∷◌, ◌≡◌, ◌==◌, inl, inr, arith, Bool-cases,
  Option-cases,
}
use isp_cms_be.Prelude.Table.{find, count_where}
use isp_cms_be.Prelude.Table.Deleted.{
  find-delete_where-none, find-delete_where_other, count-delete_where_le,
}
use isp_cms_be.Accounts.World.{World, RefreshToken, StoredSession, User, token_at, id_at}
use isp_cms_be.Accounts.Tokens.{
  Drawn, drop_token, drop_id, revoke_script, find_session, commit_script, commit_allowed, token_row,
}
use isp_cms_be.Accounts.Security.{drop_ids}
use isp_cms_be.Accounts.TwoFactor.{Otp}
use isp_cms_be.Accounts.Login.{Passwords, create_if_empty}
use isp_cms_be.Accounts.Pool.{
  Request, Reply, login_with, bootstrap_with, refresh_with, logout_with, state_of, enroll, confirm,
  disable, end_one, end_others, serve, Expires, token_out, session_out, index_out, failures_out,
  Pool, Reach,
}
use isp_cms_be.Accounts.Rules.{Commands, IsLenient}
use isp_cms_be.Accounts.Issued.{CommitsFresh, CommitsOf, serve-Commands}
use isp_cms_be.Accounts.Runs.{Kept, Reach-threads, Reach-kept}

abbrev pub of_session : ℕ → ℕ → RefreshToken → Bool
of_session user id t = t.user_id == user && t.session_id == id

-- The session is out of the index, and at most `n` tokens are of it.
pub record IsEnded (user id n : ℕ) (w : World) : Type 0 where
  pub out : find (id_at user id) w.session_index ≡ none
  pub left : count_where (of_session user id) w.refresh_tokens ≤ n

-- The request draws the id of another session.
abbrev pub MintsOther : ℕ → Request → Type 0
MintsOther id (login_with drawn email password code meta) = drawn.session_id == id ≡ false
MintsOther id (bootstrap_with drawn key email password meta) = drawn.session_id == id ≡ false
MintsOther id q = Unit

module _ (user id n : ℕ) where
  drop_ids-IsEnded :
      (u : ℕ) (ids : List ℕ) (w : World)
      → IsEnded user id n w
      → IsEnded user id n (drop_ids u ids w)
  unfolding drop_ids
  drop_ids-IsEnded u [] w h = h
  drop_ids-IsEnded u (j ∷ js) w h = drop_ids-IsEnded u js (drop_id u j w) (record {
    out = find-delete_where-none (id_at user id) (id_at u j) w.session_index h.out;
    left = h.left;
  })

  drop_token-IsEnded :
      (k : ℕ) (w : World) → IsEnded user id n w → IsEnded user id n (drop_token k w)
  drop_token-IsEnded k w h = record {
    out = h.out;
    left =
        omega
          (arith, h.left, count-delete_where_le (of_session user id) (token_at k) w.refresh_tokens);
  }

  drop_id-IsEnded : (u j : ℕ) (w : World) → IsEnded user id n w → IsEnded user id n (drop_id u j w)
  drop_id-IsEnded u j w h = record {
    out = find-delete_where-none (id_at user id) (id_at u j) w.session_index h.out;
    left = h.left;
  }

  revoke_script-IsEnded :
      (u j : ℕ) (w : World) → IsEnded user id n w → IsEnded user id n (revoke_script u j w)
  unfolding revoke_script
  revoke_script-IsEnded u j w h = elim (Option-cases (find_session u j w)) [
    | inl missing ↦ rw (missing, revoke_script) (drop_id-IsEnded u j w h)
    | inr (s, found) ↦
        rw (found, revoke_script)
          (record {
            out = find-delete_where-none (id_at user id) (id_at u j) w.session_index h.out;
            left = (drop_token-IsEnded s.refresh_key w h).left;
          })
  ]

  ended-lenient : IsLenient (Kept (IsEnded user id n))
  ended-lenient = record {
    quiet = λ effect w a b c h. record { out = rw b h.out; left = rw a h.left };
    forgets = drop_token-IsEnded;
    leaves = drop_id-IsEnded;
    revokes = revoke_script-IsEnded;
    prunes = drop_ids-IsEnded;
  }

  -- a commit for another session
  commit_other-IsEnded :
      (require_existing : Bool) (t : RefreshToken) (s : StoredSession) (w : World)
      → of_session user id t ≡ false
      → IsEnded user id n w
      → IsEnded user id n (commit_script require_existing t s w)
  unfolding commit_script find count_where
  commit_other-IsEnded require_existing t s w other h =
      elim (Bool-cases (commit_allowed require_existing t.user_id t.session_id w)) [
        | inr refused ↦ rw (refused, commit_script) h
        | inl allowed ↦
            rw (allowed, commit_script)
              (record {
                out = ground (
                  arith,
                  h.out,
                  find-delete_where_other (id_at user id) (id_at t.user_id t.session_id)
                      w.session_index (λ m p. ground arith),
                );
                left = ground (
                  arith,
                  h.left,
                  count-delete_where_le (of_session user id) (token_at t.key) w.refresh_tokens,
                );
              })
      ]

  pub not_allowed :
      (u j : ℕ) (w : World)
      → find (id_at u j) w.session_index ≡ none
      → commit_allowed true u j w ≡ false
  not_allowed u j w gone = ground arith

  -- a commit that requires the session, for any session
  commit_existing-IsEnded :
      (t : RefreshToken) (s : StoredSession) (w : World)
      → IsEnded user id n w
      → IsEnded user id n (commit_script true t s w)
  unfolding commit_script
  commit_existing-IsEnded t s w h = elim (Bool-cases (of_session user id t)) [
    | inr other ↦ commit_other-IsEnded true t s w other h
    | inl same ↦
        let e : t.user_id ≡ user = ground arith in
        let f : t.session_id ≡ id = ground arith in
        let gone : find (id_at t.user_id t.session_id) w.session_index ≡ none = rw (e, f) h.out in
        rw (not_allowed t.user_id t.session_id w gone, commit_script) h
  ]

  drawn_other :
      (refresh_key : ℕ → ℕ) (ttl : ℕ) (drawn : Drawn) (u : ℕ)
      → drawn.session_id == id ≡ false
      → of_session user id (token_row refresh_key ttl drawn u drawn.session_id) ≡ false
  drawn_other refresh_key ttl drawn u other = ground arith

  commits_fresh :
      (refresh_key : ℕ → ℕ) (ttl : ℕ) (otp : Otp) (passwords : Passwords) (drawn : Drawn)
      → drawn.session_id == id ≡ false
      → CommitsFresh ended-lenient refresh_key ttl otp passwords drawn
  commits_fresh refresh_key ttl otp passwords drawn other u s w =
      commit_other-IsEnded false (token_row refresh_key ttl drawn u drawn.session_id) s w
        (drawn_other refresh_key ttl drawn u other)

  create_if_empty-IsEnded :
      (u : User) (w : World) → IsEnded user id n w → IsEnded user id n (create_if_empty u w)
  unfolding create_if_empty
  create_if_empty-IsEnded u w h = ground arith

  Expires-IsEnded : (w v : World) → Expires w v → IsEnded user id n w → IsEnded user id n v
  Expires-IsEnded w v (token_out _ k) h = drop_token-IsEnded k w h
  Expires-IsEnded w v (session_out _ u j) h = record { out = h.out; left = h.left }
  Expires-IsEnded w v (index_out _ u) h = record {
    out = find-delete_where-none (id_at user id) (λ m. m.user_id == u) w.session_index h.out;
    left = h.left;
  }
  Expires-IsEnded w v (failures_out _ u) h = record { out = h.out; left = h.left }

  module _ (refresh_key : ℕ → ℕ) (ttl : ℕ) (otp : Otp) (passwords : Passwords) where
    commits_of :
        (q : Request) → MintsOther id q → CommitsOf ended-lenient refresh_key ttl otp passwords q
    commits_of (login_with drawn email password code meta) other =
        commits_fresh refresh_key ttl otp passwords drawn other
    commits_of (bootstrap_with drawn key email password meta) other =
        (commits_fresh refresh_key ttl otp passwords drawn other, create_if_empty-IsEnded)
    commits_of (refresh_with drawn raw_token meta) other =
        λ u j s w. commit_existing-IsEnded (token_row refresh_key ttl drawn u j) s w
    commits_of (logout_with raw_token) other = tt
    commits_of (state_of u current) other = tt
    commits_of (enroll secret u) other = tt
    commits_of (confirm u code current now) other = tt
    commits_of (disable u code current now) other = tt
    commits_of (end_one u j) other = tt
    commits_of (end_others u current) other = tt

    serve-kept :
        (q : Request)
        → MintsOther id q
        → Commands (Kept (IsEnded user id n)) (serve refresh_key ttl otp passwords q)
    serve-kept q other =
        serve-Commands ended-lenient refresh_key ttl otp passwords q (commits_of q other)

    -- The session stays ended, with whatever was in flight.
    pub Reach-IsEnded :
        {a b c : Pool Reply} (w : World)
        → Reach (serve refresh_key ttl otp passwords) (MintsOther id) Expires a b
        → a.threads ≡ []
        → Reach
            (serve refresh_key ttl otp passwords)
            (MintsOther id)
            Expires
            (record b { world = w })
            c
        → IsEnded user id n w
        → IsEnded user id n c.world
    Reach-IsEnded w before idle after ended =
        Reach-kept (serve refresh_key ttl otp passwords) (MintsOther id) Expires (IsEnded user id n)
          serve-kept Expires-IsEnded after
          (Reach-threads (serve refresh_key ttl otp passwords) (MintsOther id) Expires
            (IsEnded user id n) serve-kept before (rw idle tt))
          ended
