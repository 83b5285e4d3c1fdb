-- ===== src/Customers/Lifecycle.antt =====
-- The lifecycle of a subscriber: what the manual verbs keep, whatever the routers answer.
use mathlib.Core.Option
use isp_cms_be.Prelude.{
  ℕ, Bool, true, false, not, ◌&&◌, ◌||◌, Option, none, some, List, if◌then◌else◌, ◌≡◌, refl, sym,
  subst, ◌∙◌, ◌⊎◌, inl, inr, arith, Bool-cases, Option-cases,
}
use isp_cms_be.Prelude.Table.{update_where, All}
use isp_cms_be.Prelude.Table.Laws.{All-update_each, find_holds, find-update_where}
use isp_cms_be.Store.Rows.{Customer, CustomerStatus, HoldReason, Secret}
use isp_cms_be.Store.Monad.{Db, Server, Action, Result, ok, err, Exception, pure, ◌>>=◌, ◌>>◌}
use isp_cms_be.Store.Statements.{customer_at, find_customer}
use isp_cms_be.Secrets.{apply_disabled_for_customer}
use isp_cms_be.Secrets.Switched.{
  is_cut, switched, cut_self, cut_other, apply_disabled_for_customer-tables,
}
use isp_cms_be.Customers.{
  legal_transitions, includes, is_aktif, assert_legal_customer_transition, StatusOptions,
  update_customer, with_status, set_status, enter_status, transition, hold_of,
}

-- A customer has a hold reason exactly while he is `isolir`.
abbrev pub is_held_right : CustomerStatus → Option HoldReason → Bool
is_held_right CustomerStatus.isolir (some _) = true
is_held_right CustomerStatus.isolir none = false
is_held_right _ none = true
is_held_right _ (some _) = false

abbrev pub is_cut_off : CustomerStatus → Bool
is_cut_off CustomerStatus.isolir = true
is_cut_off CustomerStatus.berhenti = true
is_cut_off CustomerStatus.prospek = false
is_cut_off CustomerStatus.instalasi = false
is_cut_off CustomerStatus.aktif = false

-- The hold reason fits the status, and a customer who is suspended or gone has no enabled secret.
abbrev pub is_enforced : List Secret → Customer → Bool
is_enforced secrets c =
    is_held_right c.status c.hold_reason && (not (is_cut_off c.status) || is_cut secrets c.id)

abbrev pub AllEnforced : Db → Type 0
AllEnforced db = All (λ c. is_enforced db.ppp_secrets c ≡ true) db.customers

hold_of-is_held_right :
    (s : CustomerStatus) (reason : Option HoldReason) → is_held_right s (hold_of s reason) ≡ true
hold_of-is_held_right CustomerStatus.prospek reason = refl
hold_of-is_held_right CustomerStatus.instalasi reason = refl
hold_of-is_held_right CustomerStatus.aktif reason = refl
hold_of-is_held_right CustomerStatus.isolir reason = refl
hold_of-is_held_right CustomerStatus.berhenti reason = refl

module _ (srv : Server) (id : ℕ) (secrets : List Secret) where
  -- Another customer's row, when the secrets of `id` are switched.
  pub other_enforced :
      (b : Bool) (c : Customer)
      → customer_at id c ≡ false
      → is_enforced secrets c ≡ true
      → is_enforced (switched srv id b secrets) c ≡ true
  other_enforced b c other h = rw (cut_other srv id c.id b secrets other) h

  entered_enforced :
      (status : CustomerStatus) (opts : StatusOptions) (c : Customer)
      → customer_at id c ≡ true
      → is_enforced
          (switched srv id (not (is_aktif status)) secrets)
          (with_status srv status opts c)
        ≡ true
  entered_enforced CustomerStatus.prospek opts c here = refl
  entered_enforced CustomerStatus.instalasi opts c here = refl
  entered_enforced CustomerStatus.aktif opts c here = refl
  entered_enforced CustomerStatus.isolir opts c here =
      let same : c.id ≡ id = ground arith in rw same (cut_self srv id secrets)
  entered_enforced CustomerStatus.berhenti opts c here =
      let same : c.id ≡ id = ground arith in rw same (cut_self srv id secrets)

module _ (id : ℕ) (db : Db) where
  pub update_customer-found :
      (f : Customer → Customer) (c : Customer)
      → find_customer id db ≡ some c
      → update_customer id f db
        ≡ (ok (f c), record db { customers = update_where (customer_at id) f db.customers })
  unfolding update_customer
  update_customer-found f c found = rw (found, update_customer) refl

-- A second step whose answer is dropped.
pub and_then :
    {A : Type 0} (m : Action A) (n : Action (Unit {0})) {a : A} {db d : Db}
    → m db ≡ (ok a, d)
    → ((do row ← m; n; pure row) db).1 ≡ (n d).1
and_then m n {a} {db} {d} e = ground (arith, dropped (n d) refl)
  where
    dropped : (o : Result (Unit {0}) × Db) → n d ≡ o → ((n >> pure a) d).1 ≡ o.1
    dropped (ok t, d') h = ground arith
    dropped (err x, d') h = ground arith

module _ (push : Secret → Bool → Option Exception) (srv : Server) (id : ℕ) (db : Db) where
  abbrev entered : CustomerStatus → StatusOptions → Db
  entered status opts = record db {
    customers = update_where (customer_at id) (with_status srv status opts) db.customers;
    ppp_secrets = switched srv id (not (is_aktif status)) db.ppp_secrets;
  }

  enter_status-tables :
      (status : CustomerStatus) (opts : StatusOptions) (c : Customer)
      → find_customer id db ≡ some c
      → (enter_status push srv id status opts db).1 ≡ entered status opts
  unfolding enter_status set_status update_customer
  enter_status-tables status opts c found =
      and_then (set_status srv id status opts)
        (apply_disabled_for_customer push srv id (not (is_aktif status)))
        {a = with_status srv status opts c}
        (update_customer-found id db (with_status srv status opts) c found)
      ∙ apply_disabled_for_customer-tables push srv id (not (is_aktif status)) _

  -- The verb is refused and changes nothing, or the pair is legal and it is entered.
  transition-cases :
      (status : CustomerStatus) (opts : StatusOptions)
      → ((transition push srv id status opts db).1 ≡ db)
        ⊎ ((c : Customer) × (find_customer id db ≡ some c)
            × (includes (legal_transitions c.status) status ≡ true)
            × ((transition push srv id status opts db).1 ≡ entered status opts))
  unfolding transition assert_legal_customer_transition
  transition-cases status opts = elim (Option-cases (find_customer id db)) [
    | inl missing ↦ inl (ground arith)
    | inr (c, found) ↦ elim (Bool-cases (includes (legal_transitions c.status) status)) [
      | inl legal ↦
          inr (c, found, legal, rw (found, legal) (enter_status-tables status opts c found))
      | inr illegal ↦ inl (ground arith)
    ]
  ]

  pub transition-AllEnforced :
      (status : CustomerStatus) (opts : StatusOptions)
      → AllEnforced db
      → AllEnforced (transition push srv id status opts db).1
  transition-AllEnforced status opts h = elim (transition-cases status opts) [
    | inl same ↦ subst AllEnforced (sym same) h
    | inr (c, found, legal, done) ↦ subst AllEnforced (sym done) (
        All-update_each (λ r. is_enforced db.ppp_secrets r ≡ true)
          (λ r. is_enforced (entered status opts).ppp_secrets r ≡ true) (customer_at id)
          (with_status srv status opts) db.customers
          (λ r here _. entered_enforced srv id db.ppp_secrets status opts r here)
          (λ r other. other_enforced srv id db.ppp_secrets (not (is_aktif status)) r other) h)
  ]

  entered-row :
      (status : CustomerStatus) (opts : StatusOptions) (k : ℕ)
      → find_customer k (entered status opts)
        ≡ Option.map
            (λ r. if customer_at id r then with_status srv status opts r else r)
            (find_customer k db)
  entered-row status opts k =
      find-update_where (customer_at k) (customer_at id) (with_status srv status opts) db.customers
        (λ _. refl)

  -- Every customer who exists before a lifecycle verb exists after it, and his status is the same
  -- or has moved along a legal transition.
  pub transition-Legal :
      (status : CustomerStatus) (opts : StatusOptions) (k : ℕ) (c : Customer)
      → find_customer k db ≡ some c
      → (c' : Customer) × (find_customer k (transition push srv id status opts db).1 ≡ some c')
        × ((c'.status ≡ c.status) ⊎ (includes (legal_transitions c.status) c'.status ≡ true))
  transition-Legal status opts k c found = elim (transition-cases status opts) [
    | inl same ↦ (c, rw same found, inl refl)
    | inr (read, here, legal, done) ↦ elim (Bool-cases (customer_at id c)) [
      | inl hit ↦
          let same : k ≡ id = ground (arith, find_holds (customer_at k) db.customers found) in
          let row : read ≡ c = cc in
          (
            with_status srv status opts c,
            rw done (entered-row status opts k ∙ rw (found, hit) refl),
            inr (rw (sym row) legal),
          )
      | inr miss ↦ (c, rw done (entered-row status opts k ∙ rw (found, miss) refl), inl refl)
    ]
  ]

  -- No verb changes the row of a customer who has stopped.
  pub transition-stopped :
      (status : CustomerStatus) (opts : StatusOptions) (k : ℕ) (c : Customer)
      → find_customer k db ≡ some c
      → c.status ≡ CustomerStatus.berhenti
      → find_customer k (transition push srv id status opts db).1 ≡ some c
  unfolding includes
  transition-stopped status opts k c found stopped = elim (transition-cases status opts) [
    | inl same ↦ rw same found
    | inr (read, here, legal, done) ↦ elim (Bool-cases (customer_at id c)) [
      | inl hit ↦
          let same : k ≡ id = ground (arith, find_holds (customer_at k) db.customers found) in
          let row : read ≡ c = cc in absurd (ground (arith, row))
      | inr miss ↦ rw done (entered-row status opts k ∙ rw (found, miss) refl)
    ]
  ]
