-- ===== src/Store/Keeps.antt =====
-- What every step of a call keeps, the call keeps, whether it returns or throws.
use isp_cms_be.Prelude.{Bool, true, false, Option, none, some, if◌then◌else◌, ◌≡◌, refl, arith}
use isp_cms_be.Store.Monad.{
  Db, Action, Result, ok, err, Exception, pure, throw, gets, or_throw, throw_if, modify,
  transaction, rollback, ◌>>=◌, ◌>>◌,
}

module _ (P : Db → Type 0) where
  unfoldable pub Keeps : {A : Type 0} → Action A → Type 0
  Keeps m = (d : Db) → P d → P (m d).1

  pub pure-Keeps : {A : Type 0} (a : A) → Keeps (pure a)
  unfolding Keeps
  pure-Keeps a d h = h

  pub throw-Keeps : (A : Type 0) (e : Exception) → Keeps (throw {A = A} e)
  unfolding Keeps
  throw-Keeps A e d h = h

  pub gets-Keeps : {A : Type 0} (f : Db → A) → Keeps (gets f)
  unfolding Keeps
  gets-Keeps f d h = h

  pub or_throw-Keeps : {A : Type 0} (o : Option A) (e : Exception) → Keeps (or_throw o e)
  unfolding Keeps
  or_throw-Keeps none e d h = h
  or_throw-Keeps (some a) e d h = h

  pub throw_if-Keeps : (b : Bool) (e : Exception) → Keeps (throw_if b e)
  unfolding Keeps
  throw_if-Keeps true e d h = h
  throw_if-Keeps false e d h = h

  pub modify-Keeps : (f : Db → Db) → ((d : Db) → P d → P (f d)) → Keeps (modify f)
  unfolding Keeps
  modify-Keeps f keep d h = keep d h

  pub bind-Keeps :
      {A B : Type 0} (m : Action A) (f : A → Action B)
      → Keeps m
      → ((a : A) → Keeps (f a))
      → Keeps (m >>= f)
  unfolding Keeps
  bind-Keeps m f hm hf d h = by_answer (m d) refl (hm d h)
    where
      by_answer : (o : Result _ × Db) → m d ≡ o → P o.1 → P ((m >>= f) d).1
      by_answer (ok a, d') e p =
          rw (let ran : (m >>= f) d ≡ f a d' = ground arith in ran) (hf a d' p)
      by_answer (err x, d') e p = rw (let ran : (m >>= f) d ≡ (err x, d') = ground arith in ran) p

  pub then-Keeps : {A B : Type 0} (m : Action A) (k : Action B) → Keeps m → Keeps k → Keeps (m >> k)
  then-Keeps m k hm hk = bind-Keeps m (λ _. k) hm (λ _. hk)

  pub transaction-Keeps : {A : Type 0} (body : Action A) → Keeps body → Keeps (transaction body)
  unfolding transaction Keeps
  transaction-Keeps {A} body hb d h = by_answer (body d) (hb d h)
    where
      by_answer : (o : Result A × Db) → P o.1 → P (rollback d o).1
      by_answer (ok a, d') p = p
      by_answer (err x, d') p = h

  pub option-Keeps :
      {A B : Type 0} (o : Option A) (n : Action B) (f : A → Action B)
      → Keeps n
      → ((a : A) → Keeps (f a))
      → Keeps (elim o [ none ↦ n | some a ↦ f a ])
  option-Keeps none n f hn hf = hn
  option-Keeps (some a) n f hn hf = hf a

  pub if-Keeps :
      {A : Type 0} (b : Bool) (m n : Action A) → Keeps m → Keeps n → Keeps (if b then m else n)
  if-Keeps true m n hm hn = hm
  if-Keeps false m n hm hn = hn
