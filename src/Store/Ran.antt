-- ===== src/Store/Ran.antt =====
-- A call that returned, step by step.
use isp_cms_be.Prelude.{Option, none, some, ◌≡◌, refl, arith}
use isp_cms_be.Store.Monad.{Db, Action, Result, ok, err, Exception, or_throw, ◌>>=◌}

module _ {A : Type 0} where
  pub or_throw-ran :
      (o : Option A) (e : Exception) (d d' : Db) (a : A)
      → or_throw o e d ≡ (ok a, d')
      → (o ≡ some a) × (d ≡ d')
  or_throw-ran none e d d' a h = absurd (cc)
  or_throw-ran (some b) e d d' a h = ground arith

  pub bind-ran :
      {B : Type 0} (m : Action A) (f : A → Action B) (d d' : Db) (b : B)
      → (m >>= f) d ≡ (ok b, d')
      → (a : A) × ((e : Db) × (m d ≡ (ok a, e)) × (f a e ≡ (ok b, d')))
  bind-ran m f d d' b h = by_answer (m d) refl
    where
      by_answer :
          (o : Result A × Db)
          → m d ≡ o
          → (a : A) × ((e : Db) × (m d ≡ (ok a, e)) × (f a e ≡ (ok b, d')))
      by_answer (ok a, e) ran = (a, (e, ran, ground arith))
      by_answer (err x, e) ran = absurd (ground arith)
