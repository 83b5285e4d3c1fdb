-- ===== src/Accounts/Budget.antt =====
-- A resource that is in the store, with a request half-way, or spent by a reply: its amount does not
-- grow, in whatever order the requests' commands run.
use isp_cms_be.Prelude.{ℕ, ◌+◌, ◌≤◌, List, [], ◌∷◌, ◌++◌, ◌≡◌, subst, arith}
use isp_cms_be.Accounts.World.{World}
use isp_cms_be.Accounts.Program.{Program, done, fail, call, ◌>>=◌}
use isp_cms_be.Accounts.Pool.{
  Pool, pending, replied, Step, arrive, act, die, elsewhere, Reach, here, next,
}
use isp_cms_be.Accounts.Rules.{Commands}

module _ {A : Type 0} (stock : World → ℕ) (cost : A → ℕ) where
  -- The command does not add to the stock.
  abbrev pub Spares : (World → World) → World → Type 0
  Spares effect w = stock (effect w) ≤ stock w

  -- The program, which holds `n`, replies for no more than it holds and takes from the store.
  unfoldable pub Pays : ℕ → Program A → Type 0
  Pays n (done a) = cost a ≤ n
  Pays n (fail e) = Unit
  Pays n (call effect k) =
      (w : World) → (m : ℕ) × (m + stock (effect w) ≤ n + stock w) × Pays m (k w)

  -- commands that do not add to the stock, before a program that pays
  pub Commands-Pays :
      {B : Type 0} (n : ℕ) (m : Program B) (f : B → Program A)
      → Commands Spares m
      → ((b : B) → Pays n (f b))
      → Pays n (m >>= f)
  unfolding Commands Pays
  Commands-Pays n (done b) f h rest = rest b
  Commands-Pays n (fail e) f h rest = tt
  Commands-Pays n (call effect k) f h rest =
      λ w. (n, omega (arith, (h w).0), Commands-Pays n (k w) f (h w).1 rest)

  abbrev pub spent : List A → ℕ
  spent [] = 0
  spent (a ∷ rs) = cost a + spent rs

  -- The threads hold `n` in all.
  abbrev Hold : ℕ → List (Program A) → Type 0
  Hold n [] = Unit
  Hold n (p ∷ ps) = (m : ℕ) × ((r : ℕ) × (m + r ≤ n) × Pays m p × Hold r ps)

  Hold-le : (m n : ℕ) (ps : List (Program A)) → m ≤ n → Hold m ps → Hold n ps
  Hold-le m n [] h b = tt
  Hold-le m n (p ∷ ps) h (a, (r, fits, pays, rest)) = (a, (r, omega arith, pays, rest))

  Hold-take :
      (n : ℕ) (xs : List (Program A)) (p : Program A) (ys : List (Program A))
      → Hold n (xs ++ (p ∷ ys))
      → (m : ℕ) × ((r : ℕ) × (m + r ≤ n) × Pays m p × Hold r (xs ++ ys))
  Hold-take n [] p ys h = h
  Hold-take n (x ∷ xs) p ys (a, (r, fits, pays, rest)) =
      let (m, (s, fits', pays', rest')) = Hold-take r xs p ys rest in
      (m, (a + s, omega arith, pays', (a, (s, omega arith, pays, rest'))))

  Hold-put :
      (m r : ℕ) (xs : List (Program A)) (p : Program A) (ys : List (Program A))
      → Pays m p
      → Hold r (xs ++ ys)
      → Hold (m + r) (xs ++ (pending p ++ ys))
  Hold-put m r xs (done a) ys pays h = Hold-le r (m + r) (xs ++ ys) (omega arith) h
  Hold-put m r xs (fail e) ys pays h = Hold-le r (m + r) (xs ++ ys) (omega arith) h
  Hold-put m r [] (call effect k) ys pays h = (m, (r, omega arith, pays, h))
  Hold-put m r (x ∷ xs) (call effect k) ys pays (a, (s, fits, pays', rest)) =
      (a, (m + s, omega arith, pays', Hold-put m s xs (call effect k) ys pays rest))

  -- a program that has replied is over, and one that has not owes nothing yet
  Hold-reply :
      (m r : ℕ) (xs : List (Program A)) (p : Program A) (ys : List (Program A)) (rs : List A)
      → Pays m p
      → Hold r (xs ++ ys)
      → (n : ℕ) × (n + spent (replied p ++ rs) ≤ m + r + spent rs)
        × Hold n (xs ++ (pending p ++ ys))
  unfolding Pays
  Hold-reply m r xs (done a) ys rs pays h = (r, omega arith, h)
  Hold-reply m r xs (fail e) ys rs pays h = (r, omega arith, h)
  Hold-reply m r xs (call effect k) ys rs pays h =
      (m + r, omega arith, Hold-put m r xs (call effect k) ys pays h)

  module _ {R : Type 0} (serve : R → Program A) (Allowed : R → Type 0)
      (Env : World → World → Type 0) (serves : (q : R) → Allowed q → Pays 0 (serve q))
      (env : (w v : World) → Env w v → stock v ≤ stock w) where
    -- The store, the threads and the replies have no more than `b` in all.
    abbrev Within : ℕ → Pool A → Type 0
    Within b s = (n : ℕ) × (n + stock s.world + spent s.replies ≤ b) × Hold n s.threads

    Step-Within : {s t : Pool A} (b : ℕ) → Step serve Allowed Env s t → Within b s → Within b t
    unfolding Pays
    Step-Within b (arrive s q ok) (n, fits, h) = (n, fits, (0, (n, omega arith, serves q ok, h)))
    Step-Within b (act s xs ys effect k e) (n, fits, h) =
        let (m, (r, parts, pays, rest)) = Hold-take n xs (call effect k) ys (subst (Hold n) e h) in
        let (m', taken, pays') = pays s.world in
        let (n', owed, h') = Hold-reply m' r xs (k s.world) ys s.replies pays' rest in
        (n', omega arith, h')
    Step-Within b (die s xs ys p e) (n, fits, h) =
        let (m, (r, parts, pays, rest)) = Hold-take n xs p ys (subst (Hold n) e h) in
        (r, omega arith, rest)
    Step-Within b (elsewhere s w e) (n, fits, h) = (n, omega (arith, env s.world w e), h)

    Reach-Within : {s t : Pool A} (b : ℕ) → Reach serve Allowed Env s t → Within b s → Within b t
    Reach-Within b here h = h
    Reach-Within b (next r st) h = Step-Within b st (Reach-Within b r h)

    -- Started with no request in flight, the replies cost no more than the stock.
    pub Reach-spent :
        {s t : Pool A}
        → Reach serve Allowed Env s t
        → s.threads ≡ []
        → s.replies ≡ []
        → spent t.replies + stock t.world ≤ stock s.world
    Reach-spent {s} {t} r idle silent =
        let start : Within (stock s.world) s = (0, rw silent (omega arith), rw idle tt) in
        let (n, fits, h) = Reach-Within (stock s.world) r start in omega arith
