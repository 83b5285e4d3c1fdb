-- ===== src/Topology/Resized.antt =====
-- The ports of a splitter that is resized (`planSplitterRatio`).
use isp_cms_be.Prelude.{
  ℕ, zero, suc, ◌+◌, ◌-◌, ◌≤◌, String, none, some, List, [], ◌∷◌, ◌++◌, ltb, if◌then◌else◌, ◌≡◌,
  refl, ap, subst, ◌∙◌, inl, inr, arith, Bool-cases, Option-cases,
}
use isp_cms_be.Prelude.Table.{find, count_where}
use isp_cms_be.Topology.{
  ratio_count, make_ports, length, take, skip, is_occupied, resize_ports, plan_splitter_ratio,
}
use isp_cms_be.Store.Plant.{SplitterPort, SplitterRatio, Splitter}

make_ports-length : (start n : ℕ) → length (make_ports start n) ≡ n
unfolding length make_ports
make_ports-length start zero = refl
make_ports-length start (suc n) = ap suc (make_ports-length (suc start) n)

make_ports-free : (start n : ℕ) → count_where is_occupied (make_ports start n) ≡ 0
unfolding count_where make_ports
make_ports-free start zero = refl
make_ports-free start (suc n) = omega (arith, make_ports-free (suc start) n)

append-length : (xs ys : List SplitterPort) → length (xs ++ ys) ≡ length xs + length ys
unfolding length
append-length [] ys = omega arith
append-length (x ∷ xs) ys = omega (arith, append-length xs ys)

append-count :
    (xs ys : List SplitterPort)
    → count_where is_occupied (xs ++ ys) ≡ count_where is_occupied xs + count_where is_occupied ys
unfolding count_where
append-count [] ys = omega arith
append-count (x ∷ xs) ys = omega (arith, append-count xs ys)

take-length : (n : ℕ) (xs : List SplitterPort) → n ≤ length xs → length (take n xs) ≡ n
unfolding length take
take-length zero xs h = refl
take-length (suc n) [] h = absurd (omega arith)
take-length (suc n) (x ∷ xs) h = ap suc (take-length n xs (omega arith))

-- Nothing bound in the rest, so all that is bound is in the front.
take-count :
    (n : ℕ) (xs : List SplitterPort)
    → find is_occupied (skip n xs) ≡ none
    → count_where is_occupied (take n xs) ≡ count_where is_occupied xs
unfolding count_where find take skip
take-count zero [] h = refl
take-count zero (x ∷ xs) h = ground (arith, take-count zero xs)
take-count (suc n) [] h = refl
take-count (suc n) (x ∷ xs) h = ap (λ c. (if is_occupied x then 1 else 0) + c) (take-count n xs h)

resize_ports-keeps :
    (n : ℕ) (ports ports' : List SplitterPort)
    → resize_ports n ports ≡ some ports'
    → (length ports' ≡ n) × (count_where is_occupied ports' ≡ count_where is_occupied ports)
unfolding resize_ports
resize_ports-keeps n ports ports' e = elim (Bool-cases (ltb n (length ports))) [
  | inl shrinks ↦ elim (Option-cases (find is_occupied (skip n ports))) [
    | inl free ↦
        let same : take n ports ≡ ports' = ground arith in
        subst (λ ps. (length ps ≡ n) × (count_where is_occupied ps ≡ count_where is_occupied ports))
          same (take-length n ports (ground arith), take-count n ports free)
    | inr (p, bound) ↦ absurd (ground arith)
  ]
  | inr grows ↦
      let same : ports ++ make_ports (length ports) (n - length ports) ≡ ports' = ground arith in
      subst (λ ps. (length ps ≡ n) × (count_where is_occupied ps ≡ count_where is_occupied ports))
        same
        (
          append-length ports _ ∙ ap (λ m. length ports + m) (make_ports-length _ _) ∙ ground arith,
          append-count ports _
              ∙ ap (λ m. count_where is_occupied ports + m) (make_ports-free _ _)
              ∙ omega arith,
        )
]

-- A splitter that is resized has as many ports as its new ratio says, and as many bound ports as
-- before.
pub plan_splitter_ratio-keeps :
    (s s' : Splitter) (node_id : String) (ratio : SplitterRatio)
    → plan_splitter_ratio (some s) node_id ratio ≡ some s'
    → (length s'.ports ≡ ratio_count ratio)
      × (count_where is_occupied s'.ports ≡ count_where is_occupied s.ports)
unfolding plan_splitter_ratio
plan_splitter_ratio-keeps s s' node_id ratio e =
    elim (Option-cases (resize_ports (ratio_count ratio) s.ports)) [
      | inl refused ↦ absurd (ground arith)
      | inr (ports, made) ↦
          let same : ports ≡ s'.ports = ground arith in
          subst
            (λ ps.
              (length ps ≡ ratio_count ratio)
              × (count_where is_occupied ps ≡ count_where is_occupied s.ports))
            same (resize_ports-keeps (ratio_count ratio) s.ports ports made)
    ]
