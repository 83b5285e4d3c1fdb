-- ===== src/Topology/Ports.antt =====
-- The ports of a splitter under `planDrop` and `clearPortsFor`.
use isp_cms_be.Prelude.{
  ℕ, suc, ℤ, String, true, false, ◌&&◌, Option, none, some, List, [], ◌∷◌, ◌==◌, ◌≡◌, ◌⊎◌, refl,
  sym, ap, subst, ◌∙◌, inl, inr, arith, Bool-cases, Option-cases,
}
use text.Mathlib.TextPositions.{eq_refl}
use isp_cms_be.Prelude.Table.{find, update_where, count_where, All, Unique}
use isp_cms_be.Prelude.Table.Laws.{find_holds, All-find, update_where_absent}
use isp_cms_be.Prelude.Table.Order.{Found, Unique-Found}
use isp_cms_be.Topology.{
  free_port, is_null, pick_port, bind_port, DropPlan, DropArgs, plan_on, plan_drop, occupied_by,
  clear_ports_for, is_occupied,
}
use isp_cms_be.Store.Plant.{SplitterPort}

-- A port that is taken is the one that its number finds.
picked-Found :
    (n : Option ℕ) (ports : List SplitterPort) (port : SplitterPort)
    → Unique (λ (p : SplitterPort). p.port_no) ports
    → pick_port n ports ≡ some port
    → Found (λ (p : SplitterPort). p.port_no) ports port
unfolding pick_port
picked-Found none ports port u e =
    All-find (Found (λ (p : SplitterPort). p.port_no) ports) (λ p. is_null p.out_node_id) ports
      (Unique-Found (λ (p : SplitterPort). p.port_no) ports u) e
picked-Found (some n) ports port u e =
    All-find (Found (λ (p : SplitterPort). p.port_no) ports)
      (λ p. p.port_no == n && is_null p.out_node_id) ports
      (Unique-Found (λ (p : SplitterPort). p.port_no) ports u) e

module _ (customer_node_id customer_id strand_id : String) where
  -- Binding one port makes one more bound.
  bind-count :
      (ports : List SplitterPort) (port : SplitterPort)
      → Unique (λ (p : SplitterPort). p.port_no) ports
      → Found (λ (p : SplitterPort). p.port_no) ports port
      → is_occupied port ≡ false
      → count_where is_occupied (
          update_where
            (λ (p : SplitterPort). p.port_no == port.port_no)
            (bind_port customer_node_id customer_id strand_id)
            ports)
        ≡ suc (count_where is_occupied ports)
  unfolding count_where update_where find
  bind-count [] port u e free = cc
  bind-count (p ∷ ports) port u e free = elim (Bool-cases (p.port_no == port.port_no)) [
    | inl hit ↦
        let same : p ≡ port = ground arith in
        let rest =
          update_where_absent (λ (q : SplitterPort). q.port_no) port.port_no
            (bind_port customer_node_id customer_id strand_id) ports (ground arith) in
        rw (hit, rest, same, free) (omega arith)
    | inr miss ↦ grind (arith, bind-count ports port u.1 (ground arith) free)
  ]

  clear_none :
      (ports : List SplitterPort)
      → All (λ p. occupied_by customer_id customer_node_id p ≡ false) ports
      → clear_ports_for ports customer_id customer_node_id ≡ ports
  unfolding clear_ports_for update_where
  clear_none [] other = refl
  clear_none (p ∷ ports) other = rw other.0 (ap (λ ps. p ∷ ps) (clear_none ports other.1))

  -- Clearing undoes a binding.
  clear-bind :
      (ports : List SplitterPort) (port : SplitterPort)
      → Unique (λ (p : SplitterPort). p.port_no) ports
      → Found (λ (p : SplitterPort). p.port_no) ports port
      → port ≡ free_port port.port_no
      → All (λ p. occupied_by customer_id customer_node_id p ≡ false) ports
      → clear_ports_for
          (update_where
            (λ (p : SplitterPort). p.port_no == port.port_no)
            (bind_port customer_node_id customer_id strand_id)
            ports)
          customer_id
          customer_node_id
        ≡ ports
  unfolding clear_ports_for update_where find
  clear-bind [] port u e free other = refl
  clear-bind (p ∷ ports) port u e free other = elim (Bool-cases (p.port_no == port.port_no)) [
    | inl hit ↦
        let same : p ≡ port = ground arith in
        let rest =
          update_where_absent (λ (q : SplitterPort). q.port_no) port.port_no
            (bind_port customer_node_id customer_id strand_id) ports (ground arith) in
        rw (hit, rest, eq_refl customer_id)
          (ap
              (λ (q : SplitterPort).
                free_port q.port_no ∷ clear_ports_for ports customer_id customer_node_id)
              same
            ∙ ap (λ (q : SplitterPort). q ∷ clear_ports_for ports customer_id customer_node_id)
                (sym free ∙ sym same)
            ∙ ap (λ ps. p ∷ ps) (clear_none ports other.1))
    | inr miss ↦
        rw (miss, other.0)
          (ap (λ ps. p ∷ ps) (clear-bind ports port u.1 (ground arith) free other.1))
  ]

-- A port that is not bound to a node carries no customer and no strand.
abbrev pub IsVacant : SplitterPort → Type 0
IsVacant p = (is_occupied p ≡ true) ⊎ ((p.customer_id ≡ none) × (p.strand_id ≡ none))

vacant_free : (p : SplitterPort) → IsVacant p → is_occupied p ≡ false → p ≡ free_port p.port_no
vacant_free p (inl bound) h = absurd (ground arith)
vacant_free p (inr empty) h =
    let node : p.out_node_id ≡ none = ground arith in
    λ i. record {
      port_no = p.port_no;
      out_node_id = node i;
      customer_id = empty.0 i;
      strand_id = empty.1 i;
    }

some_inj : (a b : DropPlan) → some a ≡ some b → a ≡ b
some_inj a b e = ap (λ (o : Option DropPlan). elim o [ none ↦ a | some x ↦ x ]) e

picked_free :
    (n : Option ℕ) (ports : List SplitterPort) (port : SplitterPort)
    → pick_port n ports ≡ some port
    → is_occupied port ≡ false
unfolding pick_port
picked_free none ports port e =
    ground (arith, find_holds (λ (p : SplitterPort). is_null p.out_node_id) ports e)
picked_free (some n) ports port e =
    ground
      (arith, find_holds (λ (p : SplitterPort). p.port_no == n && is_null p.out_node_id) ports e)

module _ (segment_meters : ℤ × ℤ → ℤ × ℤ → ℕ) (args : DropArgs) (plan : DropPlan) where
  plan_step :
      plan_drop segment_meters args ≡ some plan
      → (port : SplitterPort) × (pick_port args.port_no args.splitter.ports ≡ some port)
        × (plan_on segment_meters args port ≡ plan)
  unfolding plan_drop
  plan_step e = elim (Option-cases (pick_port args.port_no args.splitter.ports)) [
    | inl full ↦ absurd (ground arith)
    | inr (port, picked) ↦
        (port, picked, some_inj (plan_on segment_meters args port) plan (rw picked at e))
  ]

  -- When the port numbers of the splitter are unique, a drop that is planned binds exactly one port
  -- more, and the core number of the plan is that of a port that was free.
  pub plan_drop-fills :
      Unique (λ (p : SplitterPort). p.port_no) args.splitter.ports
      → plan_drop segment_meters args ≡ some plan
      → (count_where is_occupied plan.ports ≡ suc (count_where is_occupied args.splitter.ports))
        × ((port : SplitterPort) × (find
                (λ (p : SplitterPort). p.port_no == plan.core_no)
                args.splitter.ports
              ≡ some port)
            × (port.out_node_id ≡ none))
  plan_drop-fills u e =
      let (port, picked, same) = plan_step e in
      let there = picked-Found args.port_no args.splitter.ports port u picked in
      let free = picked_free args.port_no args.splitter.ports port picked in
      (
        subst
            (λ (q : DropPlan).
              count_where is_occupied q.ports ≡ suc (count_where is_occupied args.splitter.ports))
            same
            (bind-count args.customer_node_id args.customer_id _ args.splitter.ports port u there
              free),
        (
          port,
          subst
              (λ (q : DropPlan).
                find (λ (p : SplitterPort). p.port_no == q.core_no) args.splitter.ports ≡ some port)
              same there,
          ground arith,
        ),
      )

  -- When the port numbers are unique, the customer holds no port and the unbound ports carry no
  -- customer and no strand, freeing the customer's ports after a planned drop gives the ports from
  -- before the drop.
  pub clear_ports_for-plan_drop :
      Unique (λ (p : SplitterPort). p.port_no) args.splitter.ports
      → All (λ p. occupied_by args.customer_id args.customer_node_id p ≡ false) args.splitter.ports
      → All IsVacant args.splitter.ports
      → plan_drop segment_meters args ≡ some plan
      → clear_ports_for plan.ports args.customer_id args.customer_node_id ≡ args.splitter.ports
  clear_ports_for-plan_drop u other vacant e =
      let (port, picked, same) = plan_step e in
      let there = picked-Found args.port_no args.splitter.ports port u picked in
      let free = picked_free args.port_no args.splitter.ports port picked in
      subst
        (λ (q : DropPlan).
          clear_ports_for q.ports args.customer_id args.customer_node_id ≡ args.splitter.ports)
        same
        (clear-bind args.customer_node_id args.customer_id _ args.splitter.ports port u there
          (vacant_free port
            (All-find IsVacant (λ (p : SplitterPort). p.port_no == port.port_no) args.splitter.ports
              vacant there)
            free)
          other)
