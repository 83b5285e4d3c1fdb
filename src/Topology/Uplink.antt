-- ===== src/Topology/Uplink.antt =====
-- The walk from a node up to the OLT (src/modules/topology/topology.graph.ts). `parentId` links may
-- form a cycle, which the walk breaks off.
use mathlib.Core.Option
use isp_cms_be.Prelude.{
  ℕ, suc, zero, ◌≤◌, ◌<◌, Bool, true, false, not, Option, none, some, List, [], ◌∷◌, ◌==◌, ◌≡◌,
  refl, sym, subst, inl, inr, arith, Bool-cases, Option-cases,
}
use isp_cms_be.Prelude.Table.{find, count_where, in_array}
use isp_cms_be.Prelude.Table.Laws.{find_holds}
use isp_cms_be.Topology.{length}

pub data NodeType : Type 0 where
  olt odc odp pole customer : NodeType

-- the fields of `TopoNode` that the walk reads; an id is a number, since it is only compared
pub record TopoNode : Type 0 where
  pub id : ℕ
  pub type : NodeType
  pub parent_id : Option ℕ

abbrev pub node_at : ℕ → TopoNode → Bool
node_at k n = n.id == k

-- The loop of `uplinkPath` from `current` on: what it pushes; `none` when the fuel runs out.
unfoldable pub climb : ℕ → List TopoNode → List ℕ → TopoNode → Option (List TopoNode)
climb zero nodes seen current = none
climb (suc fuel) nodes seen current = elim current.parent_id [
  | none ↦ some []
  | some p ↦ elim (find (node_at p) nodes) [
    | none ↦ some []
    | some parent ↦ elim (in_array seen parent.id) [
      | true ↦ some []
      | false ↦ Option.map (λ path. parent ∷ path) (climb fuel nodes (parent.id ∷ seen) parent)
    ]
  ]
]

-- `uplinkPath`, on one more fuel than there are nodes
unfoldable pub uplink_path : TopoNode → List TopoNode → Option (List TopoNode)
unfolding climb
uplink_path start nodes =
    Option.map (λ path. start ∷ path) (climb (suc (length nodes)) nodes (start.id ∷ []) start)

abbrev pub is_odp : NodeType → Bool
is_odp NodeType.odp = true
is_odp NodeType.olt = false
is_odp NodeType.odc = false
is_odp NodeType.pole = false
is_odp NodeType.customer = false

abbrev pub is_olt : NodeType → Bool
is_olt NodeType.olt = true
is_olt NodeType.odp = false
is_olt NodeType.odc = false
is_olt NodeType.pole = false
is_olt NodeType.customer = false

abbrev pub first_of : (TopoNode → Bool) → Option (List TopoNode) → Option TopoNode
first_of p none = none
first_of p (some path) = find p path

-- `servingOdp`
unfoldable pub serving_odp : TopoNode → List TopoNode → Option TopoNode
unfolding uplink_path
serving_odp node nodes = first_of (λ (n : TopoNode). is_odp n.type) (uplink_path node nodes)

-- `oltOf`
unfoldable pub olt_of : TopoNode → List TopoNode → Option TopoNode
unfolding uplink_path
olt_of node nodes = first_of (λ (n : TopoNode). is_olt n.type) (uplink_path node nodes)

-- The nodes that the walk has not seen.
abbrev unseen : List ℕ → List TopoNode → ℕ
unseen seen nodes = count_where (λ (n : TopoNode). not (in_array seen n.id)) nodes

unseen_fewer :
    (k : ℕ) (seen : List ℕ) (nodes : List TopoNode) → unseen (k ∷ seen) nodes ≤ unseen seen nodes
unfolding count_where in_array
unseen_fewer k seen [] = omega arith
unseen_fewer k seen (n ∷ nodes) = ground (arith, unseen_fewer k seen nodes)

unseen_drops :
    (k : ℕ) (seen : List ℕ) (nodes : List TopoNode) {n : TopoNode}
    → find (node_at k) nodes ≡ some n
    → in_array seen k ≡ false
    → unseen (k ∷ seen) nodes < unseen seen nodes
unfolding count_where in_array find
unseen_drops k seen [] e new = absurd (cc)
unseen_drops k seen (m ∷ nodes) {n} e new = elim (Bool-cases (node_at k m)) [
  | inl hit ↦
      let same : m.id ≡ k = ground arith in
      rw (same, new) (ground (arith, unseen_fewer k seen nodes))
  | inr miss ↦ ground (
    arith,
    unseen_drops k seen nodes {n = n}
        (let there : find (node_at k) nodes ≡ some n = ground arith in there) new,
  )
]

unseen-le-length : (seen : List ℕ) (nodes : List TopoNode) → unseen seen nodes ≤ length nodes
unfolding count_where length
unseen-le-length seen [] = omega arith
unseen-le-length seen (n ∷ nodes) = ground (arith, unseen-le-length seen nodes)

climb_ends :
    (fuel : ℕ) (nodes : List TopoNode) (seen : List ℕ) (current : TopoNode)
    → unseen seen nodes < fuel
    → (path : List TopoNode) × (climb fuel nodes seen current ≡ some path)
unfolding climb
climb_ends zero nodes seen current h = absurd (omega arith)
climb_ends (suc fuel) nodes seen current h = elim (Option-cases current.parent_id) [
  | inl root ↦ ([], rw (root, climb) refl)
  | inr (p, up) ↦ elim (Option-cases (find (node_at p) nodes)) [
    | inl dangling ↦ ([], rw (up, dangling, climb) refl)
    | inr (parent, found) ↦ elim (Bool-cases (in_array seen parent.id)) [
      | inl again ↦ ([], rw (up, found, again, climb) refl)
      | inr new ↦
          let same : parent.id ≡ p = ground (arith, find_holds (node_at p) nodes found) in
          let there : find (node_at parent.id) nodes ≡ some parent =
            subst (λ k. find (node_at k) nodes ≡ some parent) (sym same) found in
          let (path, rest) =
            climb_ends fuel nodes (parent.id ∷ seen) parent
              (omega (arith, unseen_drops parent.id seen nodes there new)) in
          (parent ∷ path, rw (up, found, new, climb, rest) refl)
    ]
  ]
]

-- On one more fuel than there are nodes the walk up from any node ends, also when the parent links
-- form a cycle, with a path that begins at the node.
pub uplink_path-some :
    (start : TopoNode) (nodes : List TopoNode)
    → (path : List TopoNode) × (uplink_path start nodes ≡ some (start ∷ path))
unfolding uplink_path
uplink_path-some start nodes =
    let (path, done) =
      climb_ends (suc (length nodes)) nodes (start.id ∷ []) start
        (omega (arith, unseen-le-length (start.id ∷ []) nodes)) in
    (path, rw done refl)
