-- ===== src/Witnesses/Plant.antt =====
-- Runs of the theorems on splitter ports.
use isp_cms_be.Prelude.{ℕ, suc, ℤ, pos, none, some, [], ◌∷◌, ◌==◌, ◌≡◌, refl, inl, inr, List}
use isp_cms_be.Prelude.Table.{find, count_where}
use isp_cms_be.Topology.{
  free_port, pick_port, DropPlan, DropArgs, plan_on, plan_drop, clear_ports_for, is_occupied,
}
use isp_cms_be.Store.Plant.{SplitterPort, SplitterRatio, Splitter}
use isp_cms_be.Topology.Uplink.{TopoNode, NodeType, uplink_path, uplink_path-some}
use isp_cms_be.Topology.Ports.{plan_drop-fills, clear_ports_for-plan_drop}

abbrev taken : SplitterPort
taken = record {
  port_no = 1;
  out_node_id = some "c1-node";
  customer_id = some "c1";
  strand_id = some "c1-node-strand";
}

abbrev splitter : Splitter
splitter = record {
  id = "odp-1-splitter";
  node_id = "odp-1";
  ratio = SplitterRatio.r1_4;
  in_cable_id = none;
  in_strand_id = none;
  ports = taken ∷ free_port 2 ∷ free_port 3 ∷ free_port 4 ∷ [];
}

abbrev args : DropArgs
args = record {
  splitter = splitter;
  odp = record { id = "odp-1"; lat = pos 1; lng = pos 1 };
  olt_node_id = "olt-1";
  customer_id = "c2";
  customer_node_id = "c2-node";
  customer_lat = pos 2;
  customer_lng = pos 2;
  pon_port = none;
  onu_serial = none;
  port_no = none;
}

abbrev no_meters : ℤ × ℤ → ℤ × ℤ → ℕ
no_meters a b = 0

abbrev plan : DropPlan
plan = plan_on no_meters args (free_port 2)

abbrev halved : Splitter
halved = record splitter { ratio = SplitterRatio.r1_2; ports = taken ∷ free_port 2 ∷ [] }

plan_drop-fills_example :
    (count_where is_occupied plan.ports ≡ suc (count_where is_occupied splitter.ports))
    × ((port : SplitterPort) × (find (λ (p : SplitterPort). p.port_no == 2) splitter.ports
          ≡ some port)
        × (port.out_node_id ≡ none))
unfolding find plan_drop pick_port
plan_drop-fills_example =
    plan_drop-fills no_meters args plan (refl, (refl, (refl, (refl, tt)))) refl

clear_ports_for-plan_drop_example : clear_ports_for plan.ports "c2" "c2-node" ≡ splitter.ports
unfolding find plan_drop pick_port
clear_ports_for-plan_drop_example =
    clear_ports_for-plan_drop no_meters args plan (refl, (refl, (refl, (refl, tt))))
      (refl, (refl, (refl, (refl, tt))))
      (inl refl, (inr (refl, refl), (inr (refl, refl), (inr (refl, refl), tt)))) refl

-- Two nodes whose parent links form a cycle.
abbrev ring : List TopoNode
ring =
    record { id = 1; type = NodeType.odp; parent_id = some 2 }
    ∷ record { id = 2; type = NodeType.odc; parent_id = some 1 }
    ∷ []

abbrev leaf : TopoNode
leaf = record { id = 3; type = NodeType.customer; parent_id = some 1 }

uplink_path-some_example : (path : List TopoNode) × (uplink_path leaf ring ≡ some (leaf ∷ path))
uplink_path-some_example = uplink_path-some leaf ring
