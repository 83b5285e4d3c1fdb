-- ===== src/Topology.antt =====
-- The capacity planners of the fibre plant: src/modules/topology/topology.allocator.ts, ratioCount
-- and fiberId (topology.graph.ts). The planners are pure. They only copy a coordinate and hand it to
-- `segmentMeters`, which is a formula on floats and comes as an argument.
pub mod Ports
pub mod Resized
pub mod Uplink
use mathlib.Core.Option
use isp_cms_be.Prelude.{
  ℕ, zero, suc, ◌+◌, ◌-◌, ◌/◌, ◌%◌, ℤ, String, Bool, true, false, not, ◌&&◌, ◌||◌, Option, none,
  some, List, [], ◌∷◌, ◌++◌, ltb, ◌==◌, if◌then◌else◌,
}
use text.Mathlib.Text.{◌==◌ as str_eq}
use Prim.Native.String.{◌++◌ as str_append}
use isp_cms_be.Prelude.Table.{find, update_where, count_where}
use isp_cms_be.Store.Plant.{
  Cable, CableKind, CableStatus, Circuit, CircuitStatus, Point, Splice, SpliceType, Splitter,
  SplitterPort, SplitterRatio, Strand, StrandStatus,
}

-- `ratioCount` on the six ratios of the column
unfoldable pub ratio_count : SplitterRatio → ℕ
ratio_count SplitterRatio.r1_2 = 2
ratio_count SplitterRatio.r1_4 = 4
ratio_count SplitterRatio.r1_8 = 8
ratio_count SplitterRatio.r1_16 = 16
ratio_count SplitterRatio.r1_32 = 32
ratio_count SplitterRatio.r1_64 = 64

abbrev pub free_port : ℕ → SplitterPort
free_port port_no = record {
  port_no = port_no;
  out_node_id = none;
  customer_id = none;
  strand_id = none;
}

-- `n` free ports that are numbered from `start + 1`; `makePorts` starts at 0
unfoldable pub make_ports : ℕ → ℕ → List SplitterPort
make_ports start zero = []
make_ports start (suc n) = free_port (suc start) ∷ make_ports (suc start) n

abbrev pub is_null {ℓ} : {A : Type ℓ} → Option A → Bool
is_null none = true
is_null (some _) = false

-- `column === text`
abbrev pub holds_text : Option String → String → Bool
holds_text none text = false
holds_text (some t) text = str_eq t text

abbrev pub get_text : String → Option String → String
get_text d none = d
get_text d (some t) = t

-- the port that `planDrop` takes
unfoldable pub pick_port : Option ℕ → List SplitterPort → Option SplitterPort
pick_port none ports = find (λ (p : SplitterPort). is_null p.out_node_id) ports
pick_port (some n) ports =
    find (λ (p : SplitterPort). p.port_no == n && is_null p.out_node_id) ports

-- what `planDrop` binds the chosen port to
abbrev pub bind_port : String → String → String → SplitterPort → SplitterPort
bind_port customer_node_id customer_id strand_id p = record {
  port_no = p.port_no;
  out_node_id = some customer_node_id;
  customer_id = some customer_id;
  strand_id = some strand_id;
}

pub record DropPlan : Type 0 where
  pub core_no : ℕ
  pub cable : Cable
  pub strand : Strand
  pub splice : Splice
  pub circuit : Circuit
  pub ports : List SplitterPort

pub record DropArgs : Type 0 where
  pub splitter : Splitter
  pub odp : Point
  pub olt_node_id : String
  pub customer_id : String
  pub customer_node_id : String
  pub customer_lat : ℤ
  pub customer_lng : ℤ
  pub pon_port : Option String
  pub onu_serial : Option String
  pub port_no : Option ℕ

-- `dropSplice`; a core number is at least 1
abbrev pub drop_splice : String → Strand → Splice
drop_splice odp_id strand = record {
  id = str_append strand.id "-splice";
  closure_id = str_append odp_id "-closure";
  in_cable_id = str_append odp_id "-feeder";
  in_tube_no = 1;
  in_core_no = (strand.core_no - 1) % 12 + 1;
  out_cable_id = strand.cable_id;
  out_tube_no = strand.tube_no;
  out_core_no = strand.core_no;
  type = SpliceType.fusion;
  loss_db = 1;
}

abbrev pub drop_strand : DropArgs → SplitterPort → Strand
drop_strand args port = record {
  id = str_append args.customer_node_id "-strand";
  cable_id = str_append args.customer_node_id "-drop";
  tube_no = 1;
  core_no = port.port_no;
  status = StrandStatus.allocated;
  circuit_id = some (str_append args.customer_id "-circuit");
  customer_id = some args.customer_id;
}

abbrev pub drop_circuit : DropArgs → Circuit
drop_circuit args = record {
  id = str_append args.customer_id "-circuit";
  customer_id = args.customer_id;
  customer_node_id = args.customer_node_id;
  olt_node_id = args.olt_node_id;
  olt_pon_port = get_text "0/0/0" args.pon_port;
  onu_serial = args.onu_serial;
  status = CircuitStatus.active;
}

module _ (segment_meters : ℤ × ℤ → ℤ × ℤ → ℕ) where
  -- `dropCable`
  abbrev pub drop_cable : Point → Point → String → Bool → Cable
  drop_cable source target id is_planned = record {
    id = id;
    kind = CableKind.drop;
    spec = "G.652D 12F drop";
    fiber_count = 12;
    tube_count = 1;
    from_node_id = source.id;
    to_node_id = target.id;
    route = (source.lat, source.lng) ∷ (target.lat, target.lng) ∷ [];
    length_m = segment_meters (source.lat, source.lng) (target.lat, target.lng);
    status = if is_planned then CableStatus.planned else CableStatus.installed;
    installed_at = none;
  }

  -- `planDrop` once the port is chosen
  abbrev pub plan_on : DropArgs → SplitterPort → DropPlan
  plan_on args port = record {
    core_no = port.port_no;
    cable =
        drop_cable args.odp
          (record { id = args.customer_node_id; lat = args.customer_lat; lng = args.customer_lng })
          (str_append args.customer_node_id "-drop") false;
    strand = drop_strand args port;
    splice = drop_splice args.odp.id (drop_strand args port);
    circuit = drop_circuit args;
    ports =
        update_where (λ (p : SplitterPort). p.port_no == port.port_no)
          (bind_port args.customer_node_id args.customer_id
            (str_append args.customer_node_id "-strand"))
          args.splitter.ports;
  }

  -- `planDrop`
  unfoldable pub plan_drop : DropArgs → Option DropPlan
  plan_drop args = Option.map (plan_on args) (pick_port args.port_no args.splitter.ports)

abbrev pub occupied_by : String → String → SplitterPort → Bool
occupied_by customer_id customer_node_id p =
    holds_text p.customer_id customer_id || holds_text p.out_node_id customer_node_id

-- `clearPortsFor`
unfoldable pub clear_ports_for : List SplitterPort → String → String → List SplitterPort
clear_ports_for ports customer_id customer_node_id =
    update_where (occupied_by customer_id customer_node_id) (λ p. free_port p.port_no) ports

unfoldable pub length {ℓ} : {A : Type ℓ} → List A → ℕ
length [] = 0
length (x ∷ xs) = suc (length xs)

unfoldable pub take {ℓ} : {A : Type ℓ} → ℕ → List A → List A
take zero xs = []
take (suc n) [] = []
take (suc n) (x ∷ xs) = x ∷ take n xs

unfoldable pub skip {ℓ} : {A : Type ℓ} → ℕ → List A → List A
skip zero xs = xs
skip (suc n) [] = []
skip (suc n) (x ∷ xs) = skip n xs

abbrev pub is_occupied : SplitterPort → Bool
is_occupied p = not (is_null p.out_node_id)

-- the ports of `planSplitterRatio` at the new size, none when a bound port would be lost
unfoldable pub resize_ports : ℕ → List SplitterPort → Option (List SplitterPort)
resize_ports new_size ports =
    if ltb new_size (length ports)
    then (elim (find is_occupied (skip new_size ports)) [
      | some _ ↦ none
      | none ↦ some (take new_size ports)
    ])
    else some (ports ++ make_ports (length ports) (new_size - length ports))

-- `planSplitterRatio`
unfoldable pub plan_splitter_ratio : Option Splitter → String → SplitterRatio → Option Splitter
unfolding resize_ports make_ports
plan_splitter_ratio none node_id ratio = some (record {
  id = str_append node_id "-splitter";
  node_id = node_id;
  ratio = ratio;
  in_cable_id = none;
  in_strand_id = none;
  ports = make_ports 0 (ratio_count ratio);
})
plan_splitter_ratio (some s) node_id ratio =
    Option.map
      (λ ports. record {
        id = s.id;
        node_id = node_id;
        ratio = ratio;
        in_cable_id = s.in_cable_id;
        in_strand_id = s.in_strand_id;
        ports = ports;
      })
      (resize_ports (ratio_count ratio) s.ports)
