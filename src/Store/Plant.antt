-- ===== src/Store/Plant.antt =====
-- The rows of the fibre plant: src/infrastructure/database/schema/topology.schema.ts. An id is its
-- text, and a coordinate a whole number of its last decimal.

use isp_cms_be.Prelude.{ℕ, ℤ, String, Option, List}

pub record Point : Type 0 where
  pub id : String
  pub lat : ℤ
  pub lng : ℤ

pub data CableKind : Type 0 where
  feeder distribution drop : CableKind

pub data CableStatus : Type 0 where
  planned installed retired : CableStatus

pub record Cable : Type 0 where
  pub id : String
  pub kind : CableKind
  pub spec : String
  pub fiber_count : ℕ
  pub tube_count : ℕ
  pub from_node_id : String
  pub to_node_id : String
  pub route : List (ℤ × ℤ)
  pub length_m : ℕ
  pub status : CableStatus
  pub installed_at : Option ℕ

pub data StrandStatus : Type 0 where
  allocated reserved dead : StrandStatus

pub record Strand : Type 0 where
  pub id : String
  pub cable_id : String
  pub tube_no : ℕ
  pub core_no : ℕ
  pub status : StrandStatus
  pub circuit_id : Option String
  pub customer_id : Option String

pub data SpliceType : Type 0 where
  fusion mechanical passthrough : SpliceType

-- `loss_db` is in tenths.
pub record Splice : Type 0 where
  pub id : String
  pub closure_id : String
  pub in_cable_id : String
  pub in_tube_no : ℕ
  pub in_core_no : ℕ
  pub out_cable_id : String
  pub out_tube_no : ℕ
  pub out_core_no : ℕ
  pub type : SpliceType
  pub loss_db : ℕ

pub data CircuitStatus : Type 0 where
  active planned down : CircuitStatus

pub record Circuit : Type 0 where
  pub id : String
  pub customer_id : String
  pub customer_node_id : String
  pub olt_node_id : String
  pub olt_pon_port : String
  pub onu_serial : Option String
  pub status : CircuitStatus

pub record SplitterPort : Type 0 where
  pub port_no : ℕ
  pub out_node_id : Option String
  pub customer_id : Option String
  pub strand_id : Option String

pub data SplitterRatio : Type 0 where
  r1_2 r1_4 r1_8 r1_16 r1_32 r1_64 : SplitterRatio

pub record Splitter : Type 0 where
  pub id : String
  pub node_id : String
  pub ratio : SplitterRatio
  pub in_cable_id : Option String
  pub in_strand_id : Option String
  pub ports : List SplitterPort
