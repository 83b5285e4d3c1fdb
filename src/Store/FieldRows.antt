-- ===== src/Store/FieldRows.antt =====
-- The rows of the field tables: src/infrastructure/database/schema/inventory.schema.ts,
-- tickets.schema.ts, work-orders.schema.ts, plans.schema.ts, routers.schema.ts and pppoe.schema.ts.
-- A `real` column is its value in thousandths. Left out are the columns that no modelled operation
-- reads and that it only copies (photos, signature and position of a completed order, the network
-- address of a router), and the id of a timeline event, to which nothing refers.
use isp_cms_be.Prelude.{ℕ, ℤ, String, Bool, Option}

pub data InventoryKind : Type 0 where
  onu router mikrotik : InventoryKind

pub data InventoryStatus : Type 0 where
  warehouse installed broken : InventoryStatus

pub data MovementType : Type 0 where
  stocked assign returned broken : MovementType

pub record InventoryItem : Type 0 where
  pub id : ℕ
  pub kind : InventoryKind
  pub serial : String
  pub status : InventoryStatus
  pub assigned_to : Option String
  pub assigned_customer_id : Option ℕ
  pub created_at : ℕ
  pub updated_at : ℕ

pub record StockMovement : Type 0 where
  pub id : ℕ
  pub item_id : ℕ
  pub serial : String
  pub kind : InventoryKind
  pub type : MovementType
  pub note : String
  pub work_order_id : Option ℕ
  pub at : ℕ

pub data TicketStatus : Type 0 where
  opened in_progress resolved breached : TicketStatus

pub data TicketPriority : Type 0 where
  low medium high urgent : TicketPriority

pub data TicketEventKind : Type 0 where
  created comment status assign workorder csat : TicketEventKind

pub data TicketCategory : Type 0 where
  koneksi_putus lambat tagihan perangkat lainnya : TicketCategory

pub record Ticket : Type 0 where
  pub id : ℕ
  pub code : String
  pub subject : String
  pub customer_id : Option ℕ
  pub customer_name : String
  pub priority : TicketPriority
  pub status : TicketStatus
  pub assignee : Option String
  pub sla_due_at : ℕ
  pub category : Option TicketCategory
  pub photo_url : Option String
  pub csat_rating : Option ℕ
  pub csat_comment : Option String
  pub csat_at : Option ℕ
  pub created_at : ℕ
  pub updated_at : ℕ

pub record TicketEvent : Type 0 where
  pub ticket_id : ℕ
  pub kind : TicketEventKind
  pub author : String
  pub body : String
  pub at : ℕ

pub data WorkOrderType : Type 0 where
  install repair dismantle : WorkOrderType

pub data WorkOrderStatus : Type 0 where
  scheduled in_progress done cancelled : WorkOrderStatus

pub record WorkOrder : Type 0 where
  pub id : ℕ
  pub code : String
  pub type : WorkOrderType
  pub customer_id : Option ℕ
  pub customer_name : String
  pub technician : Option String
  pub scheduled_at : ℕ
  pub status : WorkOrderStatus
  pub ticket_id : Option ℕ
  pub scanned_onu_serial : Option String
  pub measured_rx_power : Option ℤ
  pub completion_notes : Option String
  pub completed_at : Option ℕ
  pub completed_by : Option String
  pub created_at : ℕ
  pub updated_at : ℕ

pub record Plan : Type 0 where
  pub id : ℕ
  pub name : String
  pub price_monthly : ℤ

pub record Router : Type 0 where
  pub id : ℕ
  pub name : String
  pub secret_count : ℤ
  pub updated_at : ℕ

pub record Profile : Type 0 where
  pub id : ℕ
  pub router_id : ℕ
  pub name : String
  pub rate_limit : String
  pub is_isolir : Bool
