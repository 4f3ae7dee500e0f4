-- ===== src/Meshtastic/Messages.antt =====
-- What crates/voicetastic-core/src/meshtastic reads of the generated protobuf messages. `X` is the
-- content that is passed on unread. The decoders are parameters.
use voicetastic_core.Prelude.{ℕ, Option, List}
use voicetastic_core.Prelude.Int.{ℤ}

pub record User (X : Type 0) : Type 0 where
  pub long_name : List ℕ
  pub short_name : List ℕ
  pub public_key : List ℕ
  pub content : X

pub record Position (X : Type 0) : Type 0 where
  pub latitude_i : Option ℤ
  pub longitude_i : Option ℤ
  pub content : X

pub record NodeInfo (X : Type 0) : Type 0 where
  pub num : ℕ
  pub user : Option (User X)
  pub position : Option (Position X)
  pub content : X

pub record MyNodeInfo (X : Type 0) : Type 0 where
  pub my_node_num : ℕ
  pub content : X

pub record Channel (X : Type 0) : Type 0 where
  pub index : ℤ
  pub content : X

-- `config::PayloadVariant`; `other_config` is a section that no arm names.
pub data ConfigSection (X : Type 0) : Type 0 where
  lora device position power network display bluetooth : X → ConfigSection X
  security : List ℕ → ConfigSection X
  other_config : X → ConfigSection X

pub data ModuleSection (X : Type 0) : Type 0 where
  mqtt : X → ModuleSection X
  other_module : X → ModuleSection X

pub record Data : Type 0 where
  pub portnum : ℤ
  pub payload : List ℕ
  pub request_id : ℕ

pub data PacketPayload : Type 0 where
  decoded : Data → PacketPayload
  encrypted : List ℕ → PacketPayload

pub record MeshPacket (X : Type 0) : Type 0 where
  pub from : ℕ
  pub to : ℕ
  pub id : ℕ
  pub channel : ℕ
  pub rx_time : ℕ
  pub rx_signal : X
  pub payload_variant : Option PacketPayload

pub record QueueStatus : Type 0 where
  pub res : ℤ
  pub free : ℕ
  pub maxlen : ℕ
  pub mesh_packet_id : ℕ

-- `from_radio::PayloadVariant`
pub data FromRadio (X : Type 0) : Type 0 where
  my_info : MyNodeInfo X → FromRadio X
  node_info : NodeInfo X → FromRadio X
  config : Option (ConfigSection X) → FromRadio X
  module_config : Option (ModuleSection X) → FromRadio X
  channel : Channel X → FromRadio X
  metadata : X → FromRadio X
  config_complete_id : ℕ → FromRadio X
  packet : MeshPacket X → FromRadio X
  queue_status : QueueStatus → FromRadio X
  other_radio : FromRadio X

-- `admin_message::PayloadVariant`
pub data AdminVariant (X : Type 0) : Type 0 where
  get_owner_response : User X → AdminVariant X
  get_channel_response : Channel X → AdminVariant X
  get_device_metadata_response : X → AdminVariant X
  other_admin : AdminVariant X

-- `routing::Error::try_from(e)`: no error, an error that has a name, or a number without one.
pub data ErrorReason : Type 0 where
  no_error : ErrorReason
  named_error : ℕ → ErrorReason
  unknown_error : ErrorReason

-- `routing::Variant`
pub data RoutingVariant : Type 0 where
  error_reason : ErrorReason → RoutingVariant
  other_routing : RoutingVariant

-- The decoders of the generated code; `none` outside is malformed, inside a message with no variant.
pub record Decoders (X : Type 0) : Type 0 where
  pub from_radio : List ℕ → Option (Option (FromRadio X))
  pub admin_message : List ℕ → Option (Option (AdminVariant X))
  pub routing : List ℕ → Option (Option RoutingVariant)
  pub data_message : List ℕ → Option Data
  pub no_route : ℕ
