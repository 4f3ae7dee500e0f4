-- ===== src/Meshtastic/Protocol/State.antt =====
-- crates/voicetastic-core/src/meshtastic/service/protocol.rs: the events and the canonical snapshot.
pub mod Channels
pub mod Snapshot
use voicetastic_core.Prelude.{
  ℕ, Bool, true, false, Option, none, some, List, [], ◌∷◌, ◌++◌, ◌==◌, if◌then◌else◌, length,
}
use voicetastic_core.Prelude.Int.{ℤ, leb_ℤ, eq_ℤ}
use voicetastic_core.Prelude.Assoc.{lookup, remove}
use voicetastic_core.Voice.Types.{VoiceDestination}
use voicetastic_core.Meshtastic.Messages.{
  User, NodeInfo, MyNodeInfo, Channel, ConfigSection, lora, device, position, power, network,
  display, bluetooth, security, other_config, ModuleSection, mqtt, other_module,
}

pub data AckResult : Type 0 where
  delivered : AckResult
  failed : ℕ → AckResult
  timed_out cancelled : AckResult

unfoldable pub is_delivered : AckResult → Bool
is_delivered delivered = true
is_delivered (failed e) = false
is_delivered timed_out = false
is_delivered cancelled = false

pub record IncomingText (X : Type 0) : Type 0 where
  pub from : ℕ
  pub from_id : List ℕ
  pub to : ℕ
  pub channel : ℕ
  pub text : List ℕ
  pub rx_time : ℕ
  pub rx_signal : X

pub record IncomingData : Type 0 where
  pub from : ℕ
  pub to : ℕ
  pub channel : ℕ
  pub portnum : ℤ
  pub payload : List ℕ
  pub rx_time : ℕ

pub record VoiceData : Type 0 where
  pub from : ℕ
  pub to : VoiceDestination
  pub channel : ℕ
  pub payload : List ℕ

pub record QueueStatusEvent : Type 0 where
  pub res : ℤ
  pub free : ℕ
  pub maxlen : ℕ
  pub mesh_packet_id : ℕ

pub data InboundEvent (X : Type 0) : Type 0 where
  my_info : MyNodeInfo X → InboundEvent X
  node_info : NodeInfo X → InboundEvent X
  owner : User X → InboundEvent X
  config : ConfigSection X → InboundEvent X
  module_config : ModuleSection X → InboundEvent X
  channel : Channel X → InboundEvent X
  metadata : X → InboundEvent X
  config_complete : ℕ → InboundEvent X
  incoming_text : IncomingText X → InboundEvent X
  incoming_data : IncomingData → InboundEvent X
  voice : VoiceData → InboundEvent X
  queue_status : QueueStatusEvent → InboundEvent X
  ack_or_nak : ℕ → AckResult → InboundEvent X

pub record ProtocolState (X : Type 0) : Type 0 where
  pub my_info : Option (MyNodeInfo X)
  pub nodes : List (ℕ × NodeInfo X)
  pub owner : Option (User X)
  pub lora : Option X
  pub device : Option X
  pub position : Option X
  pub power : Option X
  pub network : Option X
  pub display : Option X
  pub bluetooth : Option X
  pub mqtt : Option X
  pub channels : List (Channel X)
  pub metadata : Option X
  pub our_private_key : Option (List ℕ)

-- The key is taken over if it has 32 bytes, and cleared otherwise.
abbrev pub key_of : List ℕ → Option (List ℕ)
key_of private_key = if length private_key == 32 then some private_key else none

module _ {X : Type 0} where
  unfoldable pub is_snapshot : InboundEvent X → Bool
  is_snapshot (my_info i) = true
  is_snapshot (node_info n) = true
  is_snapshot (owner u) = true
  is_snapshot (config c) = true
  is_snapshot (module_config c) = true
  is_snapshot (channel c) = true
  is_snapshot (metadata m) = true
  is_snapshot event = false

  -- `ProtocolState::default()`
  abbrev pub default_state : ProtocolState X
  default_state = record {
    my_info = none;
    nodes = [];
    owner = none;
    lora = none;
    device = none;
    position = none;
    power = none;
    network = none;
    display = none;
    bluetooth = none;
    mqtt = none;
    channels = [];
    metadata = none;
    our_private_key = none;
  }

  -- A write through `iter_mut().find(..)`; `none` where no channel has the index.
  unfoldable pub replace_channel : Channel X → List (Channel X) → Option (List (Channel X))
  replace_channel ch [] = none
  replace_channel ch (c ∷ channels) =
      let rest = replace_channel ch channels in
      if eq_ℤ (c.index) (ch.index)
      then some (ch ∷ channels)
      else elim rest [ none ↦ none | some replaced ↦ some (c ∷ replaced) ]

  -- `sort_by_key`, which is stable, as an insertion sort.
  unfoldable pub insert_sorted : Channel X → List (Channel X) → List (Channel X)
  insert_sorted ch [] = ch ∷ []
  insert_sorted ch (c ∷ channels) =
      if leb_ℤ (ch.index) (c.index) then ch ∷ c ∷ channels else c ∷ insert_sorted ch channels

  unfoldable pub sort_by_index : List (Channel X) → List (Channel X)
  unfolding insert_sorted
  sort_by_index [] = []
  sort_by_index (c ∷ channels) = insert_sorted c (sort_by_index channels)

  unfoldable pub upsert_channel : Channel X → List (Channel X) → List (Channel X)
  unfolding replace_channel sort_by_index
  upsert_channel ch channels = elim (replace_channel ch channels) [
    | some replaced ↦ replaced
    | none ↦ sort_by_index (channels ++ (ch ∷ []))
  ]

  unfoldable pub apply_config : ConfigSection X → ProtocolState X → ProtocolState X
  apply_config (lora c) s = record s { lora = some c }
  apply_config (device c) s = record s { device = some c }
  apply_config (position c) s = record s { position = some c }
  apply_config (power c) s = record s { power = some c }
  apply_config (network c) s = record s { network = some c }
  apply_config (display c) s = record s { display = some c }
  apply_config (bluetooth c) s = record s { bluetooth = some c }
  apply_config (security key) s = record s { our_private_key = key_of key }
  apply_config (other_config c) s = s

  unfoldable pub apply_module_config : ModuleSection X → ProtocolState X → ProtocolState X
  apply_module_config (mqtt c) s = record s { mqtt = some c }
  apply_module_config (other_module c) s = s

  -- `HashMap::insert`
  abbrev pub insert_node : NodeInfo X → List (ℕ × NodeInfo X) → List (ℕ × NodeInfo X)
  unfolding remove
  insert_node ni nodes = (ni.num, ni) ∷ remove ◌==◌ (ni.num) nodes

  unfoldable pub apply : InboundEvent X → ProtocolState X → ProtocolState X
  unfolding remove
  apply (my_info info) s = record s { my_info = some info }
  apply (node_info ni) s = record s { nodes = insert_node ni s.nodes }
  apply (owner user) s = record s { owner = some user }
  apply (config c) s = apply_config c s
  apply (module_config c) s = apply_module_config c s
  apply (channel ch) s = record s { channels = upsert_channel ch s.channels }
  apply (metadata m) s = record s { metadata = some m }
  apply (config_complete n) s = s
  apply (incoming_text t) s = s
  apply (incoming_data d) s = s
  apply (voice v) s = s
  apply (queue_status q) s = s
  apply (ack_or_nak request_id result) s = s

  abbrev pub node_of : List (ℕ × NodeInfo X) → Option (MyNodeInfo X) → Option (NodeInfo X)
  unfolding lookup
  node_of nodes none = none
  node_of nodes (some info) = lookup ◌==◌ (info.my_node_num) nodes

  unfoldable pub self_node : ProtocolState X → Option (NodeInfo X)
  unfolding lookup
  self_node s = node_of s.nodes s.my_info

  unfoldable pub clear_config : ProtocolState X → ProtocolState X
  clear_config s = record s {
    lora = none;
    device = none;
    position = none;
    power = none;
    network = none;
    display = none;
    bluetooth = none;
    mqtt = none;
    channels = [];
    our_private_key = none;
  }

  unfoldable pub clear_nodes : ProtocolState X → ProtocolState X
  clear_nodes s = record s { nodes = [] }
