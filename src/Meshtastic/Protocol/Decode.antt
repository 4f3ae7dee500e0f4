-- ===== src/Meshtastic/Protocol/Decode.antt =====
-- crates/voicetastic-core/src/meshtastic/service/protocol.rs: one frame of the radio as events.
pub mod Packets
pub mod Replay
use voicetastic_core.Prelude.{
  ℕ, ◌-◌, Bool, true, false, not, ◌&&◌, ◌||◌, Option, none, some, List, [], ◌∷◌, ◌++◌, ltb, ◌==◌,
  if◌then◌else◌, length, take, get_elem?,
}
use voicetastic_core.Prelude.Int.{ℤ, pos, negsuc, leb_ℤ, eq_ℤ}
use voicetastic_core.Prelude.Utf8.{is_utf8}
use voicetastic_core.Prelude.Assoc.{lookup}
use voicetastic_core.Prelude.Options.{◌>>=◌, ◌>>◌, guard}
use voicetastic_core.Proto.Consts.{protocol_version}
use voicetastic_core.Voice.Types.{VoiceDestination, node, broadcast}
use voicetastic_core.Meshtastic.NodeIds.{node_num_to_id}
use voicetastic_core.Meshtastic.Pkc.{Ciphers, decrypt}
use voicetastic_core.Meshtastic.Messages.{
  User, Position, NodeInfo, MyNodeInfo, Channel, ConfigSection, security, other_config,
  ModuleSection, mqtt, other_module, Data, decoded, encrypted, MeshPacket, QueueStatus, FromRadio,
  AdminVariant, get_owner_response, get_channel_response, get_device_metadata_response, other_admin,
  no_error, named_error, unknown_error, ErrorReason, RoutingVariant, error_reason, other_routing,
  Decoders, PacketPayload,
}
use voicetastic_core.Meshtastic.Protocol.State.{
  AckResult, delivered, failed, IncomingText, IncomingData, VoiceData, InboundEvent,
}

abbrev pub lat_i_max : ℕ
lat_i_max = 900_000_000

abbrev pub lon_i_max : ℕ
lon_i_max = 1_800_000_000

unfoldable pub lat_i_in_range : ℤ → Bool
lat_i_in_range v = leb_ℤ (negsuc (lat_i_max - 1)) v && leb_ℤ v (pos lat_i_max)

unfoldable pub lon_i_in_range : ℤ → Bool
lon_i_in_range v = leb_ℤ (negsuc (lon_i_max - 1)) v && leb_ℤ v (pos lon_i_max)

-- The port numbers of ports.rs, as the `i32` of a packet.
abbrev pub text_message_app : ℤ
text_message_app = pos 1

abbrev pub routing_app : ℤ
routing_app = pos 5

abbrev pub admin_app : ℤ
admin_app = pos 6

abbrev pub private_app : ℤ
private_app = pos 256

abbrev pub broadcast_addr : ℕ
broadcast_addr = 0xffff_ffff

abbrev pub max_text_bytes : ℕ
max_text_bytes = 1024

pub record InboundCtx (X : Type 0) : Type 0 where
  pub my_node_num : Option ℕ
  pub our_private_key : Option (List ℕ)
  pub nodes : List (ℕ × NodeInfo X)

-- The pairs of sender and packet that were decrypted of late; `none` where the driver keeps none.
abbrev pub Seen : Type 0
Seen = Option (List (ℕ × ℕ))

-- A coordinate out of range is dropped.
abbrev pub keep_if : (ℤ → Bool) → Option ℤ → Option ℤ
keep_if test none = none
keep_if test (some v) = if test v then some v else none

unfoldable pub sanitise : {X : Type 0} → Position X → Position X
unfolding lat_i_in_range lon_i_in_range
sanitise p = record p {
  latitude_i = keep_if lat_i_in_range p.latitude_i;
  longitude_i = keep_if lon_i_in_range p.longitude_i;
}

unfoldable pub pop_back {ℓ} : {A : Type ℓ} → List A → List A
pop_back [] = []
pop_back (x ∷ []) = []
pop_back (x ∷ y ∷ xs) = x ∷ pop_back (y ∷ xs)

-- `push_front`, then `pop_back` above 64 entries.
unfoldable pub remember : ℕ × ℕ → List (ℕ × ℕ) → List (ℕ × ℕ)
unfolding pop_back
remember key seen = if ltb 64 (length (key ∷ seen)) then pop_back (key ∷ seen) else key ∷ seen

unfoldable pub contains : List (ℕ × ℕ) → ℕ → ℕ → Bool
contains [] from id = false
contains ((f, i) ∷ seen) from id = (f == from && i == id) || contains seen from id

abbrev pub was_seen : Seen → ℕ → ℕ → Bool
unfolding contains
was_seen none from id = false
was_seen (some seen) from id = contains seen from id

abbrev pub note_seen : Option Data → ℕ → ℕ → Seen → Seen
unfolding remember
note_seen none from id seen = seen
note_seen (some d) from id none = none
note_seen (some d) from id (some seen) = some (remember (from, id) seen)

-- `portnum == PRIVATE_APP && detect_version(&payload) == Some(PROTOCOL_VERSION)`
abbrev pub has_version : Option ℕ → Bool
has_version none = false
has_version (some b) = b == protocol_version

unfoldable pub is_voice : Data → Bool
is_voice d = eq_ℤ d.portnum private_app && has_version (get_elem? d.payload 0)

abbrev pub own_node : Option ℕ → ℕ → Bool
own_node none num = false
own_node (some my) num = my == num

module _ {X : Type 0} where
  abbrev pub admin_events : AdminVariant X → List (InboundEvent X)
  admin_events (get_owner_response user) = InboundEvent.owner user ∷ []
  admin_events (get_channel_response ch) = InboundEvent.channel ch ∷ []
  admin_events (get_device_metadata_response meta) = InboundEvent.metadata meta ∷ []
  admin_events other_admin = []

  abbrev pub text_event : MeshPacket X → Data → InboundEvent X
  unfolding node_num_to_id
  text_event pkt d = InboundEvent.incoming_text (record {
    from = pkt.from;
    from_id = node_num_to_id pkt.from;
    to = pkt.to;
    channel = pkt.channel;
    text = d.payload;
    rx_time = pkt.rx_time;
    rx_signal = pkt.rx_signal;
  })

  abbrev pub data_event : MeshPacket X → Data → InboundEvent X
  data_event pkt d = InboundEvent.incoming_data (record {
    from = pkt.from;
    to = pkt.to;
    channel = pkt.channel;
    portnum = d.portnum;
    payload = d.payload;
    rx_time = pkt.rx_time;
  })

  abbrev pub voice_event : MeshPacket X → Data → InboundEvent X
  voice_event pkt d = InboundEvent.voice (record {
    from = pkt.from;
    to = if pkt.to == broadcast_addr then broadcast else node pkt.to;
    channel = pkt.channel;
    payload = d.payload;
  })

  unfoldable pub application_events : MeshPacket X → Data → List (InboundEvent X)
  unfolding is_voice
  application_events pkt d =
      if is_voice d then voice_event pkt d ∷ data_event pkt d ∷ [] else data_event pkt d ∷ []

  unfoldable pub text_events : MeshPacket X → Data → List (InboundEvent X)
  unfolding is_utf8 application_events node_num_to_id
  text_events pkt d =
      if ltb max_text_bytes (length d.payload)
      then []
      else if is_utf8 d.payload
      then text_event pkt d ∷ []
      else application_events pkt d

  -- Our own node's user is surfaced as the owner.
  abbrev pub owner_events : Bool → Option (User X) → List (InboundEvent X)
  owner_events true (some user) = InboundEvent.owner user ∷ []
  owner_events true none = []
  owner_events false user = []

  abbrev pub clean_node : NodeInfo X → NodeInfo X
  unfolding sanitise
  clean_node ni = record ni {
    position = elim (ni.position) [ none ↦ none | some p ↦ some (sanitise p) ];
  }

  -- Only the seven sections that the service tracks produce events.
  abbrev pub config_events : Option (ConfigSection X) → List (InboundEvent X)
  config_events none = []
  config_events (some (security key)) = []
  config_events (some (other_config c)) = []
  config_events (some c) = InboundEvent.config c ∷ []

  abbrev pub module_events : Option (ModuleSection X) → List (InboundEvent X)
  module_events (some (mqtt c)) = InboundEvent.module_config (mqtt c) ∷ []
  module_events (some (other_module c)) = []
  module_events none = []

module _ {X : Type 0} (decoders : Decoders X) where
  abbrev pub ack_of : ErrorReason → AckResult
  ack_of no_error = delivered
  ack_of (named_error e) = failed e
  ack_of unknown_error = failed decoders.no_route

  abbrev pub routing_events : ℕ → Option (Option RoutingVariant) → List (InboundEvent X)
  routing_events request_id (some (some (error_reason e))) =
      InboundEvent.ack_or_nak request_id (ack_of e) ∷ []
  routing_events request_id (some (some other_routing)) = []
  routing_events request_id (some none) = []
  routing_events request_id none = []

  -- What a packet comes to that is no admin response.
  unfoldable pub other_events : MeshPacket X → Data → List (InboundEvent X)
  unfolding text_events application_events
  other_events pkt d =
      if eq_ℤ d.portnum routing_app
      then (if d.request_id == 0
          then []
          else routing_events d.request_id (decoders.routing d.payload))
      else if eq_ℤ d.portnum text_message_app
      then text_events pkt d
      else application_events pkt d

  -- An admin payload that does not decode falls through.
  abbrev pub admin_or_other :
      Option (Option (AdminVariant X)) → MeshPacket X → Data → List (InboundEvent X)
  unfolding other_events
  admin_or_other (some (some v)) pkt d = admin_events v
  admin_or_other (some none) pkt d = other_events pkt d
  admin_or_other none pkt d = other_events pkt d

  unfoldable pub data_events : MeshPacket X → Data → List (InboundEvent X)
  unfolding other_events
  data_events pkt d =
      if eq_ℤ d.portnum admin_app
      then admin_or_other (decoders.admin_message d.payload) pkt d
      else other_events pkt d

  abbrev pub events_of : MeshPacket X → Option Data → List (InboundEvent X)
  unfolding data_events
  events_of pkt none = []
  events_of pkt (some d) = data_events pkt d

module _ {X : Type 0} (decoders : Decoders X) (ciphers : Ciphers) where
  -- The checks of `try_pkc_decrypt`, and the plain text that they lead to.
  unfoldable pub open_packet : ℕ → ℕ → ℕ → List ℕ → InboundCtx X → Seen → Option Data
  unfolding decrypt lookup contains
  open_packet from to id bytes ctx seen = do
    my ← ctx.my_node_num
    guard (to == my)
    our_private ← ctx.our_private_key
    peer ← lookup ◌==◌ from ctx.nodes
    user ← peer.user
    guard (length user.public_key == 32)
    guard (not (was_seen seen from id))
    plaintext ← decrypt ciphers our_private user.public_key from id bytes
    decoders.data_message plaintext

  unfoldable pub try_pkc_decrypt : ℕ → ℕ → ℕ → List ℕ → InboundCtx X → Seen → Option Data × Seen
  unfolding open_packet remember
  try_pkc_decrypt from to id bytes ctx seen =
      let d = open_packet from to id bytes ctx seen in (d, note_seen d from id seen)

  -- The `match` on `payload_variant`; `none` returns early.
  unfoldable pub packet_data : MeshPacket X → InboundCtx X → Seen → Option Data × Seen
  unfolding try_pkc_decrypt
  packet_data pkt ctx seen = elim (pkt.payload_variant) [
    | none ↦ (none, seen)
    | some (decoded d) ↦ (some d, seen)
    | some (encrypted bytes) ↦ try_pkc_decrypt pkt.from pkt.to pkt.id bytes ctx seen
  ]

  unfoldable pub decode_packet : MeshPacket X → InboundCtx X → Seen → List (InboundEvent X) × Seen
  unfolding packet_data data_events
  decode_packet pkt ctx seen = let r = packet_data pkt ctx seen in (events_of decoders pkt r.0, r.1)

  unfoldable pub decode_variant : FromRadio X → InboundCtx X → Seen → List (InboundEvent X) × Seen
  unfolding decode_packet sanitise
  decode_variant (FromRadio.my_info info) ctx seen = (InboundEvent.my_info info ∷ [], seen)
  decode_variant (FromRadio.node_info ni) ctx seen = (
    owner_events (own_node ctx.my_node_num ni.num) ni.user
        ++ (InboundEvent.node_info (clean_node ni) ∷ []),
    seen,
  )
  decode_variant (FromRadio.config c) ctx seen = (config_events c, seen)
  decode_variant (FromRadio.module_config c) ctx seen = (module_events c, seen)
  decode_variant (FromRadio.channel ch) ctx seen = (InboundEvent.channel ch ∷ [], seen)
  decode_variant (FromRadio.metadata m) ctx seen = (InboundEvent.metadata m ∷ [], seen)
  decode_variant (FromRadio.config_complete_id nonce) ctx seen =
      (InboundEvent.config_complete nonce ∷ [], seen)
  decode_variant (FromRadio.packet pkt) ctx seen = decode_packet pkt ctx seen
  decode_variant (FromRadio.queue_status qs) ctx seen = (
    InboundEvent.queue_status (record {
      res = qs.res;
      free = qs.free;
      maxlen = qs.maxlen;
      mesh_packet_id = qs.mesh_packet_id;
    })
        ∷ [],
    seen,
  )
  decode_variant FromRadio.other_radio ctx seen = ([], seen)

  abbrev pub decode_message :
      Option (FromRadio X) → InboundCtx X → Seen → List (InboundEvent X) × Seen
  unfolding decode_variant
  decode_message none ctx seen = ([], seen)
  decode_message (some v) ctx seen = decode_variant v ctx seen

  -- `none` is a frame that does not decode.
  unfoldable pub decode_inbound :
      List ℕ → InboundCtx X → Seen → Option (List (InboundEvent X) × Seen)
  unfolding decode_variant
  decode_inbound bytes ctx seen = do
    msg ← decoders.from_radio bytes
    some (decode_message msg ctx seen)
