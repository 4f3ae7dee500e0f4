-- ===== src/Meshtastic/Protocol/Service.antt =====
-- crates/voicetastic-core/src/meshtastic/service/inbound.rs and outbound.rs: what the service does
-- with a frame of the radio, and the table of the packets that wait for a delivery report.
pub mod Keyless
use voicetastic_core.Prelude.{
  ℕ, ◌+◌, ◌%◌, ◌^◌, Bool, true, false, Option, none, some, List, [], ◌∷◌, ◌++◌, ◌==◌, if◌then◌else◌,
}
use voicetastic_core.Prelude.Assoc.{lookup, remove}
use voicetastic_core.Meshtastic.Pkc.{Ciphers}
use voicetastic_core.Meshtastic.Messages.{MyNodeInfo, Decoders}
use voicetastic_core.Meshtastic.Protocol.State.{
  AckResult, InboundEvent, my_info, node_info, owner, config, module_config, channel, metadata,
  config_complete, incoming_text, incoming_data, voice, queue_status, ack_or_nak, ProtocolState,
  is_snapshot, apply, clear_config,
}
use voicetastic_core.Meshtastic.Protocol.Decode.{InboundCtx, Seen, decode_inbound}

pub data ConnectionState : Type 0 where
  disconnected connecting connected configuring ready : ConnectionState

-- `pending_acks` says of each packet whether its handle is still held.
pub record Service (X : Type 0) : Type 0 where
  pub state : ProtocolState X
  pub pkc_seen : List (ℕ × ℕ)
  pub radio_queue_free : ℕ
  pub connection : ConnectionState
  pub next_packet_id : ℕ
  pub pending_acks : List (ℕ × Bool)

-- What a subscriber or a waiting caller observes.
pub data Output (X : Type 0) : Type 0 where
  mirrored : InboundEvent X → Output X
  published : InboundEvent X → Output X
  resolved : ℕ → AckResult → Output X

-- `acks.retain(|_, sender| !sender.is_closed())`
unfoldable pub retain_open : List (ℕ × Bool) → List (ℕ × Bool)
retain_open [] = []
retain_open ((id, true) ∷ acks) = (id, true) ∷ retain_open acks
retain_open ((id, false) ∷ acks) = retain_open acks

-- `HashMap::insert`, with the sender of a new handle.
unfoldable pub register_ack : ℕ → List (ℕ × Bool) → List (ℕ × Bool)
unfolding retain_open remove
register_ack packet_id acks = (packet_id, true) ∷ remove ◌==◌ packet_id (retain_open acks)

unfoldable pub discard_ack : ℕ → List (ℕ × Bool) → List (ℕ × Bool)
unfolding remove
discard_ack packet_id acks = remove ◌==◌ packet_id acks

-- `fetch_add` on a `u32`, again where it gives zero: the counter, and the id.
unfoldable pub next_id : ℕ → ℕ × ℕ
next_id counter =
    if counter == 0
    then ((counter + 2) % 2 ^ 32, counter + 1)
    else ((counter + 1) % 2 ^ 32, counter)

module _ {X : Type 0} where
  -- A result goes to a handle that is still held.
  abbrev pub told : Option Bool → ℕ → AckResult → List (Output X)
  told (some true) packet_id result = resolved packet_id result ∷ []
  told (some false) packet_id result = []
  told none packet_id result = []

  unfoldable pub signal_ack : ℕ → AckResult → Service X → Service X × List (Output X)
  unfolding lookup remove
  signal_ack packet_id result s = (
    record s { pending_acks = remove ◌==◌ packet_id s.pending_acks },
    told (lookup ◌==◌ packet_id s.pending_acks) packet_id result,
  )

  -- The second `match` of `apply_inbound`. A broadcast with no subscriber is lost either way.
  unfoldable pub apply_transient : InboundEvent X → Service X → Service X × List (Output X)
  unfolding signal_ack
  apply_transient (config_complete nonce) s =
      (record s { connection = ready }, published (config_complete nonce) ∷ [])
  apply_transient (queue_status qs) s =
      (record s { radio_queue_free = qs.free }, published (queue_status qs) ∷ [])
  apply_transient (ack_or_nak request_id result) s =
      let r = signal_ack request_id result s in
      (r.0, published (ack_or_nak request_id result) ∷ r.1)
  apply_transient event s = (s, published event ∷ [])

  unfoldable pub apply_inbound : InboundEvent X → Service X → Service X × List (Output X)
  unfolding apply is_snapshot apply_transient
  apply_inbound event s =
      if is_snapshot event
      then (record s { state = apply event s.state }, mirrored event ∷ [])
      else apply_transient event s

  unfoldable pub apply_events : List (InboundEvent X) → Service X → Service X × List (Output X)
  unfolding apply_inbound
  apply_events [] s = (s, [])
  apply_events (event ∷ events) s =
      let r = apply_inbound event s in let rest = apply_events events r.0 in (rest.0, r.1 ++ rest.1)

  abbrev pub num_of : Option (MyNodeInfo X) → Option ℕ
  num_of none = none
  num_of (some info) = some (info.my_node_num)

  abbrev pub ctx_of : Service X → InboundCtx X
  ctx_of s = record {
    my_node_num = num_of s.state.my_info;
    our_private_key = s.state.our_private_key;
    nodes = s.state.nodes;
  }

  -- The decoder keeps its list of pairs behind its own lock.
  abbrev pub with_seen : Seen → Service X → Service X
  with_seen none s = s
  with_seen (some seen) s = record s { pkc_seen = seen }

  -- A frame that does not decode changes nothing; the reader logs its error.
  unfoldable pub handle_from_radio :
      Decoders X → Ciphers → List ℕ → Service X → Service X × List (Output X)
  unfolding decode_inbound apply_events
  handle_from_radio decoders ciphers bytes s =
      elim (decode_inbound decoders ciphers bytes (ctx_of s) (some s.pkc_seen)) [
        | none ↦ (s, [])
        | some (events, seen) ↦ apply_events events (with_seen seen s)
      ]
