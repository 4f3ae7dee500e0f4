-- ===== src/Meshtastic/Protocol/Outbound.antt =====
-- crates/voicetastic-core/src/meshtastic/service/protocol.rs: the packets that go to the radio, and
-- outbound.rs: the calls that send them. A call is taken whole, with nothing of another task between
-- its steps.
pub mod Tracked
use voicetastic_core.Prelude.{
  ℕ, Bool, true, false, Option, none, some, List, [], ◌∷◌, ltb, if◌then◌else◌, length,
}
use voicetastic_core.Prelude.Int.{ℤ, pos}
use voicetastic_core.Prelude.Assoc.{lookup, remove}
use voicetastic_core.Meshtastic.Protocol.Decode.{
  text_message_app, admin_app, broadcast_addr, max_text_bytes,
}
use voicetastic_core.Meshtastic.Protocol.Service.{
  Service, register_ack, discard_ack, next_id, num_of,
}

abbrev pub position_app : ℤ
position_app = pos 3

abbrev pub nodeinfo_app : ℤ
nodeinfo_app = pos 4

pub data Priority : Type 0 where
  default_priority reliable : Priority

-- The fields of a `MeshPacket` and its `Data` that the host sets; the rest have their defaults.
pub record Packet : Type 0 where
  pub to : ℕ
  pub channel : ℕ
  pub id : ℕ
  pub want_ack : Bool
  pub hop_limit : ℕ
  pub priority : Priority
  pub portnum : ℤ
  pub payload : List ℕ
  pub want_response : Bool

pub data ToRadio : Type 0 where
  want_config_id : ℕ → ToRadio
  packet : Packet → ToRadio
  disconnect : Bool → ToRadio

pub data SendError : Type 0 where
  too_large not_connected not_encoded not_written : SendError

abbrev pub want_config : ℕ → ToRadio
want_config nonce = want_config_id nonce

abbrev pub or_broadcast : Option ℕ → ℕ
or_broadcast none = broadcast_addr
or_broadcast (some to) = to

abbrev pub is_direct : Option ℕ → Bool
is_direct none = false
is_direct (some to) = true

-- `none` is a text that is too large.
unfoldable pub text_packet : ℕ → List ℕ → ℕ → Option ℕ → Option ToRadio
text_packet id text channel to =
    if ltb max_text_bytes (length text)
    then none
    else some (
        packet (record {
          to = or_broadcast to;
          channel = channel;
          id = id;
          want_ack = is_direct to;
          hop_limit = 3;
          priority = default_priority;
          portnum = text_message_app;
          payload = text;
          want_response = false;
        }))

unfoldable pub data_packet : ℕ → ℤ → List ℕ → ℕ → Option ℕ → Bool → Bool → ToRadio
data_packet id portnum payload channel to want_ack want_response = packet (record {
  to = or_broadcast to;
  channel = channel;
  id = id;
  want_ack = want_ack;
  hop_limit = 3;
  priority = default_priority;
  portnum = portnum;
  payload = payload;
  want_response = want_response;
})

-- The two packets with a message inside take its encoding, which is `none` where it failed.
unfoldable pub admin_packet : ℕ → ℕ → Option (List ℕ) → Option ToRadio
admin_packet id to_node none = none
admin_packet id to_node (some bytes) = some (
    packet (record {
      to = to_node;
      channel = 0;
      id = id;
      want_ack = true;
      hop_limit = 0;
      priority = reliable;
      portnum = admin_app;
      payload = bytes;
      want_response = false;
    }))

unfoldable pub nodeinfo_request_packet : ℕ → Option (List ℕ) → ℕ → Option ToRadio
nodeinfo_request_packet id none channel = none
nodeinfo_request_packet id (some payload) channel = some (
    packet (record {
      to = broadcast_addr;
      channel = channel;
      id = id;
      want_ack = false;
      hop_limit = 3;
      priority = default_priority;
      portnum = nodeinfo_app;
      payload = payload;
      want_response = true;
    }))

-- What a write meets: an empty slot, a message that does not encode, a transport that reports an
-- error, or none of these. An error may be that of a flush or a time limit; the flag says
-- whether the message was out by then, as a whole.
pub data Attempt : Type 0 where
  no_transport unencoded done : Attempt
  broken : Bool → Attempt

-- The error, if any, and the message that left the host as a whole.
unfoldable pub send_to_radio : Attempt → ToRadio → Option SendError × List ToRadio
send_to_radio no_transport payload = (some not_connected, [])
send_to_radio unencoded payload = (some not_encoded, [])
send_to_radio (broken false) payload = (some not_written, [])
send_to_radio (broken true) payload = (some not_written, payload ∷ [])
send_to_radio done payload = (none, payload ∷ [])

-- What a call answers: the id of the packet, or an error.
pub data Reply : Type 0 where
  accepted : ℕ → Reply
  refused : SendError → Reply

abbrev pub reply_of : ℕ → Option SendError → Reply
reply_of id none = accepted id
reply_of id (some e) = refused e

module _ {X : Type 0} where
  -- The `?` on a packet that was not built, and the send of one that was.
  abbrev pub send_built :
      Attempt → SendError → ℕ → Option ToRadio → Service X → Service X × List ToRadio × Reply
  unfolding send_to_radio
  send_built attempt e id none s = (s, [], refused e)
  send_built attempt e id (some payload) s =
      let r = send_to_radio attempt payload in (s, r.1, reply_of id r.0)

  abbrev pub with_counter : ℕ → Service X → Service X
  with_counter counter s = record s { next_packet_id = counter }

  abbrev pub with_acks : List (ℕ × Bool) → Service X → Service X
  with_acks acks s = record s { pending_acks = acks }

  unfoldable pub send_text :
      Attempt → List ℕ → ℕ → Option ℕ → Service X → Service X × List ToRadio × Reply
  unfolding next_id text_packet send_to_radio
  send_text attempt text channel to s =
      let r = next_id s.next_packet_id in
      send_built attempt too_large r.1 (text_packet r.1 text channel to) (with_counter r.0 s)

  unfoldable pub send_data :
      Attempt
      → ℤ
      → List ℕ
      → ℕ
      → Option ℕ
      → Bool
      → Bool
      → Service X
      → Service X × List ToRadio × Reply
  unfolding next_id data_packet send_to_radio
  send_data attempt portnum payload channel to want_ack want_response s =
      let r = next_id s.next_packet_id in
      send_built attempt not_encoded r.1
        (some (data_packet r.1 portnum payload channel to want_ack want_response))
        (with_counter r.0 s)

  -- With the encoding of the position.
  unfoldable pub broadcast_position :
      Attempt → Option (List ℕ) → ℕ → Option ℕ → Service X → Service X × List ToRadio × Reply
  unfolding send_data
  broadcast_position attempt none channel to s = (s, [], refused not_encoded)
  broadcast_position attempt (some buf) channel to s =
      send_data attempt position_app buf channel to false false s

  abbrev pub send_admin_to :
      Attempt → Option (List ℕ) → Option ℕ → Service X → Service X × List ToRadio × Reply
  unfolding next_id admin_packet send_to_radio
  send_admin_to attempt bytes none s = (s, [], refused not_connected)
  send_admin_to attempt bytes (some to) s =
      let r = next_id s.next_packet_id in
      send_built attempt not_encoded r.1 (admin_packet r.1 to bytes) (with_counter r.0 s)

  -- With the encoding of the command.
  unfoldable pub send_admin :
      Attempt → Option (List ℕ) → Service X → Service X × List ToRadio × Reply
  unfolding send_admin_to
  send_admin attempt bytes s = send_admin_to attempt bytes (num_of s.state.my_info) s

  -- An error, of the packet or of the send, takes the registered handle back.
  abbrev pub unless_refused :
      ℕ → Service X × List ToRadio × Reply → Service X × List ToRadio × Reply
  unfolding discard_ack
  unless_refused id (s, sent, accepted i) = (s, sent, accepted i)
  unless_refused id (s, sent, refused e) =
      (with_acks (discard_ack id s.pending_acks) s, sent, refused e)

  unfoldable pub send_text_tracked :
      Attempt → List ℕ → ℕ → ℕ → Service X → Service X × List ToRadio × Reply
  unfolding next_id register_ack discard_ack text_packet send_to_radio
  send_text_tracked attempt text channel to s =
      let r = next_id s.next_packet_id in
      let registered = with_acks (register_ack r.1 s.pending_acks) (with_counter r.0 s) in
      unless_refused r.1
        (send_built attempt too_large r.1 (text_packet r.1 text channel (some to)) registered)
