-- ===== src/Tests/Services.antt =====
-- The theorems about the service and its decoder, applied to a toy radio.
use voicetastic_core.Prelude.{
  true, ℕ, ◌≤◌, ◌≡◌, refl, arith, Option, some, none, List, [], ◌∷◌, length, replicate,
  if◌then◌else◌,
}
use voicetastic_core.Prelude.Int.{pos, eq_ℤ, ℤ}
use voicetastic_core.Prelude.Assoc.{lookup}
use voicetastic_core.Meshtastic.Pkc.{Ciphers, decrypt}
use voicetastic_core.Meshtastic.Messages.{
  Decoders, FromRadio, Data, MeshPacket, NodeInfo, Channel, encrypted, security, other_admin,
  other_routing, lora,
}
use voicetastic_core.Meshtastic.Protocol.State.{
  channel, config, default_state, upsert_channel, clear_config,
}
use voicetastic_core.Meshtastic.Protocol.State.Channels.{IsRising, channel_at, upsert-updates}
use voicetastic_core.Meshtastic.Protocol.State.Snapshot.{apply_all, rebuilt, clear_config-fresh}
use voicetastic_core.Meshtastic.Protocol.Decode.{
  InboundCtx, try_pkc_decrypt, open_packet, data_events,
}
use voicetastic_core.Meshtastic.Protocol.Decode.Packets.{AllJustified, data_events-Justified}
use voicetastic_core.Meshtastic.Protocol.Decode.Replay.{try_pkc_decrypt-once}
use voicetastic_core.Meshtastic.Protocol.Outbound.{done, send_text_tracked}
use voicetastic_core.Meshtastic.Protocol.Outbound.Tracked.{Tracked, send_text_tracked-Tracked}
use voicetastic_core.Meshtastic.Protocol.Service.{next_id, Service, disconnected, ctx_of}
use voicetastic_core.Meshtastic.Protocol.Service.Keyless.{handle_all, handle_all-keyless}

abbrev key32 : List ℕ
key32 = replicate 32 1

-- A direct message to node 7.
abbrev secret_packet : MeshPacket ℕ
secret_packet = record {
  from = 9;
  to = 7;
  id = 5;
  channel = 0;
  rx_time = 0;
  rx_signal = 0;
  payload_variant = some (encrypted (104 ∷ 105 ∷ replicate 12 0));
}

-- A frame with one byte is the security section of the radio, any other a direct message.
toy_frame : List ℕ → Option (Option (FromRadio ℕ))
toy_frame [] = none
toy_frame (b ∷ []) = some (some (FromRadio.config (some (security key32))))
toy_frame (b ∷ bytes) = some (some (FromRadio.packet secret_packet))

abbrev toy_decoders : Decoders ℕ
toy_decoders = record {
  from_radio = toy_frame;
  admin_message = λ bytes. some (some other_admin);
  routing = λ bytes. some (some other_routing);
  data_message = λ bytes. some (record { portnum = pos 1; payload = bytes; request_id = 0 });
  no_route = 1;
}

-- A cipher that leaves the text as it is.
abbrev toy_ciphers : Ciphers
toy_ciphers = record {
  diffie_hellman = λ a b. a;
  digest = λ m. m;
  open_ccm = λ key nonce ct tag. some ct;
}

abbrev peer : NodeInfo ℕ
peer = record {
  num = 9;
  user = some (record { long_name = []; short_name = []; public_key = key32; content = 0 });
  position = none;
  content = 0;
}

abbrev toy_ctx : InboundCtx ℕ
toy_ctx = record { my_node_num = some 7; our_private_key = some key32; nodes = (9, peer) ∷ [] }

abbrev toy_service : Service ℕ
toy_service = record {
  state = record default_state {
    my_info = some (record { my_node_num = 7; content = 0 });
    nodes = (9, peer) ∷ [];
  };
  pkc_seen = [];
  radio_queue_free = 0;
  connection = disconnected;
  next_packet_id = 1;
  pending_acks = [];
}

abbrev cipher_text : List ℕ
cipher_text = 104 ∷ 105 ∷ replicate 12 0

handle_all-keyless_example :
    (try_pkc_decrypt toy_decoders toy_ciphers 9 7 5 cipher_text
      (ctx_of (handle_all toy_decoders toy_ciphers ((1 ∷ []) ∷ []) toy_service))
      (some [])).0
    ≡ none
handle_all-keyless_example =
    handle_all-keyless toy_decoders toy_ciphers ((1 ∷ []) ∷ []) toy_service 9 7 5 cipher_text
      (some []) refl

try_pkc_decrypt-once_example :
    (seen' : List (ℕ × ℕ)) × ((try_pkc_decrypt toy_decoders toy_ciphers 9 7 5 cipher_text toy_ctx
        (some [])).1
      ≡ some seen')
    × (length seen' ≤ 64)
    × ((to' : ℕ) (bytes' : List ℕ) (ctx' : InboundCtx ℕ)
        → try_pkc_decrypt toy_decoders toy_ciphers 9 to' 5 bytes' ctx' (some seen')
          ≡ (none, some seen'))
unfolding try_pkc_decrypt open_packet decrypt lookup
try_pkc_decrypt-once_example =
    try_pkc_decrypt-once toy_decoders toy_ciphers 9 7 5 cipher_text toy_ctx []
      (record { portnum = pos 1; payload = 104 ∷ 105 ∷ []; request_id = 0 }) (omega arith) refl

abbrev hello : Data
hello = record { portnum = pos 1; payload = 104 ∷ 105 ∷ []; request_id = 0 }

data_events-Justified_example :
    AllJustified secret_packet hello (data_events toy_decoders secret_packet hello)
data_events-Justified_example = data_events-Justified secret_packet hello toy_decoders

abbrev at : ℕ → Channel ℕ
at i = record { index = pos i; content = i }

upsert-updates_example :
    IsRising (upsert_channel (at 1) (at 0 ∷ at 2 ∷ []))
    × ((i : ℤ)
        → channel_at i (upsert_channel (at 1) (at 0 ∷ at 2 ∷ []))
          ≡ (if eq_ℤ (pos 1) i then some (at 1) else channel_at i (at 0 ∷ at 2 ∷ [])))
upsert-updates_example = upsert-updates (at 1) (at 0 ∷ at 2 ∷ []) ((refl, tt), (tt, tt))

clear_config-fresh_example :
    rebuilt (apply_all (channel (at 3) ∷ config (lora 4) ∷ []) (clear_config (toy_service.state)))
    ≡ rebuilt (apply_all (channel (at 3) ∷ config (lora 4) ∷ []) default_state)
clear_config-fresh_example =
    clear_config-fresh (channel (at 3) ∷ config (lora 4) ∷ []) (toy_service.state)

-- A service that waits for the report of one packet already.
abbrev waiting_service : Service ℕ
waiting_service = record toy_service { pending_acks = (4, true) ∷ [] }

send_text_tracked-Tracked_example :
    Tracked done
      (104 ∷ 105 ∷ [])
      0
      9
      (next_id waiting_service.next_packet_id).1
      (send_text_tracked done (104 ∷ 105 ∷ []) 0 9 waiting_service)
unfolding lookup
send_text_tracked-Tracked_example =
    send_text_tracked-Tracked done (104 ∷ 105 ∷ []) 0 9 waiting_service (refl, tt)
