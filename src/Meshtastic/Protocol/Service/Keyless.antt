-- ===== src/Meshtastic/Protocol/Service/Keyless.antt =====
-- The decoder drops the section that carries the private key.
use voicetastic_core.Prelude.{
  ℕ, ◌≡◌, refl, ◌∙◌, ap, Bool, true, false, Option, none, some, List, [], ◌∷◌, All, All-append, inl,
  inr, Bool-cases, Option-cases, arith,
}
use voicetastic_core.Meshtastic.Pkc.{Ciphers}
use voicetastic_core.Meshtastic.Messages.{
  Decoders, FromRadio, MeshPacket, Data, User, ConfigSection, ModuleSection, lora, device, position,
  power, network, display, bluetooth, security, other_config, mqtt, other_module,
}
use voicetastic_core.Meshtastic.Protocol.State.{
  InboundEvent, my_info, node_info, owner, config, module_config, channel, metadata,
  config_complete, incoming_text, incoming_data, voice, queue_status, ack_or_nak, ProtocolState,
  is_snapshot, apply, apply_config, apply_module_config,
}
use voicetastic_core.Meshtastic.Protocol.Decode.{
  InboundCtx, Seen, decode_inbound, decode_variant, decode_message, decode_packet, packet_data,
  events_of, data_events, open_packet, try_pkc_decrypt, owner_events, config_events, module_events,
  own_node,
}
use voicetastic_core.Meshtastic.Protocol.Decode.Packets.{
  Justified, AllJustified, data_events-Justified,
}
use voicetastic_core.Meshtastic.Protocol.Decode.Replay.{open_packet-Opened}
use voicetastic_core.Meshtastic.Protocol.Service.{
  Service, apply_inbound, apply_transient, apply_events, signal_ack, handle_from_radio, ctx_of,
  with_seen,
}

module _ {X : Type 0} where
  -- An event that does not carry the key.
  abbrev IsKeyless : InboundEvent X → Type 0
  IsKeyless (config (security key)) = ⊥
  IsKeyless event = Unit

  abbrev AllKeyless : List (InboundEvent X) → Type 0
  AllKeyless events = All IsKeyless events

  Justified-IsKeyless :
      (pkt : MeshPacket X) (d : Data) (e : InboundEvent X) → Justified pkt d e → IsKeyless e
  Justified-IsKeyless pkt d (my_info i) j = tt
  Justified-IsKeyless pkt d (config c) j = absurd j
  Justified-IsKeyless pkt d e j = tt

  all-keyless :
      (pkt : MeshPacket X) (d : Data) (events : List (InboundEvent X))
      → AllJustified pkt d events
      → AllKeyless events
  all-keyless pkt d [] j = tt
  all-keyless pkt d (e ∷ events) j = (Justified-IsKeyless pkt d e j.0, all-keyless pkt d events j.1)

  config-keyless : (c : Option (ConfigSection X)) → AllKeyless (config_events c)
  config-keyless none = tt
  config-keyless (some (lora c)) = (tt, tt)
  config-keyless (some (device c)) = (tt, tt)
  config-keyless (some (position c)) = (tt, tt)
  config-keyless (some (power c)) = (tt, tt)
  config-keyless (some (network c)) = (tt, tt)
  config-keyless (some (display c)) = (tt, tt)
  config-keyless (some (bluetooth c)) = (tt, tt)
  config-keyless (some (security key)) = tt
  config-keyless (some (other_config c)) = tt

  module-keyless : (c : Option (ModuleSection X)) → AllKeyless (module_events c)
  module-keyless none = tt
  module-keyless (some (mqtt c)) = (tt, tt)
  module-keyless (some (other_module c)) = tt

  owner-keyless : (own : Bool) (user : Option (User X)) → AllKeyless (owner_events own user)
  owner-keyless true none = tt
  owner-keyless true (some u) = (tt, tt)
  owner-keyless false user = tt

  apply-key :
      (e : InboundEvent X) (s : ProtocolState X)
      → IsKeyless e
      → (apply e s).our_private_key ≡ s.our_private_key
  unfolding apply apply_config apply_module_config
  apply-key (my_info i) s k = refl
  apply-key (node_info n) s k = refl
  apply-key (owner u) s k = refl
  apply-key (config (lora c)) s k = refl
  apply-key (config (device c)) s k = refl
  apply-key (config (position c)) s k = refl
  apply-key (config (power c)) s k = refl
  apply-key (config (network c)) s k = refl
  apply-key (config (display c)) s k = refl
  apply-key (config (bluetooth c)) s k = refl
  apply-key (config (security c)) s k = absurd k
  apply-key (config (other_config c)) s k = refl
  apply-key (module_config (mqtt c)) s k = refl
  apply-key (module_config (other_module c)) s k = refl
  apply-key (channel ch) s k = refl
  apply-key (metadata m) s k = refl
  apply-key (config_complete n) s k = refl
  apply-key (incoming_text t) s k = refl
  apply-key (incoming_data d) s k = refl
  apply-key (voice v) s k = refl
  apply-key (queue_status q) s k = refl
  apply-key (ack_or_nak i a) s k = refl

  transient-state : (e : InboundEvent X) (s : Service X) → (apply_transient e s).0.state ≡ s.state
  unfolding apply_transient signal_ack
  transient-state (my_info i) s = refl
  transient-state (config_complete n) s = refl
  transient-state (queue_status q) s = refl
  transient-state (ack_or_nak i a) s = refl
  transient-state e s = refl

  inbound-key :
      (e : InboundEvent X) (s : Service X)
      → IsKeyless e
      → (apply_inbound e s).0.state.our_private_key ≡ s.state.our_private_key
  unfolding apply_inbound
  inbound-key e s k = elim (Bool-cases (is_snapshot e)) [
    | inl t ↦ rw t (apply-key e s.state k)
    | inr t ↦ rw t (ap (λ st. st.our_private_key) (transient-state e s))
  ]

  events-key :
      (events : List (InboundEvent X)) (s : Service X)
      → AllKeyless events
      → (apply_events events s).0.state.our_private_key ≡ s.state.our_private_key
  unfolding apply_events
  events-key [] s k = refl
  events-key (e ∷ events) s k = events-key events (apply_inbound e s).0 k.1 ∙ inbound-key e s k.0

  seen-key : (seen : Seen) (s : Service X) → (with_seen seen s).state ≡ s.state
  seen-key none s = refl
  seen-key (some l) s = refl

  module _ (decoders : Decoders X) (ciphers : Ciphers) where
    packet-keyless :
        (pkt : MeshPacket X) (ctx : InboundCtx X) (seen : Seen)
        → AllKeyless (decode_packet decoders ciphers pkt ctx seen).0
    unfolding decode_packet
    packet-keyless pkt ctx seen = of_data (packet_data decoders ciphers pkt ctx seen).0
      where
        of_data : (d : Option Data) → AllKeyless (events_of decoders pkt d)
        of_data none = unfold data_events in tt
        of_data (some d) =
            all-keyless pkt d (data_events decoders pkt d) (data_events-Justified pkt d decoders)

    variant-keyless :
        (v : FromRadio X) (ctx : InboundCtx X) (seen : Seen)
        → AllKeyless (decode_variant decoders ciphers v ctx seen).0
    unfolding decode_variant
    variant-keyless (FromRadio.my_info i) ctx seen = (tt, tt)
    variant-keyless (FromRadio.node_info ni) ctx seen =
        All-append IsKeyless (owner_events (own_node ctx.my_node_num ni.num) ni.user) _
          (owner-keyless (own_node ctx.my_node_num ni.num) ni.user) (tt, tt)
    variant-keyless (FromRadio.config c) ctx seen = config-keyless c
    variant-keyless (FromRadio.module_config c) ctx seen = module-keyless c
    variant-keyless (FromRadio.channel ch) ctx seen = (tt, tt)
    variant-keyless (FromRadio.metadata m) ctx seen = (tt, tt)
    variant-keyless (FromRadio.config_complete_id n) ctx seen = (tt, tt)
    variant-keyless (FromRadio.packet p) ctx seen = packet-keyless p ctx seen
    variant-keyless (FromRadio.queue_status q) ctx seen = (tt, tt)
    variant-keyless FromRadio.other_radio ctx seen = tt

    message-keyless :
        (m : Option (FromRadio X)) (ctx : InboundCtx X) (seen : Seen)
        → AllKeyless (decode_message decoders ciphers m ctx seen).0
    unfolding decode_variant
    message-keyless none ctx seen = tt
    message-keyless (some v) ctx seen = variant-keyless v ctx seen

    handle-none :
        (bytes : List ℕ) (s : Service X)
        → decoders.from_radio bytes ≡ none
        → handle_from_radio decoders ciphers bytes s ≡ (s, [])
    unfolding handle_from_radio decode_inbound
    handle-none bytes s e = ground (arith, e)

    handle-some :
        (bytes : List ℕ) (s : Service X) (msg : Option (FromRadio X))
        → decoders.from_radio bytes ≡ some msg
        → let r = decode_message decoders ciphers msg (ctx_of s) (some s.pkc_seen) in
          handle_from_radio decoders ciphers bytes s ≡ apply_events r.0 (with_seen r.1 s)
    unfolding handle_from_radio decode_inbound
    handle-some bytes s msg e = rw (e, decode_inbound, handle_from_radio) refl

    handle-key :
        (bytes : List ℕ) (s : Service X)
        → (handle_from_radio decoders ciphers bytes s).0.state.our_private_key
          ≡ s.state.our_private_key
    handle-key bytes s = elim (Option-cases (decoders.from_radio bytes)) [
      | inl n ↦ rw (handle-none bytes s n) refl
      | inr (msg, e) ↦
          let r = decode_message decoders ciphers msg (ctx_of s) (some s.pkc_seen) in
          rw (handle-some bytes s msg e) (
            events-key r.0 (with_seen r.1 s) (message-keyless msg (ctx_of s) (some s.pkc_seen))
            ∙ ap (λ st. st.our_private_key) (seen-key r.1 s))
    ]

    -- The frames of a session, handled one after the other.
    unfoldable pub handle_all : List (List ℕ) → Service X → Service X
    handle_all [] s = s
    handle_all (bytes ∷ frames) s = handle_all frames (handle_from_radio decoders ciphers bytes s).0

    handle_all-key :
        (frames : List (List ℕ)) (s : Service X)
        → (handle_all frames s).state.our_private_key ≡ s.state.our_private_key
    unfolding handle_all
    handle_all-key [] s = refl
    handle_all-key (bytes ∷ frames) s =
        handle_all-key frames (handle_from_radio decoders ciphers bytes s).0 ∙ handle-key bytes s

    -- The private key of the radio never arrives: after any frames, its security section among them, a
    -- service that started without a key opens no encrypted packet.
    pub handle_all-keyless :
        (frames : List (List ℕ)) (s : Service X) (from to id : ℕ) (bytes : List ℕ) (seen : Seen)
        → s.state.our_private_key ≡ none
        → (try_pkc_decrypt decoders ciphers from to id bytes (ctx_of (handle_all frames s)) seen).0
          ≡ none
    unfolding try_pkc_decrypt
    handle_all-keyless frames s from to id bytes seen k =
        let ctx : InboundCtx X = ctx_of (handle_all frames s) in
        elim (Option-cases (open_packet decoders ciphers from to id bytes ctx seen)) [
          | inl n ↦ n
          | inr (d, e) ↦
              let o = open_packet-Opened decoders ciphers from to id bytes ctx seen d e in
              absurd (cc (o.has_key, handle_all-key frames s ∙ k))
        ]
