-- ===== src/Meshtastic/Protocol/Decode/Packets.antt =====
-- What justifies each event that a packet leads to.
use voicetastic_core.Prelude.{
  ℕ, ◌≤◌, ◌≡◌, ◌≢◌, refl, Bool, true, false, Option, none, some, List, [], ◌∷◌, All, arith, ltb,
  ◌==◌, if◌then◌else◌, length, get_elem?,
}
use voicetastic_core.Prelude.Int.{eq_ℤ}
use voicetastic_core.Prelude.Utf8.{is_utf8}
use voicetastic_core.Proto.Consts.{protocol_version}
use voicetastic_core.Meshtastic.Messages.{
  Decoders, MeshPacket, Data, get_owner_response, get_channel_response,
  get_device_metadata_response, other_admin, AdminVariant, RoutingVariant, error_reason,
  other_routing,
}
use voicetastic_core.Meshtastic.Protocol.State.{
  InboundEvent, owner, channel, metadata, incoming_text, incoming_data, voice, ack_or_nak,
}
use voicetastic_core.Meshtastic.Protocol.Decode.{
  data_events, admin_or_other, other_events, text_events, application_events, routing_events,
  has_version, is_voice, routing_app, admin_app, text_message_app, private_app, max_text_bytes,
  text_event, data_event, voice_event,
}

module _ {X : Type 0} (pkt : MeshPacket X) (d : Data) where
  -- The port, the limits and the content that an event stands for. The events of the config burst are
  -- never the work of a packet.
  abbrev pub Justified : InboundEvent X → Type 0
  Justified (owner user) = eq_ℤ d.portnum admin_app ≡ true
  Justified (channel ch) = eq_ℤ d.portnum admin_app ≡ true
  Justified (metadata m) = eq_ℤ d.portnum admin_app ≡ true
  Justified (ack_or_nak request_id result) =
      (eq_ℤ d.portnum routing_app ≡ true) × (request_id ≡ d.request_id) × (request_id ≢ 0)
  Justified (incoming_text t) =
      (eq_ℤ d.portnum text_message_app ≡ true)
      × (length t.text ≤ max_text_bytes)
      × (is_utf8 t.text ≡ true)
      × (t.text ≡ d.payload)
      × (t.from ≡ pkt.from)
      × (t.to ≡ pkt.to)
  Justified (voice v) =
      (eq_ℤ d.portnum private_app ≡ true)
      × (get_elem? v.payload 0 ≡ some protocol_version)
      × (v.payload ≡ d.payload)
      × (v.from ≡ pkt.from)
  Justified (incoming_data x) =
      (eq_ℤ d.portnum routing_app ≡ false)
      × (x.portnum ≡ d.portnum)
      × (x.payload ≡ d.payload)
      × (x.from ≡ pkt.from)
      × (x.to ≡ pkt.to)
  Justified event = ⊥

  abbrev pub AllJustified : List (InboundEvent X) → Type 0
  AllJustified events = All Justified events

  if-AllJustified :
      (b : Bool) (xs ys : List (InboundEvent X))
      → (b ≡ true → AllJustified xs)
      → (b ≡ false → AllJustified ys)
      → AllJustified (if b then xs else ys)
  if-AllJustified true xs ys h k = h refl
  if-AllJustified false xs ys h k = k refl

  version-first : (o : Option ℕ) → has_version o ≡ true → o ≡ some protocol_version
  version-first none h = cc
  version-first (some b) h = ground arith

  application-Justified :
      eq_ℤ d.portnum routing_app ≡ false → AllJustified (application_events pkt d)
  unfolding application_events is_voice
  application-Justified r =
      let plain : Justified (data_event pkt d) = (r, refl, refl, refl, refl) in
      if-AllJustified (is_voice d) (voice_event pkt d ∷ data_event pkt d ∷ [])
        (data_event pkt d ∷ [])
        (λ v.
          let port : eq_ℤ d.portnum private_app ≡ true = ground (arith, v) in
          let first : has_version (get_elem? d.payload 0) ≡ true = ground (arith, v) in
          ((port, version-first (get_elem? d.payload 0) first, refl, refl), (plain, tt)))
        (λ v. (plain, tt))

  text-Justified :
      eq_ℤ d.portnum routing_app ≡ false
      → eq_ℤ d.portnum text_message_app ≡ true
      → AllJustified (text_events pkt d)
  unfolding text_events
  text-Justified r t =
      if-AllJustified (ltb max_text_bytes (length d.payload)) []
        (if is_utf8 d.payload then text_event pkt d ∷ [] else application_events pkt d) (λ l. tt)
        (λ l.
          if-AllJustified (is_utf8 d.payload) (text_event pkt d ∷ []) (application_events pkt d)
            (λ u. ((t, ground (arith, l), u, refl, refl, refl), tt)) (λ u. application-Justified r))

  routing-Justified :
      (decoders : Decoders X) (v : Option (Option RoutingVariant))
      → eq_ℤ d.portnum routing_app ≡ true
      → (d.request_id == 0) ≡ false
      → AllJustified (routing_events decoders d.request_id v)
  routing-Justified decoders none r z = tt
  routing-Justified decoders (some none) r z = tt
  routing-Justified decoders (some (some other_routing)) r z = tt
  routing-Justified decoders (some (some (error_reason e))) r z =
      ((r, refl, λ e. ground (arith, z)), tt)

  other-Justified : (decoders : Decoders X) → AllJustified (other_events decoders pkt d)
  unfolding other_events
  other-Justified decoders =
      if-AllJustified (eq_ℤ d.portnum routing_app)
        (if d.request_id == 0
          then []
          else routing_events decoders d.request_id (decoders.routing d.payload))
        (if eq_ℤ d.portnum text_message_app then text_events pkt d else application_events pkt d)
        (λ r.
          if-AllJustified (d.request_id == 0) []
            (routing_events decoders d.request_id (decoders.routing d.payload)) (λ z. tt)
            (λ z. routing-Justified decoders (decoders.routing d.payload) r z))
        (λ r.
          if-AllJustified (eq_ℤ d.portnum text_message_app) (text_events pkt d)
            (application_events pkt d) (λ t. text-Justified r t) (λ t. application-Justified r))

  admin-Justified :
      (decoders : Decoders X) (v : Option (Option (AdminVariant X)))
      → eq_ℤ d.portnum admin_app ≡ true
      → AllJustified (admin_or_other decoders v pkt d)
  unfolding admin_or_other other_events
  admin-Justified decoders none a = other-Justified decoders
  admin-Justified decoders (some none) a = other-Justified decoders
  admin-Justified decoders (some (some (get_owner_response u))) a = (a, tt)
  admin-Justified decoders (some (some (get_channel_response ch))) a = (a, tt)
  admin-Justified decoders (some (some (get_device_metadata_response m))) a = (a, tt)
  admin-Justified decoders (some (some other_admin)) a = tt

  -- Each event that the data of a packet leads to has the port, the limits and the content that it
  -- stands for: a text is valid, of at most 1,024 bytes and on the text port, a voice frame has the
  -- version byte and is on the private port, a delivery report answers a packet, and only admin
  -- responses touch the snapshot.
  pub data_events-Justified : (decoders : Decoders X) → AllJustified (data_events decoders pkt d)
  unfolding data_events
  data_events-Justified decoders =
      if-AllJustified (eq_ℤ d.portnum admin_app)
        (admin_or_other decoders (decoders.admin_message d.payload) pkt d)
        (other_events decoders pkt d)
        (λ a. admin-Justified decoders (decoders.admin_message d.payload) a)
        (λ a. other-Justified decoders)
