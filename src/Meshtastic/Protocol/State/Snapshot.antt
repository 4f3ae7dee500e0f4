-- ===== src/Meshtastic/Protocol/State/Snapshot.antt =====
-- What the events make of the snapshot.
use voicetastic_core.Prelude.{◌≡◌, refl, ap, false, none, some, List, [], ◌∷◌}
use voicetastic_core.Meshtastic.Messages.{
  ConfigSection, lora, device, position, power, network, display, bluetooth, security, other_config,
  mqtt, other_module,
}
use voicetastic_core.Meshtastic.Protocol.State.{
  InboundEvent, my_info, node_info, owner, config, module_config, channel, metadata,
  config_complete, incoming_text, incoming_data, voice, queue_status, ack_or_nak, ProtocolState,
  is_snapshot, apply, apply_config, apply_module_config, clear_config, default_state,
}
use voicetastic_core.Meshtastic.Protocol.State.Channels.{IsRising, upsert-updates}

module _ {X : Type 0} where
  -- Events applied in their order.
  unfoldable pub apply_all : List (InboundEvent X) → ProtocolState X → ProtocolState X
  apply_all [] s = s
  apply_all (e ∷ events) s = apply_all events (apply e s)

  apply_config-channels :
      (c : ConfigSection X) (s : ProtocolState X) → (apply_config c s).channels ≡ s.channels
  unfolding apply_config
  apply_config-channels (lora c) s = refl
  apply_config-channels (device c) s = refl
  apply_config-channels (position c) s = refl
  apply_config-channels (power c) s = refl
  apply_config-channels (network c) s = refl
  apply_config-channels (display c) s = refl
  apply_config-channels (bluetooth c) s = refl
  apply_config-channels (security c) s = refl
  apply_config-channels (other_config c) s = refl

  apply-channels :
      (e : InboundEvent X) (s : ProtocolState X)
      → IsRising s.channels
      → IsRising (apply e s).channels
  unfolding apply apply_module_config
  apply-channels (my_info i) s r = r
  apply-channels (node_info n) s r = r
  apply-channels (owner u) s r = r
  apply-channels (config c) s r = rw (apply_config-channels c s) r
  apply-channels (module_config (mqtt c)) s r = r
  apply-channels (module_config (other_module c)) s r = r
  apply-channels (channel ch) s r = (upsert-updates ch s.channels r).0
  apply-channels (metadata m) s r = r
  apply-channels (config_complete n) s r = r
  apply-channels (incoming_text t) s r = r
  apply-channels (incoming_data d) s r = r
  apply-channels (voice v) s r = r
  apply-channels (queue_status q) s r = r
  apply-channels (ack_or_nak i a) s r = r

  pub apply_all-channels :
      (events : List (InboundEvent X)) (s : ProtocolState X)
      → IsRising s.channels
      → IsRising (apply_all events s).channels
  unfolding apply_all
  apply_all-channels [] s r = r
  apply_all-channels (e ∷ events) s r = apply_all-channels events (apply e s) (apply-channels e s r)

  -- An event that is no snapshot leaves the state alone.
  pub apply-transient :
      (e : InboundEvent X) (s : ProtocolState X) → is_snapshot e ≡ false → apply e s ≡ s
  unfolding apply is_snapshot
  apply-transient (my_info i) s h = cc
  apply-transient (node_info n) s h = cc
  apply-transient (owner u) s h = cc
  apply-transient (config c) s h = cc
  apply-transient (module_config c) s h = cc
  apply-transient (channel ch) s h = cc
  apply-transient (metadata m) s h = cc
  apply-transient (config_complete n) s h = refl
  apply-transient (incoming_text t) s h = refl
  apply-transient (incoming_data d) s h = refl
  apply-transient (voice v) s h = refl
  apply-transient (queue_status q) s h = refl
  apply-transient (ack_or_nak i a) s h = refl

  -- The part of the state that the config burst rebuilds: all but the identity.
  abbrev pub rebuilt : ProtocolState X → ProtocolState X
  rebuilt s = record s { my_info = none; nodes = []; owner = none; metadata = none }

  apply-rebuilt :
      (e : InboundEvent X) (s t : ProtocolState X)
      → rebuilt s ≡ rebuilt t
      → rebuilt (apply e s) ≡ rebuilt (apply e t)
  unfolding apply apply_config apply_module_config
  apply-rebuilt (my_info i) s t h = h
  apply-rebuilt (node_info n) s t h = h
  apply-rebuilt (owner u) s t h = h
  apply-rebuilt (config (lora c)) s t h = ap (λ (r : ProtocolState X). record r { lora = some c }) h
  apply-rebuilt (config (device c)) s t h =
      ap (λ (r : ProtocolState X). record r { device = some c }) h
  apply-rebuilt (config (position c)) s t h =
      ap (λ (r : ProtocolState X). record r { position = some c }) h
  apply-rebuilt (config (power c)) s t h =
      ap (λ (r : ProtocolState X). record r { power = some c }) h
  apply-rebuilt (config (network c)) s t h =
      ap (λ (r : ProtocolState X). record r { network = some c }) h
  apply-rebuilt (config (display c)) s t h =
      ap (λ (r : ProtocolState X). record r { display = some c }) h
  apply-rebuilt (config (bluetooth c)) s t h =
      ap (λ (r : ProtocolState X). record r { bluetooth = some c }) h
  apply-rebuilt (config (security k)) s t h =
      ap
        (λ (r : ProtocolState X). record r {
          our_private_key = (apply_config (security k) s).our_private_key;
        })
        h
  apply-rebuilt (config (other_config c)) s t h = h
  apply-rebuilt (module_config (mqtt c)) s t h =
      ap (λ (r : ProtocolState X). record r { mqtt = some c }) h
  apply-rebuilt (module_config (other_module c)) s t h = h
  apply-rebuilt (channel ch) s t h =
      ap (λ (r : ProtocolState X). record r { channels = (apply (channel ch) r).channels }) h
  apply-rebuilt (metadata m) s t h = h
  apply-rebuilt (config_complete n) s t h = h
  apply-rebuilt (incoming_text x) s t h = h
  apply-rebuilt (incoming_data d) s t h = h
  apply-rebuilt (voice v) s t h = h
  apply-rebuilt (queue_status q) s t h = h
  apply-rebuilt (ack_or_nak i a) s t h = h

  apply_all-rebuilt :
      (events : List (InboundEvent X)) (s t : ProtocolState X)
      → rebuilt s ≡ rebuilt t
      → rebuilt (apply_all events s) ≡ rebuilt (apply_all events t)
  unfolding apply_all
  apply_all-rebuilt [] s t h = h
  apply_all-rebuilt (e ∷ events) s t h =
      apply_all-rebuilt events (apply e s) (apply e t) (apply-rebuilt e s t h)

  -- Nothing of an earlier burst survives `clear_config`: what the next events make of the sections,
  -- the channels and the key is what they make of a fresh state.
  pub clear_config-fresh :
      (events : List (InboundEvent X)) (s : ProtocolState X)
      → rebuilt (apply_all events (clear_config s)) ≡ rebuilt (apply_all events default_state)
  clear_config-fresh events s =
      apply_all-rebuilt events (clear_config s) default_state (unfold clear_config in refl)
