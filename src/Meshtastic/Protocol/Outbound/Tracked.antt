-- ===== src/Meshtastic/Protocol/Outbound/Tracked.antt =====
-- A text whose delivery is followed: its handle stays exactly when the call succeeds.
use voicetastic_core.Prelude.{
  ℕ, ◌≤◌, ◌≡◌, ◌≢◌, ◌⊎◌, refl, Bool, true, false, none, some, List, [], ◌∷◌, ◌==◌, ltb, length, inl,
  inr, Bool-cases, arith,
}
use voicetastic_core.Prelude.Assoc.{lookup, remove}
use voicetastic_core.Prelude.Assoc.Laws.{
  Distinct, number-IsTest, lookup-cons_self, lookup-remove_self, Distinct-remove,
}
use voicetastic_core.Meshtastic.Protocol.State.{AckResult}
use voicetastic_core.Meshtastic.Protocol.Decode.{text_message_app, max_text_bytes}
use voicetastic_core.Meshtastic.Protocol.Service.{
  Service, resolved, retain_open, register_ack, discard_ack, next_id, signal_ack,
}
use voicetastic_core.Meshtastic.Protocol.Outbound.{
  ToRadio, packet, default_priority, SendError, too_large, Attempt, no_transport, unencoded, broken,
  done, Reply, accepted, refused, text_packet, send_to_radio, send_built, unless_refused,
  send_text_tracked, with_acks, with_counter,
}

abbrev pub DistinctAcks : List (ℕ × Bool) → Type 0
DistinctAcks acks = Distinct ◌==◌ acks

lookup-retain_open-none :
    (id : ℕ) (acks : List (ℕ × Bool))
    → lookup ◌==◌ id acks ≡ none
    → lookup ◌==◌ id (retain_open acks) ≡ none
unfolding lookup retain_open
lookup-retain_open-none id [] e = refl
lookup-retain_open-none id ((j, true) ∷ acks) e = ground (arith, lookup-retain_open-none id acks, e)
lookup-retain_open-none id ((j, false) ∷ acks) e =
    lookup-retain_open-none id acks (ground (arith, e))

Distinct-retain_open :
    (acks : List (ℕ × Bool)) → DistinctAcks acks → DistinctAcks (retain_open acks)
unfolding retain_open
Distinct-retain_open [] d = tt
Distinct-retain_open ((j, true) ∷ acks) (n, d) =
    (lookup-retain_open-none j acks n, Distinct-retain_open acks d)
Distinct-retain_open ((j, false) ∷ acks) (n, d) = Distinct-retain_open acks d

next_id-pos : (counter : ℕ) → (next_id counter).1 ≢ 0
unfolding next_id
next_id-pos counter e = absurd (ground (arith, e))

module _ (id : ℕ) (acks : List (ℕ × Bool)) (d : DistinctAcks acks) where
  kept_out : lookup ◌==◌ id (remove ◌==◌ id (retain_open acks)) ≡ none
  kept_out =
      lookup-remove_self ◌==◌ number-IsTest id (retain_open acks) (Distinct-retain_open acks d)

  Distinct-register_ack : DistinctAcks (register_ack id acks)
  unfolding register_ack
  Distinct-register_ack = (
    kept_out,
    Distinct-remove ◌==◌ number-IsTest id (retain_open acks) (Distinct-retain_open acks d),
  )

  lookup-register_ack : lookup ◌==◌ id (register_ack id acks) ≡ some true
  unfolding register_ack
  lookup-register_ack =
      lookup-cons_self ◌==◌ number-IsTest id true (remove ◌==◌ id (retain_open acks))

  Distinct-discard_ack : DistinctAcks (discard_ack id (register_ack id acks))
  unfolding discard_ack
  Distinct-discard_ack =
      Distinct-remove ◌==◌ number-IsTest id (register_ack id acks) Distinct-register_ack

  lookup-discard_ack : lookup ◌==◌ id (discard_ack id (register_ack id acks)) ≡ none
  unfolding discard_ack
  lookup-discard_ack =
      lookup-remove_self ◌==◌ number-IsTest id (register_ack id acks) Distinct-register_ack

-- The packet of a direct text.
abbrev pub direct_text : ℕ → List ℕ → ℕ → ℕ → ToRadio
direct_text id text channel to = packet (record {
  to = to;
  channel = channel;
  id = id;
  want_ack = true;
  hop_limit = 3;
  priority = default_priority;
  portnum = text_message_app;
  payload = text;
  want_response = false;
})

text_packet-fits :
    (id channel to : ℕ) (text : List ℕ)
    → ltb max_text_bytes (length text) ≡ false
    → text_packet id text channel (some to) ≡ some (direct_text id text channel to)
unfolding text_packet
text_packet-fits id channel to text e = ground (arith, e)

text_packet-large :
    (id channel to : ℕ) (text : List ℕ)
    → ltb max_text_bytes (length text) ≡ true
    → text_packet id text channel (some to) ≡ none
unfolding text_packet
text_packet-large id channel to text e = ground (arith, e)

module _ {X : Type 0} where
  -- One handle waits for the packet: the first report resolves it, a second one finds none.
  pub record Awaits (id : ℕ) (s : Service X) : Type 0 where
    pub first : (r : AckResult) → (signal_ack id r s).1 ≡ resolved id r ∷ []
    pub second : (r q : AckResult) → (signal_ack id q (signal_ack id r s).0).1 ≡ []

  told_once :
      (id : ℕ) (s : Service X)
      → DistinctAcks s.pending_acks
      → lookup ◌==◌ id s.pending_acks ≡ some true
      → Awaits id s
  unfolding signal_ack
  told_once id s d e =
      let n = lookup-remove_self ◌==◌ number-IsTest id s.pending_acks d in
      record { first = λ r. ground (arith, e); second = λ r q. ground (arith, n) }

  not_told :
      (id : ℕ) (s : Service X)
      → lookup ◌==◌ id s.pending_acks ≡ none
      → (q : AckResult) → (signal_ack id q s).1 ≡ []
  unfolding signal_ack
  not_told id s e q = ground (arith, e)

  -- What a call with an id comes to.
  pub record Tracked (attempt : Attempt) (text : List ℕ) (channel to id : ℕ)
      (r : Service X × List ToRadio × Reply) : Type 0 where
    pub positive : id ≢ 0
    pub distinct : DistinctAcks r.0.pending_acks
    pub succeeds : attempt ≡ done → length text ≤ max_text_bytes → r.2 ≡ accepted id
    pub sent :
        (i : ℕ)
        → r.2 ≡ accepted i
        → (i ≡ id) × (r.1 ≡ direct_text id text channel to ∷ []) × Awaits id r.0
    pub failed :
        (e : SendError)
        → r.2 ≡ refused e
        → ((r.1 ≡ []) ⊎ ((attempt ≡ broken true) × (r.1 ≡ direct_text id text channel to ∷ [])))
          × (lookup ◌==◌ id r.0.pending_acks ≡ none)
          × ((q : AckResult) → (signal_ack id q r.0).1 ≡ [])

  module _ (s : Service X) (d : DistinctAcks s.pending_acks) (text : List ℕ) (channel to id c : ℕ)
      (p : id ≢ 0) where
    abbrev registered : Service X
    registered = with_acks (register_ack id s.pending_acks) (with_counter c s)

    refused-Tracked :
        (attempt : Attempt) (sent : List ToRadio) (e : SendError)
        → ((sent ≡ []) ⊎ ((attempt ≡ broken true) × (sent ≡ direct_text id text channel to ∷ [])))
        → (attempt ≡ done → length text ≤ max_text_bytes → ⊥)
        → Tracked attempt text channel to id (unless_refused id (registered, sent, refused e))
    unfolding unless_refused
    refused-Tracked attempt sent e out n =
        let gone = lookup-discard_ack id s.pending_acks d in
        record {
          positive = p;
          distinct = Distinct-discard_ack id s.pending_acks d;
          succeeds = λ a l. absurd (n a l);
          sent = λ i q. absurd cc;
          failed = λ f q. (out, gone, not_told id _ gone);
        }

    built-Tracked :
        (attempt : Attempt)
        → Tracked attempt text channel to id (
            unless_refused id
              (send_built attempt too_large id (some (direct_text id text channel to)) registered))
    unfolding send_to_radio send_built unless_refused
    built-Tracked no_transport =
        refused-Tracked no_transport [] SendError.not_connected (inl refl) (λ a l. cc)
    built-Tracked unencoded =
        refused-Tracked unencoded [] SendError.not_encoded (inl refl) (λ a l. cc)
    built-Tracked (broken false) =
        refused-Tracked (broken false) [] SendError.not_written (inl refl) (λ a l. cc)
    built-Tracked (broken true) =
        refused-Tracked (broken true) _ SendError.not_written (inr (refl, refl)) (λ a l. cc)
    built-Tracked done = record {
      positive = p;
      distinct = Distinct-register_ack id s.pending_acks d;
      succeeds = λ a l. refl;
      sent = λ i q. (
        cc,
        refl,
        told_once id registered (Distinct-register_ack id s.pending_acks d)
            (lookup-register_ack id s.pending_acks d),
      );
      failed = λ e q. absurd cc;
    }

  -- Whether the transport takes the packet, fails before it leaves, or fails with the packet out
  -- already: a call that succeeds has sent the one packet and answers its id, which is not zero, and
  -- one handle waits for it, that the first report resolves and a second one does not; a call that
  -- fails leaves no handle, so that a report that comes after all resolves none, and no message left
  -- as a whole, but for the packet itself where the transport failed with it out; a text within the
  -- limit is sent when the transport takes it; and no packet has two handles.
  pub send_text_tracked-Tracked :
      (attempt : Attempt) (text : List ℕ) (channel to : ℕ) (s : Service X)
      → DistinctAcks s.pending_acks
      → Tracked attempt text channel to
          (next_id s.next_packet_id).1
          (send_text_tracked attempt text channel to s)
  unfolding send_text_tracked send_built
  send_text_tracked-Tracked attempt text channel to s d =
      let id : ℕ = (next_id s.next_packet_id).1 in
      let c : ℕ = (next_id s.next_packet_id).0 in
      let p = next_id-pos s.next_packet_id in
      elim (Bool-cases (ltb max_text_bytes (length text))) [
        | inl e ↦ rw (text_packet-large id channel to text e) (
            refused-Tracked s d text channel to id c p attempt [] too_large (inl refl)
              (λ a l. ground (arith, e, l)))
        | inr e ↦
            rw (text_packet-fits id channel to text e)
              (built-Tracked s d text channel to id c p attempt)
      ]
