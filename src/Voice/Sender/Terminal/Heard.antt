-- ===== src/Voice/Sender/Terminal/Heard.antt =====
-- crates/voicetastic-core/src/voice/sender.rs: a frame that the listener takes in names a send that is
-- active.
use voicetastic_core.Prelude.{
  ℕ, Bool, true, false, Option, none, some, List, ◌==◌, ==_iff, ◌≡◌, refl, ap, sym, ◌∙◌,
  Option-cases, arith, inl, inr,
}
use voicetastic_core.Prelude.Assoc.{lookup}
use voicetastic_core.Prelude.Options.{◌>>=◌, ◌>>◌, guard}
use voicetastic_core.Proto.Error.{Result, ok, err}
use voicetastic_core.Proto.Types.{PacketType, nack_packet, data_packet, parity_packet}
use voicetastic_core.Proto.Mac.{Sha256}
use voicetastic_core.Proto.Header.{ChunkHeader, parse, peek_message_id}
use voicetastic_core.Proto.Header.Parsed.{peek_message_id-parse}
use voicetastic_core.Voice.Nack.{NackInfo, parse_nack_body}
use voicetastic_core.Voice.Sender.{VoiceSender, ActiveSend, is_active}
use voicetastic_core.Voice.Sender.Requests.{trusted_nack, of_result, is_nack, nack_source_allowed}
use voicetastic_core.Meshtastic.Protocol.State.{IncomingData}

-- Whether the listener holds a frame for a send.
abbrev pub names : ℕ → Option (ℕ × NackInfo) → Bool
names id none = false
names id (some (j, nack)) = id == nack.message_id

-- Chains that give something: the steps before the last one, and the rest from there.
chain_start :
    {X : Type 0} (t : Bool) (peek : Option ℕ) (k : ℕ → Option X) (x : X)
    → (guard t >> (peek >>= k)) ≡ some x
    → (id : ℕ) × (peek ≡ some id) × (k id ≡ some x)
chain_start false peek k x q = absurd cc
chain_start true none k x q = absurd cc
chain_start true (some id) k x q = (id, refl, q)

chain_entry :
    {E P X : Type 0} (entry : Option E) (parsed : Option P) (k : E → P → Option X) (x : X)
    → (entry >>= λ e. parsed >>= λ p. k e p) ≡ some x
    → (e : E) × (p : P) × (entry ≡ some e) × (parsed ≡ some p) × (k e p ≡ some x)
chain_entry none parsed k x q = absurd cc
chain_entry (some e) none k x q = absurd cc
chain_entry (some e) (some p) k x q = (e, p, refl, refl, q)

chain_end :
    {N : Type 0} (t : Bool) (body : Option N) (u : Bool) (id : ℕ) (x : ℕ × N)
    → (guard t >> (body >>= λ nack. guard u >> some (id, nack))) ≡ some x
    → (t ≡ true) × (u ≡ true) × (body ≡ some x.1)
chain_end false body u id x q = absurd cc
chain_end true none u id x q = absurd cc
chain_end true (some nack) false id x q = absurd cc
chain_end true (some nack) true id x q = (refl, refl, cc)

of_result-eq-some : {A : Type 0} (r : Result A) (a : A) → of_result r ≡ some a → r ≡ ok a
of_result-eq-some (ok b) a q = cc
of_result-eq-some (err e) a q = absurd cc

parse_nack_body-message_id :
    (h : ChunkHeader) (body : List ℕ) (nack : NackInfo)
    → parse_nack_body h body ≡ ok nack
    → nack.message_id ≡ h.message_id
unfolding parse_nack_body
parse_nack_body-message_id h body nack q = ground arith

nack_source_allowed-eq-true :
    (to : Option ℕ) (from : ℕ) → nack_source_allowed to from ≡ true → to ≡ some from
unfolding nack_source_allowed
nack_source_allowed-eq-true none from q = absurd cc
nack_source_allowed-eq-true (some dest) from q = ap some ((==_iff dest from).0 q)

is_nack-eq-true : (p : PacketType) → is_nack p ≡ true → p ≡ nack_packet
is_nack-eq-true nack_packet q = refl
is_nack-eq-true data_packet q = absurd cc
is_nack-eq-true parity_packet q = absurd cc

-- What a frame shows that the listener takes in.
pub record IsTrusted (sha : Sha256) (incoming : IncomingData) (s : VoiceSender) (nack : NackInfo)
    : Type 0 where
  pub header : ChunkHeader
  pub body : List ℕ
  pub entry : ActiveSend
  pub parses : parse sha incoming.payload ≡ ok (header, body)
  pub kind : header.packet_type ≡ nack_packet
  pub reads : parse_nack_body header body ≡ ok nack
  pub active : lookup ◌==◌ nack.message_id s.active ≡ some entry
  pub from_destination : entry.to ≡ some incoming.from

-- The listener acts on a frame only if it parses, its tag included, as a NACK for a send that is active,
-- and comes from the one node that this send is addressed to.
pub trusted_nack-IsTrusted :
    (sha : Sha256) (incoming : IncomingData) (s : VoiceSender) (x : ℕ × NackInfo)
    → trusted_nack sha incoming s ≡ some x
    → IsTrusted sha incoming s x.1
unfolding trusted_nack
trusted_nack-IsTrusted sha incoming s x q =
    let (id, hp, q1) = chain_start _ (peek_message_id incoming.payload) _ x q in
    let (entry, p, he, hh, q2) =
      chain_entry (lookup ◌==◌ id s.active) (of_result (parse sha incoming.payload)) _ x q1 in
    let (ht, hu, hn) =
      chain_end (is_nack p.0.packet_type) (of_result (parse_nack_body p.0 p.1)) _ id x q2 in
    let parses = of_result-eq-some _ _ hh in
    let reads = of_result-eq-some _ _ hn in
    let same = parse_nack_body-message_id p.0 p.1 x.1 reads in
    let seen = peek_message_id-parse sha incoming.payload p.0 p.1 parses in
    let known : x.1.message_id ≡ id = same ∙ cc (hp, seen) in
    record {
      header = p.0;
      body = p.1;
      entry = entry;
      parses = parses;
      kind = is_nack-eq-true p.0.packet_type ht;
      reads = reads;
      active = ap (λ j. lookup ◌==◌ j s.active) known ∙ he;
      from_destination = nack_source_allowed-eq-true entry.to incoming.from hu;
    }

-- A frame that the listener takes in is of an active send.
pub trusted_nack-names :
    (sha : Sha256) (incoming : IncomingData) (s : VoiceSender) (id : ℕ)
    → names id (trusted_nack sha incoming s) ≡ true
    → is_active id s ≡ true
unfolding is_active
trusted_nack-names sha incoming s id e = elim (Option-cases (trusted_nack sha incoming s)) [
  | inl n ↦ absurd (cc (ap (names id) n))
  | inr (x, q) ↦
      let named : (id == x.1.message_id) ≡ true = sym (ap (names id) q) ∙ e in
      rw ((==_iff id x.1.message_id).0 named, (trusted_nack-IsTrusted sha incoming s x q).active)
        refl
]
