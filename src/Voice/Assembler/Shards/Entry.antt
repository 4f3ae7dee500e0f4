-- ===== src/Voice/Assembler/Shards/Entry.antt =====
-- crates/voicetastic-core/src/voice/assembler/mod.rs: what a frame does to the counters of the state
-- of its message.
use voicetastic_core.Prelude.{
  ℕ, ◌<◌, ◌≡◌, refl, ◌⊎◌, inl, inr, Option, none, some, List, arith, ◌==◌, leb, Bool-cases,
}
use voicetastic_core.Proto.Types.{PacketType, data_packet, parity_packet}
use voicetastic_core.Proto.Error.{ok, Result-cases}
use voicetastic_core.Proto.Header.{ChunkHeader, IsIndex, IsValid}
use voicetastic_core.Proto.ReedSolomon.{ReedSolomon}
use voicetastic_core.Voice.Types.{AssemblyEvent}
use voicetastic_core.Voice.Assembler.Config.{max_validation_strikes}
use voicetastic_core.Voice.Assembler.State.{AssemblyState, AssemblerInner, SenderKey, bump}
use voicetastic_core.Voice.Assembler.Ingest.{
  validate_template, grow_parity, ingest, ingest_data, ingest_parity,
}
use voicetastic_core.Voice.Assembler.Accept.{retire, put, strike, settle, finish, apply_frame}
use voicetastic_core.Voice.Assembler.Table.Outcome.{
  heard_at, apply_mismatch, apply_refused, apply_event, apply_stored,
}
use voicetastic_core.Voice.Assembler.Table.Accept.{Type-cases}
use voicetastic_core.Voice.Assembler.Shards.Counted.{IsCounted}
use voicetastic_core.Voice.Assembler.Shards.Ingest.{
  ingest_data-IsCounted, ingest_parity-IsCounted, settle-IsCounted, grow_parity-IsCounted,
}

-- A frame that fits its template has its counts, once the parity has grown.
grown :
    (s : AssemblyState) (header : ChunkHeader)
    → validate_template s header ≡ ok tt
    → ((grow_parity s header).header_template.total_data ≡ header.total_data)
      × ((grow_parity s header).header_template.parity_count ≡ header.parity_count)
unfolding validate_template grow_parity
grown s header e = (ground (arith, e), ground (arith, e))

IsIndex-of :
    (t u : PacketType) (idx total parity : ℕ)
    → t ≡ u
    → IsIndex t idx total parity
    → IsIndex u idx total parity
IsIndex-of t u idx total parity e h = rw (← e) h

pub ingest-IsCounted :
    (s w : AssemblyState) (header : ChunkHeader) (body : List ℕ) (now : ℕ)
    (ev : Option AssemblyEvent)
    → IsValid header
    → validate_template s header ≡ ok tt
    → IsCounted s
    → ingest (heard_at s header now) header body ≡ ok (w, ev)
    → IsCounted w
unfolding ingest
ingest-IsCounted s w header body now ev k t v e =
    let g = grown s header t in
    let u = grow_parity-IsCounted s header k.parity_fits v in
    let heard = heard_at s header now in
    elim (Type-cases header.packet_type) [
      | inl p ↦ let q : w ≡ heard = ground (arith, e, p) in rw (q) u
      | inr (inl p) ↦
          let q : ingest_data heard header body ≡ ok (w, ev) = ground (arith, e, p) in
          let i : header.chunk_index < header.total_data =
            IsIndex-of header.packet_type data_packet header.chunk_index header.total_data
              header.parity_count p k.index_ok in
          ingest_data-IsCounted heard w header body ev q (omega (arith, i, g.0)) u
      | inr (inr p) ↦
          let q : ingest_parity heard header body ≡ ok (w, ev) = ground (arith, e, p) in
          let i : header.chunk_index < header.parity_count =
            IsIndex-of header.packet_type parity_packet header.chunk_index header.total_data
              header.parity_count p k.index_ok in
          ingest_parity-IsCounted heard w header body ev q (omega (arith, i, g.1)) u
    ]

-- The entry of `key` was written with a state whose counters are right, or has left the table.
abbrev pub Recounted : AssemblerInner → SenderKey → ℕ → AssemblerInner → Type 0
Recounted inner key now after =
    ((w : AssemblyState) × (after ≡ put inner key w) × IsCounted w) ⊎ (after ≡ retire inner key now)

strike-Recounted :
    (inner : AssemblerInner) (key : SenderKey) (s : AssemblyState) (now : ℕ)
    → IsCounted s
    → Recounted inner key now (strike inner key s now)
unfolding strike
strike-Recounted inner key s now v =
    elim (Bool-cases (leb max_validation_strikes (bump s.validation_strikes))) [
      | inl h ↦ inr (ground (arith, h))
      | inr h ↦
          inl (record s { validation_strikes = bump s.validation_strikes }, ground (arith, h), v)
    ]

finish-Recounted :
    (inner : AssemblerInner) (key : SenderKey) (s : AssemblyState) (channel now : ℕ)
    → IsCounted s
    → Recounted inner key now (finish inner key s channel now).0
unfolding finish
finish-Recounted inner key s channel now v =
    elim (Bool-cases (s.received_data == s.header_template.total_data)) [
      | inl h ↦ inr (ground (arith, h))
      | inr h ↦ inl (s, ground (arith, h), v)
    ]

module _ (rs : ReedSolomon) (inner : AssemblerInner) (key : SenderKey) (s : AssemblyState)
    (header : ChunkHeader) (body : List ℕ) (channel now : ℕ) (k : IsValid header)
    (v : IsCounted s) where
  pub apply-Recounted :
      Recounted inner key now (apply_frame rs inner key s header body channel now).0
  apply-Recounted = elim (Result-cases (validate_template s header)) [
    | inr (e, p) ↦
        rw (apply_mismatch rs inner key s header body channel now e p)
          (strike-Recounted inner key s now v)
    | inl (tt, p) ↦ elim (Result-cases (ingest (heard_at s header now) header body)) [
      | inr (e, q) ↦
          rw (apply_refused rs inner key s header body channel now e tt p q)
            (inl (heard_at s header now, refl, grow_parity-IsCounted s header k.parity_fits v))
      | inl ((w, some ev), q) ↦
          rw (apply_event rs inner key s header body channel now tt w ev p q)
            (inl (w, refl, ingest-IsCounted s w header body now (some ev) k p v q))
      | inl ((w, none), q) ↦ rw (apply_stored rs inner key s header body channel now tt w p q) (
          finish-Recounted inner key (settle rs w (heard_at s header now).received_data now) channel
            now
            (settle-IsCounted rs w (heard_at s header now).received_data now
              (ingest-IsCounted s w header body now none k p v q)))
    ]
  ]
