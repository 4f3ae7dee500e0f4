-- ===== src/Voice/Assembler/Shards/Complete.antt =====
-- crates/voicetastic-core/src/voice/assembler/mod.rs and finalize.rs: what `accept` calls complete.
use Prim.Native.String.{String}
use voicetastic_core.Prelude.{
  ℕ, ◌≡◌, refl, sym, ◌∙◌, ap, inl, inr, true, none, some, List, [], ◌∷◌, ◌++◌, arith, ◌==◌, length,
  Bool-cases, Option-cases, All,
}
use voicetastic_core.Prelude.Bits.{IsByte}
use voicetastic_core.Prelude.Assoc.{lookup}
use voicetastic_core.Proto.Error.{ok, Result-cases}
use voicetastic_core.Proto.Mac.{Sha256}
use voicetastic_core.Proto.Header.{ChunkHeader, IsValid, parse}
use voicetastic_core.Proto.Header.Parsed.{parse-Parsed}
use voicetastic_core.Proto.ReedSolomon.{ReedSolomon}
use voicetastic_core.Voice.Nack.{parse_nack_body}
use voicetastic_core.Voice.Types.{
  VoiceDestination, VoiceMessage, AssemblyEvent, complete, duplicate,
}
use voicetastic_core.Voice.Assembler.Config.{AssemblerConfig}
use voicetastic_core.Voice.Assembler.State.{
  AssemblyState, AssemblerInner, SenderKey, Slot, same_key,
}
use voicetastic_core.Voice.Assembler.Finalize.{finalize, audio_of, padded_audio}
use voicetastic_core.Voice.Assembler.Ingest.{validate_template, ingest, ingest_data, ingest_parity}
use voicetastic_core.Voice.Assembler.Accept.{
  finish, settle, admit, insert, apply_frame, accept_chunk, accept_inner,
}
use voicetastic_core.Voice.Assembler.Table.Outcome.{
  heard_at, apply_mismatch, apply_refused, apply_event, apply_stored,
}
use voicetastic_core.Voice.Assembler.Table.Accept.{
  pruned, fresh, chunk_rejected, chunk_known, chunk_new, Type-cases,
}
use voicetastic_core.Voice.Assembler.Shards.Slots.{filled, filled-le-length}
use voicetastic_core.Voice.Assembler.Shards.Counted.{IsCounted, new_state-IsCounted}
use voicetastic_core.Voice.Assembler.Shards.Ingest.{settle-IsCounted}
use voicetastic_core.Voice.Assembler.Shards.Entry.{ingest-IsCounted}
use voicetastic_core.Voice.Assembler.Shards.Entries.{Entries}

-- Nothing is missing from the message.
abbrev pub IsWhole : VoiceMessage → Type 0
IsWhole m = (m.is_complete ≡ true) × (m.received_data ≡ m.total_data) × (m.gaps ≡ [])

gaps_kept :
    (n : ℕ) (xs : List Slot) (audio : List ℕ) (gaps : List (ℕ × ℕ))
    → filled xs ≡ length xs
    → (padded_audio n xs audio gaps).1 ≡ gaps
unfolding padded_audio filled
gaps_kept n [] audio gaps h = refl
gaps_kept n (none ∷ xs) audio gaps h = absurd (omega (arith, h, filled-le-length xs))
gaps_kept n (some p ∷ xs) audio gaps h = gaps_kept n xs (audio ++ p) gaps (omega (arith, h))

finalize-IsWhole :
    (key : SenderKey) (s : AssemblyState)
    → IsCounted s
    → s.received_data ≡ s.header_template.total_data
    → IsWhole (finalize key.0 key s true)
unfolding finalize audio_of
finalize-IsWhole key s v e = (
  refl,
  e,
  elim (Option-cases s.chunk_size) [
    | inl q ↦ ground (arith, q)
    | inr (n, q) ↦
        let g = gaps_kept n s.data_shards [] [] (omega (arith, v.received, v.data_len, e)) in
        ground (arith, q, g)
  ],
)

finish-IsWhole :
    (inner : AssemblerInner) (key : SenderKey) (s : AssemblyState) (channel now : ℕ)
    (m : VoiceMessage)
    → IsCounted s
    → (finish inner key s channel now).1 ≡ ok (complete m)
    → IsWhole m
unfolding finish
finish-IsWhole inner key s channel now m v e =
    elim (Bool-cases (s.received_data == s.header_template.total_data)) [
      | inr h ↦ absurd (ground (arith, e, h))
      | inl h ↦
          let p : m ≡ finalize key.0 key s true = ground (arith, e, h) in
          rw (p) (finalize-IsWhole key s v (ground (arith, h)))
    ]

ingest-duplicate :
    (s w : AssemblyState) (header : ChunkHeader) (body : List ℕ) (ev : AssemblyEvent)
    → ingest s header body ≡ ok (w, some ev)
    → ev ≡ duplicate
unfolding ingest ingest_data ingest_parity
ingest-duplicate s w header body ev e = ground (arith, e)

module _ (rs : ReedSolomon) (inner : AssemblerInner) (key : SenderKey) (s : AssemblyState)
    (header : ChunkHeader) (body : List ℕ) (channel now : ℕ) (m : VoiceMessage)
    (k : IsValid header) where
  apply-IsWhole :
      IsCounted s
      → (apply_frame rs inner key s header body channel now).1 ≡ ok (complete m)
      → IsWhole m
  apply-IsWhole v p = elim (Result-cases (validate_template s header)) [
    | inr (e, t) ↦
        let r = apply_mismatch rs inner key s header body channel now e t in
        absurd (ground (arith, r, p))
    | inl (tt, t) ↦ elim (Result-cases (ingest (heard_at s header now) header body)) [
      | inr (e, q) ↦
          let r = apply_refused rs inner key s header body channel now e tt t q in
          absurd (ground (arith, r, p))
      | inl ((w, some ev), q) ↦
          let r = apply_event rs inner key s header body channel now tt w ev t q in
          let d = ingest-duplicate (heard_at s header now) w header body ev q in
          absurd (ground (arith, r, p, d))
      | inl ((w, none), q) ↦
          let r = apply_stored rs inner key s header body channel now tt w t q in
          let u = ingest-IsCounted s w header body now none k t v q in
          let before = (heard_at s header now).received_data in
          finish-IsWhole inner key (settle rs w before now) channel now m
            (settle-IsCounted rs w before now u) (sym (ap (λ x. x.1) r) ∙ p)
    ]
  ]

module _ (rs : ReedSolomon) (cfg : AssemblerConfig) (before : AssemblerInner) (now wall : ℕ)
    (from : String) (to : VoiceDestination) (channel : ℕ) (header : ChunkHeader) (body : List ℕ)
    (m : VoiceMessage) (k : IsValid header) where
  accept_chunk-IsWhole :
      Entries before
      → (accept_chunk rs cfg before now wall from to channel header body).1 ≡ ok (complete m)
      → IsWhole m
  accept_chunk-IsWhole t c =
      let key : SenderKey = (from, header.message_id) in
      let clean = pruned rs cfg before now wall from to channel header body in
      elim (Result-cases (admit cfg clean key header body)) [
        | inr (e, p) ↦
            let r = chunk_rejected rs cfg before now wall from to channel header body e p in
            absurd (ground (arith, r, c))
        | inl (initial, p) ↦ elim (Option-cases (lookup same_key key before.in_progress)) [
          | inr (s, q) ↦
              let r =
                chunk_known rs cfg before now wall from to channel header body initial s p q in
              apply-IsWhole rs clean key s header body channel now m k (t key s q)
                (sym (ap (λ x. x.1) r) ∙ c)
          | inl q ↦
              let s = fresh rs cfg before now wall from to channel header body initial in
              let r = chunk_new rs cfg before now wall from to channel header body initial p q in
              let v =
                new_state-IsCounted header initial to channel now wall k.some_data
                  (omega (arith, k.total_fits)) k.parity_fits in
              apply-IsWhole rs (insert clean key s now) key s header body channel now m k v
                (sym (ap (λ x. x.1) r) ∙ c)
        ]
      ]

module _ (sha : Sha256) (rs : ReedSolomon) (cfg : AssemblerConfig) (inner : AssemblerInner)
    (now wall : ℕ) (from : String) (to : VoiceDestination) (channel : ℕ) (bytes : List ℕ)
    (m : VoiceMessage) where
  -- When the counters of the states in progress are right, a frame of bytes that completes a message
  -- gives one from which nothing is missing: it is marked complete, as many data chunks are there as
  -- the header announced, and the audio has no gap.
  pub accept-IsWhole :
      All IsByte bytes
      → Entries inner
      → (accept_inner sha rs cfg inner now wall from to channel bytes).1 ≡ ok (complete m)
      → IsWhole m
  unfolding accept_inner
  accept-IsWhole b t c = elim (Result-cases (parse sha bytes)) [
    | inr (e, p) ↦ absurd (ground (arith, c, p))
    | inl ((header, body), p) ↦
        let k = (parse-Parsed sha bytes header body b p).0 in
        elim (Type-cases header.packet_type) [
          | inl q ↦ elim (Result-cases (parse_nack_body header body)) [
            | inr (e, f) ↦ absurd (ground (arith, c, p, q, f))
            | inl (info, f) ↦ absurd (ground (arith, c, p, q, f))
          ]
          | inr (inl q) ↦
              accept_chunk-IsWhole rs cfg inner now wall from to channel header body m k t
                (ground (arith, c, p, q))
          | inr (inr q) ↦
              accept_chunk-IsWhole rs cfg inner now wall from to channel header body m k t
                (ground (arith, c, p, q))
        ]
  ]
