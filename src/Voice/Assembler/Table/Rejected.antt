-- ===== src/Voice/Assembler/Table/Rejected.antt =====
-- crates/voicetastic-core/src/voice/assembler/mod.rs: a frame that is rejected neither opens a
-- message nor displaces one.
use Prim.Native.String.{String}
use voicetastic_core.Prelude.{
  ℕ, zero, suc, ◌≡◌, ◌≢◌, refl, sym, ◌∙◌, inl, inr, Option, none, some, List, arith, ap, get_or,
  replicate,
}
use voicetastic_core.Prelude.Assoc.{lookup}
use voicetastic_core.Proto.Types.{codec_eq_iff}
use voicetastic_core.Proto.Error.{VoiceError, ok, err, Result-cases}
use voicetastic_core.Proto.Header.{ChunkHeader, parse}
use voicetastic_core.Proto.Mac.{Sha256}
use voicetastic_core.Proto.ReedSolomon.{ReedSolomon}
use voicetastic_core.Voice.Assembler.Config.{AssemblerConfig}
use voicetastic_core.Voice.Types.{VoiceDestination}
use voicetastic_core.Voice.Assembler.State.{
  AssemblyState, AssemblerInner, SenderKey, same_key, Slot, new_state,
}
use voicetastic_core.Voice.Assembler.Ingest.{
  derive_initial_chunk_size, validate_template, grow_parity, ingest, ingest_data, ingest_parity,
  pin_chunk_size,
}
use voicetastic_core.Voice.Assembler.Accept.{
  admit, insert, settle, finish, apply_frame, accept_chunk, accept_inner,
}
use voicetastic_core.Voice.Assembler.Table.Outcome.{heard_at, apply_event, apply_stored}
use voicetastic_core.Voice.Assembler.Table.Accept.{pruned, chunk_rejected, chunk_new, Type-cases}

get_or-replicate : (n i : ℕ) → get_or {A = Slot} (replicate n none) i none ≡ none
get_or-replicate zero i = refl
get_or-replicate (suc n) zero = refl
get_or-replicate (suc n) (suc i) = get_or-replicate n i

module _ (header : ChunkHeader) (initial : Option ℕ) (to : VoiceDestination) (channel now wall : ℕ)
    (body : List ℕ) where
  abbrev opened : AssemblyState
  opened = new_state header initial to channel now wall

  -- The first frame agrees with the template that it sets.
  validate-opened : validate_template opened header ≡ ok tt
  unfolding validate_template new_state
  validate-opened = ground (arith, (codec_eq_iff header.codec header.codec).1 refl)

  -- And its body is never refused.
  ingest-opened :
      (e : VoiceError)
      → derive_initial_chunk_size header body ≡ ok initial
      → ingest (heard_at opened header now) header body ≢ err e
  unfolding derive_initial_chunk_size ingest ingest_data ingest_parity pin_chunk_size new_state
      grow_parity
  ingest-opened e d p = ground (arith, d, p)

admit-derive :
    (cfg : AssemblerConfig) (inner : AssemblerInner) (key : SenderKey) (header : ChunkHeader)
    (body : List ℕ) (initial : Option ℕ)
    → admit cfg inner key header body ≡ ok initial
    → derive_initial_chunk_size header body ≡ ok initial
unfolding admit
admit-derive cfg inner key header body initial e = ground (arith, e)

finish-ok :
    (inner : AssemblerInner) (key : SenderKey) (s : AssemblyState) (channel now : ℕ)
    (e : VoiceError)
    → (finish inner key s channel now).1 ≢ err e
unfolding finish
finish-ok inner key s channel now e p = ground (arith, p)

-- A frame that agrees with its state is not answered by an error.
apply-ok :
    (rs : ReedSolomon) (inner : AssemblerInner) (key : SenderKey) (s : AssemblyState)
    (header : ChunkHeader) (body : List ℕ) (channel now : ℕ) (e : VoiceError)
    → validate_template s header ≡ ok tt
    → ((f : VoiceError) → ingest (heard_at s header now) header body ≢ err f)
    → (apply_frame rs inner key s header body channel now).1 ≢ err e
apply-ok rs inner key s header body channel now e v g p =
    elim (Result-cases (ingest (heard_at s header now) header body)) [
      | inr (f, q) ↦ absurd (g f q)
      | inl ((w, some ev), q) ↦
          let r = apply_event rs inner key s header body channel now tt w ev v q in
          absurd (ground (arith, r, p))
      | inl ((w, none), q) ↦
          let r = apply_stored rs inner key s header body channel now tt w v q in
          absurd (
            finish-ok inner key (settle rs w (heard_at s header now).received_data now) channel now
              e (sym (ap (λ x. x.1) r) ∙ p))
    ]

module _ (rs : ReedSolomon) (cfg : AssemblerConfig) (before : AssemblerInner) (now wall : ℕ)
    (from : String) (to : VoiceDestination) (channel : ℕ) (header : ChunkHeader) (body : List ℕ)
    (e : VoiceError) where
  chunk-Unmoved :
      lookup same_key (from, header.message_id) before.in_progress ≡ none
      → (accept_chunk rs cfg before now wall from to channel header body).1 ≡ err e
      → (accept_chunk rs cfg before now wall from to channel header body).0
        ≡ pruned rs cfg before now wall from to channel header body
  chunk-Unmoved n p =
      let key : SenderKey = (from, header.message_id) in
      let clean = pruned rs cfg before now wall from to channel header body in
      elim (Result-cases (admit cfg clean key header body)) [
        | inr (f, q) ↦
            ap (λ x. x.0) (chunk_rejected rs cfg before now wall from to channel header body f q)
        | inl (initial, q) ↦
            let r = chunk_new rs cfg before now wall from to channel header body initial q n in
            let s = opened header initial to channel now wall body in
            absurd (
              apply-ok rs (insert clean key s now) key s header body channel now e
                (validate-opened header initial to channel now wall body)
                (λ f.
                  ingest-opened header initial to channel now wall body f
                    (admit-derive cfg clean key header body initial q))
                (sym (ap (λ x. x.1) r) ∙ p))
      ]

-- The messages in progress and their counts are as they were.
abbrev pub Unmoved : AssemblerInner → AssemblerInner → Type 0
Unmoved before after =
    (after.in_progress ≡ before.in_progress) × (after.per_sender ≡ before.per_sender)

module _ (sha : Sha256) (rs : ReedSolomon) (cfg : AssemblerConfig) (inner : AssemblerInner)
    (now wall : ℕ) (from : String) (to : VoiceDestination) (channel : ℕ) (bytes : List ℕ)
    (e : VoiceError) where
  -- A frame that is answered by an error, and is not one of a message in progress, leaves the
  -- messages in progress and the counts per sender as they were.
  pub accept_inner-Unmoved :
      (accept_inner sha rs cfg inner now wall from to channel bytes).1 ≡ err e
      → ((header : ChunkHeader) (body : List ℕ)
          → parse sha bytes ≡ ok (header, body)
          → lookup same_key (from, header.message_id) inner.in_progress ≡ none)
      → Unmoved inner (accept_inner sha rs cfg inner now wall from to channel bytes).0
  accept_inner-Unmoved p n = elim (Result-cases (parse sha bytes)) [
    | inr (f, q) ↦
        let r : (accept_inner sha rs cfg inner now wall from to channel bytes).0 ≡ inner =
          unfold accept_inner in ground (arith, q) in
        rw (r) (refl, refl)
    | inl ((header, body), q) ↦ elim (Type-cases header.packet_type) [
      | inl t ↦
          let r : (accept_inner sha rs cfg inner now wall from to channel bytes).0 ≡ inner =
            unfold accept_inner in ground (arith, q, t) in
          rw (r) (refl, refl)
      | inr t ↦
          let r : accept_inner sha rs cfg inner now wall from to channel bytes
              ≡ accept_chunk rs cfg inner now wall from to channel header body =
            unfold accept_inner in
            elim t [ inl d ↦ ground (arith, q, d) | inr d ↦ ground (arith, q, d) ] in
          let u =
            chunk-Unmoved rs cfg inner now wall from to channel header body e (n header body q)
              (sym (ap (λ x. x.1) r) ∙ p) in
          rw (r, u) (refl, refl)
    ]
  ]
