-- ===== src/Voice/Assembler/Table/Accept.antt =====
-- crates/voicetastic-core/src/voice/assembler/mod.rs: `accept` keeps the invariant of the table.
use Prim.Native.String.{String}
use voicetastic_core.Prelude.{
  ℕ, ◌<◌, ◌≡◌, refl, sym, ◌⊎◌, inl, inr, false, Option, none, some, List, arith, Option-cases,
}
use voicetastic_core.Prelude.Assoc.{lookup}
use voicetastic_core.Proto.Consts.{max_in_progress_per_sender}
use voicetastic_core.Proto.Types.{PacketType, data_packet, parity_packet, nack_packet}
use voicetastic_core.Proto.Error.{VoiceError, ok, err, Result-cases}
use voicetastic_core.Proto.Mac.{Sha256}
use voicetastic_core.Proto.Header.{ChunkHeader, parse}
use voicetastic_core.Proto.ReedSolomon.{ReedSolomon}
use voicetastic_core.Voice.Types.{VoiceDestination}
use voicetastic_core.Voice.Assembler.Config.{AssemblerConfig}
use voicetastic_core.Voice.Assembler.State.{
  AssemblyState, AssemblerInner, SenderKey, same_key, new_state,
}
use voicetastic_core.Voice.Assembler.Finalize.{is_listed}
use voicetastic_core.Voice.Assembler.Accept.{
  prune_blacklist, in_use, check_per_sender_cap, admit, insert, apply_frame, accept_chunk,
  accept_inner, accept,
}
use voicetastic_core.Voice.Assembler.Table.Counts.{get_count}
use voicetastic_core.Voice.Assembler.Table.Invariant.{IsTable, prune-IsTable}
use voicetastic_core.Voice.Assembler.Table.Outcome.{Touched-IsTable, apply-Touched}
use voicetastic_core.Voice.Assembler.Table.Insert.{insert-IsTable, lookup-insert}

-- What a frame that is admitted has passed.
admit-facts :
    (cfg : AssemblerConfig) (inner : AssemblerInner) (key : SenderKey) (header : ChunkHeader)
    (body : List ℕ) (initial : Option ℕ)
    → admit cfg inner key header body ≡ ok initial
    → (is_listed key inner.blacklist ≡ false)
      × (lookup same_key key inner.in_progress ≡ none
          → get_count key.0 inner.per_sender < max_in_progress_per_sender)
unfolding admit check_per_sender_cap in_use get_count
admit-facts cfg inner key header body initial e = (ground (arith, e), λ n. ground (arith, e, n))

module _ (rs : ReedSolomon) (cfg : AssemblerConfig) (before : AssemblerInner) (now wall : ℕ)
    (from : String) (to : VoiceDestination) (channel : ℕ) (header : ChunkHeader)
    (body : List ℕ) where
  abbrev pub key_of : SenderKey
  key_of = (from, header.message_id)

  abbrev pub pruned : AssemblerInner
  pruned = record before { blacklist = prune_blacklist before.blacklist now cfg.completion_memory }

  abbrev pub fresh : Option ℕ → AssemblyState
  fresh initial = new_state header initial to channel now wall

  pub chunk_rejected :
      (e : VoiceError)
      → admit cfg pruned key_of header body ≡ err e
      → accept_chunk rs cfg before now wall from to channel header body ≡ (pruned, err e)
  unfolding accept_chunk
  chunk_rejected e p = ground (arith, p)

  pub chunk_known :
      (initial : Option ℕ) (s : AssemblyState)
      → admit cfg pruned key_of header body ≡ ok initial
      → lookup same_key key_of before.in_progress ≡ some s
      → accept_chunk rs cfg before now wall from to channel header body
        ≡ apply_frame rs pruned key_of s header body channel now
  unfolding accept_chunk
  chunk_known initial s p q = ground (arith, p, q)

  pub chunk_new :
      (initial : Option ℕ)
      → admit cfg pruned key_of header body ≡ ok initial
      → lookup same_key key_of before.in_progress ≡ none
      → accept_chunk rs cfg before now wall from to channel header body
        ≡ apply_frame rs
            (insert pruned key_of (fresh initial) now)
            key_of
            (fresh initial)
            header
            body
            channel
            now
  unfolding accept_chunk
  chunk_new initial p q = ground (arith, p, q)

  -- The table with the new message in it.
  pub opened-IsTable :
      (initial : Option ℕ)
      → admit cfg pruned key_of header body ≡ ok initial
      → lookup same_key key_of before.in_progress ≡ none
      → IsTable before
      → IsTable (insert pruned key_of (fresh initial) now)
  opened-IsTable initial p q v =
      let w = prune-IsTable before now cfg.completion_memory v in
      let facts = admit-facts cfg pruned key_of header body initial p in
      let below = sym (w.counted from) in
      insert-IsTable pruned key_of (fresh initial) now w q facts.0 (rw (below) (facts.1 q))

  accept_chunk-IsTable :
      IsTable before → IsTable (accept_chunk rs cfg before now wall from to channel header body).0
  accept_chunk-IsTable v =
      let w = prune-IsTable before now cfg.completion_memory v in
      elim (Result-cases (admit cfg pruned key_of header body)) [
        | inr (e, p) ↦ rw (chunk_rejected e p) w
        | inl (initial, p) ↦ elim (Option-cases (lookup same_key key_of before.in_progress)) [
          | inr (s, q) ↦ rw (chunk_known initial s p q) (
              Touched-IsTable pruned _ key_of s now q w
                (apply-Touched rs pruned key_of s header body channel now))
          | inl q ↦ rw (chunk_new initial p q) (
              Touched-IsTable _ _ key_of (fresh initial) now
                (lookup-insert pruned key_of (fresh initial) now) (opened-IsTable initial p q v)
                (apply-Touched rs _ key_of (fresh initial) header body channel now))
        ]
      ]

pub Type-cases : (t : PacketType) → (t ≡ nack_packet) ⊎ ((t ≡ data_packet) ⊎ (t ≡ parity_packet))
Type-cases data_packet = inr (inl refl)
Type-cases parity_packet = inr (inr refl)
Type-cases nack_packet = inl refl

module _ (sha : Sha256) (rs : ReedSolomon) (cfg : AssemblerConfig) (inner : AssemblerInner)
    (now wall : ℕ) (from : String) (to : VoiceDestination) (channel : ℕ) (bytes : List ℕ) where
  -- Either the table is untouched, or the frame is a chunk.
  pub accept-cases :
      ((accept sha rs cfg inner now wall from to channel bytes).0 ≡ inner)
      ⊎ ((header : ChunkHeader) × (body : List ℕ) × (parse sha bytes ≡ ok (header, body))
          × (accept_inner sha rs cfg inner now wall from to channel bytes
              ≡ accept_chunk rs cfg inner now wall from to channel header body))
  unfolding accept accept_inner
  accept-cases = elim (Result-cases (parse sha bytes)) [
    | inr (e, p) ↦ inl (ground (arith, p))
    | inl ((header, body), p) ↦ elim (Type-cases header.packet_type) [
      | inl q ↦ inl (ground (arith, p, q))
      | inr (inl q) ↦ inr (header, body, p, ground (arith, p, q))
      | inr (inr q) ↦ inr (header, body, p, ground (arith, p, q))
    ]
  ]

  -- `accept` keeps the table sound, whatever the bytes and the sender.
  pub accept-IsTable :
      IsTable inner → IsTable (accept sha rs cfg inner now wall from to channel bytes).0
  unfolding accept
  accept-IsTable v = elim accept-cases [
    | inl p ↦ rw (p) v
    | inr (header, body, q, p) ↦
        rw (p) (accept_chunk-IsTable rs cfg inner now wall from to channel header body v)
  ]
