-- ===== src/Voice/Assembler/Table/Outcome.antt =====
-- crates/voicetastic-core/src/voice/assembler/mod.rs: what a frame does to the entry of its
-- message.
use voicetastic_core.Prelude.{
  ℕ, ◌≡◌, refl, ◌⊎◌, inl, inr, none, some, List, arith, leb, ◌==◌, Bool-cases,
}
use voicetastic_core.Prelude.Assoc.{lookup}
use voicetastic_core.Proto.Error.{VoiceError, ok, err, Result-cases}
use voicetastic_core.Proto.Header.{ChunkHeader}
use voicetastic_core.Proto.ReedSolomon.{ReedSolomon}
use voicetastic_core.Voice.Types.{AssemblyEvent}
use voicetastic_core.Voice.Assembler.Config.{max_validation_strikes}
use voicetastic_core.Voice.Assembler.State.{
  AssemblyState, AssemblerInner, SenderKey, same_key, bump,
}
use voicetastic_core.Voice.Assembler.Ingest.{validate_template, grow_parity, ingest}
use voicetastic_core.Voice.Assembler.Accept.{retire, put, strike, settle, finish, apply_frame}
use voicetastic_core.Voice.Assembler.Table.Invariant.{IsTable, retire-IsTable, put-IsTable}

-- The entry of `key` was written, or has left the table.
abbrev pub Touched : AssemblerInner → SenderKey → ℕ → AssemblerInner → Type 0
Touched inner key now after =
    ((w : AssemblyState) × (after ≡ put inner key w)) ⊎ (after ≡ retire inner key now)

pub Touched-IsTable :
    (inner after : AssemblerInner) (key : SenderKey) (s : AssemblyState) (now : ℕ)
    → lookup same_key key inner.in_progress ≡ some s
    → IsTable inner
    → Touched inner key now after
    → IsTable after
Touched-IsTable inner after key s now e v (inl (w, p)) = rw (p) (put-IsTable inner key s w e v)
Touched-IsTable inner after key s now e v (inr p) = rw (p) (retire-IsTable inner key s now e v)

strike-Touched :
    (inner : AssemblerInner) (key : SenderKey) (s : AssemblyState) (now : ℕ)
    → Touched inner key now (strike inner key s now)
unfolding strike
strike-Touched inner key s now =
    elim (Bool-cases (leb max_validation_strikes (bump s.validation_strikes))) [
      | inl h ↦ inr (ground (arith, h))
      | inr h ↦ inl (record s { validation_strikes = bump s.validation_strikes }, ground (arith, h))
    ]

finish-Touched :
    (inner : AssemblerInner) (key : SenderKey) (s : AssemblyState) (channel now : ℕ)
    → Touched inner key now (finish inner key s channel now).0
unfolding finish
finish-Touched inner key s channel now =
    elim (Bool-cases (s.received_data == s.header_template.total_data)) [
      | inl h ↦ inr (ground (arith, h))
      | inr h ↦ inl (s, ground (arith, h))
    ]

abbrev pub heard_at : AssemblyState → ChunkHeader → ℕ → AssemblyState
heard_at s header now = record (grow_parity s header) { last_data_at = now }

module _ (rs : ReedSolomon) (inner : AssemblerInner) (key : SenderKey) (s : AssemblyState)
    (header : ChunkHeader) (body : List ℕ) (channel now : ℕ) where
  pub apply_mismatch :
      (e : VoiceError)
      → validate_template s header ≡ err e
      → apply_frame rs inner key s header body channel now ≡ (strike inner key s now, err e)
  unfolding apply_frame
  apply_mismatch e p = ground (arith, p)

  pub apply_refused :
      (e : VoiceError) (u : Unit {0})
      → validate_template s header ≡ ok u
      → ingest (heard_at s header now) header body ≡ err e
      → apply_frame rs inner key s header body channel now
        ≡ (put inner key (heard_at s header now), err e)
  unfolding apply_frame
  apply_refused e u p q = ground (arith, p, q)

  pub apply_event :
      (u : Unit {0}) (w : AssemblyState) (ev : AssemblyEvent)
      → validate_template s header ≡ ok u
      → ingest (heard_at s header now) header body ≡ ok (w, some ev)
      → apply_frame rs inner key s header body channel now ≡ (put inner key w, ok ev)
  unfolding apply_frame
  apply_event u w ev p q = ground (arith, p, q)

  pub apply_stored :
      (u : Unit {0}) (w : AssemblyState)
      → validate_template s header ≡ ok u
      → ingest (heard_at s header now) header body ≡ ok (w, none)
      → apply_frame rs inner key s header body channel now
        ≡ finish inner key (settle rs w (heard_at s header now).received_data now) channel now
  unfolding apply_frame
  apply_stored u w p q = ground (arith, p, q)

  pub apply-Touched : Touched inner key now (apply_frame rs inner key s header body channel now).0
  apply-Touched = elim (Result-cases (validate_template s header)) [
    | inr (e, p) ↦ rw (apply_mismatch e p) (strike-Touched inner key s now)
    | inl (u, p) ↦ elim (Result-cases (ingest (heard_at s header now) header body)) [
      | inr (e, q) ↦ rw (apply_refused e u p q) (inl (heard_at s header now, refl))
      | inl ((w, some ev), q) ↦ rw (apply_event u w ev p q) (inl (w, refl))
      | inl ((w, none), q) ↦ rw (apply_stored u w p q) (
          finish-Touched inner key (settle rs w (heard_at s header now).received_data now) channel
            now)
    ]
  ]
