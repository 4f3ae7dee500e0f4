-- ===== src/Tests/Senders.antt =====
-- The sender's side at concrete bursts and requests.
use voicetastic_core.Prelude.{
  ℕ, ◌≡◌, refl, ◌↔◌, inr, true, false, none, some, List, [], ◌∷◌, ◌++◌, arith, replicate, length,
  ◌*◌, ◌≤◌, ◌<◌,
}
use voicetastic_core.Proto.Consts.{millis}
use voicetastic_core.Proto.Types.{opus, long_fast, to_byte, from_byte, recommended_chunk_size}
use voicetastic_core.Proto.Error.{ok}
use voicetastic_core.Proto.Builder.{EncodedMessage, build_message}
use voicetastic_core.Voice.TxState.{VoiceTx, new_tx, next_action}
use voicetastic_core.Voice.TxState.Steps.{
  run, run-queue, next_action-send_iff, GapPassed, QueueOpen, sent_now,
}
use voicetastic_core.Voice.Outgoing.{
  OutgoingVoice, OutgoingVoiceRegistry, new_registry, register, mark_chunk_sent,
}
use voicetastic_core.Voice.SendPrep.{
  auto, PreparedVoice, prepare_voice_send, config_for, chunk_size_of,
}
use voicetastic_core.Voice.SendPrep.Total.{prepare-ok}
use voicetastic_core.Tests.Stubs.{toy_sha, toy_rs, toy_rs-IsReedSolomon}

abbrev burst : VoiceTx
burst = new_tx 1 ((0, 10 ∷ []) ∷ (1, 11 ∷ []) ∷ []) 0 (some 7) (millis 900)

run-queue_example :
    (run burst ((0, 5) ∷ (millis 10, 5) ∷ (millis 900, 5) ∷ [])).1
      ++ (run burst ((0, 5) ∷ (millis 10, 5) ∷ (millis 900, 5) ∷ [])).0.queue
    ≡ burst.queue
run-queue_example = run-queue burst ((0, 5) ∷ (millis 10, 5) ∷ (millis 900, 5) ∷ [])

burst_front : burst.queue ≡ (0, 10 ∷ []) ∷ (1, 11 ∷ []) ∷ []
unfolding new_tx
burst_front = refl

next_action-send_iff_example :
    (sent_now (next_action burst 4 3).1 ≡ (0, 10 ∷ []) ∷ [])
    ↔ (GapPassed burst.last_send_at burst.pacing 4 × QueueOpen burst.queue_block_started_at 4 3)
next_action-send_iff_example =
    next_action-send_iff burst 4 3 0 (10 ∷ []) ((1, 11 ∷ []) ∷ []) burst_front

-- A registered message of two chunks, of which the first has left the radio.
abbrev voice : OutgoingVoice
voice = record {
  frames = (10 ∷ []) ∷ (11 ∷ []) ∷ [];
  total_data = 2;
  parity_count = 0;
  channel = 0;
  dest = some 7;
  registered_at = 0;
  retransmits = 0;
  cooldown_until = none;
  pending_chunks = 1 ∷ [];
  deferred_missing = none;
  deferred_task_scheduled = false;
}

abbrev sent_message : EncodedMessage
sent_message = record { frames = (10 ∷ []) ∷ (11 ∷ []) ∷ []; total_data = 2; parity_count = 0 }

abbrev registry : OutgoingVoiceRegistry
registry = mark_chunk_sent (register new_registry 99 sent_message 0 (some 7) 0) 99 0

abbrev payload : List ℕ
payload = replicate 40 42

fits : length payload ≤ 255 * chunk_size_of (some long_fast)
unfolding recommended_chunk_size
fits = omega arith

codec_fits : (to_byte opus < 256) × (from_byte (to_byte opus) ≡ opus)
unfolding to_byte from_byte
codec_fits = (omega arith, refl)

prepare-ok_example :
    (p : PreparedVoice) × (prepare_voice_send toy_sha toy_rs
        (inr (1, 2, 3, 4))
        payload
        opus
        16
        (some long_fast)
        true
        auto
      ≡ ok p)
    × (build_message toy_sha toy_rs payload
          (config_for payload opus 16 (some long_fast) true auto p.message_id)
        ≡ ok p.encoded)
prepare-ok_example =
    prepare-ok toy_sha toy_rs toy_rs-IsReedSolomon payload opus 16 (some long_fast) true auto 1 2 3
      4 (omega arith) (omega arith) (omega arith) (omega arith) (omega arith) (omega arith) fits
      codec_fits (omega arith)
