-- ===== src/Tests/Bursts.antt =====
-- Tests and examples of crates/voicetastic-core/src/voice/sender.rs.
use voicetastic_core.Prelude.{
  arith, ℕ, ◌≡◌, inr, refl, none, some, true, false, List, [], ◌∷◌, ◌++◌,
}
use voicetastic_core.Prelude.Assoc.{lookup, update}
use voicetastic_core.Proto.Types.{amr_nb, to_bits, from_bits}
use voicetastic_core.Proto.Error.{ok}
use voicetastic_core.Proto.Builder.{
  EncodedMessage, build_message, header_at, add_parity, frame_loop, chunks, chunks_loop, body_at,
  pad,
}
use voicetastic_core.Proto.Header.{serialize, write_logical, type_flags_byte, check_index}
use voicetastic_core.Proto.Mac.{compute_tag, verify}
use voicetastic_core.Voice.Nack.{
  mark, NackInfo, build_nack, mark_all, empty_body, nack_header, read_bitmap,
}
use voicetastic_core.Voice.Sender.{
  SendRequest, build_config, complete, gave_up, failed, burst_complete, inflight_count, clean_up,
  default_request, VoiceSender, SendTask, Draw, new_sender, send, start_send, new_task, is_active,
}
use voicetastic_core.Voice.Sender.Burst.{
  RunEvent, scheduled, refused, elapsed, accepted, run_send, start_task, next_frame, frame_accepted,
  frame_refused, drain, finalize_send,
}
use voicetastic_core.Voice.Sender.Burst.Whole.{Finishes, accepts_all, progress, run_send-Finishes}
use voicetastic_core.Voice.Sender.Requests.{on_nack, trusted_nack}
use voicetastic_core.Voice.Sender.Terminal.Heard.{IsTrusted, trusted_nack-IsTrusted}
use voicetastic_core.Voice.Sender.Terminal.Told.{Told, Reach-Told}
use voicetastic_core.Meshtastic.Protocol.State.{IncomingData}
use voicetastic_core.Prelude.Int.{pos}
use voicetastic_core.Voice.Outgoing.{
  take_from, retain_ttl, frames_for, member, without, indices, fresh_voice,
}
use voicetastic_core.Voice.Sender.Terminal.Quiet.{terminals}
use voicetastic_core.Voice.Sender.System.Tallies.{pending_of}
use voicetastic_core.Voice.Sender.System.Balance.{Reach-Waits}
use voicetastic_core.Voice.Outgoing.{take_retransmit}
use voicetastic_core.Voice.Sender.{draining}
use voicetastic_core.Voice.Sender.Requests.{serve_round, dispatch_plan}
use voicetastic_core.Voice.Sender.System.{
  answered, hears, answers, System, init, sent, ran, sends, runs, Reach, start, later,
}
use voicetastic_core.Tests.Stubs.{toy_sha, toy_digest, toy_rs}

abbrev note : SendRequest
note = record default_request { audio = 1 ∷ 2 ∷ 3 ∷ []; to = some 9; channel = 2 }

abbrev seven : ℕ → Draw
seven k = inr (0, 0, 0, 7)

abbrev note_frame : List ℕ
note_frame = serialize toy_sha (header_at (build_config 231 note 7) 1 1 0) ++ 1 ∷ 2 ∷ 3 ∷ []

abbrev note_message : EncodedMessage
note_message = record { frames = note_frame ∷ []; total_data = 1; parity_count = 0 }

abbrev note_sender : VoiceSender
note_sender = start_send note 7 note_message 100 new_sender

abbrev note_task : SendTask
note_task = new_task note none note_message

note_sent : send toy_sha toy_rs seven 231 none 100 note new_sender ≡ ok (note_sender, 7, note_task)
unfolding send new_sender add_parity frame_loop chunks chunks_loop body_at pad start_send new_task
    build_config build_message
note_sent = refl

abbrev give_up : ℕ × NackInfo
give_up = (
  7,
  record {
    message_id = 7;
    stream_seq = 0;
    total_data = 1;
    parity_count = 0;
    give_up = true;
    missing = [];
  },
)

-- The answer to a frame of the receiver, which the listener holds.
abbrev answer : ℕ × NackInfo → VoiceSender × SendTask → VoiceSender × SendTask
answer nack r = ((on_nack (λ k. 100) 0 (some nack) r.0).0, r.1)

abbrev wake : RunEvent → VoiceSender × SendTask → VoiceSender × SendTask
wake event r = run_send 7 100 event r.0 r.1

abbrev waiting : VoiceSender × SendTask
waiting = wake scheduled (wake scheduled (note_sender, note_task))

-- The receiver gives up while the task waits for the radio, which then refuses the frame.
two_ends : terminals 7 (wake refused (answer give_up waiting)).0.emitted ≡ failed 7 ∷ gave_up 7 ∷ []
unfolding run_send on_nack start_send new_task new_sender terminals clean_up frame_refused
    start_task next_frame is_active
two_ends = refl

-- The listener holds the frame, the task ends, and the listener answers.
late_end :
    terminals 7
      (answer give_up
        (wake elapsed (wake elapsed (wake scheduled (wake (accepted 55) waiting))))).0.emitted
    ≡ gave_up 7 ∷ complete 7 ∷ []
unfolding run_send on_nack start_send new_task new_sender terminals clean_up frame_accepted
    start_task next_frame is_active drain finalize_send fresh_voice
late_end = refl

run_send-Finishes_example :
    Finishes 7 100
      (scheduled ∷ accepts_all (55 ∷ []))
      (note_sender, note_task)
      (complete 7 ∷ burst_complete 7 (55 ∷ []) ∷ progress 7 1 0 1 note_sender.emitted)
unfolding start_send new_task is_active inflight_count new_sender
run_send-Finishes_example =
    run_send-Finishes 7 100 (55 ∷ []) note_sender note_task refl refl refl refl refl refl

abbrev give_up_frame : IncomingData
give_up_frame = record {
  from = 9;
  to = 4;
  channel = 2;
  portnum = pos 256;
  payload = build_nack toy_sha 7 0 amr_nb 0 1 0 [] true;
  rx_time = 0;
}

give_up_trusted : trusted_nack toy_sha give_up_frame note_sender ≡ some give_up
unfolding trusted_nack start_send build_nack serialize write_logical compute_tag toy_digest mark_all
    empty_body nack_header type_flags_byte to_bits from_bits check_index verify read_bitmap
give_up_trusted = refl

trusted_nack-IsTrusted_example : IsTrusted toy_sha give_up_frame note_sender give_up.1
trusted_nack-IsTrusted_example =
    trusted_nack-IsTrusted toy_sha give_up_frame note_sender give_up give_up_trusted

abbrev sent_one : System
sent_one = sent note_sender 7 note_task init

abbrev begun : System
begun = ran 7 (run_send 7 100 scheduled note_sender note_task) sent_one

begun-Reach : Reach begun
unfolding lookup
begun-Reach =
    later
      (later start
        (sends toy_sha toy_rs seven 231 none 100 note init note_sender 7 note_task note_sent refl))
      (runs 7 100 scheduled sent_one note_task refl)

Reach-Told_example :
    Told 7 false (is_active 7 begun.sender) false (terminals 7 begun.sender.emitted)
unfolding run_send start_task is_active lookup update start_send new_task
Reach-Told_example =
    Reach-Told begun begun-Reach 7 (run_send 7 100 scheduled note_sender note_task).1 refl

-- The first chunk is out, and the receiver asks for it again.
abbrev burst_out : System
burst_out =
    let waits =
      ran 7 (run_send 7 100 scheduled begun.sender (wake scheduled (note_sender, note_task)).1)
        begun in
    ran 7 (run_send 7 100 (accepted 55) waits.sender waiting.1) waits

abbrev asked : IncomingData
asked = record give_up_frame { payload = build_nack toy_sha 7 0 amr_nb 0 1 0 (0 ∷ []) false }

abbrev asking : System
asking = record burst_out { heard = trusted_nack toy_sha asked burst_out.sender }

abbrev resending : System
resending = answered (on_nack (λ k. 200) 0 asking.heard asking.sender) asking

resending-Reach : Reach resending
unfolding lookup update run_send start_task next_frame is_active start_send new_task
resending-Reach =
    later
      (later
        (later
          (later begun-Reach
            (runs 7 100 scheduled begun (wake scheduled (note_sender, note_task)).1 refl))
          (runs 7 100 (accepted 55) _ waiting.1 refl))
        (hears toy_sha asked burst_out))
      (answers (λ k. 200) 0 asking)

resending-pending : pending_of 7 resending.pending ≡ 1
unfolding pending_of on_nack trusted_nack build_nack serialize write_logical compute_tag toy_digest
    mark_all empty_body nack_header type_flags_byte to_bits from_bits check_index verify read_bitmap
    serve_round take_retransmit dispatch_plan mark run_send new_task start_send fresh_voice update
    take_from retain_ttl new_sender frames_for member without indices
resending-pending = refl

abbrev lingered : SendTask
lingered = record note_task { phase = draining 900 }

Reach-Waits_example :
    run_send 7 300 elapsed resending.sender lingered ≡ (resending.sender, lingered)
Reach-Waits_example =
    Reach-Waits resending resending-Reach 7 900 300 elapsed lingered refl (omega arith)
      (omega (arith, resending-pending))
