-- ===== src/Voice/Sender/Requests.antt =====
-- crates/voicetastic-core/src/voice/sender.rs: the listener for NACK frames, and the retransmits.
use voicetastic_core.Prelude.{
  ℕ, zero, suc, ◌+◌, ◌*◌, Bool, true, false, Option, none, some, List, [], ◌∷◌, ◌==◌, if◌then◌else◌,
  map, is_empty,
}
use voicetastic_core.Prelude.Int.{eq_ℤ}
use voicetastic_core.Prelude.Assoc.{lookup}
use voicetastic_core.Prelude.Options.{◌>>=◌, ◌>>◌, guard}
use voicetastic_core.Proto.Types.{PacketType, nack_packet, data_packet, parity_packet}
use voicetastic_core.Proto.Error.{Result, ok, err}
use voicetastic_core.Proto.Mac.{Sha256}
use voicetastic_core.Proto.Header.{peek_message_id, parse}
use voicetastic_core.Voice.Nack.{NackInfo, parse_nack_body}
use voicetastic_core.Voice.Outgoing.{
  OutgoingVoiceRegistry, mark_chunk_sent, take_retransmit, TakeResult, frames_to_send, skipped,
  cooldown_active, defer_nack, DeferOutcome, scheduled, already_scheduled, cooldown_elapsed, gone,
  take_deferred, ttl_expired, budget_exhausted, all_chunks_pending,
}
use voicetastic_core.Voice.Sender.{
  retransmitting, gave_up, VoiceSender, emit, clean_up, inflight_inc, inflight_dec,
}
use voicetastic_core.Meshtastic.Protocol.State.{IncomingData}
use voicetastic_core.Meshtastic.Protocol.Decode.{private_app}

unfoldable pub nack_source_allowed : Option ℕ → ℕ → Bool
nack_source_allowed none nack_from = false
nack_source_allowed (some dest) nack_from = dest == nack_from

-- `recv` lagged behind the broadcast.
unfoldable pub note_lagged : ℕ → VoiceSender → VoiceSender
note_lagged n s = record s { lagged_nack_count = s.lagged_nack_count + n }

abbrev pub of_result {ℓ} : {A : Type ℓ} → Result A → Option A
of_result (ok a) = some a
of_result (err e) = none

abbrev pub is_nack : PacketType → Bool
is_nack nack_packet = true
is_nack data_packet = false
is_nack parity_packet = false

-- The checks of the listener, up to the source of the frame.
unfoldable pub trusted_nack : Sha256 → IncomingData → VoiceSender → Option (ℕ × NackInfo)
unfolding peek_message_id parse parse_nack_body lookup nack_source_allowed
trusted_nack sha incoming s = do
  guard (eq_ℤ incoming.portnum private_app)
  id ← peek_message_id incoming.payload
  entry ← lookup ◌==◌ id s.active
  parsed ← of_result (parse sha incoming.payload)
  guard (is_nack parsed.0.packet_type)
  nack ← of_result (parse_nack_body parsed.0 parsed.1)
  guard (nack_source_allowed entry.to incoming.from)
  some (id, nack)

-- A task of the sender: a batch that is being sent, or one that sleeps.
pub data Retransmit : Type 0 where
  batch : ℕ → List (ℕ × List ℕ) → Retransmit
  waking : ℕ → ℕ → Retransmit

-- `spawn_plan_dispatch`
unfoldable pub dispatch_plan : ℕ → List (ℕ × List ℕ) → VoiceSender → VoiceSender × List Retransmit
unfolding inflight_inc
dispatch_plan id plan s =
    (inflight_inc id (emit (retransmitting id (map (λ f. f.0) plan)) s), batch id plan ∷ [])

abbrev pub with_registry : OutgoingVoiceRegistry → VoiceSender → VoiceSender
with_registry r s = record s { registry = r }

unfoldable pub scheduled_at : ℕ → ℕ → VoiceSender → VoiceSender × List Retransmit
unfolding inflight_inc
scheduled_at id deadline s = (inflight_inc id s, waking id deadline ∷ [])

-- The outcome of `defer_nack`; `again` is the next round.
abbrev pub on_deferred {ℓ} : {A : Type ℓ} → DeferOutcome → A → (ℕ → A) → A → A
on_deferred (scheduled deadline) again later done = later deadline
on_deferred already_scheduled again later done = done
on_deferred cooldown_elapsed again later done = again
on_deferred gone again later done = done

-- The outcome of `take_retransmit`; `defer` is what an active cooldown asks for.
abbrev pub on_taken {ℓ} : {A : Type ℓ} → TakeResult → (List (ℕ × List ℕ) → A) → A → A → A
on_taken (frames_to_send plan) dispatch defer done = if is_empty plan then done else dispatch plan
on_taken (skipped cooldown_active) dispatch defer done = defer
on_taken (skipped ttl_expired) dispatch defer done = done
on_taken (skipped budget_exhausted) dispatch defer done = done
on_taken (skipped all_chunks_pending) dispatch defer done = done

-- The rounds that are left; each call of the registry reads the clock.
unfoldable pub serve_round :
    ℕ → (ℕ → ℕ) → ℕ → List ℕ → ℕ → VoiceSender → VoiceSender × List Retransmit
unfolding take_retransmit defer_nack dispatch_plan scheduled_at
serve_round zero clock id missing pacing s = (s, [])
serve_round (suc rounds) clock id missing pacing s =
    let taken = take_retransmit s.registry id missing pacing (clock (2 * rounds + 1)) in
    let s' = with_registry taken.0 s in
    let deferred = defer_nack s'.registry id missing (clock (2 * rounds)) in
    let s'' = with_registry deferred.0 s' in
    let again = serve_round rounds clock id missing pacing s'' in
    on_taken taken.1 (λ plan. dispatch_plan id plan s')
      (on_deferred deferred.1 again (λ deadline. scheduled_at id deadline s'') (s'', [])) (s', [])

unfoldable pub on_nack :
    (ℕ → ℕ) → ℕ → Option (ℕ × NackInfo) → VoiceSender → VoiceSender × List Retransmit
unfolding clean_up serve_round
on_nack clock pacing none s = (s, [])
on_nack clock pacing (some (id, nack)) s =
    if nack.give_up
    then (clean_up nack.message_id (emit (gave_up nack.message_id) s), [])
    else serve_round 3 clock nack.message_id nack.missing pacing s

-- One round of the loop of `nack_listener_task`.
unfoldable pub listen :
    Sha256 → (ℕ → ℕ) → ℕ → IncomingData → VoiceSender → VoiceSender × List Retransmit
unfolding trusted_nack on_nack
listen sha clock pacing incoming s = on_nack clock pacing (trusted_nack sha incoming s) s

unfoldable pub mark_all : ℕ → List (ℕ × List ℕ) → OutgoingVoiceRegistry → OutgoingVoiceRegistry
unfolding mark_chunk_sent
mark_all id [] r = r
mark_all id ((idx, frame) ∷ plan) r = mark_all id plan (mark_chunk_sent r id idx)

-- `dispatch_retransmit_batch`, from one answer to the next; its guard is dropped at the end.
unfoldable pub batch_step :
    Bool → ℕ → List (ℕ × List ℕ) → VoiceSender → VoiceSender × List Retransmit
unfolding mark_chunk_sent mark_all inflight_dec
batch_step accepted id [] s = (inflight_dec id s, [])
batch_step true id ((idx, frame) ∷ plan) s =
    (with_registry (mark_chunk_sent s.registry id idx) s, batch id plan ∷ [])
batch_step false id ((idx, frame) ∷ plan) s =
    (inflight_dec id (with_registry (mark_all id ((idx, frame) ∷ plan) s.registry) s), [])

-- A wake-up that goes back to sleep holds a new guard and drops the one that it held.
unfoldable pub sleeps_on : ℕ → ℕ → VoiceSender → VoiceSender × List Retransmit
unfolding inflight_inc inflight_dec
sleeps_on id deadline s = (inflight_dec id (inflight_inc id s), waking id deadline ∷ [])

-- The guard of the wake-up is passed on with the batch.
unfoldable pub ships : ℕ → List (ℕ × List ℕ) → VoiceSender → VoiceSender × List Retransmit
ships id plan s = (emit (retransmitting id (map (λ f. f.0) plan)) s, batch id plan ∷ [])

unfoldable pub stops_waking : ℕ → VoiceSender → VoiceSender × List Retransmit
unfolding inflight_dec
stops_waking id s = (inflight_dec id s, [])

-- The wake-up after `take_deferred`.
unfoldable pub after_deferred :
    ℕ → ℕ → (ℕ → ℕ) → Option (List ℕ) → VoiceSender → VoiceSender × List Retransmit
unfolding take_retransmit defer_nack sleeps_on stops_waking ships
after_deferred id pacing clock none s = stops_waking id s
after_deferred id pacing clock (some missing) s =
    let taken = take_retransmit s.registry id missing pacing (clock 1) in
    let s' = with_registry taken.0 s in
    let deferred = defer_nack s'.registry id missing (clock 0) in
    let s'' = with_registry deferred.0 s' in
    on_taken taken.1 (λ plan. ships id plan s')
      (on_deferred deferred.1 (stops_waking id s'') (λ deadline. sleeps_on id deadline s'')
        (stops_waking id s''))
      (stops_waking id s')

-- `spawn_deferred_retransmit`, when its sleep is over.
unfoldable pub wake_step : ℕ → ℕ → (ℕ → ℕ) → VoiceSender → VoiceSender × List Retransmit
unfolding take_deferred after_deferred
wake_step id pacing clock s =
    let stashed = take_deferred s.registry id in
    after_deferred id pacing clock stashed.1 (with_registry stashed.0 s)
