-- ===== src/Tests/Links.antt =====
-- The theorems about the links to the radio, applied to short runs.
use voicetastic_core.Prelude.{refl, ℕ, ◌≡◌, arith, List, [], ◌∷◌, ◌++◌}
use voicetastic_core.Prelude.Assoc.{lookup}
use voicetastic_core.Meshtastic.Serial.{byte, elapsed, subscribe_inbound, read_frame, start1, Event}
use voicetastic_core.Meshtastic.Serial.Frames.{stream, payloads, wire, subscribe-stream, stray-read}
use voicetastic_core.Meshtastic.NodeIds.RoundTrip.{ReadsBack, num-ReadsBack}
use voicetastic_core.Meshtastic.Connection.{install, reader_end, disconnect}
use voicetastic_core.Meshtastic.Connection.Generations.{
  Host, idle, connected, relinked, Reach, start, later, connects, ends, disconnects, Guarded,
  Reach-Guarded,
}

-- A pause and a byte of noise before the first payload, nothing before the second.
abbrev two_items : List (List Event × List ℕ)
two_items = ((elapsed ∷ byte 7 ∷ [], 1 ∷ 2 ∷ []) ∷ ([], 3 ∷ []) ∷ [])

subscribe-stream_example : subscribe_inbound (stream two_items) ≡ payloads two_items
subscribe-stream_example = subscribe-stream two_items (
  ((tt, ((λ e. omega (arith, e)), tt)), (omega arith, omega arith)),
  ((tt, (omega arith, omega arith)), tt),
)

stray-read_example :
    read_frame (byte start1 ∷ (wire (5 ∷ 6 ∷ []) ++ (byte 9 ∷ []))) ≡ read_frame (byte 9 ∷ [])
stray-read_example =
    stray-read (5 ∷ 6 ∷ []) (byte 9 ∷ []) (omega arith, omega arith)
      ((λ e. omega (arith, e)), ((λ e. omega (arith, e)), tt)) (λ e. omega (arith, e))

num-ReadsBack_example : ReadsBack 0xdeadbeef
num-ReadsBack_example = num-ReadsBack 0xdeadbeef (omega arith)

-- The second connection is up when the reader of the first ends.
abbrev twice : Host
unfolding lookup
twice = connected 20 (relinked (disconnect (connected 10 idle).link).0 (connected 10 idle))

twice-Reach : Reach (relinked (reader_end 1 twice.link).0 twice)
unfolding twice install disconnect lookup
twice-Reach =
    later
      (later (later (later start (connects 10 idle)) (disconnects (connected 10 idle)))
        (connects 20 _))
      (ends 0 1 twice refl)

Reach-Guarded_example : Guarded (relinked (reader_end 1 twice.link).0 twice)
Reach-Guarded_example = Reach-Guarded twice-Reach
