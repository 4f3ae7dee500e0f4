-- ===== src/Meshtastic/Serial.antt =====
-- crates/voicetastic-core/src/meshtastic/serial.rs: frames on a serial line.
pub mod Frames
pub mod Bounds
use voicetastic_core.Prelude.{
  ℕ, zero, suc, ◌+◌, ◌-◌, ◌*◌, ◌/◌, ◌%◌, Bool, true, false, ◌||◌, Option, none, some, List, [], ◌∷◌,
  ◌++◌, ltb, leb, ◌==◌, if◌then◌else◌, length,
}

abbrev pub start1 : ℕ
start1 = 0x94

abbrev pub start2 : ℕ
start2 = 0xc3

abbrev pub max_payload : ℕ
max_payload = 512

-- What the line brings: a byte, the end of the timer that runs for a frame, or an I/O error. The end
-- of the list is the end of the stream.
pub data Event : Type 0 where
  byte : ℕ → Event
  elapsed : Event
  fault : Event

-- Where `read_frame` waits: for START1, for START2, for a half of the length, for the payload.
pub data Phase : Type 0 where
  scanning started high : Phase
  low : ℕ → Phase
  body : ℕ → List ℕ → Phase

pub data Progress : Type 0 where
  go : Phase → Progress
  got : List ℕ → Progress
  failed : Progress

-- `read_exact` has one byte less to read.
abbrev pub take_byte : ℕ → List ℕ → ℕ → Progress
take_byte zero seen b = got (seen ++ (b ∷ []))
take_byte (suc left) seen b = go (body (suc left) (seen ++ (b ∷ [])))

abbrev pub check_len : ℕ → Progress
check_len len = if len == 0 || ltb max_payload len then go scanning else go (body len [])

-- A read of a byte. Out of a payload of no bytes none is read: `check_len` refuses it.
unfoldable pub on_byte : Phase → ℕ → Progress
on_byte scanning b = if b == start1 then go started else go scanning
on_byte started b = if b == start2 then go high else go scanning
on_byte high b = go (low b)
on_byte (low msb) b = check_len (msb * 256 + b)
on_byte (body zero seen) b = got seen
on_byte (body (suc left) seen) b = take_byte left seen b

-- A timer that ends resumes the scan; while it scans, no timer runs.
unfoldable pub on_event : Phase → Event → Progress
unfolding on_byte
on_event phase (byte b) = on_byte phase b
on_event phase elapsed = go scanning
on_event phase fault = failed

pub data Read : Type 0 where
  frame : List ℕ → List Event → Read
  end_of_stream : Read
  io_error : List Event → Read

unfoldable pub read_from : Phase → List Event → Read
unfolding on_event
read_from phase [] = end_of_stream
read_from phase (e ∷ events) = elim (on_event phase e) [
  | go next ↦ read_from next events
  | got payload ↦ frame payload events
  | failed ↦ io_error events
]

unfoldable pub read_frame : List Event → Read
unfolding read_from
read_frame events = read_from scanning events

-- The loop of `subscribe_inbound`: the payloads that it sends on, until the stream ends or five
-- reads in a row fail. Fuel bounds the reads; each takes an event.
unfoldable pub inbound : ℕ → ℕ → List Event → List (List ℕ)
unfolding read_frame
inbound zero read_errors events = []
inbound (suc fuel) read_errors events = elim (read_frame events) [
  | frame payload rest ↦ payload ∷ inbound fuel 0 rest
  | end_of_stream ↦ []
  | io_error rest ↦
      let more = inbound fuel (read_errors + 1) rest in if leb 5 (read_errors + 1) then [] else more
]

unfoldable pub subscribe_inbound : List Event → List (List ℕ)
unfolding inbound
subscribe_inbound events = inbound (suc (length events)) 0 events

-- The bytes that `write_to_radio` writes; `none` is a payload that is too large.
unfoldable pub write_to_radio : List ℕ → Option (List ℕ)
write_to_radio bytes =
    if ltb max_payload (length bytes)
    then none
    else some (start1 ∷ start2 ∷ (length bytes / 256 % 256) ∷ (length bytes % 256) ∷ bytes)
