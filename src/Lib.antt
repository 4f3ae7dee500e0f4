-- ===== src/Lib.antt =====
-- Voicetastic-core: short voice messages over a Meshtastic LoRa mesh, and the host side of the radio.
--
-- A recording is cut into frames of at most 231 bytes with Reed-Solomon parity
-- (crates/voicetastic-proto/src/builder.rs), each frame headed and tagged (header.rs, mac.rs). A
-- burst leaves frame by frame, paced by the radio (tx_state.rs). The receiver collects the frames of
-- each message in a bounded table (assembler/), asks for what it misses with NACK frames (nack.rs),
-- and the sender answers from a registry of its frames (outgoing.rs). The payload of a message is a
-- row of codec frames (codec/frames.rs), whose duration and concealment follow from their sizes. The
-- service (meshtastic/service) reads the radio over a serial line (serial.rs), decodes each of its
-- messages to events (protocol.rs) and applies them to its snapshot; a voice frame is one of the
-- events. The settings (settings/) choose the codec, the parity and the requests.
--
-- Files, and the code they model (proto is crates/voicetastic-proto/src, core is
-- crates/voicetastic-core/src, service is core/meshtastic/service):
--   Prelude                the shared names, list lemmas, Boolean tests, maps, integers, UTF-8, chains
--                          of options, tables of bit operations
--   Proto/Consts           proto/consts.rs
--   Proto/Types            proto/types.rs: packet types, codecs, modem presets
--   Proto/Error            proto/error.rs: VoiceError, and the result type with its do blocks
--   Proto/Mac              proto/mac.rs: compute_tag, verify; SHA-256 is the parameter Sha256
--   Proto/Header           proto/header.rs: ChunkHeader, serialize, parse, peek_message_id
--   Proto/ReedSolomon      the coder of reed-solomon-erasure: a parameter with its documented laws
--   Proto/Builder          proto/builder.rs: build_message
--   Voice/Nack             core/voice/nack.rs: build_nack, parse_nack_body
--   Voice/Types            core/voice/types.rs and message.rs
--   Voice/Assembler        core/voice/assembler: Config (config.rs), State (state.rs), Finalize
--                          (finalize.rs), Ingest, Accept and Tick (mod.rs); Table has the
--                          proofs about the table, Shards those about the counters of a state
--   Voice/TxState          core/voice/tx_policy.rs and tx_state.rs: VoiceTx, next_action
--   Voice/Outgoing         core/voice/outgoing.rs: OutgoingVoiceRegistry
--   Voice/Sender           core/voice/sender.rs: VoiceSender and send; Burst is run_send, Requests the
--                          listener and the retransmits, System the steps of all of them and the
--                          counts of what is under way, Terminal what is told of a send
--   Voice/SendPrep         core/voice/send_prep.rs, and VoiceFecMode::resolve of core/settings/api.rs
--   Voice/NackMode         VoiceNackMode::resolve of core/settings/api.rs, and the closure with which
--                          crates/voicetastic-gui/src/watchers.rs applies it (apply_params)
--   Codec/Frames           core/codec/frames.rs: the iterators; Walk, Packets, RoundTrip and Samples
--                          have the proofs
--   Codec/Duration         core/codec/mod.rs: payload_duration_ms and its variant for gaps, and the
--                          loop over fixed frames of imp.rs; Timeline and Fixed have the proofs
--   Meshtastic/Reconnect   core/meshtastic/reconnect.rs: BleReconnectPolicy
--   Meshtastic/Serial      core/meshtastic/serial.rs: read_frame, the reading loop, write_to_radio
--   Meshtastic/NodeIds     core/meshtastic/ids.rs and core/node.rs
--   Meshtastic/Pkc         core/meshtastic/pkc.rs: decrypt; the crates it calls are the parameter Ciphers
--   Meshtastic/Messages    what the core reads of the generated messages; their decoders are the
--                          parameter Decoders
--   Meshtastic/Protocol    service/protocol.rs: State (events and ProtocolState), Decode
--                          (decode_inbound); Service is service/inbound.rs and the delivery reports of
--                          outbound.rs, Outbound its other calls and the packets that they send
--   Meshtastic/Campaign    service/mod.rs: the watcher of MeshtasticService::new that brings a lost link
--                          back, with connect_by_address and disconnect at their return
--   Meshtastic/Connection  service/mod.rs: who fills and clears the transport slot
--   Settings/Keys, Values  the enumerations of core/settings/api.rs, and core/settings/data.rs
--   Settings/Store         core/settings/api.rs: SettingsApi and its setters; Persist has persist step by
--                          step; Generic has the access by text, Spelling what a text of a setting
--                          looks like, Outcome and RoundTrip the proofs
--   Tests                  concrete parameters, and the theorems applied at concrete inputs
--
-- Bytes are native numbers below 256 and buffers are lists of them. Fallible functions return
-- Result or Option; a method on shared state takes the state and returns the new one with its result,
-- so that an error path carries the state it leaves behind. Maps are lists of entries in the order of
-- iteration, sets are lists of members. Times are nanoseconds, and a call reads the clock once: the
-- source reads it again when it creates a state, with the table locked. duration_since saturates at
-- zero, which subtraction does here; saturating additions on u8 and u16 are written with min, and
-- casts to u8 with the remainder. A text is the list of its UTF-8 bytes. What goes over the serial
-- line is a list of bytes, ends of timers and faults; the outcomes of file operations are arguments.
-- Channels that the service sends on are the list of what was sent. A task of the sender and the
-- watcher are cut at their waits, each piece one step; the listener lets go of the lock between the
-- look at a frame and the answer, which are two steps.
--
-- The hash, the coder, the ciphers, the decoders of protobuf messages, the random generator and the
-- last instant of the clock are outside the repository: parameters, with what the code relies on as
-- the hypotheses of their records. The texts of validate are the constructors of ConfigError.
-- `slice::chunks`, the loops over an iterator, over fixed frames and over the serial line run on fuel,
-- the length of what they read and one more: a round takes a byte or an event at least. `str::trim`
-- runs on the length of the text, of which a character of white space takes a byte at least. All other
-- loops are recursions on lists, and that of next_delay on the number of attempts.
--
-- Not modelled: the texts of errors, logging, the coding and decoding of samples, the bluetooth
-- transport and the opening of ports, the text form of the settings file, the setters over
-- send_admin, the worker of the voice queue, the silence probe and the watchdog of the configuration,
-- the semaphore of the retransmits, the published connection state
-- but for what the watcher reads and writes, and the hosts (command line,
-- desktop, Android) but for the closure above.
pub mod Prelude
pub mod Proto
pub mod Voice
pub mod Codec
pub mod Meshtastic
pub mod Settings
pub mod Tests
