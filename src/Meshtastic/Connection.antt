-- ===== src/Meshtastic/Connection.antt =====
-- crates/voicetastic-core/src/meshtastic/service/mod.rs: who may clear the transport slot. Each
-- operation is what its task does while it holds the lock of the slot; the transport that it takes
-- out of the slot is closed afterwards.
pub mod Generations
use voicetastic_core.Proto.Consts.{header_size, max_body_size}
use voicetastic_core.Prelude.{
  min, ℕ, ◌+◌, ◌-◌, ◌^◌, Bool, true, false, Option, none, some, ◌==◌, if◌then◌else◌,
}

abbrev pub usize_max : ℕ
usize_max = 2 ^ 64 - 1

abbrev pub u32_max : ℕ
u32_max = 2 ^ 32 - 1

-- A transport, by the connection that it belongs to, with its largest payload.
pub record Transport : Type 0 where
  pub connection : ℕ
  pub max_tx_payload : ℕ

pub record Link : Type 0 where
  pub conn_generation : ℕ
  pub slot : Option Transport
  pub transport_max_tx_payload : ℕ
  pub radio_queue_free : ℕ

-- Before the first connection.
abbrev pub unlinked : Link
unlinked = record {
  conn_generation = 0;
  slot = none;
  transport_max_tx_payload = usize_max;
  radio_queue_free = u32_max;
}

-- The first block of `connect_with_transport`, which also forgets the queue of the old radio: the link
-- and the generation that it claimed. The counter of 64 bits does not come round.
unfoldable pub install : Transport → Link → Link × ℕ
install transport l =
    let generation = l.conn_generation + 1 in
    (
      record {
        conn_generation = generation;
        slot = some transport;
        transport_max_tx_payload = transport.max_tx_payload;
        radio_queue_free = u32_max;
      },
      generation,
    )

-- The end of the reader that was spawned for a generation, and whether it goes on to publish
-- `Disconnected` and to ask for a reconnection; one of another generation returns.
unfoldable pub reader_end : ℕ → Link → Link × Bool
reader_end generation l =
    if l.conn_generation == generation
    then (record l { slot = none; transport_max_tx_payload = usize_max }, true)
    else (l, false)

-- The transport that was taken out is the result. `Disconnected` is published behind it in any case.
unfoldable pub teardown_generation : ℕ → Link → Link × Option Transport
teardown_generation generation l =
    if l.conn_generation == generation
    then (
      record l {
        conn_generation = l.conn_generation + 1;
        slot = none;
        transport_max_tx_payload = usize_max;
      },
      l.slot,
    )
    else (l, none)

-- The second result is the transport that is closed next.
unfoldable pub disconnect : Link → Link × Option Transport
disconnect l = (
  record l {
    conn_generation = l.conn_generation + 1;
    slot = none;
    transport_max_tx_payload = usize_max;
  },
  l.slot,
)

-- What the wrapping of a frame in a message to the radio takes at most.
abbrev pub toradio_overhead_bytes : ℕ
toradio_overhead_bytes = 48

-- The largest body of a voice frame that one write of the transport carries.
unfoldable pub max_voice_body_size : Link → ℕ
max_voice_body_size l =
    min (l.transport_max_tx_payload - toradio_overhead_bytes - header_size) max_body_size
