-- ===== src/Proto/Types.antt =====
-- crates/voicetastic-proto/src/types.rs: packet types, codecs and modem presets.
use voicetastic_core.Prelude.{
  ℕ, ◌-◌, ◌*◌, ◌/◌, ◌<◌, ◌≡◌, ◌↔◌, Bool, true, false, Option, none, some, bit_and, arith, ◌==◌,
  if◌then◌else◌,
}
use voicetastic_core.Proto.Consts.{max_body_size, millis}

pub data PacketType : Type 0 where
  data_packet parity_packet nack_packet : PacketType

-- `match (b & 0xC0) >> 6`
unfoldable pub from_bits : ℕ → Option PacketType
from_bits b =
    let top = bit_and b 0xc0 / 64 in
    if top == 0
    then some data_packet
    else if top == 1
    then some parity_packet
    else if top == 2
    then some nack_packet
    else none

-- `(self as u8) << 6`
unfoldable pub to_bits : PacketType → ℕ
to_bits data_packet = 0 * 64
to_bits parity_packet = 1 * 64
to_bits nack_packet = 2 * 64

pub data VoiceCodec : Type 0 where
  amr_nb opus pcm_s16le codec2 : VoiceCodec
  unknown : ℕ → VoiceCodec

unfoldable pub from_byte : ℕ → VoiceCodec
from_byte b =
    if b == 0
    then amr_nb
    else if b == 1
    then opus
    else if b == 2
    then pcm_s16le
    else if b == 3
    then codec2
    else unknown b

unfoldable pub to_byte : VoiceCodec → ℕ
to_byte amr_nb = 0
to_byte opus = 1
to_byte pcm_s16le = 2
to_byte codec2 = 3
to_byte (unknown b) = b

unfoldable pub is_known : VoiceCodec → Bool
is_known (unknown b) = false
is_known c = true

-- The derived `PartialEq`.
unfoldable pub codec_eq : VoiceCodec → VoiceCodec → Bool
codec_eq amr_nb amr_nb = true
codec_eq opus opus = true
codec_eq pcm_s16le pcm_s16le = true
codec_eq codec2 codec2 = true
codec_eq (unknown a) (unknown b) = a == b
codec_eq c d = false

pub codec_eq_iff : (c d : VoiceCodec) → (codec_eq c d ≡ true) ↔ (c ≡ d)
unfolding codec_eq
codec_eq_iff amr_nb amr_nb = ground arith
codec_eq_iff opus opus = ground arith
codec_eq_iff pcm_s16le pcm_s16le = ground arith
codec_eq_iff codec2 codec2 = ground arith
codec_eq_iff (unknown a) (unknown b) = ground arith
codec_eq_iff c d = ground arith

-- A codec that a header can carry and that its byte gives back: no `unknown` below 4.
abbrev pub IsWireCodec : VoiceCodec → Type 0
IsWireCodec c = (to_byte c < 256) × (from_byte (to_byte c) ≡ c)

pub from_byte-IsWireCodec :
    (b : ℕ) → b < 256 → IsWireCodec (from_byte b) × (to_byte (from_byte b) ≡ b)
unfolding from_byte to_byte
from_byte-IsWireCodec b h = ground arith

pub data ModemPreset : Type 0 where
  short_turbo short_fast short_slow medium_fast medium_slow : ModemPreset
  long_fast long_moderate long_slow very_long_slow : ModemPreset

unfoldable pub pacing : ModemPreset → ℕ
pacing short_turbo = millis 150
pacing short_fast = millis 250
pacing short_slow = millis 400
pacing medium_fast = millis 500
pacing medium_slow = millis 700
pacing long_fast = millis 900
pacing long_moderate = millis 1200
pacing long_slow = millis 1800
pacing very_long_slow = millis 3000

unfoldable pub recommended_chunk_size : ModemPreset → ℕ
recommended_chunk_size short_turbo = max_body_size
recommended_chunk_size short_fast = max_body_size
recommended_chunk_size short_slow = 160
recommended_chunk_size medium_fast = 160
recommended_chunk_size medium_slow = 96
recommended_chunk_size long_fast = max_body_size - 12 - 4
recommended_chunk_size long_moderate = 48
recommended_chunk_size long_slow = 48
recommended_chunk_size very_long_slow = 48

unfoldable pub fallback_pacing : ℕ
fallback_pacing = millis 500
