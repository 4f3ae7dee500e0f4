-- ===== src/Voice/Assembler/Shards/Counted.antt =====
-- crates/voicetastic-core/src/voice/assembler: ingesting and recovery keep the counters of a state
-- equal to the shards that it stores.
use voicetastic_core.Prelude.{
  ℕ, ◌-◌, ◌≤◌, ◌<◌, ◌≡◌, refl, sym, ◌∙◌, inl, inr, Option, none, some, List, arith, ltb, length,
  get_or, set, length-set, length-replicate, Option-cases, Bool-cases,
}
use voicetastic_core.Proto.Consts.{max_parity_per_message}
use voicetastic_core.Proto.Error.{ok}
use voicetastic_core.Proto.Header.{ChunkHeader}
use voicetastic_core.Voice.Types.{VoiceDestination}
use voicetastic_core.Voice.Assembler.State.{AssemblyState, Slot, new_state}
use voicetastic_core.Voice.Assembler.Ingest.{
  pin_chunk_size, drop_long_tail, last_idx, store_data, store_parity,
}
use voicetastic_core.Voice.Assembler.Shards.Slots.{
  filled, filled-le-length, filled-set-some, filled-set-none, get_or-set-none, filled-replicate,
}

pub record Counts (header : ChunkHeader) (slots parity : List Slot) (got got_p : ℕ) : Type 0 where
  pub data_len : length slots ≡ header.total_data
  pub parity_len : length parity ≡ header.parity_count
  pub some_data : 0 < header.total_data
  pub data_fits : header.total_data ≤ 255
  pub parity_fits : header.parity_count ≤ max_parity_per_message
  pub received : got ≡ filled slots
  pub received_p : got_p ≡ filled parity

-- The fields of a state that the counters depend on.
abbrev pub IsCounted : AssemblyState → Type 0
IsCounted s =
    Counts s.header_template s.data_shards s.parity_shards s.received_data s.received_parity

pub new_state-IsCounted :
    (header : ChunkHeader) (cs : Option ℕ) (to : VoiceDestination) (channel now wall : ℕ)
    → 0 < header.total_data
    → header.total_data ≤ 255
    → header.parity_count ≤ max_parity_per_message
    → IsCounted (new_state header cs to channel now wall)
unfolding new_state
new_state-IsCounted header cs to channel now wall h0 h p = record {
  data_len = length-replicate header.total_data none;
  parity_len = length-replicate header.parity_count none;
  some_data = h0;
  data_fits = h;
  parity_fits = p;
  received = sym (filled-replicate header.total_data);
  received_p = sym (filled-replicate header.parity_count);
}

drop-IsCounted : (len : ℕ) (s : AssemblyState) → IsCounted s → IsCounted (drop_long_tail len s)
drop-IsCounted len s v = elim (Option-cases (get_or s.data_shards (last_idx s) none)) [
  | inl e ↦ let p : drop_long_tail len s ≡ s = ground (arith, e) in rw (p) v
  | inr (stored, e) ↦ elim (Bool-cases (ltb len (length stored))) [
    | inr h ↦ let p : drop_long_tail len s ≡ s = ground (arith, e, h) in rw (p) v
    | inl h ↦
        let cut : AssemblyState = record s {
          data_shards = set s.data_shards (last_idx s) none;
          received_data = s.received_data - 1;
          last_data_len = none;
        } in
        let p : drop_long_tail len s ≡ cut = ground (arith, e, h) in
        rw (p) (record {
          data_len = length-set s.data_shards (last_idx s) none ∙ v.data_len;
          parity_len = v.parity_len;
          some_data = v.some_data;
          data_fits = v.data_fits;
          parity_fits = v.parity_fits;
          received = omega (arith, v.received, filled-set-none s.data_shards (last_idx s) stored e);
          received_p = v.received_p;
        })
  ]
]

-- What pinning leaves: the state as it was, or one with a chunk size, without a tail too long.
pub pin-IsCounted :
    (s w : AssemblyState) (len : ℕ) → pin_chunk_size s len ≡ ok w → IsCounted s → IsCounted w
unfolding pin_chunk_size
pin-IsCounted s w len e v = elim (Option-cases s.chunk_size) [
  | inr (n, q) ↦ let p : w ≡ s = ground (arith, e, q) in rw (p) v
  | inl q ↦
      let p : w ≡ drop_long_tail len (record s { chunk_size = some len }) = ground (arith, e, q) in
      rw (p) (drop-IsCounted len (record s { chunk_size = some len }) v)
]

-- Pinning keeps the header, the parity shards, and an empty slot empty.
pub pin-slots :
    (s w : AssemblyState) (len j : ℕ)
    → pin_chunk_size s len ≡ ok w
    → (w.header_template ≡ s.header_template)
      × (w.parity_shards ≡ s.parity_shards)
      × (get_or s.data_shards j none ≡ none → get_or w.data_shards j none ≡ none)
unfolding pin_chunk_size
pin-slots s w len j e = elim (Option-cases s.chunk_size) [
  | inr (n, q) ↦ let p : w ≡ s = ground (arith, e, q) in rw (p) (refl, refl, λ h. h)
  | inl q ↦
      let pinned : AssemblyState = record s { chunk_size = some len } in
      let p : w ≡ drop_long_tail len pinned = ground (arith, e, q) in
      elim (Option-cases (get_or s.data_shards (last_idx s) none)) [
        | inl o ↦ let r : w ≡ pinned = p ∙ ground (arith, o) in rw (r) (refl, refl, λ h. h)
        | inr (stored, o) ↦ elim (Bool-cases (ltb len (length stored))) [
          | inr l ↦ let r : w ≡ pinned = p ∙ ground (arith, o, l) in rw (r) (refl, refl, λ h. h)
          | inl l ↦
              let r : w ≡ (record pinned {
                data_shards = set s.data_shards (last_idx s) none;
                received_data = s.received_data - 1;
                last_data_len = none;
              }) =
                p ∙ ground (arith, o, l) in
              rw (r) (refl, refl, λ h. get_or-set-none s.data_shards (last_idx s) j h)
        ]
      ]
]

pub store_data-IsCounted :
    (s : AssemblyState) (idx : ℕ) (body : List ℕ)
    → get_or s.data_shards idx none ≡ none
    → idx < s.header_template.total_data
    → IsCounted s
    → IsCounted (store_data s idx body)
store_data-IsCounted s idx body e h v = record {
  data_len = length-set s.data_shards idx (some body) ∙ v.data_len;
  parity_len = v.parity_len;
  some_data = v.some_data;
  data_fits = v.data_fits;
  parity_fits = v.parity_fits;
  received = omega (
    arith,
    v.received,
    v.data_len,
    v.data_fits,
    filled-set-some s.data_shards idx body e (omega (arith, v.data_len, h)),
    filled-le-length (set s.data_shards idx (some body)),
    length-set s.data_shards idx (some body),
  );
  received_p = v.received_p;
}

pub store_parity-IsCounted :
    (s : AssemblyState) (idx : ℕ) (body : List ℕ)
    → get_or s.parity_shards idx none ≡ none
    → idx < s.header_template.parity_count
    → IsCounted s
    → IsCounted (store_parity s idx body)
store_parity-IsCounted s idx body e h v = record {
  data_len = v.data_len;
  parity_len = length-set s.parity_shards idx (some body) ∙ v.parity_len;
  some_data = v.some_data;
  data_fits = v.data_fits;
  parity_fits = v.parity_fits;
  received = v.received;
  received_p = omega (
    arith,
    v.received_p,
    v.parity_len,
    v.parity_fits,
    filled-set-some s.parity_shards idx body e (omega (arith, v.parity_len, h)),
    filled-le-length (set s.parity_shards idx (some body)),
    length-set s.parity_shards idx (some body),
  );
}
