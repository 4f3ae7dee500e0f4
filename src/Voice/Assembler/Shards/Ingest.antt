-- ===== src/Voice/Assembler/Shards/Ingest.antt =====
-- crates/voicetastic-core/src/voice/assembler: an ingested frame and a recovery keep the counters.
use voicetastic_core.Prelude.{
  ℕ, ◌-◌, ◌≤◌, ◌<◌, ◌≡◌, ◌∙◌, inl, inr, Option, none, some, List, arith, ◌==◌, ltb, ltb→lt, ◌⊎◌,
  length, get_or, take, replicate, length-append, length-replicate, Option-cases, Bool-cases,
}
use voicetastic_core.Proto.Consts.{max_parity_per_message}
use voicetastic_core.Proto.Error.{ok, Result-cases}
use voicetastic_core.Proto.Header.{ChunkHeader}
use voicetastic_core.Proto.ReedSolomon.{ReedSolomon}
use voicetastic_core.Voice.Types.{AssemblyEvent}
use voicetastic_core.Voice.Assembler.State.{
  AssemblyState, Slot, with_recovered, try_fec_recover, reconstruct,
}
use voicetastic_core.Voice.Assembler.Ingest.{
  pin_chunk_size, last_idx, ingest_data, ingest_parity, store_data, store_parity, grow_parity,
}
use voicetastic_core.Voice.Assembler.Accept.{settle, recovered_or}
use voicetastic_core.Voice.Assembler.Shards.Slots.{
  filled-append, filled-replicate, pull_back-filled,
}
use voicetastic_core.Voice.Assembler.Shards.Counted.{
  IsCounted, pin-IsCounted, pin-slots, store_data-IsCounted, store_parity-IsCounted,
}

module _ (s w : AssemblyState) (header : ChunkHeader) (body : List ℕ)
    (ev : Option AssemblyEvent) where
  pub ingest_data-IsCounted :
      ingest_data s header body ≡ ok (w, ev)
      → header.chunk_index < s.header_template.total_data
      → IsCounted s
      → IsCounted w
  unfolding ingest_data
  ingest_data-IsCounted e h v = elim (Option-cases (get_or s.data_shards header.chunk_index none)) [
    | inr (p, q) ↦ let r : w ≡ s = ground (arith, e, q) in rw (r) v
    | inl q ↦ elim (Bool-cases (header.chunk_index == last_idx s)) [
      | inl l ↦
          let tailed : AssemblyState = record s { last_data_len = some (length body) } in
          let r : w ≡ store_data tailed header.chunk_index body = ground (arith, e, q, l) in
          rw (r) (store_data-IsCounted tailed header.chunk_index body q h v)
      | inr l ↦ elim (Result-cases (pin_chunk_size s (length body))) [
        | inr (f, p) ↦ absurd (ground (arith, e, q, l, p))
        | inl (pinned, p) ↦
            let r : w ≡ store_data pinned header.chunk_index body = ground (arith, e, q, l, p) in
            let (eh, ep, es) = pin-slots s pinned (length body) header.chunk_index p in
            rw (r) (
              store_data-IsCounted pinned header.chunk_index body (es q) (rw (eh) h)
                (pin-IsCounted s pinned (length body) p v))
      ]
    ]
  ]

  pub ingest_parity-IsCounted :
      ingest_parity s header body ≡ ok (w, ev)
      → header.chunk_index < s.header_template.parity_count
      → IsCounted s
      → IsCounted w
  unfolding ingest_parity
  ingest_parity-IsCounted e h v =
      elim (Option-cases (get_or s.parity_shards header.chunk_index none)) [
        | inr (p, q) ↦ let r : w ≡ s = ground (arith, e, q) in rw (r) v
        | inl q ↦ elim (Result-cases (pin_chunk_size s (length body))) [
          | inr (f, p) ↦ absurd (ground (arith, e, q, p))
          | inl (pinned, p) ↦
              let r : w ≡ store_parity pinned header.chunk_index body = ground (arith, e, q, p) in
              let (eh, ep, es) = pin-slots s pinned (length body) header.chunk_index p in
              rw (r) (
                store_parity-IsCounted pinned header.chunk_index body (rw (ep) q) (rw (eh) h)
                  (pin-IsCounted s pinned (length body) p v))
        ]
      ]

with_recovered-IsCounted :
    (s : AssemblyState) (shards : List Slot) → IsCounted s → IsCounted (with_recovered s shards)
with_recovered-IsCounted s shards v =
    let r =
      pull_back-filled s.header_template.total_data s.last_data_len 0 s.data_shards
        (take s.header_template.total_data shards) s.received_data s.recovered_via_fec
        (omega (arith, v.received, v.data_len, v.data_fits)) in
    record {
      data_len = r.0 ∙ v.data_len;
      parity_len = v.parity_len;
      some_data = v.some_data;
      data_fits = v.data_fits;
      parity_fits = v.parity_fits;
      received = omega (arith, r.1, v.received);
      received_p = v.received_p;
    }

recover-IsCounted :
    (rs : ReedSolomon) (s w : AssemblyState)
    → try_fec_recover rs s ≡ ok w
    → IsCounted s
    → IsCounted w
unfolding try_fec_recover
recover-IsCounted rs s w e v = elim (Option-cases s.chunk_size) [
  | inl q ↦ let r : w ≡ s = ground (arith, e, q) in rw (r) v
  | inr (cs, q) ↦ elim (Result-cases (reconstruct rs s cs)) [
    | inr (f, p) ↦ let r : w ≡ s = ground (arith, e, q, p) in rw (r) v
    | inl (shards, p) ↦
        let r : (w ≡ s) ⊎ (w ≡ with_recovered s shards) = ground (arith, e, q, p) in
        elim r [ inl same ↦ rw (same) v | inr new ↦ rw (new) (with_recovered-IsCounted s shards v) ]
  ]
]

-- After recovery and the reset of the back-off.
pub settle-IsCounted :
    (rs : ReedSolomon) (s : AssemblyState) (before now : ℕ)
    → IsCounted s
    → IsCounted (settle rs s before now)
unfolding settle
settle-IsCounted rs s before now v =
    let r = recovered_or s (try_fec_recover rs s) in
    let u : IsCounted r = elim (Result-cases (try_fec_recover rs s)) [
      | inr (e, p) ↦ let q : r ≡ s = ground (arith, p) in rw (q) v
      | inl (w, p) ↦ let q : r ≡ w = ground (arith, p) in rw (q) (recover-IsCounted rs s w p v)
    ] in
    elim (Bool-cases (ltb before r.received_data)) [ inl h ↦ rw (h) u | inr h ↦ rw (h) u ]

-- A frame whose header grew the parity count.
pub grow_parity-IsCounted :
    (s : AssemblyState) (header : ChunkHeader)
    → header.parity_count ≤ max_parity_per_message
    → IsCounted s
    → IsCounted (grow_parity s header)
unfolding grow_parity
grow_parity-IsCounted s header h v =
    elim (Bool-cases (ltb s.header_template.parity_count header.parity_count)) [
      | inr n ↦ rw (n) v
      | inl n ↦
          let more = replicate {A = Slot} (header.parity_count - length s.parity_shards) none in
          rw (n) (record {
            data_len = v.data_len;
            parity_len = omega (
              arith,
              ltb→lt _ _ n,
              v.parity_len,
              length-append s.parity_shards more,
              length-replicate {A = Slot} (header.parity_count - length s.parity_shards) none,
            );
            some_data = v.some_data;
            data_fits = v.data_fits;
            parity_fits = h;
            received = v.received;
            received_p = omega (
              arith,
              v.received_p,
              filled-append s.parity_shards more,
              filled-replicate (header.parity_count - length s.parity_shards),
            );
          })
    ]
