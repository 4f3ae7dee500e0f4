-- ===== src/Proto/Builder/Sent.antt =====
-- What a receiver reads from the frames of a message: headers and bodies, described without the
-- builder's arithmetic.
use voicetastic_core.Prelude.{
  ℕ, suc, ◌+◌, ◌-◌, ◌≤◌, ◌<◌, ◌≡◌, refl, ap, ◌∙◌, ◌&&◌, List, [], ◌∷◌, ◌++◌, map, arith, ◌==◌,
  length, take, All, length-append,
}
use voicetastic_core.Prelude.Bits.{IsByte, IsU32}
use voicetastic_core.Proto.Consts.{
  header_size, max_body_size, max_packet_size, max_parity_per_message,
}
use voicetastic_core.Proto.Types.{PacketType, data_packet, parity_packet, IsWireCodec}
use voicetastic_core.Proto.Error.{Result, ok, ◌>>=◌}
use voicetastic_core.Proto.Mac.{Sha256, length-compute_tag}
use voicetastic_core.Proto.Header.{ChunkHeader, serialize, write_logical, parse, IsValid}
use voicetastic_core.Proto.Header.RoundTrip.{parse-serialize}
use voicetastic_core.Proto.Builder.{BuildConfig, is_data, body_at, header_at, frame_loop, pad}
use voicetastic_core.Proto.Builder.Chunks.{Chunked, pad_full, take-pad}

-- What the types of the source's configuration ensure, and a message id that is not reserved.
pub record IsConfig (cfg : BuildConfig) : Type 0 where
  pub id_set : 0 < cfg.message_id
  pub id_fits : IsU32 cfg.message_id
  pub codec_fits : IsWireCodec cfg.codec
  pub param_fits : IsByte cfg.codec_param
  pub seq_fits : IsByte cfg.stream_seq
  pub parity_fits : IsByte cfg.parity_count

pub length-serialize : (sha : Sha256) (h : ChunkHeader) → length (serialize sha h) ≡ header_size
unfolding serialize write_logical
length-serialize sha h = omega (arith, length-compute_tag sha (write_logical h))

-- Each frame parsed in turn.
unfoldable pub parse_all : Sha256 → List (List ℕ) → Result (List (ChunkHeader × List ℕ))
parse_all sha [] = ok []
parse_all sha (f ∷ fs) = do e ← parse sha f; es ← parse_all sha fs; ok (e ∷ es)

module _ (cfg : BuildConfig) (total shards : ℕ) where
  -- The header of chunk `idx` among the data or the parity chunks; `pos` counts both.
  abbrev pub sent_header : PacketType → ℕ → ℕ → ChunkHeader
  sent_header kind idx pos = record {
    packet_type = kind;
    last_in_stream = cfg.last_in_stream && (pos == shards - 1);
    message_id = cfg.message_id;
    codec = cfg.codec;
    codec_param = cfg.codec_param;
    stream_seq = cfg.stream_seq;
    chunk_index = idx;
    total_data = total;
    parity_count = cfg.parity_count;
  }

  abbrev pub sent_data : ℕ → List (List ℕ) → List (ChunkHeader × List ℕ)
  sent_data idx [] = []
  sent_data idx (c ∷ cs) = (sent_header data_packet idx idx, c) ∷ sent_data (idx + 1) cs

  abbrev pub sent_parity : ℕ → List (List ℕ) → List (ChunkHeader × List ℕ)
  sent_parity idx [] = []
  sent_parity idx (p ∷ ps) =
      (sent_header parity_packet idx (total + idx), p) ∷ sent_parity (idx + 1) ps

module _ (sha : Sha256) (cfg : BuildConfig) (total last_len shards : ℕ) where
  -- From shard `idx` on the loop writes frames that parse to `es`.
  abbrev pub Writes : ℕ → List (List ℕ) → List (ChunkHeader × List ℕ) → Type 0
  Writes idx ss es =
      (fs : List (List ℕ)) × (frame_loop sha cfg total last_len shards idx ss ≡ ok fs)
      × (parse_all sha fs ≡ ok es)
      × (length fs ≡ length ss)
      × All (λ f. length f ≤ max_packet_size) fs

  frame_loop-cons :
      (idx : ℕ) (s : List ℕ) (ss fs : List (List ℕ)) (h : ChunkHeader) (b : List ℕ)
      → header_at cfg total shards idx ≡ h
      → body_at total last_len idx s ≡ b
      → length b ≤ max_body_size
      → frame_loop sha cfg total last_len shards (idx + 1) ss ≡ ok fs
      → frame_loop sha cfg total last_len shards idx (s ∷ ss) ≡ ok ((serialize sha h ++ b) ∷ fs)
  unfolding frame_loop
  frame_loop-cons idx s ss fs h b eh eb hb ef = rw (eh, eb, ef) (ground arith)

  Writes-step :
      (idx : ℕ) (s : List ℕ) (ss : List (List ℕ)) (es : List (ChunkHeader × List ℕ))
      (h : ChunkHeader) (b : List ℕ)
      → header_at cfg total shards idx ≡ h
      → body_at total last_len idx s ≡ b
      → IsValid h
      → length b ≤ max_body_size
      → Writes (idx + 1) ss es
      → Writes idx (s ∷ ss) ((h, b) ∷ es)
  unfolding parse_all
  Writes-step idx s ss es h b eh eb v hb (fs, ef, ep, el, ea) = (
    (serialize sha h ++ b) ∷ fs,
    frame_loop-cons idx s ss fs h b eh eb hb ef,
    rw (parse-serialize sha h v b hb, ep),
    ap suc el,
    (omega (arith, length-append (serialize sha h) b, length-serialize sha h), ea),
  )

  header_parity :
      (idx pos : ℕ)
      → pos ≡ total + idx
      → pos < 256
      → total < 256
      → header_at cfg total shards pos
        ≡ sent_header cfg total shards parity_packet idx (total + idx)
  unfolding header_at is_data
  header_parity idx pos e hp ht = ground arith

  header_data :
      (idx : ℕ)
      → idx < total
      → total < 256
      → header_at cfg total shards idx ≡ sent_header cfg total shards data_packet idx idx
  unfolding header_at is_data
  header_data idx h ht = ground arith

  body_parity : (pos : ℕ) (p : List ℕ) → total ≤ pos → pos < 256 → body_at total last_len pos p ≡ p
  unfolding body_at is_data
  body_parity pos p h hp = ground arith

  body_data :
      (idx : ℕ) (s : List ℕ) → idx + 1 < total → total < 256 → body_at total last_len idx s ≡ s
  unfolding body_at is_data
  body_data idx s h ht = ground arith

  body_last :
      (idx : ℕ) (s : List ℕ)
      → idx + 1 ≡ total
      → total < 256
      → body_at total last_len idx s ≡ take last_len s
  unfolding body_at is_data
  body_last idx s h ht = ground arith

  module _ (c : IsConfig cfg) (n : ℕ) (hn : n ≤ max_body_size) (ht : total ≤ 255) where
    IsValid-parity :
        (idx pos : ℕ)
        → 0 < total
        → idx < cfg.parity_count
        → cfg.parity_count ≤ max_parity_per_message
        → IsValid (sent_header cfg total shards parity_packet idx pos)
    IsValid-parity idx pos h0 hi hp = record {
      id_set = c.id_set;
      id_fits = c.id_fits;
      codec_fits = c.codec_fits;
      param_fits = c.param_fits;
      seq_fits = c.seq_fits;
      some_data = h0;
      total_fits = omega arith;
      parity_fits = hp;
      index_ok = hi;
    }

    IsValid-data :
        (idx : ℕ)
        → idx < total
        → cfg.parity_count ≤ max_parity_per_message
        → IsValid (sent_header cfg total shards data_packet idx idx)
    IsValid-data idx hi hp = record {
      id_set = c.id_set;
      id_fits = c.id_fits;
      codec_fits = c.codec_fits;
      param_fits = c.param_fits;
      seq_fits = c.seq_fits;
      some_data = omega arith;
      total_fits = omega arith;
      parity_fits = hp;
      index_ok = hi;
    }

    -- The loop over the parity shards.
    pub Writes-parity :
        (ps : List (List ℕ)) (idx pos : ℕ)
        → pos ≡ total + idx
        → 0 < total
        → idx + length ps ≡ cfg.parity_count
        → total + cfg.parity_count ≤ 256
        → cfg.parity_count ≤ max_parity_per_message
        → All (λ p. length p ≡ n) ps
        → Writes pos ps (sent_parity cfg total shards idx ps)
    Writes-parity [] idx pos e h0 hi hs hp hl =
        ([], unfold frame_loop in refl, unfold parse_all in refl, refl, tt)
    Writes-parity (p ∷ ps) idx pos e h0 hi hs hp (hl, hls) =
        Writes-step pos p ps _ (sent_header cfg total shards parity_packet idx (total + idx)) p
          (header_parity idx pos e (omega arith) (omega arith))
          (body_parity pos p (omega arith) (omega arith))
          (IsValid-parity idx (total + idx) h0 (omega arith) hp) (omega arith)
          (Writes-parity ps (idx + 1) (pos + 1) (omega arith) h0 (omega arith) hs hp hls)

    -- The loop over the data shards, in front of what it writes of the rest.
    pub Writes-data :
        (cs rest : List (List ℕ)) (es : List (ChunkHeader × List ℕ)) (idx : ℕ)
        → Chunked n last_len cs
        → last_len ≤ n
        → idx + length cs ≡ total
        → cfg.parity_count ≤ max_parity_per_message
        → Writes total rest es
        → Writes idx (map (pad n) cs ++ rest) (sent_data cfg total shards idx cs ++ es)
    Writes-data [] rest es idx sh hl hi hp w = absurd sh
    Writes-data (x ∷ []) rest es idx sh hl hi hp w =
        Writes-step idx (pad n x) rest es (sent_header cfg total shards data_packet idx idx) x
          (header_data idx (omega arith) (omega arith))
          (body_last idx (pad n x) (omega arith) (omega arith) ∙ rw (← sh) (take-pad n x))
          (IsValid-data idx (omega arith) hp) (omega arith)
          (let e : idx + 1 ≡ total = omega arith in rw e w)
    Writes-data (x ∷ y ∷ cs) rest es idx (hx, sh) hl hi hp w =
        Writes-step idx (pad n x) _ _ (sent_header cfg total shards data_packet idx idx) x
          (header_data idx (omega arith) (omega arith))
          (body_data idx (pad n x) (omega arith) (omega arith) ∙ pad_full n x hx)
          (IsValid-data idx (omega arith) hp) (omega arith)
          (Writes-data (y ∷ cs) rest es (idx + 1) sh hl (omega arith) hp w)
