-- ===== src/Proto/Builder/Message.antt =====
-- `build_message` as a whole: when it succeeds, and what its frames say.
use voicetastic_core.Prelude.{
  ℕ, suc, ◌+◌, ◌-◌, ◌*◌, ◌%◌, ◌≤◌, ◌<◌, ◌≡◌, refl, sym, subst, ◌∙◌, ◌↔◌, false, List, [], ◌++◌, map,
  arith, length, is_empty, All, length-append, length-map,
}
use voicetastic_core.Prelude.Bits.{IsByte}
use voicetastic_core.Proto.Consts.{
  min_chunk_size, max_body_size, max_chunks_per_message, max_parity_per_message, max_total_shards,
  max_packet_size,
}
use voicetastic_core.Proto.Error.{ok}
use voicetastic_core.Proto.Mac.{Sha256}
use voicetastic_core.Proto.Header.{ChunkHeader}
use voicetastic_core.Proto.ReedSolomon.{ReedSolomon, IsReedSolomon, IsShard}
use voicetastic_core.Proto.Builder.{
  BuildConfig, EncodedMessage, div_ceil, chunks, pad, add_parity, frame_loop, build_message,
}
use voicetastic_core.Proto.Builder.Chunks.{
  concat, Cut, chunks-Cut, div_ceil_cut, pad_shards, All-length,
}
use voicetastic_core.Proto.Builder.Sent.{
  IsConfig, parse_all, sent_data, sent_parity, Writes-data, Writes-parity,
}
use mathlib.Core.List.{append-nil}
use native.Mathlib.Decide.{dec_lt}

-- What `build_message` asks of its input.
pub record Accepts (audio : List ℕ) (cfg : BuildConfig) : Type 0 where
  pub chunk_lower : min_chunk_size ≤ cfg.chunk_size
  pub chunk_upper : cfg.chunk_size ≤ max_body_size
  pub some_audio : 0 < length audio
  pub few_chunks : length audio ≤ 255 * cfg.chunk_size
  pub few_parity : cfg.parity_count ≤ max_parity_per_message
  pub few_shards : length audio ≤ (256 - cfg.parity_count) * cfg.chunk_size

-- What a receiver finds in the frames of a message.
pub record Sent (sha : Sha256) (audio : List ℕ) (cfg : BuildConfig) (m : EncodedMessage)
    : Type 0 where
  pub bodies : List (List ℕ)
  pub parities : List (List ℕ)
  pub parsed :
      parse_all sha m.frames
      ≡ ok (
          sent_data cfg m.total_data (m.total_data + m.parity_count) 0 bodies
          ++ sent_parity cfg m.total_data (m.total_data + m.parity_count) 0 parities)
  pub whole : concat bodies ≡ audio
  pub data_count : length bodies ≡ m.total_data
  pub data_some : 0 < m.total_data
  pub parity_count : m.parity_count ≡ cfg.parity_count
  pub parities_count : length parities ≡ m.parity_count
  pub frame_count : length m.frames ≡ m.total_data + m.parity_count
  pub fits : All (λ f. length f ≤ max_packet_size) m.frames

module _ (sha : Sha256) (rs : ReedSolomon) (audio : List ℕ) (cfg : BuildConfig) where
  abbrev total : ℕ
  total = div_ceil (length audio) cfg.chunk_size

  abbrev last_len : ℕ
  last_len = length audio - cfg.chunk_size * (total - 1)

  abbrev padded : List (List ℕ)
  padded = map (pad cfg.chunk_size) (chunks cfg.chunk_size audio)

  -- The checks of `build_message` in its own terms.
  record Checked : Type 0 where
    lower : min_chunk_size ≤ cfg.chunk_size
    upper : cfg.chunk_size ≤ max_body_size
    some_audio : is_empty audio ≡ false
    few_chunks : total ≤ max_chunks_per_message
    few_parity : cfg.parity_count ≤ max_parity_per_message
    few_shards : total + cfg.parity_count ≤ max_total_shards

  build_checked :
      (shards frames : List (List ℕ))
      → Checked
      → add_parity rs total cfg.parity_count cfg.chunk_size padded ≡ ok shards
      → frame_loop sha cfg total last_len (length shards) 0 shards ≡ ok frames
      → build_message sha rs audio cfg
        ≡ ok (record { frames = frames; total_data = total % 256; parity_count = cfg.parity_count })
  unfolding build_message
  build_checked shards frames c ea ef =
      ground
        (arith, c.lower, c.upper, c.some_audio, c.few_chunks, c.few_parity, c.few_shards, ea, ef)

  build-Checked : (m : EncodedMessage) → build_message sha rs audio cfg ≡ ok m → Checked
  unfolding build_message
  build-Checked m e = ground arith

  module _ (hn : 0 < cfg.chunk_size) (hp : 0 < length audio) where
    cut : Cut cfg.chunk_size audio (chunks cfg.chunk_size audio)
    cut = chunks-Cut cfg.chunk_size audio hn hp

    total_eq : total ≡ suc cut.full
    total_eq =
        div_ceil_cut cfg.chunk_size cut.full cut.last (length audio) cut.sum cut.last_pos
          cut.last_le

    total_chunks : length (chunks cfg.chunk_size audio) ≡ total
    total_chunks = omega (arith, cut.count, total_eq)

    last_len_eq : last_len ≡ cut.last
    last_len_eq =
        let e : total - 1 ≡ cut.full = omega (arith, total_eq) in rw e (omega (arith, cut.sum))

    -- `total` is the least number of chunks that hold the audio.
    total-le : (k : ℕ) → (total ≤ k) ↔ (length audio ≤ k * cfg.chunk_size)
    total-le k = (
      λ h. grind (arith, cut.sum, cut.last_le, total_eq),
      λ h. elim (dec_lt k total) [
        | yes l ↦ absurd (grind (arith, cut.sum, cut.last_pos, total_eq))
        | no l ↦ omega arith
      ],
    )

  Accepts-Checked : Accepts audio cfg → Checked
  Accepts-Checked a = record {
    lower = a.chunk_lower;
    upper = a.chunk_upper;
    some_audio = ground (arith, a.some_audio);
    few_chunks = (total-le (omega (arith, a.chunk_lower)) a.some_audio 255).1 a.few_chunks;
    few_parity = a.few_parity;
    few_shards = omega (
      arith,
      (total-le (omega (arith, a.chunk_lower)) a.some_audio (256 - cfg.parity_count)).1
          a.few_shards,
      a.few_parity,
    );
  }

  Checked-Accepts : Checked → Accepts audio cfg
  Checked-Accepts c = record {
    chunk_lower = c.lower;
    chunk_upper = c.upper;
    some_audio = pos;
    few_chunks = (total-le (omega (arith, c.lower)) pos 255).0 c.few_chunks;
    few_parity = c.few_parity;
    few_shards =
        (total-le (omega (arith, c.lower)) pos (256 - cfg.parity_count)).0
          (omega (arith, c.few_shards, c.few_parity));
  }
    where
      pos : 0 < length audio
      pos = ground (arith, c.some_audio)

  module _ (laws : IsReedSolomon rs) (bytes : All IsByte audio) (c : Checked) where
    hn : 0 < cfg.chunk_size
    hn = omega (arith, c.lower)

    hp : 0 < length audio
    hp = (Checked-Accepts c).some_audio

    total_pos : 0 < total
    total_pos = omega (arith, total_eq hn hp)

    shard_count : length padded ≡ total
    shard_count = length-map (chunks cfg.chunk_size audio) (pad cfg.chunk_size) ∙ total_chunks hn hp

    padded_ok : All (IsShard cfg.chunk_size) padded
    padded_ok =
        let k = cut hn hp in
        pad_shards cfg.chunk_size k.last (chunks cfg.chunk_size audio) k.shape k.last_le
          (rw k.whole bytes)

    -- The shards that are framed: the padded chunks, and as many parity shards as asked for.
    shards_ok :
        (ps : List (List ℕ)) × (add_parity rs total cfg.parity_count cfg.chunk_size padded
          ≡ ok (padded ++ ps))
        × (length ps ≡ cfg.parity_count)
        × All (λ p. length p ≡ cfg.chunk_size) ps
    unfolding add_parity
    shards_ok = elim (dec_lt 0 cfg.parity_count) [
      | yes p ↦
          let (ps, e, l, sh) =
            laws.encode_ok total cfg.parity_count cfg.chunk_size padded total_pos p c.few_shards hn
              shard_count padded_ok in
          (
            ps,
            ground (arith, e, laws.new_ok total cfg.parity_count total_pos p c.few_shards),
            l,
            All-length cfg.chunk_size ps sh,
          )
      | no z ↦ ([], ground (arith, append-nil padded), omega arith, tt)
    ]

    abbrev entries : List (List ℕ) → List (ChunkHeader × List ℕ)
    entries ps =
        sent_data cfg total (total + cfg.parity_count) 0 (chunks cfg.chunk_size audio)
        ++ sent_parity cfg total (total + cfg.parity_count) 0 ps

    -- The frames `fs` of the padded chunks and the parity shards `ps` are those of the message.
    frames-Sent :
        (ps fs : List (List ℕ))
        → add_parity rs total cfg.parity_count cfg.chunk_size padded ≡ ok (padded ++ ps)
        → length ps ≡ cfg.parity_count
        → frame_loop sha cfg total last_len (total + cfg.parity_count) 0 (padded ++ ps) ≡ ok fs
        → parse_all sha fs ≡ ok (entries ps)
        → length fs ≡ length (padded ++ ps)
        → All (λ f. length f ≤ max_packet_size) fs
        → (m : EncodedMessage) × (build_message sha rs audio cfg ≡ ok m) × Sent sha audio cfg m
    frames-Sent ps fs ea lp ef ep el fits =
        let count : length (padded ++ ps) ≡ total + cfg.parity_count =
          omega (arith, length-append padded ps, shard_count) in
        let small : total % 256 ≡ total = omega (arith, c.few_chunks) in
        (
          record { frames = fs; total_data = total % 256; parity_count = cfg.parity_count },
          build_checked (padded ++ ps) fs c ea (rw count ef),
          record {
            bodies = chunks cfg.chunk_size audio;
            parities = ps;
            parsed = rw small ep;
            whole = (cut hn hp).whole;
            data_count = total_chunks hn hp ∙ sym small;
            data_some = rw small total_pos;
            parity_count = refl;
            parities_count = lp;
            frame_count = omega (arith, el, count, small);
            fits = fits;
          },
        )

    -- A checked input is framed, and the frames say what was sent.
    build-Sent :
        IsConfig cfg
        → (m : EncodedMessage) × (build_message sha rs audio cfg ≡ ok m) × Sent sha audio cfg m
    build-Sent cf =
        let k = cut hn hp in
        let (ps, ea, lp, fp) = shards_ok in
        let (fs, ef, ep, el, fits) =
          Writes-data sha cfg total last_len (total + cfg.parity_count) cf cfg.chunk_size c.upper
            c.few_chunks (chunks cfg.chunk_size audio) ps
            (sent_parity cfg total (total + cfg.parity_count) 0 ps) 0
            (rw (last_len_eq hn hp) k.shape) (omega (arith, last_len_eq hn hp, k.last_le))
            (omega (arith, total_chunks hn hp)) c.few_parity
            (Writes-parity sha cfg total last_len (total + cfg.parity_count) cf cfg.chunk_size
              c.upper c.few_chunks ps 0 total (omega arith) total_pos (omega (arith, lp))
              c.few_shards c.few_parity fp) in
        frames-Sent ps fs ea lp ef ep el fits

ok_injective {ℓ} : {A : Type ℓ} {a b : A} → ok a ≡ ok b → a ≡ b
ok_injective e = cc

module _ (sha : Sha256) (rs : ReedSolomon) (laws : IsReedSolomon rs) (audio : List ℕ)
    (cfg : BuildConfig) (bytes : All IsByte audio) (cf : IsConfig cfg) where
  -- With a Reed-Solomon coder that keeps its laws, audio bytes and a configuration whose fields fit
  -- their types and whose message id is not 0, `build_message` succeeds exactly if the chunk size is
  -- between `MIN_CHUNK_SIZE` and `MAX_BODY_SIZE`, the audio is not empty and fits 255 chunks, the
  -- parity count is at most `MAX_PARITY_PER_MESSAGE`, and the audio fits what the parity shards leave
  -- of 256 shards.
  pub build_message-ok_iff :
      Accepts audio cfg ↔ ((m : EncodedMessage) × (build_message sha rs audio cfg ≡ ok m))
  build_message-ok_iff = (
    λ a.
        let (m, e, _) =
          build-Sent sha rs audio cfg laws bytes (Accepts-Checked sha rs audio cfg a) cf in
        (m, e),
    λ (m, e). Checked-Accepts sha rs audio cfg (build-Checked sha rs audio cfg m e),
  )

  -- Every frame of a built message parses, each within `MAX_PACKET_SIZE`: first the data frames in
  -- order with their indices, whose bodies together are the audio, then as many parity frames as
  -- the configuration asks for; only the last frame carries the end-of-stream flag, if it is asked
  -- for.
  pub build_message-Sent :
      (m : EncodedMessage) → build_message sha rs audio cfg ≡ ok m → Sent sha audio cfg m
  build_message-Sent m e =
      let c = build-Checked sha rs audio cfg m e in
      let (m', e', s) = build-Sent sha rs audio cfg laws bytes c cf in
      subst (Sent sha audio cfg) (ok_injective (sym e' ∙ e)) s
