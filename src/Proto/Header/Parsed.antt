-- ===== src/Proto/Header/Parsed.antt =====
-- What a successful parse says of the bytes.
use voicetastic_core.Prelude.{
  ℕ, ◌≤◌, ◌<◌, ◌≡◌, refl, Bool, true, false, not, Option, none, some, List, [], ◌∷◌, ◌++◌, bit_and,
  arith, leb, ◌==◌, length, get_or, take, drop, All,
}
use voicetastic_core.Prelude.Bits.{IsByte}
use voicetastic_core.Proto.Consts.{
  protocol_version, header_size, max_packet_size, max_body_size, max_parity_per_message,
}
use voicetastic_core.Proto.Types.{PacketType, from_bits, from_byte, to_byte, from_byte-IsWireCodec}
use voicetastic_core.Proto.Error.{Result, ok, VoiceError, ◌>>=◌, ◌>>◌, guard, ok_or, >>=-eq-ok}
use voicetastic_core.Proto.Mac.{Sha256, compute_tag, verify, verify_iff}
use voicetastic_core.Proto.Header.{
  ChunkHeader, type_flags_byte, to_be_bytes, from_be_bytes, write_logical, check_index, serialize,
  parse, peek_message_id, IsValid,
}
use voicetastic_core.Proto.Header.Flags.{flags, flags_written}
use voicetastic_core.Proto.Header.RoundTrip.{check_index_iff}

to_from_be_bytes :
    (a b c d : ℕ)
    → IsByte a
    → IsByte b
    → IsByte c
    → IsByte d
    → to_be_bytes (from_be_bytes a b c d) ≡ a ∷ b ∷ c ∷ d ∷ []
to_from_be_bytes a b c d ha hb hc hd = ground arith

-- What the checks of `parse` leave known of the bytes and of the header.
record Facts (sha : Sha256) (bytes : List ℕ) (h : ChunkHeader) (body : List ℕ) : Type 0 where
  long : header_size ≤ length bytes
  short : length bytes ≤ max_packet_size
  version : get_or bytes 0 0 ≡ protocol_version
  reserved : bit_and (get_or bytes 1 0) 0x2f ≡ 0
  kind : from_bits (get_or bytes 1 0) ≡ some h.packet_type
  last : not (bit_and (get_or bytes 1 0) 0x10 == 0) ≡ h.last_in_stream
  id :
      h.message_id
      ≡ from_be_bytes (get_or bytes 2 0) (get_or bytes 3 0) (get_or bytes 4 0) (get_or bytes 5 0)
  id_set : 0 < h.message_id
  codec : h.codec ≡ from_byte (get_or bytes 6 0)
  param : h.codec_param ≡ get_or bytes 7 0
  seq : h.stream_seq ≡ get_or bytes 8 0
  index : h.chunk_index ≡ get_or bytes 9 0
  total : h.total_data ≡ get_or bytes 10 0
  parity : h.parity_count ≡ get_or bytes 11 0
  some_data : 0 < h.total_data
  parity_fits : h.parity_count ≤ max_parity_per_message
  index_ok : check_index h.packet_type h.chunk_index h.total_data h.parity_count ≡ ok tt
  tag_ok : verify sha (take header_size bytes) ≡ ok tt
  rest : body ≡ drop header_size bytes

-- A chain of the shape of `parse` that ends well: every check passed.
checks_passed :
    {A : Type 0} (t1 t2 t3 t4 : Bool) (e1 e2 e3 e4 : VoiceError) (o : Option PacketType)
    (eo : VoiceError) (t5 t6 t7 : Bool) (e5 e6 e7 : VoiceError)
    (index : PacketType → Result (Unit {0})) (tag : Result (Unit {0})) (k : PacketType → A) (a : A)
    → (do
      guard t1 e1
      guard t2 e2
      guard t3 e3
      guard t4 e4
      p ← ok_or o eo
      guard t5 e5
      guard t6 e6
      guard t7 e7
      index p
      tag
      ok (k p))
      ≡ ok a
    → (t1 ≡ true)
      × (t2 ≡ true)
      × (t3 ≡ true)
      × (t4 ≡ true)
      × (t5 ≡ true)
      × (t6 ≡ true)
      × (t7 ≡ true)
      × (p : PacketType) × (o ≡ some p)
      × (index p ≡ ok tt)
      × (tag ≡ ok tt)
      × (k p ≡ a)
checks_passed false t2 t3 t4 e1 e2 e3 e4 o eo t5 t6 t7 e5 e6 e7 index tag k a h = cc
checks_passed true false t3 t4 e1 e2 e3 e4 o eo t5 t6 t7 e5 e6 e7 index tag k a h = cc
checks_passed true true false t4 e1 e2 e3 e4 o eo t5 t6 t7 e5 e6 e7 index tag k a h = cc
checks_passed true true true false e1 e2 e3 e4 o eo t5 t6 t7 e5 e6 e7 index tag k a h = cc
checks_passed true true true true e1 e2 e3 e4 none eo t5 t6 t7 e5 e6 e7 index tag k a h = cc
checks_passed true true true true e1 e2 e3 e4 (some p) eo false t6 t7 e5 e6 e7 index tag k a h = cc
checks_passed true true true true e1 e2 e3 e4 (some p) eo true false t7 e5 e6 e7 index tag k a h =
    cc
checks_passed true true true true e1 e2 e3 e4 (some p) eo true true false e5 e6 e7 index tag k a h =
    cc
checks_passed true true true true e1 e2 e3 e4 (some p) eo true true true e5 e6 e7 index tag k a h =
    let (u, i, h') = >>=-eq-ok (index p) (λ _. tag >> ok (k p)) h in
    let (w, t, h'') = >>=-eq-ok tag (λ _. ok (k p)) h' in
    (refl, refl, refl, refl, refl, refl, refl, p, refl, i, t, cc)

module _ (sha : Sha256) where
  parse-Facts :
      (bytes : List ℕ) (h : ChunkHeader) (body : List ℕ)
      → parse sha bytes ≡ ok (h, body)
      → Facts sha bytes h body
  unfolding parse
  parse-Facts bytes h body e =
      let byte = λ (i : ℕ). get_or bytes i 0 in
      let id = from_be_bytes (byte 2) (byte 3) (byte 4) (byte 5) in
      let (t1, t2, t3, t4, t5, t6, t7, p, o, i, t, a) =
        checks_passed (leb header_size (length bytes)) (leb (length bytes) max_packet_size)
          (byte 0 == protocol_version) (bit_and (byte 1) 0x2f == 0) _ _ _ _ (from_bits (byte 1)) _
          (not (id == 0)) (not (byte 10 == 0)) (leb (byte 11) max_parity_per_message) _ _ _
          (λ p. check_index p (byte 9) (byte 10) (byte 11)) (verify sha (take header_size bytes))
          (λ p. (
            record {
              packet_type = p;
              last_in_stream = not (bit_and (byte 1) 0x10 == 0);
              message_id = id;
              codec = from_byte (byte 6);
              codec_param = byte 7;
              stream_seq = byte 8;
              chunk_index = byte 9;
              total_data = byte 10;
              parity_count = byte 11;
            },
            drop header_size bytes,
          ))
          (h, body) e in
      ground (arith, t1, t2, t3, t4, t5, t6, t7, o, i, t, a)

  module _ (b0 b1 b2 b3 b4 b5 b6 b7 b8 b9 b10 b11 b12 b13 b14 b15 : ℕ) (rest : List ℕ) where
    abbrev logical : List ℕ
    logical = b0 ∷ b1 ∷ b2 ∷ b3 ∷ b4 ∷ b5 ∷ b6 ∷ b7 ∷ b8 ∷ b9 ∷ b10 ∷ b11 ∷ []

    abbrev tag : List ℕ
    tag = b12 ∷ b13 ∷ b14 ∷ b15 ∷ []

    module _ (h : ChunkHeader) (body : List ℕ)
        (f : Facts sha ((logical ++ tag) ++ rest) h body) where
      written : All IsByte ((logical ++ tag) ++ rest) → write_logical h ≡ logical
      unfolding write_logical type_flags_byte
      written hb =
          let fl : flags h.packet_type h.last_in_stream ≡ b1 =
            rw (← f.last) (flags_written b1 h.packet_type (omega arith) f.reserved f.kind) in
          let id : to_be_bytes h.message_id ≡ b2 ∷ b3 ∷ b4 ∷ b5 ∷ [] = rw f.id (
            to_from_be_bytes b2 b3 b4 b5 (omega arith) (omega arith) (omega arith) (omega arith)) in
          let co : to_byte h.codec ≡ b6 = rw f.codec (from_byte-IsWireCodec b6 (omega arith)).1 in
          cc (fl, id, co, f.version, f.param, f.seq, f.index, f.total, f.parity)

      parsed-IsValid : All IsByte ((logical ++ tag) ++ rest) → IsValid h
      parsed-IsValid hb = record {
        id_set = f.id_set;
        id_fits = omega (arith, f.id);
        codec_fits = rw f.codec (from_byte-IsWireCodec b6 (omega arith)).0;
        param_fits = omega (arith, f.param);
        seq_fits = omega (arith, f.seq);
        some_data = f.some_data;
        total_fits = omega (arith, f.total);
        parity_fits = f.parity_fits;
        index_ok =
            (check_index_iff h.packet_type h.chunk_index h.total_data h.parity_count).0 f.index_ok;
      }

      parsed_bytes :
          All IsByte ((logical ++ tag) ++ rest) → serialize sha h ++ body ≡ (logical ++ tag) ++ rest
      unfolding serialize
      parsed_bytes hb =
          let t : tag ≡ compute_tag sha logical =
            (verify_iff sha logical tag refl refl (omega arith) refl).0 f.tag_ok in
          rw (written hb, ← t, f.rest)

  abbrev Parsed : List ℕ → ChunkHeader → List ℕ → Type 0
  Parsed bytes h body =
      IsValid h × (serialize sha h ++ body ≡ bytes) × (length body ≤ max_body_size)

  Facts-Parsed :
      (bytes : List ℕ) (h : ChunkHeader) (body : List ℕ)
      → All IsByte bytes
      → Facts sha bytes h body
      → Parsed bytes h body
  Facts-Parsed
        (b0 ∷ b1 ∷ b2 ∷ b3 ∷ b4 ∷ b5 ∷ b6 ∷ b7 ∷ b8 ∷ b9 ∷ b10 ∷ b11 ∷ b12 ∷ b13 ∷ b14 ∷ b15 ∷ rest)
        h body hb f =
      (
        parsed-IsValid b0 b1 b2 b3 b4 b5 b6 b7 b8 b9 b10 b11 b12 b13 b14 b15 rest h body f hb,
        parsed_bytes b0 b1 b2 b3 b4 b5 b6 b7 b8 b9 b10 b11 b12 b13 b14 b15 rest h body f hb,
        rw f.rest (omega (arith, f.short)),
      )
  Facts-Parsed bytes h body hb f = absurd (omega (arith, f.long))

  -- A parse that succeeds on bytes gives a valid header whose serialisation, followed by the body,
  -- is exactly what was parsed; the body has at most `MAX_BODY_SIZE` bytes.
  pub parse-Parsed :
      (bytes : List ℕ) (h : ChunkHeader) (body : List ℕ)
      → All IsByte bytes
      → parse sha bytes ≡ ok (h, body)
      → IsValid h × (serialize sha h ++ body ≡ bytes) × (length body ≤ max_body_size)
  parse-Parsed bytes h body hb e = Facts-Parsed bytes h body hb (parse-Facts bytes h body e)

  -- On a frame that parses, the peek that runs before the check of the tag gives the same id.
  pub peek_message_id-parse :
      (bytes : List ℕ) (h : ChunkHeader) (body : List ℕ)
      → parse sha bytes ≡ ok (h, body)
      → peek_message_id bytes ≡ some h.message_id
  unfolding peek_message_id
  peek_message_id-parse bytes h body e =
      let f = parse-Facts bytes h body e in ground (arith, f.long, f.version, f.id, f.id_set)
