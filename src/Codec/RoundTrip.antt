-- ===== src/Codec/RoundTrip.antt =====
-- Frames and packets written one after the other are read back.
use voicetastic_core.Prelude.{
  ℕ, zero, suc, ◌+◌, ◌/◌, ◌%◌, ◌≤◌, ◌<◌, ◌≡◌, ◌≢◌, refl, sym, ap, ◌∙◌, Option, none, some, List, [],
  ◌∷◌, ◌++◌, arith, length, take, drop, get_or, All, take-append_length, length-append, length-drop,
}
use voicetastic_core.Codec.Frames.{
  Cursor, new, slice, from_be, frame_size, take_frame, take_packet, next_frame, next_packet,
  collect, collect_all,
}
use voicetastic_core.Codec.Walk.{spelled, drop-drop, collect_all-All}
use voicetastic_core.Prelude.Bits.{IsByte}
use voicetastic_core.Codec.Packets.{
  framed, get-drop, next_packet-Ended, next_packet-IsIterator, next_packet-short,
}

pub drop-append_length : (xs ys : List ℕ) → drop (length xs) (xs ++ ys) ≡ ys
drop-append_length [] ys = refl
drop-append_length (x ∷ xs) ys = drop-append_length xs ys

-- What an iterator does where an item lies, and at the end.
record Reads (next : Cursor → Cursor × Option (List ℕ)) (print : List ℕ → List ℕ)
    (Good : List ℕ → Type 0) : Type 0 where
  reads :
      (c : Cursor) (item rest : List ℕ)
      → Good item
      → drop c.pos c.bytes ≡ print item ++ rest
      → next c ≡ (record c { pos = c.pos + length (print item) }, some item)
  ends : (c : Cursor) → drop c.pos c.bytes ≡ [] → next c ≡ (c, none)
  long : (item : List ℕ) → Good item → 0 < length (print item)

module _ {next : Cursor → Cursor × Option (List ℕ)} {print : List ℕ → List ℕ}
    {Good : List ℕ → Type 0} (r : Reads next print Good) where
  collect-spelled :
      (items : List (List ℕ)) (fuel : ℕ) (c : Cursor)
      → All Good items
      → length items < fuel
      → drop c.pos c.bytes ≡ spelled print items
      → collect next fuel c ≡ (record c { pos = c.pos + length (spelled print items) }, items)
  unfolding collect
  collect-spelled items zero c g h e = absurd (omega arith)
  collect-spelled [] (suc fuel) c g h e =
      let z : c.pos + 0 ≡ c.pos = omega arith in ground (arith, r.ends c e, z)
  collect-spelled (item ∷ items) (suc fuel) c g h e =
      let c' : Cursor = record c { pos = c.pos + length (print item) } in
      let e' : drop c'.pos c'.bytes ≡ spelled print items =
        sym (drop-drop (length (print item)) c.pos c.bytes)
        ∙ ap (drop (length (print item))) e
        ∙ drop-append_length (print item) (spelled print items) in
      let ih = collect-spelled items fuel c' g.1 (omega arith) e' in
      let n = r.reads c item (spelled print items) g.0 e in
      ground (arith, ih, n, length-append (print item) (spelled print items))

  length-le-spelled :
      (items : List (List ℕ)) → All Good items → length items ≤ length (spelled print items)
  length-le-spelled [] g = omega arith
  length-le-spelled (item ∷ items) g = omega (
    arith,
    r.long item g.0,
    length-le-spelled items g.1,
    length-append (print item) (spelled print items),
  )

  collect_all-spelled :
      (items : List (List ℕ))
      → All Good items
      → collect_all next (spelled print items)
        ≡ (record { bytes = spelled print items; pos = length (spelled print items) }, items)
  unfolding collect_all
  collect_all-spelled items g =
      let z : 0 + length (spelled print items) ≡ length (spelled print items) = omega arith in
      collect-spelled items (suc (length (spelled print items))) (new (spelled print items)) g
        (omega (arith, length-le-spelled items g)) refl
      ∙ ap (λ p. (record { bytes = spelled print items; pos = p }, items)) z

-- A frame whose header announces its own length.
abbrev pub IsFrame : List ℕ → Type 0
IsFrame [] = ⊥
IsFrame (toc ∷ body) = frame_size toc ≡ some (length (toc ∷ body))

-- The length fits the two bytes before a packet.
abbrev pub IsPacket : List ℕ → Type 0
IsPacket packet = length packet < 65536

-- What a known tail tells of the bytes.
tail-length :
    (xs rest : List ℕ) (pos : ℕ) (x : ℕ)
    → drop pos xs ≡ x ∷ rest
    → length xs ≡ pos + suc (length rest)
tail-length xs rest pos x e = omega (arith, ap (length {A = ℕ}) e, length-drop pos xs)

tail-get :
    (xs rest : List ℕ) (pos i : ℕ) → drop pos xs ≡ rest → get_or xs (pos + i) 0 ≡ get_or rest i 0
tail-get xs rest pos i e = sym (get-drop xs pos i 0) ∙ ap (λ t. get_or t i 0) e

tail-end : (xs : List ℕ) (pos : ℕ) → drop pos xs ≡ [] → length xs ≤ pos
tail-end xs pos e = omega (arith, ap (length {A = ℕ}) e, length-drop pos xs)

reads_frame :
    (c : Cursor) (item rest : List ℕ)
    → IsFrame item
    → drop c.pos c.bytes ≡ item ++ rest
    → next_frame c ≡ (record c { pos = c.pos + length item }, some item)
unfolding next_frame take_frame
reads_frame c [] rest g e = absurd g
reads_frame c (toc ∷ body) rest g e =
    let z : c.pos + 0 ≡ c.pos = omega arith in
    let t : get_or c.bytes c.pos 0 ≡ toc =
      ap (λ k. get_or c.bytes k 0) (sym z) ∙ tail-get c.bytes (toc ∷ (body ++ rest)) c.pos 0 e in
    let l = tail-length c.bytes (body ++ rest) c.pos toc e in
    let s : slice c.bytes c.pos (length (toc ∷ body)) ≡ toc ∷ body =
      ap (take (length (toc ∷ body))) e ∙ take-append_length (toc ∷ body) rest in
    ground (arith, t, l, s, g, length-append body rest, ap frame_size t)

reads_packet :
    (c : Cursor) (item rest : List ℕ)
    → IsPacket item
    → drop c.pos c.bytes ≡ framed item ++ rest
    → next_packet c ≡ (record c { pos = c.pos + length (framed item) }, some item)
unfolding next_packet take_packet
reads_packet c item rest g e =
    let n : ℕ = length item in
    let z : c.pos + 0 ≡ c.pos = omega arith in
    let high : get_or c.bytes c.pos 0 ≡ n / 256 % 256 =
      ap (λ k. get_or c.bytes k 0) (sym z) ∙ tail-get c.bytes (framed item ++ rest) c.pos 0 e in
    let low : get_or c.bytes (c.pos + 1) 0 ≡ n % 256 =
      tail-get c.bytes (framed item ++ rest) c.pos 1 e in
    let whole : from_be (get_or c.bytes c.pos 0) (get_or c.bytes (c.pos + 1) 0) ≡ n = omega arith in
    let l = tail-length c.bytes _ c.pos _ e in
    let s : slice c.bytes (c.pos + 2) (length item) ≡ item =
      ap (take (length item)) (sym (drop-drop 2 c.pos c.bytes) ∙ ap (drop 2) e)
      ∙ take-append_length item rest in
    rw whole (ground (arith, l, s, length-append item rest))

IsFrame-Reads : Reads next_frame (λ f. f) IsFrame
unfolding next_frame
IsFrame-Reads = record {
  reads = reads_frame;
  ends = λ c e. let h = tail-end c.bytes c.pos e in ground (arith, h);
  long = λ item g. positive item g;
}
  where
    positive : (item : List ℕ) → IsFrame item → 0 < length item
    positive [] g = absurd g
    positive (toc ∷ body) g = omega arith

IsPacket-Reads : Reads next_packet framed IsPacket
unfolding next_packet
IsPacket-Reads = record {
  reads = reads_packet;
  ends = λ c e. let h = tail-end c.bytes c.pos e in ground (arith, h);
  long = λ item g. omega arith;
}

-- Frames that announce their own length, written one after the other, are read back as they were,
-- with no byte left.
pub frames-read :
    (frames : List (List ℕ))
    → All IsFrame frames
    → collect_all next_frame (spelled (λ f. f) frames)
      ≡ (record { bytes = spelled (λ f. f) frames; pos = length (spelled (λ f. f) frames) }, frames)
frames-read frames g = collect_all-spelled IsFrame-Reads frames g

-- Packets of less than 65,536 bytes, each written behind its length, are read back as they were,
-- with no byte left.
pub packets-read :
    (packets : List (List ℕ))
    → All IsPacket packets
    → collect_all next_packet (spelled framed packets)
      ≡ (record { bytes = spelled framed packets; pos = length (spelled framed packets) }, packets)
packets-read packets g = collect_all-spelled IsPacket-Reads packets g

-- A walk over packets that has gone as far as there are packets: they are the payload up to where it
-- stands, and no packet lies there.
pub record Walked (payload : List ℕ) (r : Cursor × List (List ℕ)) : Type 0 where
  pub packets : All IsPacket r.1
  pub spells : spelled framed r.1 ++ drop r.0.pos payload ≡ payload
  pub no_more :
      (packet rest : List ℕ) → IsPacket packet → drop r.0.pos payload ≢ framed packet ++ rest

-- The loop over the Opus packets of any payload of bytes ends: what it gives are packets of less than
-- 65,536 bytes; each behind its length, in order, they are the payload up to where it stands; and what
-- is left there does not begin with the length of a packet and the packet.
pub next_packet-Walked :
    (payload : List ℕ) → All IsByte payload → Walked payload (collect_all next_packet payload)
next_packet-Walked payload b =
    let e = next_packet-Ended payload b in
    record {
      packets = collect_all-All next_packet-IsIterator IsPacket next_packet-short payload b;
      spells = e.spells;
      no_more = λ packet rest g q.
          let r = collect_all next_packet payload in
          let here : drop r.0.pos r.0.bytes ≡ framed packet ++ rest =
            ap (drop r.0.pos) e.kept ∙ q in
          cc (ap (λ n. n.1) (reads_packet r.0 packet rest g here), e.over);
    }
