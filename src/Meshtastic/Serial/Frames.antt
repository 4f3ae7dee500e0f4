-- ===== src/Meshtastic/Serial/Frames.antt =====
-- Frames between noise are read back, and a stray START1 before a frame hides it.
use voicetastic_core.Prelude.{
  ℕ, zero, suc, ◌+◌, ◌-◌, ◌*◌, ◌/◌, ◌%◌, ◌≤◌, ◌<◌, ◌≡◌, ◌≢◌, refl, ap, ◌∙◌, none, some, List, [],
  ◌∷◌, ◌++◌, map, arith, length, All, append_assoc, length-append,
}
use voicetastic_core.Meshtastic.Serial.{
  Event, byte, elapsed, fault, scanning, body, read_from, read_frame, frame, inbound,
  subscribe_inbound, write_to_radio, start1, start2, max_payload,
}

-- A byte that does not start a frame, or a timer that ends.
abbrev pub IsNoise : Event → Type 0
IsNoise (byte b) = b ≢ start1
IsNoise elapsed = Unit
IsNoise fault = ⊥

-- What goes over the line for a payload.
abbrev pub wire : List ℕ → List Event
unfolding write_to_radio
wire payload = elim (write_to_radio payload) [ none ↦ [] | some bytes ↦ map byte bytes ]

abbrev pub Fits : List ℕ → Type 0
Fits payload = (0 < length payload) × (length payload ≤ max_payload)

read-noise :
    (noise rest : List Event)
    → All IsNoise noise
    → read_from scanning (noise ++ rest) ≡ read_from scanning rest
unfolding read_from
read-noise [] rest h = refl
read-noise (byte b ∷ noise) rest h = let ih = read-noise noise rest h.1 in ground (arith, ih, h.0)
read-noise (elapsed ∷ noise) rest h = read-noise noise rest h.1
read-noise (fault ∷ noise) rest h = absurd h.0

read-body :
    (payload seen : List ℕ) (left : ℕ) (rest : List Event)
    → length payload ≡ suc left
    → read_from (body (suc left) seen) (map byte payload ++ rest) ≡ frame (seen ++ payload) rest
unfolding read_from
read-body [] seen left rest h = absurd (omega arith)
read-body (b ∷ []) seen zero rest h = refl
read-body (b ∷ c ∷ payload) seen zero rest h = absurd (omega arith)
read-body (b ∷ []) seen (suc left) rest h = absurd (omega arith)
read-body (b ∷ c ∷ payload) seen (suc left) rest h =
    read-body (c ∷ payload) (seen ++ (b ∷ [])) left rest (omega arith)
    ∙ ap (λ xs. frame xs rest) (append_assoc seen (b ∷ []) (c ∷ payload))

wire-Fits :
    (payload : List ℕ)
    → Fits payload
    → wire payload
      ≡ map byte (start1 ∷ start2 ∷ (length payload / 256 % 256) ∷ (length payload % 256) ∷ payload)
unfolding write_to_radio
wire-Fits payload h = ground arith

read-len :
    (payload : List ℕ) (rest : List Event)
    → Fits payload
    → read_from scanning (wire payload ++ rest)
      ≡ read_from (body (length payload) []) (map byte payload ++ rest)
unfolding read_from
read-len payload rest h =
    let n : ℕ = length payload in
    let e : n / 256 % 256 * 256 + n % 256 ≡ n = omega arith in
    rw (wire-Fits payload h) (ground (arith, e))

read-wire :
    (noise : List Event) (payload : List ℕ) (rest : List Event)
    → All IsNoise noise
    → Fits payload
    → read_frame (noise ++ (wire payload ++ rest)) ≡ frame payload rest
unfolding read_frame
read-wire noise payload rest n f =
    let e : length payload ≡ suc (length payload - 1) = let p = f.0 in omega arith in
    read-noise noise (wire payload ++ rest) n
    ∙ read-len payload rest f
    ∙ ap (λ k. read_from (body k []) (map byte payload ++ rest)) e
    ∙ read-body payload [] (length payload - 1) rest e

-- Noise and a payload's frame, as often as there are items.
unfoldable pub stream : List (List Event × List ℕ) → List Event
stream [] = []
stream ((noise, payload) ∷ items) = noise ++ (wire payload ++ stream items)

abbrev pub payloads : List (List Event × List ℕ) → List (List ℕ)
payloads items = map (λ item. item.1) items

abbrev pub Sendable : List (List Event × List ℕ) → Type 0
Sendable items = All (λ item. All IsNoise (item.0) × Fits (item.1)) items

inbound-frame :
    (fuel k : ℕ) (events rest : List Event) (payload : List ℕ)
    → read_frame events ≡ frame payload rest
    → inbound (suc fuel) k events ≡ payload ∷ inbound fuel 0 rest
unfolding inbound
inbound-frame fuel k events rest payload e = ground (arith, e)

inbound-stream :
    (items : List (List Event × List ℕ)) (fuel k : ℕ)
    → Sendable items
    → length items < fuel
    → inbound fuel k (stream items) ≡ payloads items
unfolding stream
inbound-stream items zero k s h = absurd (omega arith)
inbound-stream [] (suc fuel) k s h = nothing
  where
    nothing : inbound (suc fuel) k [] ≡ []
    nothing = unfold inbound read_frame read_from in refl
inbound-stream ((noise, payload) ∷ items) (suc fuel) k s h =
    inbound-frame fuel k (noise ++ (wire payload ++ stream items)) (stream items) payload
      (read-wire noise payload (stream items) s.0.0 s.0.1)
    ∙ ap (◌∷◌ payload) (inbound-stream items fuel 0 s.1 (omega arith))

length-wire : (payload : List ℕ) → Fits payload → 0 < length (wire payload)
length-wire payload f = rw (wire-Fits payload f) (omega arith)

length-le-stream :
    (items : List (List Event × List ℕ)) → Sendable items → length items ≤ length (stream items)
unfolding stream
length-le-stream [] s = omega arith
length-le-stream ((noise, payload) ∷ items) s = omega (
  arith,
  length-le-stream items s.1,
  length-wire payload s.0.1,
  length-append noise (wire payload ++ stream items),
  length-append (wire payload) (stream items),
)

-- The payloads that one side writes, each of 1 to 512 bytes, arrive at the other side in order and
-- with nothing between them, whatever bytes but START1 and whatever pauses lie between the frames.
pub subscribe-stream :
    (items : List (List Event × List ℕ))
    → Sendable items
    → subscribe_inbound (stream items) ≡ payloads items
unfolding subscribe_inbound
subscribe-stream items s =
    inbound-stream items (suc (length (stream items))) 0 s
      (let l = length-le-stream items s in omega arith)

-- The bytes of a frame, read as noise.
map-IsNoise : (xs : List ℕ) → All (λ b. b ≢ start1) xs → All IsNoise (map byte xs)
map-IsNoise [] h = tt
map-IsNoise (x ∷ xs) h = (h.0, map-IsNoise xs h.1)

-- A START1 directly before a frame swallows the frame's own START1: the frame is lost, where no
-- byte of its length and payload is START1, and the scan goes on behind it.
pub stray-read :
    (payload : List ℕ) (rest : List Event)
    → Fits payload
    → All (λ b. b ≢ start1) payload
    → length payload % 256 ≢ start1
    → read_frame (byte start1 ∷ (wire payload ++ rest)) ≡ read_frame rest
unfolding read_frame
stray-read payload rest f n l = rw (wire-Fits payload f) (
    skip
    ∙ read-noise (map byte ((length payload / 256 % 256) ∷ (length payload % 256) ∷ payload)) rest
        (let w = f.1 in (λ e. absurd (omega arith), (l, map-IsNoise payload n))))
  where
    skip :
        read_from scanning (
          byte start1
          ∷ byte start1
          ∷ byte start2
          ∷ (map byte ((length payload / 256 % 256) ∷ (length payload % 256) ∷ payload) ++ rest))
        ≡ read_from scanning
            (map byte ((length payload / 256 % 256) ∷ (length payload % 256) ∷ payload) ++ rest)
    skip = unfold read_from in refl
