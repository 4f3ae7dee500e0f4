-- ===== src/Meshtastic/Serial/Bounds.antt =====
-- Whatever comes over the line: the size of a payload, and the end of the reading loop.
use voicetastic_core.Prelude.{
  ℕ, zero, suc, ◌+◌, ◌*◌, ◌≤◌, ◌<◌, ◌≡◌, refl, Bool, true, false, List, [], ◌∷◌, inl, inr,
  Bool-cases, arith, ltb, leb, ◌==◌, length, All, ◌||◌, if◌then◌else◌, length-append,
}
use voicetastic_core.Meshtastic.Serial.{
  Event, byte, elapsed, fault, Phase, scanning, started, high, low, body, Progress, go, got, failed,
  on_byte, on_event, read_from, read_frame, Read, frame, end_of_stream, io_error, inbound,
  max_payload, start1, start2,
}
use voicetastic_core.Meshtastic.Serial.Frames.{Fits}

-- A payload being read is within its length, and that within the limit.
abbrev PhaseFits : Phase → Type 0
PhaseFits (body left seen) = (0 < left) × (left + length seen ≤ max_payload)
PhaseFits phase = Unit

abbrev ProgressFits : Progress → Type 0
ProgressFits (go phase) = PhaseFits phase
ProgressFits (got payload) = Fits payload
ProgressFits failed = Unit

if-fits :
    (b : Bool) (p q : Progress)
    → (b ≡ true → ProgressFits p)
    → (b ≡ false → ProgressFits q)
    → ProgressFits (if b then p else q)
if-fits true p q h k = h refl
if-fits false p q h k = k refl

on_byte-fits : (phase : Phase) (b : ℕ) → PhaseFits phase → ProgressFits (on_byte phase b)
unfolding on_byte
on_byte-fits scanning b h = if-fits (b == start1) (go started) (go scanning) (λ e. tt) (λ e. tt)
on_byte-fits started b h = if-fits (b == start2) (go high) (go scanning) (λ e. tt) (λ e. tt)
on_byte-fits high b h = tt
on_byte-fits (low msb) b h =
    let len : ℕ = msb * 256 + b in
    if-fits (len == 0 || ltb max_payload len) (go scanning) (go (body len [])) (λ e. tt)
      (λ e. (ground (arith, e), ground (arith, e)))
on_byte-fits (body zero seen) b h = absurd (omega arith)
on_byte-fits (body (suc zero) seen) b h = omega (arith, length-append seen (b ∷ []))
on_byte-fits (body (suc (suc left)) seen) b h = omega (arith, length-append seen (b ∷ []))

on_event-fits : (phase : Phase) (e : Event) → PhaseFits phase → ProgressFits (on_event phase e)
unfolding on_event
on_event-fits phase (byte b) h = on_byte-fits phase b h
on_event-fits phase elapsed h = tt
on_event-fits phase fault h = tt

-- What a read returns: a payload of 1 to 512 bytes, and fewer events than before.
abbrev ReadFits : ℕ → Read → Type 0
ReadFits n (frame payload rest) = Fits payload × (length rest < n)
ReadFits n end_of_stream = Unit
ReadFits n (io_error rest) = length rest < n

ReadFits-mono : (n m : ℕ) (r : Read) → n ≤ m → ReadFits n r → ReadFits m r
ReadFits-mono n m (frame payload rest) h f = (f.0, omega arith)
ReadFits-mono n m end_of_stream h f = tt
ReadFits-mono n m (io_error rest) h f = omega arith

read_from-fits :
    (phase : Phase) (events : List Event)
    → PhaseFits phase
    → ReadFits (length events) (read_from phase events)
unfolding read_from
read_from-fits phase [] h = tt
read_from-fits phase (e ∷ events) h =
    next (on_event phase e) (on_event-fits phase e h) (λ phase'. read_from-fits phase' events)
  where
    next :
        (p : Progress)
        → ProgressFits p
        → ((phase' : Phase) → PhaseFits phase' → ReadFits (length events) (read_from phase' events))
        → ReadFits (suc (length events)) (elim p [
          | go phase' ↦ read_from phase' events
          | got payload ↦ frame payload events
          | failed ↦ io_error events
        ])
    next (go phase') f ih =
        ReadFits-mono (length events) (suc (length events)) (read_from phase' events) (omega arith)
          (ih phase' f)
    next (got payload) f ih = (f, omega arith)
    next failed f ih = omega arith

read_frame-fits : (events : List Event) → ReadFits (length events) (read_frame events)
unfolding read_frame
read_frame-fits events = read_from-fits scanning events tt

-- Whatever comes over the line, each payload that is sent on has 1 to 512 bytes.
pub inbound-Fits : (fuel k : ℕ) (events : List Event) → All Fits (inbound fuel k events)
unfolding inbound
inbound-Fits zero k events = tt
inbound-Fits (suc fuel) k events =
    sent (read_frame events) (read_frame-fits events) (λ j rest. inbound-Fits fuel j rest)
  where
    sent :
        (r : Read)
        → ReadFits (length events) r
        → ((j : ℕ) (rest : List Event) → All Fits (inbound fuel j rest))
        → All Fits (elim r [
          | frame payload rest ↦ payload ∷ inbound fuel 0 rest
          | end_of_stream ↦ []
          | io_error rest ↦
              let more = inbound fuel (k + 1) rest in if leb 5 (k + 1) then [] else more
        ])
    sent (frame payload rest) f ih = (f.0, ih 0 rest)
    sent end_of_stream f ih = tt
    sent (io_error rest) f ih = elim (Bool-cases (leb 5 (k + 1))) [
      | inl t ↦ rw t tt
      | inr t ↦ rw t (ih (k + 1) rest)
    ]

-- The loop ends: fuel beyond the number of events changes nothing.
pub inbound-ends :
    (fuel extra k : ℕ) (events : List Event)
    → length events < fuel
    → inbound (fuel + extra) k events ≡ inbound fuel k events
inbound-ends zero extra k events h = absurd (omega arith)
inbound-ends (suc fuel) extra k events h =
    let e : suc fuel + extra ≡ suc (fuel + extra) = omega arith in
    rw e (
      same (read_frame events) refl (read_frame-fits events)
        (λ j rest s. inbound-ends fuel extra j rest s))
  where
    same :
        (r : Read)
        → read_frame events ≡ r
        → ReadFits (length events) r
        → ((j : ℕ) (rest : List Event)
            → length rest < fuel
            → inbound (fuel + extra) j rest ≡ inbound fuel j rest)
        → inbound (suc (fuel + extra)) k events ≡ inbound (suc fuel) k events
    same (frame payload rest) e f ih =
        unfold inbound in ground (arith, e, ih 0 rest (omega (arith, f.1)))
    same end_of_stream e f ih = unfold inbound in ground (arith, e)
    same (io_error rest) e f ih =
        unfold inbound in ground (arith, e, ih (k + 1) rest (omega (arith, f)))
