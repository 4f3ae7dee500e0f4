-- ===== src/Proto/Error.antt =====
-- crates/voicetastic-proto/src/error.rs: the errors, and the result type of fallible code.
use Prim.Native.String.{String}
use voicetastic_core.Prelude.{◌⊎◌, inl, inr, ℕ, ◌≡◌, refl, Bool, true, false, Option, none, some}
use voicetastic_core.Proto.Types.{VoiceCodec}

-- The constructors carry the fields of the source's variants, in their order.
pub data VoiceError : Type 0 where
  too_short too_large : ℕ → ℕ → VoiceError
  bad_version reserved_flag_set : ℕ → VoiceError
  reserved_packet_type zero_message_id : VoiceError
  bad_total too_much_parity : ℕ → VoiceError
  too_many_shards bad_index audio_too_large : ℕ → ℕ → VoiceError
  chunk_too_small : ℕ → VoiceError
  chunk_too_large body_len_mismatch : ℕ → ℕ → VoiceError
  nack_too_short : VoiceError
  fec : String → VoiceError
  codec_mismatch : VoiceCodec → VoiceCodec → VoiceError
  total_mismatch stream_seq_mismatch parity_count_decrease : ℕ → ℕ → VoiceError
  bad_nack_index unknown_codec : ℕ → VoiceError
  unsupported_codec : VoiceCodec → VoiceError
  blacklisted : VoiceError
  per_sender_cap : String → VoiceError
  bad_mac : VoiceError
  rng : String → VoiceError

pub data Result {ℓ} (A : Type ℓ) : Type ℓ where
  err : VoiceError → Result A
  ok : A → Result A

infixl 5 ◌>>=◌ ◌>>◌
abbrev pub ◌>>=◌ {ℓ κ} : {A : Type ℓ} {B : Type κ} → Result A → (A → Result B) → Result B
err failure >>= next = err failure
ok a >>= next = next a

abbrev pub ◌>>◌ {ℓ} : {B : Type ℓ} → Result (Unit {0}) → Result B → Result B
check >> rest = check >>= λ _. rest

-- `if !test { return Err(e) }`
abbrev pub guard : Bool → VoiceError → Result (Unit {0})
guard false failure = err failure
guard true failure = ok tt

abbrev pub ok_or {ℓ} : {A : Type ℓ} → Option A → VoiceError → Result A
ok_or none e = err e
ok_or (some a) e = ok a

-- What a successful chain says of its parts.
pub >>=-eq-ok {ℓ κ} :
    {A : Type ℓ} {B : Type κ} {b : B} (m : Result A) (next : A → Result B)
    → (m >>= next) ≡ ok b
    → (a : A) × (m ≡ ok a) × (next a ≡ ok b)
>>=-eq-ok (err failure) next h = cc
>>=-eq-ok (ok a) next h = (a, refl, h)

-- To split on a computed result and keep the equation.
pub Result-cases {ℓ} :
    {A : Type ℓ} (m : Result A) → ((a : A) × (m ≡ ok a)) ⊎ ((e : VoiceError) × (m ≡ err e))
Result-cases (ok a) = inl (a, refl)
Result-cases (err e) = inr (e, refl)
