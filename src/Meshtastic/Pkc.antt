-- ===== src/Meshtastic/Pkc.antt =====
-- crates/voicetastic-core/src/meshtastic/pkc.rs: the decryption of direct messages.
pub mod Nonce
use voicetastic_core.Prelude.{
  ℕ, ◌+◌, ◌-◌, ◌*◌, ◌/◌, ◌%◌, Option, none, List, [], ◌∷◌, ◌++◌, ltb, if◌then◌else◌, length, take,
  drop, get_or,
}

abbrev pub pkc_overhead : ℕ
pkc_overhead = 12

-- The crates `x25519_dalek`, `sha2` and `ccm`: a shared point, its digest, and the opening of a
-- ciphertext with key, nonce and tag.
pub record Ciphers : Type 0 where
  pub diffie_hellman : List ℕ → List ℕ → List ℕ
  pub digest : List ℕ → List ℕ
  pub open_ccm : List ℕ → List ℕ → List ℕ → List ℕ → Option (List ℕ)

-- `u32::to_le_bytes`, and back.
unfoldable pub to_le_bytes : ℕ → List ℕ
to_le_bytes n = (n % 256) ∷ (n / 256 % 256) ∷ (n / 65536 % 256) ∷ (n / 16777216 % 256) ∷ []

unfoldable pub from_le_bytes : List ℕ → ℕ
from_le_bytes bytes =
    get_or bytes 0 0
    + get_or bytes 1 0 * 256
    + get_or bytes 2 0 * 65536
    + get_or bytes 3 0 * 16777216

unfoldable pub build_nonce : ℕ → ℕ → ℕ → List ℕ
unfolding to_le_bytes
build_nonce from_node packet_id extra_nonce =
    to_le_bytes packet_id ++ (to_le_bytes extra_nonce ++ (to_le_bytes from_node ++ (0 ∷ [])))

-- The parts of the input: ciphertext, tag, extra nonce.
abbrev pub open_parts : Ciphers → List ℕ → List ℕ → ℕ → ℕ → List ℕ → List ℕ → Option (List ℕ)
unfolding build_nonce from_le_bytes
open_parts ciphers our_private peer_public from_node packet_id ct trailer =
    ciphers.open_ccm (ciphers.digest (ciphers.diffie_hellman our_private peer_public))
      (build_nonce from_node packet_id (from_le_bytes (drop 8 trailer))) ct (take 8 trailer)

unfoldable pub decrypt : Ciphers → List ℕ → List ℕ → ℕ → ℕ → List ℕ → Option (List ℕ)
unfolding build_nonce from_le_bytes
decrypt ciphers our_private peer_public from_node packet_id bytes =
    let split = length bytes - pkc_overhead in
    if ltb (length bytes) pkc_overhead
    then none
    else open_parts ciphers our_private peer_public from_node packet_id (take split bytes)
        (drop split bytes)
