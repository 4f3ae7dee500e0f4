-- ===== src/Meshtastic/Pkc/Nonce.antt =====
-- Nonces of different packets differ.
use voicetastic_core.Prelude.{ℕ, ◌^◌, ◌<◌, ◌≡◌, arith}
use voicetastic_core.Meshtastic.Pkc.{to_le_bytes, build_nonce}

-- Equal nonces come from the same sender, packet and extra nonce.
pub build_nonce-injective :
    (from_node packet_id extra_nonce from_node' packet_id' extra_nonce' : ℕ)
    → from_node < 2 ^ 32
    → packet_id < 2 ^ 32
    → extra_nonce < 2 ^ 32
    → from_node' < 2 ^ 32
    → packet_id' < 2 ^ 32
    → extra_nonce' < 2 ^ 32
    → build_nonce from_node packet_id extra_nonce ≡ build_nonce from_node' packet_id' extra_nonce'
    → (from_node ≡ from_node') × (packet_id ≡ packet_id') × (extra_nonce ≡ extra_nonce')
unfolding build_nonce to_le_bytes
build_nonce-injective f p x f' p' x' hf hp hx hf' hp' hx' e =
    (ground arith, ground arith, ground arith)
