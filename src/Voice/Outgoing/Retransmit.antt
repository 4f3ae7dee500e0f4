-- ===== src/Voice/Outgoing/Retransmit.antt =====
-- crates/voicetastic-core/src/voice/outgoing.rs: no chunk is in flight twice, and batches are spaced.
use voicetastic_core.Prelude.{
  ℕ, ◌+◌, ◌-◌, ◌≤◌, ◌<◌, min, ◌≡◌, refl, Bool, true, false, not, ◌&&◌, some, List, [], ◌∷◌, arith,
  ltb, ==_iff, if◌then◌else◌, is_empty, get_or, All,
}
use voicetastic_core.Proto.Consts.{secs}
use voicetastic_core.Voice.Outgoing.{OutgoingVoice, member, frames_for, max_retransmits_per_message}

-- A frame of a batch: a data chunk that was not in flight and was asked for.
abbrev pub IsFresh : OutgoingVoice → List ℕ → ℕ × List ℕ → Type 0
IsFresh v missing (idx, f) =
    (idx < v.total_data)
    × (member idx v.pending_chunks ≡ false)
    × (member idx missing ≡ true)
    × (f ≡ get_or v.frames idx [])

fresh_more :
    (v : OutgoingVoice) (i : ℕ) (missing : List ℕ) (fs : List (ℕ × List ℕ))
    → All (IsFresh v missing) fs
    → All (IsFresh v (i ∷ missing)) fs
unfolding member
fresh_more v i missing [] h = tt
fresh_more v i missing (x ∷ fs) ((a, b, c, d), hs) =
    ((a, b, ground (arith, c), d), fresh_more v i missing fs hs)

keep_if :
    (v : OutgoingVoice) (missing : List ℕ) (b : Bool) (x : ℕ × List ℕ) (fs : List (ℕ × List ℕ))
    → (b ≡ true → IsFresh v missing x)
    → All (IsFresh v missing) fs
    → All (IsFresh v missing) (if b then x ∷ fs else fs)
keep_if v missing true x fs h hs = (h refl, hs)
keep_if v missing false x fs h hs = hs

pub frames_for-IsFresh :
    (v : OutgoingVoice) (missing : List ℕ) → All (IsFresh v missing) (frames_for v missing)
unfolding frames_for
frames_for-IsFresh v [] = tt
frames_for-IsFresh v (idx ∷ missing) =
    keep_if v (idx ∷ missing) (ltb idx v.total_data && not (member idx v.pending_chunks)) _ _
      (λ h. (
        ground (arith, h),
        ground (arith, h),
        (unfold member in ground (arith, (==_iff idx idx).1 refl)),
        refl,
      ))
      (fresh_more v idx missing _ (frames_for-IsFresh v missing))

-- A batch that is handed out: each frame is fresh, and in flight afterwards; the batch counts
-- against the budget, and opens a pause of at most thirty seconds.
pub record IsBatch (v w : OutgoingVoice) (missing : List ℕ) (ttl now : ℕ) (fs : List (ℕ × List ℕ))
    : Type 0 where
  pub some_frames : is_empty fs ≡ false
  pub fresh : All (IsFresh v missing) fs
  pub in_flight : All (λ x. member x.0 w.pending_chunks ≡ true) fs
  pub in_time : now - v.registered_at < ttl
  pub budget : (v.retransmits < max_retransmits_per_message) × (w.retransmits ≡ v.retransmits + 1)
  pub pause : (d : ℕ) × (w.cooldown_until ≡ some (now + d)) × (min (secs 1) ttl ≤ d) × (d ≤ secs 30)
