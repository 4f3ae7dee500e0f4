-- ===== src/Proto/Mac.antt =====
-- crates/voicetastic-proto/src/mac.rs: the four-byte tag at the end of a header.
use voicetastic_core.Prelude.{
  ℕ, suc, ◌-◌, ◌≡◌, refl, sym, ◌↔◌, List, [], ◌∷◌, ◌++◌, bit_or, bit_xor, arith, ◌==◌,
  if◌then◌else◌, length, take, drop, All, length-take,
}
use voicetastic_core.Prelude.Bits.{IsByte, xor-IsByte, or-IsByte, xor_self}
use voicetastic_core.Proto.Consts.{header_size, header_mac_len}
use voicetastic_core.Proto.Error.{bad_mac, Result, ok, err}

-- The crate `sha2`: a digest of 32 bytes.
pub record Sha256 : Type 0 where
  pub digest : List ℕ → List ℕ
  pub length-digest : (m : List ℕ) → length (digest m) ≡ 32
  pub digest_bytes : (m : List ℕ) → All IsByte (digest m)

-- `for (a, b) in expected.iter().zip(rest) { diff |= a ^ b; }`
pub diff_loop : ℕ → List ℕ → List ℕ → ℕ
diff_loop diff (a ∷ as') (b ∷ bs) = diff_loop (bit_or diff (bit_xor a b)) as' bs
diff_loop diff [] bs = diff
diff_loop diff (a ∷ as') [] = diff

diff_loop-zero :
    (diff : ℕ) (as' bs : List ℕ)
    → IsByte diff
    → All IsByte as'
    → All IsByte bs
    → length as' ≡ length bs
    → diff_loop diff as' bs ≡ 0
    → (diff ≡ 0) × (as' ≡ bs)
unfolding diff_loop
diff_loop-zero diff [] [] hd ha hb hl e = (e, refl)
diff_loop-zero diff [] (b ∷ bs) hd ha hb hl e = absurd (omega arith)
diff_loop-zero diff (a ∷ as') [] hd ha hb hl e = absurd (omega arith)
diff_loop-zero diff (a ∷ as') (b ∷ bs) hd (ha, has) (hb, hbs) hl e =
    let (xb, xz) = xor-IsByte a b ha hb in
    let (ob, oz) = or-IsByte diff (bit_xor a b) hd xb in
    let (z, t) = diff_loop-zero (bit_or diff (bit_xor a b)) as' bs ob has hbs (omega arith) e in
    ((oz z).0, cc (xz (oz z).1, t))

diff_loop_same : (as' : List ℕ) → All IsByte as' → diff_loop 0 as' as' ≡ 0
unfolding diff_loop
diff_loop_same [] h = refl
diff_loop_same (a ∷ as') h = rw (xor_self a h.0) (diff_loop_same as' h.1)

take_bytes : (n : ℕ) (xs : List ℕ) → All IsByte xs → All IsByte (take n xs)
take_bytes ℕ.zero xs h = tt
take_bytes (suc n) [] h = tt
take_bytes (suc n) (x ∷ xs) h = (h.0, take_bytes n xs h.1)

module _ (sha : Sha256) where
  unfoldable pub compute_tag : List ℕ → List ℕ
  compute_tag header_no_mac = take header_mac_len (sha.digest header_no_mac)

  unfoldable pub verify : List ℕ → Result (Unit {0})
  unfolding diff_loop compute_tag
  verify header_with_mac =
      let expected = compute_tag (take (header_size - header_mac_len) header_with_mac) in
      let diff = diff_loop 0 expected (drop (header_size - header_mac_len) header_with_mac) in
      if diff == 0 then ok tt else err bad_mac

  pub length-compute_tag : (m : List ℕ) → length (compute_tag m) ≡ header_mac_len
  unfolding compute_tag
  length-compute_tag m =
      omega (arith, length-take header_mac_len (sha.digest m), sha.length-digest m)

  pub compute_tag_bytes : (m : List ℕ) → All IsByte (compute_tag m)
  unfolding compute_tag
  compute_tag_bytes m = take_bytes header_mac_len (sha.digest m) (sha.digest_bytes m)

  -- The check accepts exactly the header whose last four bytes are the tag of the first twelve.
  pub verify_iff :
      (logical tag : List ℕ)
      → take 12 (logical ++ tag) ≡ logical
      → drop 12 (logical ++ tag) ≡ tag
      → All IsByte tag
      → length tag ≡ 4
      → (verify (logical ++ tag) ≡ ok tt) ↔ (tag ≡ compute_tag logical)
  unfolding verify
  verify_iff logical tag ht hd hb hl =
      rw (ht, hd)
        (
          (λ e.
              sym
                (diff_loop-zero 0 (compute_tag logical) tag (omega arith)
                  (compute_tag_bytes logical) hb (omega (arith, length-compute_tag logical))
                  (ground arith)).1),
          (λ e. rw e (rw (diff_loop_same (compute_tag logical) (compute_tag_bytes logical)))),
        )
