-- ===== src/Meshtastic/Protocol/Decode/Replay.antt =====
-- Which encrypted packets are opened, and what keeps a packet from being opened twice.
use voicetastic_core.Prelude.{
  ℕ, ◌≤◌, ◌≡◌, refl, ap, Option-cases, Bool, true, false, not, Option, none, some, List, [], ◌∷◌,
  Bool-cases, inl, inr, arith, ltb, ◌==◌, ==_iff, length,
}
use voicetastic_core.Prelude.Options.{guard, >>=-eq-some, guard-eq-some}
use voicetastic_core.Prelude.Assoc.{lookup}
use voicetastic_core.Meshtastic.Pkc.{Ciphers}
use voicetastic_core.Meshtastic.Messages.{Decoders, Data, User, NodeInfo}
use voicetastic_core.Meshtastic.Protocol.Decode.{
  InboundCtx, Seen, pop_back, remember, contains, was_seen, note_seen, open_packet, try_pkc_decrypt,
}

-- A packet that was opened: it is for us, we hold a key, the sender's key of 32 bytes is known, and
-- the packet is no replay.
pub record Opened {X : Type 0} (from to id : ℕ) (ctx : InboundCtx X) (seen : Seen) : Type 0 where
  pub for_us : ctx.my_node_num ≡ some to
  pub our_key : List ℕ
  pub has_key : ctx.our_private_key ≡ some our_key
  pub peer : NodeInfo X
  pub known : lookup ◌==◌ from ctx.nodes ≡ some peer
  pub user : User X
  pub has_user : peer.user ≡ some user
  pub key_length : length user.public_key ≡ 32
  pub fresh : was_seen seen from id ≡ false

not-true : (b : Bool) → not b ≡ true → b ≡ false
not-true true h = cc
not-true false h = refl

length-pop_back {ℓ} : {A : Type ℓ} (x : A) (xs : List A) → length (pop_back (x ∷ xs)) ≡ length xs
unfolding pop_back
length-pop_back x [] = refl
length-pop_back x (y ∷ xs) = omega (arith, length-pop_back y xs)

-- A pair that was just put in front is found, also where the last one was dropped.
contains-remember :
    (from id : ℕ) (seen : List (ℕ × ℕ)) → contains (remember (from, id) seen) from id ≡ true
unfolding contains remember pop_back
contains-remember from id [] = ground arith
contains-remember from id (p ∷ seen) = ground arith

length-remember :
    (key : ℕ × ℕ) (seen : List (ℕ × ℕ)) → length seen ≤ 64 → length (remember key seen) ≤ 64
unfolding remember
length-remember key seen h = elim (Bool-cases (ltb 64 (length (key ∷ seen)))) [
  | inl t ↦ rw t (omega (arith, length-pop_back key seen))
  | inr t ↦ rw t (ground (arith, t))
]

module _ {X : Type 0} (decoders : Decoders X) (ciphers : Ciphers) where
  pub open_packet-Opened :
      (from to id : ℕ) (bytes : List ℕ) (ctx : InboundCtx X) (seen : Seen) (d : Data)
      → open_packet decoders ciphers from to id bytes ctx seen ≡ some d
      → Opened from to id ctx seen
  unfolding open_packet
  open_packet-Opened from to id bytes ctx seen d e =
      let (my, e1, r1) = >>=-eq-some ctx.my_node_num _ e in
      let (_, g2, r2) = >>=-eq-some (guard (to == my)) _ r1 in
      let (key, e3, r3) = >>=-eq-some ctx.our_private_key _ r2 in
      let (peer, e4, r4) = >>=-eq-some (lookup ◌==◌ from ctx.nodes) _ r3 in
      let (user, e5, r5) = >>=-eq-some peer.user _ r4 in
      let (_, g6, r6) = >>=-eq-some (guard (length user.public_key == 32)) _ r5 in
      let (_, g7, r7) = >>=-eq-some (guard (not (was_seen seen from id))) _ r6 in
      let t2 : to ≡ my = (==_iff to my).0 (guard-eq-some (to == my) g2) in
      record {
        for_us = rw t2 e1;
        our_key = key;
        has_key = e3;
        peer = peer;
        known = e4;
        user = user;
        has_user = e5;
        key_length = (==_iff (length user.public_key) 32).0 (guard-eq-some _ g6);
        fresh = not-true (was_seen seen from id) (guard-eq-some (not (was_seen seen from id)) g7);
      }

  -- With at most 64 packets kept in mind: a packet that was just opened is kept in mind, is not opened
  -- again, with whatever bytes, destination and state, and at most 64 packets are still kept in mind.
  pub try_pkc_decrypt-once :
      (from to id : ℕ) (bytes : List ℕ) (ctx : InboundCtx X) (seen : List (ℕ × ℕ)) (d : Data)
      → length seen ≤ 64
      → (try_pkc_decrypt decoders ciphers from to id bytes ctx (some seen)).0 ≡ some d
      → (seen' : List (ℕ × ℕ)) × ((try_pkc_decrypt decoders ciphers from to id bytes ctx
            (some seen)).1
          ≡ some seen')
        × (length seen' ≤ 64)
        × ((to' : ℕ) (bytes' : List ℕ) (ctx' : InboundCtx X)
            → try_pkc_decrypt decoders ciphers from to' id bytes' ctx' (some seen')
              ≡ (none, some seen'))
  unfolding try_pkc_decrypt
  try_pkc_decrypt-once from to id bytes ctx seen d l e =
      let seen' : List (ℕ × ℕ) = remember (from, id) seen in
      (
        seen',
        ap (λ o. note_seen o from id (some seen)) e,
        length-remember (from, id) seen l,
        λ to' bytes' ctx'. again to' bytes' ctx',
      )
    where
      again :
          (to' : ℕ) (bytes' : List ℕ) (ctx' : InboundCtx X)
          → let seen' : Seen = some (remember (from, id) seen) in
            (let o = open_packet decoders ciphers from to' id bytes' ctx' seen' in
              let r : Option Data × Seen = (o, note_seen o from id seen') in r)
            ≡ (none, seen')
      again to' bytes' ctx' =
          let seen' : Seen = some (remember (from, id) seen) in
          elim (Option-cases (open_packet decoders ciphers from to' id bytes' ctx' seen')) [
            | inl n ↦ ap (λ o. (o, note_seen o from id seen')) n
            | inr (d', s) ↦
                let f = (open_packet-Opened from to' id bytes' ctx' seen' d' s).fresh in
                absurd (cc (f, contains-remember from id seen))
          ]
