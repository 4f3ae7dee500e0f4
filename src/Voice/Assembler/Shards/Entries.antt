-- ===== src/Voice/Assembler/Shards/Entries.antt =====
-- crates/voicetastic-core/src/voice/assembler/mod.rs: `accept` keeps the counters of every state in
-- the table equal to its stored shards.
use Prim.Native.String.{String}
use voicetastic_core.Prelude.{
  ℕ, ◌≡◌, sym, ◌∙◌, inl, inr, Option, some, List, ◌∷◌, arith, leb, length, Bool-cases, Option-cases,
  All,
}
use voicetastic_core.Prelude.Bits.{IsByte}
use voicetastic_core.Prelude.Assoc.{lookup, update}
use voicetastic_core.Prelude.Assoc.Laws.{
  Distinct, lookup-update_self, lookup-update_other, lookup-cons_self, lookup-cons_other,
}
use voicetastic_core.Proto.Consts.{max_in_progress_global}
use voicetastic_core.Proto.Error.{Result-cases}
use voicetastic_core.Proto.Mac.{Sha256}
use voicetastic_core.Proto.Header.{ChunkHeader, IsValid}
use voicetastic_core.Proto.Header.Parsed.{parse-Parsed}
use voicetastic_core.Proto.ReedSolomon.{ReedSolomon}
use voicetastic_core.Voice.Types.{VoiceDestination}
use voicetastic_core.Voice.Assembler.Config.{AssemblerConfig}
use voicetastic_core.Voice.Assembler.State.{
  AssemblyState, AssemblerInner, SenderKey, same_key, per_sender_dec,
}
use voicetastic_core.Voice.Assembler.Accept.{
  retire, put, oldest, evict_for_global_cap, insert, admit, accept_chunk, accept,
}
use voicetastic_core.Voice.Assembler.Table.Counts.{same_key-IsTest}
use voicetastic_core.Voice.Assembler.Table.Invariant.{IsTable, lookup-removed}
use voicetastic_core.Voice.Assembler.Table.Insert.{lookup-insert}
use voicetastic_core.Voice.Assembler.Table.Accept.{
  pruned, fresh, chunk_rejected, chunk_known, chunk_new, accept-cases, opened-IsTable,
}
use voicetastic_core.Voice.Assembler.Shards.Counted.{IsCounted, new_state-IsCounted}
use voicetastic_core.Voice.Assembler.Shards.Entry.{Recounted, apply-Recounted}

-- Every state of the table has the right counters.
abbrev pub Entries : AssemblerInner → Type 0
Entries inner =
    (k : SenderKey) (s : AssemblyState) → lookup same_key k inner.in_progress ≡ some s → IsCounted s

IsCounted-as : (s w : AssemblyState) → some s ≡ some w → IsCounted s → IsCounted w
IsCounted-as s w e v = let p : s ≡ w = ground (arith, e) in rw (← p) v

same_lookup :
    (k key : SenderKey) (t : List (SenderKey × AssemblyState)) (o : Option AssemblyState)
    → k ≡ key
    → lookup same_key k t ≡ o
    → lookup same_key key t ≡ o
same_lookup k key t o e p = rw (← e) p

pub put-Entries :
    (inner : AssemblerInner) (key : SenderKey) (s w : AssemblyState)
    → lookup same_key key inner.in_progress ≡ some s
    → IsCounted w
    → Entries inner
    → Entries (put inner key w)
put-Entries inner key s w e v t k x p = elim (Bool-cases (same_key k key)) [
  | inl h ↦
      let q = same_key-IsTest.sound k key h in
      let r = same_lookup k key (update same_key key w inner.in_progress) (some x) q p in
      IsCounted-as w x
        (sym (lookup-update_self same_key same_key-IsTest key s w inner.in_progress e) ∙ r) v
  | inr h ↦
      t k x (sym (lookup-update_other same_key same_key-IsTest k key w inner.in_progress h) ∙ p)
]

pub retire-Entries :
    (inner : AssemblerInner) (key : SenderKey) (now : ℕ)
    → Distinct same_key inner.in_progress
    → Entries inner
    → Entries (retire inner key now)
unfolding retire per_sender_dec
retire-Entries inner key now d t k x p = t k x (lookup-removed k key x inner.in_progress d p).1

Recounted-Entries :
    (inner after : AssemblerInner) (key : SenderKey) (s : AssemblyState) (now : ℕ)
    → lookup same_key key inner.in_progress ≡ some s
    → Distinct same_key inner.in_progress
    → Entries inner
    → Recounted inner key now after
    → Entries after
Recounted-Entries inner after key s now e d t (inl (w, p, v)) =
    rw (p) (put-Entries inner key s w e v t)
Recounted-Entries inner after key s now e d t (inr p) = rw (p) (retire-Entries inner key now d t)

evict-Entries :
    (inner : AssemblerInner) (now : ℕ)
    → Distinct same_key inner.in_progress
    → Entries inner
    → Entries (evict_for_global_cap inner now)
evict-Entries inner now d t =
    elim (Bool-cases (leb max_in_progress_global (length inner.in_progress))) [
      | inr h ↦
          let p : evict_for_global_cap inner now ≡ inner =
            unfold evict_for_global_cap in ground (arith, h) in
          rw (p) t
      | inl h ↦ elim (Option-cases (oldest inner.in_progress)) [
        | inl e ↦
            let p : evict_for_global_cap inner now ≡ inner =
              unfold evict_for_global_cap in ground (arith, h, e) in
            rw (p) t
        | inr ((victim, at), e) ↦
            let p : evict_for_global_cap inner now ≡ retire inner victim now =
              unfold evict_for_global_cap in ground (arith, h, e) in
            rw (p) (retire-Entries inner victim now d t)
      ]
    ]

insert-Entries :
    (inner : AssemblerInner) (key : SenderKey) (s : AssemblyState) (now : ℕ)
    → Distinct same_key inner.in_progress
    → Entries inner
    → IsCounted s
    → Entries (insert inner key s now)
unfolding insert
insert-Entries inner key s now d t v k x p =
    let rest = (evict_for_global_cap inner now).in_progress in
    elim (Bool-cases (same_key k key)) [
      | inl h ↦
          let q = same_key-IsTest.sound k key h in
          let r = same_lookup k key ((key, s) ∷ rest) (some x) q p in
          IsCounted-as s x (sym (lookup-cons_self same_key same_key-IsTest key s rest) ∙ r) v
      | inr h ↦
          evict-Entries inner now d t k x
            (sym (lookup-cons_other same_key same_key-IsTest k key s rest h) ∙ p)
    ]

module _ (rs : ReedSolomon) (cfg : AssemblerConfig) (before : AssemblerInner) (now wall : ℕ)
    (from : String) (to : VoiceDestination) (channel : ℕ) (header : ChunkHeader) (body : List ℕ)
    (k : IsValid header) where
  accept_chunk-Entries :
      IsTable before
      → Entries before
      → Entries (accept_chunk rs cfg before now wall from to channel header body).0
  accept_chunk-Entries v t =
      let key : SenderKey = (from, header.message_id) in
      let clean = pruned rs cfg before now wall from to channel header body in
      elim (Result-cases (admit cfg clean key header body)) [
        | inr (e, p) ↦ rw (chunk_rejected rs cfg before now wall from to channel header body e p) t
        | inl (initial, p) ↦ elim (Option-cases (lookup same_key key before.in_progress)) [
          | inr (s, q) ↦
              rw (chunk_known rs cfg before now wall from to channel header body initial s p q) (
                Recounted-Entries clean _ key s now q v.distinct t
                  (apply-Recounted rs clean key s header body channel now k (t key s q)))
          | inl q ↦
              let s = fresh rs cfg before now wall from to channel header body initial in
              let c =
                new_state-IsCounted header initial to channel now wall k.some_data
                  (omega (arith, k.total_fits)) k.parity_fits in
              rw (chunk_new rs cfg before now wall from to channel header body initial p q) (
                Recounted-Entries (insert clean key s now) _ key s now
                  (lookup-insert clean key s now)
                  (opened-IsTable rs cfg before now wall from to channel header body initial p q
                    v).distinct
                  (insert-Entries clean key s now v.distinct t c)
                  (apply-Recounted rs (insert clean key s now) key s header body channel now k c))
        ]
      ]

module _ (sha : Sha256) (rs : ReedSolomon) (cfg : AssemblerConfig) (inner : AssemblerInner)
    (now wall : ℕ) (from : String) (to : VoiceDestination) (channel : ℕ) (bytes : List ℕ) where
  -- In a sound table, `accept` of any bytes keeps the counters of every state in progress equal to
  -- the data and parity shards that it stores, and its shard lists as long as its header says.
  pub accept-Entries :
      All IsByte bytes
      → IsTable inner
      → Entries inner
      → Entries (accept sha rs cfg inner now wall from to channel bytes).0
  unfolding accept
  accept-Entries b v t = elim (accept-cases sha rs cfg inner now wall from to channel bytes) [
    | inl p ↦ rw (p) t
    | inr (header, body, p, q) ↦ rw (q) (
        accept_chunk-Entries rs cfg inner now wall from to channel header body
          (parse-Parsed sha bytes header body b p).0 v t)
  ]
