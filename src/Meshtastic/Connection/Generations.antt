-- ===== src/Meshtastic/Connection/Generations.antt =====
-- Any interleaving of connections, ends of readers, unwinding and disconnections.
use voicetastic_core.Prelude.{
  ℕ, ◌+◌, ◌≤◌, ◌<◌, ◌≡◌, ◌≢◌, ◌⊎◌, refl, sym, ap, ◌∙◌, Option, none, some, List, [], ◌∷◌, true,
  false, Bool-cases, inl, inr, arith, ◌==◌, ==_iff,
}
use voicetastic_core.Prelude.Assoc.{lookup}
use voicetastic_core.Prelude.Assoc.Laws.{number-IsTest, lookup-cons_self, lookup-cons_other}
use voicetastic_core.Proto.Consts.{header_size}
use voicetastic_core.Meshtastic.Connection.{
  toradio_overhead_bytes, max_voice_body_size, usize_max, Transport, Link, unlinked, install,
  reader_end, teardown_generation, disconnect,
}

-- The link, how many connections were begun, and for each of them the generation that its tasks, the
-- reader and the caller that may unwind it, hold.
pub record Host : Type 0 where
  pub link : Link
  pub begun : ℕ
  pub tasks : List (ℕ × ℕ)

abbrev pub idle : Host
idle = record { link = unlinked; begun = 0; tasks = [] }

abbrev pub transport_of : ℕ → ℕ → Transport
transport_of connection max_tx = record { connection = connection; max_tx_payload = max_tx }

-- The next connection, which claims a generation for its tasks.
abbrev pub connected : ℕ → Host → Host
unfolding install
connected max_tx h =
    let r = install (transport_of h.begun max_tx) h.link in
    record { link = r.0; begun = h.begun + 1; tasks = (h.begun, r.1) ∷ h.tasks }

abbrev pub relinked : Link → Host → Host
relinked l h = record h { link = l }

-- A task that holds the lock next. A reader or an unwinding is that of some connection, present or
-- past, and knows the generation which that one claimed.
pub data Step : Host → Host → Type 0 where
  connects : (max_tx : ℕ) (h : Host) → Step h (connected max_tx h)
  ends :
      (connection generation : ℕ) (h : Host)
      → lookup ◌==◌ connection h.tasks ≡ some generation
      → Step h (relinked (reader_end generation h.link).0 h)
  unwinds :
      (connection generation : ℕ) (h : Host)
      → lookup ◌==◌ connection h.tasks ≡ some generation
      → Step h (relinked (teardown_generation generation h.link).0 h)
  disconnects : (h : Host) → Step h (relinked (disconnect h.link).0 h)

pub data Reach : Host → Type 0 where
  start : Reach idle
  later : {g h : Host} → Reach g → Step g h → Reach h

-- The cached limit is that of what is in the slot.
abbrev pub SlotFits : Option Transport → ℕ → Type 0
SlotFits none max_tx = max_tx ≡ usize_max
SlotFits (some t) max_tx = t.max_tx_payload ≡ max_tx

-- The generations that the tasks hold: none is ahead, no two connections have the same, and the one in
-- the slot has the current one.
pub record IsLinked (h : Host) : Type 0 where
  pub fits : SlotFits h.link.slot h.link.transport_max_tx_payload
  pub known :
      (connection generation : ℕ)
      → lookup ◌==◌ connection h.tasks ≡ some generation
      → (connection < h.begun) × (generation ≤ h.link.conn_generation)
  pub single :
      (a b generation : ℕ)
      → lookup ◌==◌ a h.tasks ≡ some generation
      → lookup ◌==◌ b h.tasks ≡ some generation
      → a ≡ b
  pub current :
      (t : Transport)
      → h.link.slot ≡ some t
      → lookup ◌==◌ t.connection h.tasks ≡ some h.link.conn_generation

idle-IsLinked : IsLinked idle
unfolding lookup
idle-IsLinked = record {
  fits = refl;
  known = λ c g e. absurd cc;
  single = λ a b g e f. absurd cc;
  current = λ t e. absurd cc;
}

-- A slot that is emptied, with a generation that does not go back.
emptied-IsLinked :
    (h : Host) (l : Link)
    → l.slot ≡ none
    → l.transport_max_tx_payload ≡ usize_max
    → h.link.conn_generation ≤ l.conn_generation
    → IsLinked h
    → IsLinked (relinked l h)
emptied-IsLinked h l e m w i = record {
  fits = rw e m;
  known = λ c g q. let k = i.known c g q in (k.0, omega (arith, k.1, w));
  single = i.single;
  current = λ t q. absurd (cc (e, q));
}

lookup-cons_equal :
    (id j v : ℕ) (t : List (ℕ × ℕ)) → (id == j) ≡ true → lookup ◌==◌ id ((j, v) ∷ t) ≡ some v
unfolding lookup
lookup-cons_equal id j v t on = rw on refl

-- What an entry of the longer table is: the new one, or one of before.
task-cases :
    (id j v g : ℕ) (t : List (ℕ × ℕ))
    → lookup ◌==◌ id ((j, v) ∷ t) ≡ some g
    → ((id ≡ j) × (g ≡ v)) ⊎ (lookup ◌==◌ id t ≡ some g)
task-cases id j v g t e = elim (Bool-cases (id == j)) [
  | inl on ↦ inl ((==_iff id j).0 on, cc (e, lookup-cons_equal id j v t on))
  | inr off ↦ inr (sym (lookup-cons_other ◌==◌ number-IsTest id j v t off) ∙ e)
]

connected-IsLinked : (max_tx : ℕ) (h : Host) → IsLinked h → IsLinked (connected max_tx h)
unfolding connected install
connected-IsLinked max_tx h i =
    let n : ℕ = h.link.conn_generation + 1 in
    record {
      fits = refl;
      known = λ c g e. elim (task-cases c h.begun n g h.tasks e) [
        | inl q ↦ (omega (arith, q.0), omega (arith, q.1))
        | inr q ↦ let k = i.known c g q in (omega (arith, k.0), omega (arith, k.1))
      ];
      single = λ a b g e f. elim (task-cases a h.begun n g h.tasks e) [
        | inl p ↦ elim (task-cases b h.begun n g h.tasks f) [
          | inl q ↦ p.0 ∙ sym q.0
          | inr q ↦ let k = (i.known b g q).1 in absurd (omega (arith, p.1, k))
        ]
        | inr p ↦ elim (task-cases b h.begun n g h.tasks f) [
          | inl q ↦ let k = (i.known a g p).1 in absurd (omega (arith, q.1, k))
          | inr q ↦ i.single a b g p q
        ]
      ];
      current = λ t e.
          let c : h.begun ≡ t.connection = cc e in
          rw (sym c) (lookup-cons_self ◌==◌ number-IsTest h.begun n h.tasks);
    }

Step-IsLinked : {g h : Host} → Step g h → IsLinked g → IsLinked h
unfolding reader_end teardown_generation disconnect
Step-IsLinked (connects max_tx h) i = connected-IsLinked max_tx h i
Step-IsLinked (ends connection generation h e) i =
    elim (Bool-cases (h.link.conn_generation == generation)) [
      | inl t ↦ rw t (emptied-IsLinked h _ refl refl (omega arith) i)
      | inr t ↦ rw t i
    ]
Step-IsLinked (unwinds connection generation h e) i =
    elim (Bool-cases (h.link.conn_generation == generation)) [
      | inl t ↦ rw t (emptied-IsLinked h _ refl refl (omega arith) i)
      | inr t ↦ rw t i
    ]
Step-IsLinked (disconnects h) i = emptied-IsLinked h _ refl refl (omega arith) i

Reach-IsLinked : {h : Host} → Reach h → IsLinked h
Reach-IsLinked start = idle-IsLinked
Reach-IsLinked (later r s) = Step-IsLinked s (Reach-IsLinked r)

reader_end-stale :
    (generation : ℕ) (l : Link)
    → l.conn_generation ≢ generation
    → reader_end generation l ≡ (l, false)
unfolding reader_end
reader_end-stale generation l n =
    let off : (l.conn_generation == generation) ≡ false = ground (arith, n) in rw off refl

teardown_generation-stale :
    (generation : ℕ) (l : Link)
    → l.conn_generation ≢ generation
    → teardown_generation generation l ≡ (l, none)
unfolding teardown_generation
teardown_generation-stale generation l n =
    let off : (l.conn_generation == generation) ≡ false = ground (arith, n) in rw off refl

-- What the tasks of the connections do to the link, and what a voice frame may take.
pub record Guarded (h : Host) : Type 0 where
  pub fits : SlotFits h.link.slot h.link.transport_max_tx_payload
  pub carried :
      (t : Transport)
      → h.link.slot ≡ some t
      → toradio_overhead_bytes + header_size ≤ t.max_tx_payload
      → toradio_overhead_bytes + header_size + max_voice_body_size h.link ≤ t.max_tx_payload
  pub spared :
      (t : Transport) (connection generation : ℕ)
      → h.link.slot ≡ some t
      → lookup ◌==◌ connection h.tasks ≡ some generation
      → connection ≢ t.connection
      → (reader_end generation h.link ≡ (h.link, false))
        × (teardown_generation generation h.link ≡ (h.link, none))
  pub cleared :
      (t : Transport) (generation : ℕ)
      → h.link.slot ≡ some t
      → lookup ◌==◌ t.connection h.tasks ≡ some generation
      → ((reader_end generation h.link).0.slot ≡ none)
        × ((reader_end generation h.link).1 ≡ true)
        × ((teardown_generation generation h.link).0.slot ≡ none)
        × ((teardown_generation generation h.link).1 ≡ some t)
  pub quiet :
      (connection generation : ℕ)
      → lookup ◌==◌ connection h.tasks ≡ some generation
      → let l = (disconnect h.link).0 in reader_end generation l ≡ (l, false)
  pub unwound :
      (t : Transport) (own connection generation : ℕ)
      → h.link.slot ≡ some t
      → lookup ◌==◌ t.connection h.tasks ≡ some own
      → lookup ◌==◌ connection h.tasks ≡ some generation
      → let l = (teardown_generation own h.link).0 in reader_end generation l ≡ (l, false)

-- In any interleaving of connections, ends of readers, unwindings and disconnections: the cached limit
-- is that of the transport in the slot, and a wrapped voice frame of the largest body is within it
-- where it leaves room for the wrapping at all. While the transport of a connection is in the slot, the
-- reader and the unwinding of every other connection leave the link as it is, the one without
-- publishing `Disconnected`, the other with no transport to close; the reader of that connection
-- itself empties the slot and publishes, and its unwinding takes its transport out. After a
-- disconnection, and after that unwinding, no reader of a connection so far does anything.
pub Reach-Guarded : {h : Host} → Reach h → Guarded h
unfolding reader_end teardown_generation disconnect max_voice_body_size
Reach-Guarded {h} r =
    let i = Reach-IsLinked r in
    record {
      fits = i.fits;
      carried = λ t e w.
          let f : SlotFits (some t) h.link.transport_max_tx_payload = rw e at i.fits in
          omega (arith, f, w);
      spared = λ t c g e q n.
          let stale : h.link.conn_generation ≢ g =
            λ s. n (i.single c t.connection g q (i.current t e ∙ ap some s)) in
          (reader_end-stale g h.link stale, teardown_generation-stale g h.link stale);
      cleared = λ t g e q.
          let own : h.link.conn_generation ≡ g = cc (i.current t e, q) in
          let on : (h.link.conn_generation == g) ≡ true = (==_iff h.link.conn_generation g).1 own in
          rw on (refl, refl, refl, e);
      quiet = λ c g q.
          let k = (i.known c g q).1 in
          reader_end-stale g (disconnect h.link).0 (λ s. omega (arith, k, s));
      unwound = λ t o c g e q p.
          let own : h.link.conn_generation ≡ o = cc (i.current t e, q) in
          let on : (h.link.conn_generation == o) ≡ true = (==_iff h.link.conn_generation o).1 own in
          let k = (i.known c g p).1 in
          let next : (teardown_generation o h.link).0.conn_generation ≡ h.link.conn_generation + 1 =
            rw on refl in
          reader_end-stale g (teardown_generation o h.link).0 (λ s. omega (arith, k, s, next));
    }
