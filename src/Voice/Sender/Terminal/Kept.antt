-- ===== src/Voice/Sender/Terminal/Kept.antt =====
-- crates/voicetastic-core/src/voice/sender.rs: the account of every send, kept by every step.
use voicetastic_core.Prelude.{
  ℕ, Bool, true, false, Option, none, some, List, ◌∷◌, ◌==◌, ==_iff, inl, inr, ◌≡◌, refl, sym, ap,
  ◌∙◌, Bool-cases, arith,
}
use voicetastic_core.Prelude.Assoc.{lookup, remove, update}
use voicetastic_core.Prelude.Assoc.Laws.{
  Distinct, number-IsTest, lookup-remove_self, lookup-remove_other, lookup-update_self,
  lookup-update_other, Distinct-remove,
}
use voicetastic_core.Voice.Assembler.State.{is_some}
use voicetastic_core.Voice.Sender.{
  SendStatus, complete, failed, is_terminal, status_id, VoiceSender, SendTask, is_active,
  new_sender,
}
use voicetastic_core.Voice.Sender.System.{System, init, ran}
use voicetastic_core.Voice.Sender.Terminal.Quiet.{terminals, IsQuiet}
use voicetastic_core.Voice.Sender.Terminal.Heard.{names}
use voicetastic_core.Voice.Sender.Terminal.Accounts.{moved, task_stops, task_completes, task_fails}
use voicetastic_core.Voice.Sender.Terminal.Moves.{
  is_ended, Account, unsent, Ran, quiet, stops, completes, fails,
}

abbrev pub stage : Option SendTask → Option Bool
stage none = none
stage (some t) = some (is_ended t.phase)

told_self :
    (id : ℕ) (e : SendStatus) (es : List SendStatus)
    → is_terminal e ≡ true
    → status_id e ≡ id
    → terminals id (e ∷ es) ≡ e ∷ terminals id es
unfolding terminals
told_self id e es t q = ground (arith, t, q)

told_other :
    (id : ℕ) (e : SendStatus) (es : List SendStatus)
    → (id == status_id e) ≡ false
    → terminals id (e ∷ es) ≡ terminals id es
unfolding terminals
told_other id e es q = ground (arith, q, Bool-cases (is_terminal e))

-- The entries, one for each active send, and what was told of every id.
pub record IsAccounted (y : System) : Type 0 where
  pub distinct : Distinct ◌==◌ y.sender.active
  pub held :
      (id : ℕ)
      → Account id
          (names id y.heard)
          (is_active id y.sender)
          (terminals id y.sender.emitted)
          (stage (lookup ◌==◌ id y.tasks))

pub init-IsAccounted : IsAccounted init
unfolding new_sender is_active lookup terminals
init-IsAccounted = record { distinct = tt; held = λ id. unsent refl refl refl refl }

-- A step that leaves the active entries and the terminal statuses.
pub quiet-IsAccounted :
    (y z : System)
    → IsQuiet y.sender z.sender
    → Distinct ◌==◌ y.sender.active
    → ((id : ℕ)
        → Account id
            (names id z.heard)
            (is_active id y.sender)
            (terminals id y.sender.emitted)
            (stage (lookup ◌==◌ id z.tasks)))
    → IsAccounted z
unfolding is_active
quiet-IsAccounted y z q d held = record {
  distinct = rw q.active d;
  held = λ id.
      let known = ap (λ m. is_some (lookup ◌==◌ id m)) q.active in
      moved refl known (q.told id) refl (held id);
}

-- An entry of the active sends that goes, with a terminal status of its id.
pub tell-IsAccounted :
    (y z : System) (j : ℕ) (e : SendStatus)
    → IsAccounted y
    → z.sender.active ≡ remove ◌==◌ j y.sender.active
    → z.sender.emitted ≡ e ∷ y.sender.emitted
    → is_terminal e ≡ true
    → status_id e ≡ j
    → ((id : ℕ)
        → (id == j) ≡ false
        → (names id z.heard ≡ names id y.heard)
          × (stage (lookup ◌==◌ id z.tasks) ≡ stage (lookup ◌==◌ id y.tasks)))
    → Account j
        (names j z.heard)
        false
        (e ∷ terminals j y.sender.emitted)
        (stage (lookup ◌==◌ j z.tasks))
    → IsAccounted z
unfolding is_active
tell-IsAccounted y z j e inv ra re te se other self = record {
  distinct = rw ra (Distinct-remove ◌==◌ number-IsTest j y.sender.active inv.distinct);
  held = λ id. elim (Bool-cases (id == j)) [
    | inl on ↦
        let same = (==_iff id j).0 on in
        let gone = lookup-remove_self ◌==◌ number-IsTest j y.sender.active inv.distinct in
        rw same (
          moved refl (ap (λ m. is_some (lookup ◌==◌ j m)) ra ∙ ap is_some gone)
            (ap (terminals j) re ∙ told_self j e y.sender.emitted te se) refl self)
    | inr off ↦
        let kept = lookup-remove_other ◌==◌ number-IsTest id j y.sender.active off in
        moved (other id off).0 (ap (λ m. is_some (lookup ◌==◌ id m)) ra ∙ ap is_some kept)
          (ap (terminals id) re ∙ told_other id e y.sender.emitted (rw se off)) (other id off).1
          (inv.held id)
  ];
}

stage-update_other :
    (id j : ℕ) (t : SendTask) (ts : List (ℕ × SendTask))
    → (id == j) ≡ false
    → stage (lookup ◌==◌ id (update ◌==◌ j t ts)) ≡ stage (lookup ◌==◌ id ts)
stage-update_other id j t ts off = ap stage (lookup-update_other ◌==◌ number-IsTest id j t ts off)

ran-held :
    (j : ℕ) (y : System) (t t' : SendTask)
    → lookup ◌==◌ j y.tasks ≡ some t
    → IsAccounted y
    → Account j
        (names j y.heard)
        (is_active j y.sender)
        (terminals j y.sender.emitted)
        (some (is_ended t'.phase))
    → (id : ℕ)
    → Account id
        (names id y.heard)
        (is_active id y.sender)
        (terminals id y.sender.emitted)
        (stage (lookup ◌==◌ id (update ◌==◌ j t' y.tasks)))
ran-held j y t t' found inv self id = elim (Bool-cases (id == j)) [
  | inl on ↦
      let after = ap stage (lookup-update_self ◌==◌ number-IsTest j t t' y.tasks found) in
      rw ((==_iff id j).0 on) (moved refl refl refl after self)
  | inr off ↦ moved refl refl refl (stage-update_other id j t' y.tasks off) (inv.held id)
]

-- A task that ends with a terminal status.
ended-IsAccounted :
    (j : ℕ) (y : System) (t t' : SendTask) (s : VoiceSender) (e : SendStatus)
    → lookup ◌==◌ j y.tasks ≡ some t
    → IsAccounted y
    → s.active ≡ remove ◌==◌ j y.sender.active
    → s.emitted ≡ e ∷ y.sender.emitted
    → is_terminal e ≡ true
    → status_id e ≡ j
    → is_ended t'.phase ≡ true
    → Account j (names j y.heard) false (e ∷ terminals j y.sender.emitted) (some true)
    → IsAccounted (ran j (s, t') y)
ended-IsAccounted j y t t' s e found inv ra re te se p self =
    let after = ap stage (lookup-update_self ◌==◌ number-IsTest j t t' y.tasks found) in
    tell-IsAccounted y (ran j (s, t') y) j e inv ra re te se
      (λ id off. (refl, stage-update_other id j t' y.tasks off))
      (moved refl refl refl (after ∙ ap some p) self)

pub runs-IsAccounted :
    (j : ℕ) (y : System) (t t' : SendTask) (s : VoiceSender)
    → lookup ◌==◌ j y.tasks ≡ some t
    → Ran j y.sender s t.phase t'.phase
    → IsAccounted y
    → IsAccounted (ran j (s, t') y)
unfolding is_terminal status_id
runs-IsAccounted j y t t' s found (quiet q p) inv =
    let before = ap stage found in
    let self = moved refl refl refl (ap some p ∙ sym before) (inv.held j) in
    quiet-IsAccounted y _ q inv.distinct (ran-held j y t t' found inv self)
runs-IsAccounted j y t t' s found (stops q off p) inv =
    let some_task : ¬ (stage (lookup ◌==◌ j y.tasks) ≡ none) = λ e. cc (e, ap stage found) in
    let self = moved refl off refl (ap some p) (task_stops off some_task (inv.held j)) in
    quiet-IsAccounted y _ q inv.distinct (ran-held j y t t' found inv self)
runs-IsAccounted j y t t' s found (completes on ra re p) inv =
    let self = task_completes on (inv.held j) in
    ended-IsAccounted j y t t' s (complete j) found inv ra re refl refl p self
runs-IsAccounted j y t t' s found (fails ra re p p') inv =
    let self = task_fails (ap stage found ∙ ap some p) (inv.held j) in
    ended-IsAccounted j y t t' s (failed j) found inv ra re refl refl p' self
