-- ===== src/Voice/Sender/Terminal/Steps.antt =====
-- crates/voicetastic-core/src/voice/sender.rs: the steps of the sender, of its listener and of its
-- tasks.
use voicetastic_core.Prelude.{
  ℕ, true, Option, none, some, List, ◌∷◌, ◌==◌, ==_iff, inl, inr, ◌≡◌, refl, sym, ap, subst, ◌∙◌,
  Bool-cases,
}
use voicetastic_core.Prelude.Assoc.{lookup, remove}
use voicetastic_core.Prelude.Assoc.Laws.{
  number-IsTest, lookup-remove_self, lookup-remove_other, lookup-cons_other, Distinct-remove,
}
use voicetastic_core.Proto.Error.{Result, ok, err, ◌>>=◌}
use voicetastic_core.Proto.Mac.{Sha256}
use voicetastic_core.Proto.ReedSolomon.{ReedSolomon}
use voicetastic_core.Prelude.Int.{ℤ}
use voicetastic_core.Proto.Builder.{EncodedMessage}
use voicetastic_core.Voice.Nack.{NackInfo}
use voicetastic_core.Voice.Assembler.State.{is_some}
use voicetastic_core.Voice.Sender.{
  SendRequest, gave_up, is_terminal, status_id, VoiceSender, SendTask, is_active, Draw,
  fresh_message_id, start_send, new_task, send, clean_up,
}
use voicetastic_core.Voice.Sender.System.{
  System, sent, answered, Step, sends, runs, hears, answers, lags, goes_on, wakes, Reach, start,
  later,
}
use voicetastic_core.Voice.Sender.Requests.{on_nack, note_lagged}
use voicetastic_core.Voice.Sender.Terminal.Quiet.{
  terminals, same-IsQuiet, serve_round-IsQuiet, batch_step-IsQuiet, wake_step-IsQuiet,
}
use voicetastic_core.Voice.Sender.Terminal.Heard.{names, trusted_nack-names}
use voicetastic_core.Voice.Sender.Terminal.Accounts.{moved, unheard, noticed, gives_up, begins}
use voicetastic_core.Voice.Sender.Terminal.Moves.{run_send-Ran}
use voicetastic_core.Voice.Sender.Terminal.Kept.{
  stage, IsAccounted, init-IsAccounted, quiet-IsAccounted, tell-IsAccounted, runs-IsAccounted,
}

lookup-cons_equal :
    {V : Type 0} (id j : ℕ) (v : V) (t : List (ℕ × V))
    → (id == j) ≡ true
    → lookup ◌==◌ id ((j, v) ∷ t) ≡ some v
unfolding lookup
lookup-cons_equal id j v t on = rw on refl

-- `send` puts in an active entry and a task that starts.
start_send-IsAccounted :
    (req : SendRequest) (j : ℕ) (encoded : EncodedMessage) (now : ℕ) (lora : Option ℤ) (y : System)
    → lookup ◌==◌ j y.tasks ≡ none
    → IsAccounted y
    → IsAccounted (sent (start_send req j encoded now y.sender) j (new_task req lora encoded) y)
unfolding start_send new_task is_active terminals is_terminal
start_send-IsAccounted req j encoded now lora y new inv = record {
  distinct = (
    lookup-remove_self ◌==◌ number-IsTest j y.sender.active inv.distinct,
    Distinct-remove ◌==◌ number-IsTest j y.sender.active inv.distinct,
  );
  held = λ id. elim (Bool-cases (id == j)) [
    | inl on ↦
        let entry = lookup-cons_equal id j _ (remove ◌==◌ j y.sender.active) on in
        let task = lookup-cons_equal id j (new_task req lora encoded) y.tasks on in
        let new' : lookup ◌==◌ id y.tasks ≡ none = rw ((==_iff id j).0 on) new in
        let told = begins (ap stage new') (inv.held id) in
        moved refl (ap is_some entry) refl (ap stage task) told
    | inr off ↦
        let gone = lookup-remove_other ◌==◌ number-IsTest id j y.sender.active off in
        let entry =
          lookup-cons_other ◌==◌ number-IsTest id j _ (remove ◌==◌ j y.sender.active) off in
        let task =
          lookup-cons_other ◌==◌ number-IsTest id j (new_task req lora encoded) y.tasks off in
        moved refl (ap is_some (entry ∙ gone)) refl (ap stage task) (inv.held id)
  ];
}

answers-IsAccounted :
    (clock : ℕ → ℕ) (pacing : ℕ) (y : System) (h : Option (ℕ × NackInfo))
    → y.heard ≡ h
    → IsAccounted y
    → IsAccounted (answered (on_nack clock pacing h y.sender) y)
unfolding on_nack clean_up is_terminal status_id
answers-IsAccounted clock pacing y none e inv =
    quiet-IsAccounted y _ (same-IsQuiet y.sender _ refl refl) inv.distinct
      (λ id. unheard (inv.held id))
answers-IsAccounted clock pacing y (some (k, nack)) e inv = elim (Bool-cases nack.give_up) [
  | inl on ↦
      let j = nack.message_id in
      rw on (
        tell-IsAccounted y _ j (gave_up j) inv refl refl refl refl
          (λ id off. (rw e (sym off), refl))
          (gives_up (ap (names j) e ∙ (==_iff j j).1 refl) (inv.held j)))
  | inr off ↦ rw off (
      quiet-IsAccounted y _
        (serve_round-IsQuiet 3 clock nack.message_id nack.missing pacing y.sender) inv.distinct
        (λ id. unheard (inv.held id)))
]

-- What `send` returns, when it does.
pub send_chain :
    {A E : Type 0} (draw : Result ℕ) (build : ℕ → Result E) (k : ℕ → E → A) (x : A)
    → (do id ← draw; encoded ← build id; ok (k id encoded)) ≡ ok x
    → (id : ℕ) × (encoded : E) × (k id encoded ≡ x)
send_chain (err e) build k x q = absurd cc
send_chain (ok id) build k x q =
    elim (build id) as (λ r. (r >>= λ m. ok (k id m)) ≡ ok x → (j : ℕ) × (m : _) × (k j m ≡ x)) [
      | ok m ↦ λ q'. (id, m, cc)
      | err e ↦ λ q'. absurd cc
    ]
      q

send-IsAccounted :
    (sha : Sha256) (rs : ReedSolomon) (draw : ℕ → Draw) (size : ℕ) (lora : Option ℤ) (now : ℕ)
    (req : SendRequest) (y : System) (s : VoiceSender) (id : ℕ) (t : SendTask)
    → send sha rs draw size lora now req y.sender ≡ ok (s, id, t)
    → lookup ◌==◌ id y.tasks ≡ none
    → IsAccounted y
    → IsAccounted (sent s id t y)
unfolding send
send-IsAccounted sha rs draw size lora now req y s id t e new inv =
    let (j, encoded, q) = send_chain (fresh_message_id draw y.sender) _ _ (s, id, t) e in
    let known : id ≡ j = cc q in
    let kept = start_send-IsAccounted req j encoded now lora y (rw (sym known) new) inv in
    subst (λ (r : VoiceSender × ℕ × SendTask). IsAccounted (sent r.0 r.1 r.2 y)) q kept

Step-IsAccounted : {y z : System} → Step y z → IsAccounted y → IsAccounted z
unfolding note_lagged
Step-IsAccounted (sends sha rs draw size lora now req y s id t e new) inv =
    send-IsAccounted sha rs draw size lora now req y s id t e new inv
Step-IsAccounted (runs id now event y t found) inv =
    runs-IsAccounted id y t _ _ found (run_send-Ran id now event y.sender t) inv
Step-IsAccounted (hears sha incoming y) inv =
    quiet-IsAccounted y _ (same-IsQuiet y.sender _ refl refl) inv.distinct
      (λ id. noticed _ (trusted_nack-names sha incoming y.sender id) (inv.held id))
Step-IsAccounted (answers clock pacing y) inv = answers-IsAccounted clock pacing y y.heard refl inv
Step-IsAccounted (lags n y) inv =
    quiet-IsAccounted y _ (same-IsQuiet y.sender _ refl refl) inv.distinct inv.held
Step-IsAccounted (goes_on accepted id plan pre post y e) inv =
    quiet-IsAccounted y _ (batch_step-IsQuiet accepted id plan y.sender) inv.distinct inv.held
Step-IsAccounted (wakes id deadline pacing clock pre post y e) inv =
    quiet-IsAccounted y _ (wake_step-IsQuiet id pacing clock y.sender) inv.distinct inv.held

pub Reach-IsAccounted : {y : System} → Reach y → IsAccounted y
Reach-IsAccounted start = init-IsAccounted
Reach-IsAccounted (later r s) = Step-IsAccounted s (Reach-IsAccounted r)
