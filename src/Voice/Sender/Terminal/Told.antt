-- ===== src/Voice/Sender/Terminal/Told.antt =====
-- crates/voicetastic-core/src/voice/sender.rs: what a subscriber may be told of one send.
use voicetastic_core.Prelude.{ℕ, Bool, true, false, Option, some, List, [], ◌∷◌, ◌==◌, ◌≡◌, ap}
use voicetastic_core.Prelude.Assoc.{lookup}
use voicetastic_core.Voice.Sender.{SendStatus, gave_up, SendTask, is_active}
use voicetastic_core.Voice.Sender.System.{System, Reach}
use voicetastic_core.Voice.Sender.Terminal.Quiet.{terminals}
use voicetastic_core.Voice.Sender.Terminal.Moves.{
  is_ended, Verdict, Account, unsent, running, cancelled, closed,
}
use voicetastic_core.Voice.Sender.Terminal.Heard.{names}
use voicetastic_core.Voice.Sender.Terminal.Kept.{stage}
use voicetastic_core.Voice.Sender.Terminal.Steps.{Reach-IsAccounted}

-- What a subscriber may have been told of a send, by its active entry and its task.
abbrev pub Told : ℕ → Bool → Bool → Bool → List SendStatus → Type 0
Told id n true false ts = ts ≡ []
Told id n true true ts = ⊥
Told id n false false ts = ts ≡ gave_up id ∷ []
Told id n false true ts = Verdict id n ts

Account-Told :
    {id : ℕ} {n a : Bool} {ts : List SendStatus} {o : Option Bool} (e : Bool)
    → o ≡ some e
    → Account id n a ts o
    → Told id n a e ts
Account-Told e q (unsent n a t o) = absurd cc
Account-Told e q (running a t o) = let e_no : e ≡ false = cc (q, o) in rw (a, e_no) t
Account-Told e q (cancelled n a t o) = let e_no : e ≡ false = cc (q, o) in rw (a, e_no) t
Account-Told e q (closed a o v) = let e_yes : e ≡ true = cc (q, o) in rw (a, e_yes) v

-- In every state that the sender, its tasks and its listener can reach, two sends never sharing an
-- id: while a send is active nothing terminal was told of it and its task runs; a running task whose
-- entry is gone was told `GaveUp`, once; and of a task that has ended either one terminal status was
-- told, or two, the other than `GaveUp` being `Complete` or `Failed`, never both of these.
pub Reach-Told :
    (y : System)
    → Reach y
    → (id : ℕ) (t : SendTask) → lookup ◌==◌ id y.tasks ≡ some t
    → Told id
        (names id y.heard)
        (is_active id y.sender)
        (is_ended t.phase)
        (terminals id y.sender.emitted)
Reach-Told y r id t found =
    Account-Told (is_ended t.phase) (ap stage found) ((Reach-IsAccounted r).held id)
