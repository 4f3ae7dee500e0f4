-- ===== src/Voice/Sender/Terminal/Accounts.antt =====
-- crates/voicetastic-core/src/voice/sender.rs: the account of a send, and how it moves.
use voicetastic_core.Prelude.{ℕ, Bool, true, false, Option, none, some, List, ◌∷◌, ◌≡◌, refl}
use voicetastic_core.Voice.Sender.{SendStatus, complete, gave_up, failed}
use voicetastic_core.Voice.Sender.Terminal.Moves.{
  by_end, by_error, by_receiver, error_after, gave_up_late, gave_up_failed, Account, unsent,
  running, cancelled, closed,
}

pub moved :
    {id : ℕ} {n n' a a' : Bool} {ts ts' : List SendStatus} {o o' : Option Bool}
    → n' ≡ n
    → a' ≡ a
    → ts' ≡ ts
    → o' ≡ o
    → Account id n a ts o
    → Account id n' a' ts' o'
moved en ea et eo x = rw (en, ea, et, eo) x

pub unheard :
    {id : ℕ} {n a : Bool} {ts : List SendStatus} {o : Option Bool}
    → Account id n a ts o
    → Account id false a ts o
unheard (unsent n a t o) = unsent refl a t o
unheard (running a t o) = running a t o
unheard (cancelled n a t o) = cancelled refl a t o
unheard (closed a o (by_end t)) = closed a o (by_end t)
unheard (closed a o (by_error t)) = closed a o (by_error t)
unheard (closed a o (by_receiver n t)) = closed a o (by_receiver refl t)
unheard (closed a o (error_after n t)) = closed a o (error_after refl t)
unheard (closed a o (gave_up_late n t)) = closed a o (gave_up_late refl t)
unheard (closed a o (gave_up_failed n t)) = closed a o (gave_up_failed refl t)

-- The listener takes a frame in for an active send only.
pub noticed :
    {id : ℕ} {n a : Bool} {ts : List SendStatus} {o : Option Bool} (n' : Bool)
    → (n' ≡ true → a ≡ true)
    → Account id n a ts o
    → Account id n' a ts o
noticed false h x = unheard x
noticed true h (unsent n a t o) = absurd (cc (h refl))
noticed true h (running a t o) = running a t o
noticed true h (cancelled n a t o) = absurd (cc (h refl))
noticed true h (closed a o v) = absurd (cc (h refl))

-- `GaveUp` and the end of the active entry, for a send that a frame names.
pub gives_up :
    {id : ℕ} {n a : Bool} {ts : List SendStatus} {o : Option Bool}
    → n ≡ true
    → Account id n a ts o
    → Account id false false (gave_up id ∷ ts) o
gives_up h (unsent n a t o) = absurd cc
gives_up h (running a t o) = cancelled refl refl (rw t refl) o
gives_up h (cancelled n a t o) = absurd cc
gives_up h (closed a o (by_end t)) = closed refl o (gave_up_late refl cc)
gives_up h (closed a o (by_error t)) = closed refl o (gave_up_failed refl cc)
gives_up h (closed a o (by_receiver n t)) = absurd cc
gives_up h (closed a o (error_after n t)) = absurd cc
gives_up h (closed a o (gave_up_late n t)) = absurd cc
gives_up h (closed a o (gave_up_failed n t)) = absurd cc

-- The task ends without a word: the receiver had given up.
pub task_stops :
    {id : ℕ} {n a : Bool} {ts : List SendStatus} {o : Option Bool}
    → a ≡ false
    → ¬ (o ≡ none)
    → Account id n a ts o
    → Account id n false ts (some true)
task_stops h k (unsent n a t o) = absurd (k o)
task_stops h k (running a t o) = absurd cc
task_stops h k (cancelled n a t o) = closed refl refl (by_receiver n t)
task_stops h k (closed a o v) = closed refl refl v

pub task_completes :
    {id : ℕ} {n a : Bool} {ts : List SendStatus} {o : Option Bool}
    → a ≡ true
    → Account id n a ts o
    → Account id n false (complete id ∷ ts) (some true)
task_completes h (unsent n a t o) = absurd cc
task_completes h (running a t o) = closed refl refl (by_end cc)
task_completes h (cancelled n a t o) = absurd cc
task_completes h (closed a o v) = absurd cc

pub task_fails :
    {id : ℕ} {n a : Bool} {ts : List SendStatus} {o : Option Bool}
    → o ≡ some false
    → Account id n a ts o
    → Account id n false (failed id ∷ ts) (some true)
task_fails h (unsent n a t o) = absurd cc
task_fails h (running a t o) = closed refl refl (by_error cc)
task_fails h (cancelled n a t o) = closed refl refl (error_after n cc)
task_fails h (closed a o v) = absurd cc

-- `send` starts a send with a new id.
pub begins :
    {id : ℕ} {n a : Bool} {ts : List SendStatus} {o : Option Bool}
    → o ≡ none
    → Account id n a ts o
    → Account id n true ts (some false)
begins h (unsent n a t o) = running refl t refl
begins h (running a t o) = absurd cc
begins h (cancelled n a t o) = absurd cc
begins h (closed a o v) = absurd cc
