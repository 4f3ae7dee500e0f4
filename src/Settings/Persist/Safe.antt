-- ===== src/Settings/Persist/Safe.antt =====
-- No settings file is lost, and the steps do what the store takes them for.
use voicetastic_core.Prelude.{
  Bool, true, false, ◌&&◌, Option, none, some, List, ◌∷◌, ◌≡◌, refl, ◌∙◌, ◌⊎◌, inl, inr, Bool-cases,
  arith,
}
use voicetastic_core.Settings.Values.{AppSettings}
use voicetastic_core.Settings.Store.{io, SettingsApi, SettingsResult, persist}
use voicetastic_core.Settings.Persist.{
  Content, saved, Disk, Steps, set_aside_file, back_up, write_file, clean_up, settle, write_after,
  persist_steps,
}

-- What a run of the steps from a disk makes of the disk and the store.
pub record Ran (d : Disk) (api : SettingsApi) (r : Disk × SettingsApi × SettingsResult)
    : Type 0 where
  pub refines : (ok : Bool) × (persist ok api ≡ (r.1, r.2))
  pub fresh : api.has_path ≡ true → r.2 ≡ none → r.0.config ≡ some (saved api.inner)
  pub kept : api.degraded ≡ false → r.2 ≡ some io → r.0.config ≡ d.config
  pub found :
      (c : Content)
      → api.degraded ≡ true
      → d.config ≡ some c
      → (r.0.config ≡ some c) ⊎ ((older : List Content) × (r.0.backups ≡ c ∷ older))

-- What the closure does, from a disk that `back_up` left.
record Wrote (inner : AppSettings) (d : Disk) (w : Disk × Bool) : Type 0 where
  backups : w.0.backups ≡ d.backups
  done : w.1 ≡ true → w.0.config ≡ some (saved inner)
  undone : w.1 ≡ false → w.0.config ≡ d.config

write_file-Wrote :
    (steps : Steps) (inner : AppSettings) (d : Disk) → Wrote inner d (write_file steps inner d)
write_file-Wrote steps inner d = record {
  backups = ground arith;
  done = λ e. ground (arith, e);
  undone = λ e. ground (arith, e);
}

-- What `back_up` leaves.
record Aside (degraded : Bool) (d d' : Disk) : Type 0 where
  same : degraded ≡ false → d'.config ≡ d.config
  moved : (c : Content) → degraded ≡ true → d.config ≡ some c → d'.backups ≡ c ∷ d.backups

persist-none : (api : SettingsApi) → api.has_path ≡ false → persist true api ≡ (api, none)
unfolding persist
persist-none api e = ground (arith, e)

persist-done :
    (api : SettingsApi)
    → api.has_path ≡ true
    → persist true api ≡ (record api { degraded = false }, none)
unfolding persist
persist-done api e = ground (arith, e)

persist-failed : (api : SettingsApi) → api.has_path ≡ true → persist false api ≡ (api, some io)
unfolding persist
persist-failed api e = ground (arith, e)

-- A run that fails before it touches a file.
untouched-Ran : (d : Disk) (api : SettingsApi) → api.has_path ≡ true → Ran d api (d, api, some io)
untouched-Ran d api p = record {
  refines = (false, persist-failed api p);
  fresh = λ q e. cc;
  kept = λ g e. refl;
  found = λ c g e. inl e;
}

clean_up-config : (steps : Steps) (d : Disk) → (clean_up steps d).config ≡ d.config
clean_up-config steps d = ground arith

clean_up-backups : (steps : Steps) (d : Disk) → (clean_up steps d).backups ≡ d.backups
clean_up-backups steps d = ground arith

settle-Ran :
    (steps : Steps) (d d' : Disk) (api : SettingsApi) (w : Disk × Bool)
    → api.has_path ≡ true
    → Aside api.degraded d d'
    → Wrote api.inner d' w
    → Ran d api (settle steps api w)
settle-Ran steps d d' api (e, true) p a h = record {
  refines = (true, persist-done api p);
  fresh = λ q r. h.done refl;
  kept = λ g r. cc;
  found = λ c g k. inr (d.backups, h.backups ∙ a.moved c g k);
}
settle-Ran steps d d' api (e, false) p a h = record {
  refines = (false, persist-failed api p);
  fresh = λ q r. cc;
  kept = λ g r. clean_up-config steps e ∙ h.undone refl ∙ a.same g;
  found = λ c g k. inr (d.backups, clean_up-backups steps e ∙ h.backups ∙ a.moved c g k);
}

write_after-Ran :
    (steps : Steps) (d : Disk) (api : SettingsApi) (o : Option Disk)
    → api.has_path ≡ true
    → ((d' : Disk) → o ≡ some d' → Aside api.degraded d d')
    → Ran d api (write_after steps api d o)
write_after-Ran steps d api none p a = untouched-Ran d api p
write_after-Ran steps d api (some d') p a =
    settle-Ran steps d d' api (write_file steps api.inner d') p (a d' refl)
      (write_file-Wrote steps api.inner d')

set_aside_file-Aside :
    (ok : Bool) (o : Option Content) (d d' : Disk)
    → d.config ≡ o
    → set_aside_file ok o d ≡ some d'
    → Aside true d d'
set_aside_file-Aside ok none d d' q e = record { same = λ g. cc; moved = λ c g k. cc }
set_aside_file-Aside true (some c) d d' q e = record { same = λ g. cc; moved = λ x g k. cc }
set_aside_file-Aside false (some c) d d' q e = cc

back_up-Aside :
    (steps : Steps) (degraded : Bool) (d d' : Disk)
    → back_up steps degraded d ≡ some d'
    → Aside degraded d d'
back_up-Aside steps true d d' e = set_aside_file-Aside steps.set_aside d.config d d' refl e
back_up-Aside steps false d d' e = record { same = λ g. cc; moved = λ c g k. cc }

steps-unpathed :
    (steps : Steps) (d : Disk) (api : SettingsApi)
    → api.has_path ≡ false
    → persist_steps steps d api ≡ (d, api, none)
unfolding persist_steps
steps-unpathed steps d api n = ground (arith, n)

steps-unready :
    (steps : Steps) (d : Disk) (api : SettingsApi)
    → api.has_path ≡ true
    → (steps.made_dir && steps.serialised) ≡ false
    → persist_steps steps d api ≡ (d, api, some io)
unfolding persist_steps
steps-unready steps d api p n = ground (arith, p, n)

steps-ready :
    (steps : Steps) (d : Disk) (api : SettingsApi)
    → api.has_path ≡ true
    → (steps.made_dir && steps.serialised) ≡ true
    → persist_steps steps d api ≡ write_after steps api d (back_up steps api.degraded d)
unfolding persist_steps
steps-ready steps d api p t = ground (arith, p, t)

-- Whichever steps fail: the store changes as it does for some outcome of `persist`; a run that
-- reports success, with a path, has written the settings whole; one that fails leaves the file alone
-- where the store is not degraded; and where it is, the file stays or is the latest that was set
-- aside.
pub persist_steps-Ran :
    (steps : Steps) (d : Disk) (api : SettingsApi) → Ran d api (persist_steps steps d api)
persist_steps-Ran steps d api = elim (Bool-cases api.has_path) [
  | inr n ↦ rw (steps-unpathed steps d api n) (record {
    refines = (true, persist-none api n);
    fresh = λ q e. cc;
    kept = λ g e. refl;
    found = λ c g e. inl e;
  })
  | inl p ↦ elim (Bool-cases (steps.made_dir && steps.serialised)) [
    | inr n ↦ rw (steps-unready steps d api p n) (untouched-Ran d api p)
    | inl t ↦ rw (steps-ready steps d api p t) (
        write_after-Ran steps d api (back_up steps api.degraded d) p
          (λ d' e. back_up-Aside steps api.degraded d d' e))
  ]
]
