-- ===== src/Settings/Persist.antt =====
-- crates/voicetastic-core/src/settings/api.rs: `persist`, step by step over the files that it touches.
pub mod Safe
use voicetastic_core.Prelude.{
  Bool, true, false, not, ◌&&◌, Option, none, some, List, [], ◌∷◌, if◌then◌else◌, ℕ,
}
use voicetastic_core.Settings.Values.{AppSettings}
use voicetastic_core.Settings.Store.{io, SettingsApi, SettingsResult}

-- A file holds settings, written whole, or any other bytes.
pub data Content : Type 0 where
  saved : AppSettings → Content
  foreign : List ℕ → Content

-- The file of the settings, the temporary file, and the files that were set aside, the latest first.
-- Two of them within one second would share a name; only a file that somebody else puts back could
-- be the second.
pub record Disk : Type 0 where
  pub config : Option Content
  pub tmp : Option Content
  pub backups : List Content

-- Which steps succeed, and what a write that fails leaves in the temporary file.
pub record Steps : Type 0 where
  pub made_dir : Bool
  pub serialised : Bool
  pub set_aside : Bool
  pub created : Bool
  pub written : Bool
  pub synced : Bool
  pub renamed : Bool
  pub removed : Bool
  pub partial : List ℕ

abbrev pub set_aside_file : Bool → Option Content → Disk → Option Disk
set_aside_file ok none d = some d
set_aside_file true (some c) d = some (record d { config = none; backups = c ∷ d.backups })
set_aside_file false (some c) d = none

-- `none` is a rename that failed.
abbrev pub back_up : Steps → Bool → Disk → Option Disk
back_up steps degraded d = if degraded then set_aside_file steps.set_aside d.config d else some d

-- The closure that writes the temporary file and renames it.
abbrev pub write_file : Steps → AppSettings → Disk → Disk × Bool
write_file steps inner d =
    if not steps.created
    then (d, false)
    else if not (steps.written && steps.synced)
    then (record d { tmp = some (foreign steps.partial) }, false)
    else if not steps.renamed
    then (record d { tmp = some (saved inner) }, false)
    else (record d { config = some (saved inner); tmp = none }, true)

abbrev pub clean_up : Steps → Disk → Disk
clean_up steps d = if steps.removed then record d { tmp = none } else d

abbrev pub settle : Steps → SettingsApi → Disk × Bool → Disk × SettingsApi × SettingsResult
settle steps api (d, true) = (d, record api { degraded = false }, none)
settle steps api (d, false) = (clean_up steps d, api, some io)

abbrev pub write_after :
    Steps → SettingsApi → Disk → Option Disk → Disk × SettingsApi × SettingsResult
write_after steps api d none = (d, api, some io)
write_after steps api d (some d') = settle steps api (write_file steps api.inner d')

unfoldable pub persist_steps : Steps → Disk → SettingsApi → Disk × SettingsApi × SettingsResult
persist_steps steps d api =
    if not api.has_path
    then (d, api, none)
    else if not (steps.made_dir && steps.serialised)
    then (d, api, some io)
    else write_after steps api d (back_up steps api.degraded d)
