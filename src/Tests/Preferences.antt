-- ===== src/Tests/Preferences.antt =====
-- The theorems about the settings, applied to fresh settings.
use voicetastic_core.Prelude.{some, none, true, false, [], ◌∷◌}
use voicetastic_core.Settings.Keys.{SettingKey}
use voicetastic_core.Settings.Values.{default_settings}
use voicetastic_core.Settings.Store.{SettingsApi}
use voicetastic_core.Settings.Texts.{codes}
use voicetastic_core.Settings.Spelling.Taken.{Taken, set_str-Taken}
use voicetastic_core.Settings.Persist.{foreign, Disk, Steps, persist_steps}
use voicetastic_core.Settings.Persist.Safe.{Ran, persist_steps-Ran}
use voicetastic_core.Settings.RoundTrip.{Restored, set_str-get_str}

abbrev fresh_api : SettingsApi
fresh_api = record { inner = default_settings; has_path = true; degraded = false; notified = [] }

set_str-get_str_example : Restored true SettingKey.voice_codec fresh_api
set_str-get_str_example = set_str-get_str true SettingKey.voice_codec fresh_api

-- A no-break space, and ` Yes`.
set_str-Taken_example :
    Taken true SettingKey.voice_denoise_enabled (0xc2 ∷ 0xa0 ∷ codes " Yes") fresh_api
set_str-Taken_example =
    set_str-Taken true SettingKey.voice_denoise_enabled (0xc2 ∷ 0xa0 ∷ codes " Yes") fresh_api

-- A file that does not parse is set aside, and then the disk is full.
abbrev broken_disk : Disk
broken_disk = record { config = some (foreign (7 ∷ [])); tmp = none; backups = [] }

abbrev disk_full : Steps
disk_full = record {
  made_dir = true;
  serialised = true;
  set_aside = true;
  created = true;
  written = false;
  synced = true;
  renamed = true;
  removed = true;
  partial = 1 ∷ [];
}

abbrev degraded_api : SettingsApi
degraded_api = record fresh_api { degraded = true }

persist_steps-Ran_example :
    Ran broken_disk degraded_api (persist_steps disk_full broken_disk degraded_api)
persist_steps-Ran_example = persist_steps-Ran disk_full broken_disk degraded_api
