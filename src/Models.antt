-- ===== src/Models.antt =====
-- src/pypopur/models.py: the wire values of the enumerations, in the order of the APK.
pub mod Settings
use pypopur.Prelude.{List, [], ◌∷◌, map}
use pypopur.Py.{Chars}
use pypopur.Py.Text.{codes}

-- `tuple(BinStatus)`
abbrev pub bin_status_values : List Chars
bin_status_values =
    map codes
      ("unfound" ∷ "near_empty" ∷ "half_empty" ∷ "almost_full" ∷ "bin_full" ∷ "bin_opned" ∷ [])

-- `tuple(RunningStatus)`
abbrev pub running_status_values : List Chars
running_status_values = map codes (
    "idle" ∷ "clean_start" ∷ "clean_pause" ∷ "manual_clean_completed" ∷ "scheduled_clean_completed"
    ∷ "auttomatic_clean_completed" ∷ [])

-- `tuple(MachineStatus)`
abbrev pub machine_status_values : List Chars
machine_status_values = map codes ("power_on" ∷ "hibernating" ∷ "disturb_mode" ∷ "power_off" ∷ [])

-- `tuple(CatPresence)`
abbrev pub cat_presence_values : List Chars
cat_presence_values = map codes ("no_cat" ∷ "cat_exist" ∷ "cat_left" ∷ "cat_done_business" ∷ [])
