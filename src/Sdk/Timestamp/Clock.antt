-- ===== src/Sdk/Timestamp/Clock.antt =====
-- What the clock says after the server has given its time.
use pypopur.Prelude.{◌≡◌, refl, false, some, true, arith, sym}
use pypopur.Prelude.Int.{◌*ℤ◌, ℤ, ltb_ℤ, pos, ◌-ℤ◌, ◌+ℤ◌, negsuc}
use pypopur.Sdk.Timestamp.{
  div_1000, restore, update_timestamp, Preferences, get_current_timestamp, create,
  get_current_timestamp_millis, TimeStampManager, restored,
}

div_1000_add : (a d : ℤ) → div_1000 (a *ℤ pos 1000 +ℤ d) ≡ div_1000 d +ℤ a
unfolding ◌+ℤ◌ ◌*ℤ◌
div_1000_add (pos a) (pos d) = ground arith
div_1000_add (pos a) (negsuc d) = ground arith
div_1000_add (negsuc a) (pos d) = ground arith
div_1000_add (negsuc a) (negsuc d) = ground arith

-- The two clocks tell one time: the seconds are the milliseconds divided, and the manager is
-- left the same, if the monotonic clock is not behind the base.
pub seconds_of_millis :
    (m : TimeStampManager) (monotonic again wall answer : ℤ)
    → ltb_ℤ (monotonic -ℤ (restored m).base_elapsed) (pos 0) ≡ false
    → let (seconds, after) = get_current_timestamp m monotonic again wall in
      let (millis, after_millis) = get_current_timestamp_millis m monotonic again wall answer in
      (seconds ≡ div_1000 millis) × (after ≡ after_millis)
unfolding get_current_timestamp get_current_timestamp_millis
seconds_of_millis m monotonic again wall answer h =
    rw h (sym (div_1000_add (restored m).base_server _), refl)

-- A server time that is given at one reading is carried on from there, whatever the wall clock
-- says, as long as the monotonic clock is not behind that reading.
pub update_timestamp_lem :
    (m : TimeStampManager) (server : ℤ) (start monotonic again wall : ℤ)
    → ltb_ℤ (pos 0) server ≡ true
    → ltb_ℤ (monotonic -ℤ start) (pos 0) ≡ false
    → (get_current_timestamp (update_timestamp m server start) monotonic again wall).0
      ≡ div_1000 (monotonic -ℤ start) +ℤ server
unfolding get_current_timestamp update_timestamp
update_timestamp_lem m server start monotonic again wall hs hd = rw (hs, hd) refl

-- A manager that is made later on the preferences tells the same time as the one that was given
-- it, if the server's time and the monotonic reading are positive.
pub create-update_timestamp :
    (m : TimeStampManager) (prefs : Preferences) (server start : ℤ)
    (boot boot_wall monotonic again wall : ℤ)
    → m.store ≡ some prefs
    → ltb_ℤ (pos 0) server ≡ true
    → ltb_ℤ (pos 0) start ≡ true
    → ltb_ℤ (monotonic -ℤ start) (pos 0) ≡ false
    → let updated = update_timestamp m server start in
      (get_current_timestamp (create boot boot_wall updated.store) monotonic again wall).0
      ≡ (get_current_timestamp updated monotonic again wall).0
unfolding get_current_timestamp update_timestamp create restore
create-update_timestamp m prefs server start boot boot_wall monotonic again wall hp hs ht hd =
    rw (hs, hd) (rw hp (rw (hs, ht) (rw hd refl)))
