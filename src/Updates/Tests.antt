-- ===== src/Updates/Tests.antt =====
-- Runs of the controller of updates.
use purr.Common.{◌≡◌, refl, true, none, some, List, [], ◌∷◌, all, head?}
use purr.Updates.{
  AppUpdate, Controller, Event, starts, downloads, restarts, resolves, rejects, checks, activates,
  run, create_controller, asked, succeeded, check_server, save, install, relaunch, download,
  installed, downloaded,
}
use purr.Updates.Sound.{IsSound, run-IsSound}
use purr.Updates.Order.{IsOrdered, run-IsOrdered}
use purr.Updates.Progress.{installing_events, available-installs}
use purr.Updates.Consent.{is_quiet_entry, run-quiet_log}

abbrev version_two : AppUpdate
version_two = record { id = 2; version = "2.0"; notes = "" }

-- Start, find an update, fail to download it and try again; a check in between is refused.
abbrev downloading_run : List Event
downloading_run =
    starts
    ∷ checks true
    ∷ resolves 0 (some version_two)
    ∷ downloads
    ∷ rejects 0
    ∷ downloads
    ∷ resolves 0 none
    ∷ []

abbrev restarting_run : List Event
restarting_run =
    starts
    ∷ resolves 0 (some version_two)
    ∷ downloads
    ∷ resolves 0 none
    ∷ restarts
    ∷ resolves 0 none
    ∷ resolves 0 none
    ∷ rejects 0
    ∷ activates
    ∷ resolves 0 none
    ∷ []

downloading_phase : (run (create_controller true) downloading_run).state.phase ≡ downloaded
unfolding run
downloading_phase = refl

restarting_log :
    (run (create_controller true) restarting_run).log
    ≡ asked relaunch
      ∷ succeeded save
      ∷ asked save
      ∷ asked relaunch
      ∷ succeeded (install 2)
      ∷ asked (install 2)
      ∷ succeeded save
      ∷ asked save
      ∷ succeeded (download 2)
      ∷ asked (download 2)
      ∷ succeeded check_server
      ∷ asked check_server
      ∷ []
unfolding run
restarting_log = refl

run-IsSound_example : IsSound (run (create_controller true) restarting_run)
run-IsSound_example = run-IsSound true restarting_run

run-IsOrdered_example : IsOrdered (run (create_controller true) restarting_run).log
run-IsOrdered_example = run-IsOrdered true restarting_run

run-quiet_log_example : all is_quiet_entry (run (create_controller true) downloading_run).log ≡ true
run-quiet_log_example = run-quiet_log true downloading_run refl

abbrev offering : Controller
offering = run (create_controller true) (starts ∷ resolves 0 (some version_two) ∷ [])

available-installs_example :
    (head? (run offering installing_events).log ≡ some (asked relaunch))
    × ((run offering installing_events).state.phase ≡ installed)
unfolding run
available-installs_example =
    available-installs offering (run-IsSound true (starts ∷ resolves 0 (some version_two) ∷ []))
      refl refl refl
