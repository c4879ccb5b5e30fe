-- ===== src/Updates/Order.antt =====
-- The order in which the controller of updates calls the distribution adapter.
use purr.Common.{
  ℕ, ◌≡◌, refl, Bool, true, false, Option, none, some, List, [], ◌∷◌, arith, head?, get_elem?, ◌⊎◌,
  inl, inr,
}
use purr.Updates.{
  AppUpdate, Phase, disabled, idle, checking, available, downloading, downloaded, installing,
  installed, save, relaunch, download, install, Entry, asked, succeeded, Task, waits_check,
  waits_close, waits_download, waits_save, waits_install, waits_restart, Controller,
  create_controller, is_ready, check, start, start_download, restart, activate, present, resume,
  reject, step, run, Event, replaced, install_now, saved_from, settle, starts, downloads, restarts,
  activates, presents, dismisses, checks, sets_prepare, clears_prepare, progresses, resolves,
  rejects, without_task,
}
use purr.Updates.Sound.{
  Has, Installed, Downloaded, Rests, Waits, IsSound, Agrees-task, Rests-log, step-IsSound,
  start_rule, activate_rule,
}

-- What must have happened when a call is made, newest entry first. An install comes right after the
-- workspace was saved, and a relaunch right after that or right after an install.
abbrev pub Allowed : Entry → List Entry → Type 0
Allowed (asked (install v)) log =
    Has (succeeded (download v)) log × (head? log ≡ some (succeeded save))
Allowed (asked relaunch) log =
    (v : ℕ) × Has (succeeded (download v)) log
    × Has (succeeded (install v)) log
    × ((head? log ≡ some (succeeded save)) ⊎ (head? log ≡ some (succeeded (install v))))
Allowed _ log = Unit

abbrev pub IsOrdered : List Entry → Type 0
IsOrdered [] = Unit
IsOrdered (e ∷ log) = Allowed e log × IsOrdered log

check-IsOrdered :
    (c : Controller) (manual : Bool) → IsOrdered c.log → IsOrdered (check c manual).log
unfolding check
check-IsOrdered c manual h = ground arith

start-IsOrdered : (c : Controller) → IsOrdered c.log → IsOrdered (start c).log
unfolding start
start-IsOrdered c h =
    start_rule (λ d. IsOrdered d.log) c.started c h
      (check-IsOrdered (record c { started = true }) false h)

start_download-IsOrdered : (c : Controller) → IsOrdered c.log → IsOrdered (start_download c).log
unfolding start_download
start_download-IsOrdered c h = ground arith

restart-IsOrdered : (c : Controller) → IsOrdered c.log → IsOrdered (restart c).log
unfolding restart
restart-IsOrdered c h = ground arith

activate-IsOrdered : (c : Controller) → IsOrdered c.log → IsOrdered (activate c).log
unfolding activate
activate-IsOrdered c h =
    activate_rule (λ d. IsOrdered d.log) c.state.phase c (check-IsOrdered c true h)
      (start_download-IsOrdered c h) (restart-IsOrdered c h)

replaced-IsOrdered :
    (u : Option AppUpdate) (c : Controller) (manual : Bool) (next : Option AppUpdate)
    → IsOrdered c.log
    → IsOrdered (replaced u c manual next).log
replaced-IsOrdered none c manual next h = h
replaced-IsOrdered (some u) c manual next h = ground arith

install_now-IsOrdered :
    (u : Option AppUpdate) (c : Controller)
    → Downloaded u c.log
    → head? c.log ≡ some (succeeded save)
    → IsOrdered c.log
    → IsOrdered (install_now u c).log
install_now-IsOrdered none c d s h = h
install_now-IsOrdered (some u) c d s h = ((d, s), h)

relaunch-Allowed :
    (u : Option AppUpdate) (log : List Entry)
    → Installed u log
    → head? log ≡ some (succeeded save)
    → Allowed (asked relaunch) log
relaunch-Allowed none log i s = absurd i
relaunch-Allowed (some u) log i s = (u.id, i.0, i.1, inl s)

saved_from-IsOrdered :
    (p : Phase) (c : Controller)
    → is_ready p ≡ true
    → Rests p c.update c.log
    → head? c.log ≡ some (succeeded save)
    → IsOrdered c.log
    → IsOrdered (saved_from p c).log
saved_from-IsOrdered downloaded c r d s h = install_now-IsOrdered c.update _ d s h
saved_from-IsOrdered installed c r d s h = (relaunch-Allowed c.update c.log d s, h)
saved_from-IsOrdered disabled c r d s h = absurd (cc)
saved_from-IsOrdered idle c r d s h = absurd (cc)
saved_from-IsOrdered checking c r d s h = absurd d
saved_from-IsOrdered available c r d s h = absurd (cc)
saved_from-IsOrdered downloading c r d s h = absurd d
saved_from-IsOrdered installing c r d s h = absurd d

resume-IsOrdered :
    (t : Task) (answer : Option AppUpdate) (c : Controller)
    → Waits t c.state.phase c.update c.log
    → IsOrdered c.log
    → IsOrdered (resume t answer c).log
unfolding resume
resume-IsOrdered (waits_check manual previous) answer c w h =
    replaced-IsOrdered c.update _ manual answer (tt, h)
resume-IsOrdered (waits_close manual next) answer c w h = h
resume-IsOrdered (waits_download u) answer c w h = (tt, h)
resume-IsOrdered waits_save answer c w h =
    saved_from-IsOrdered c.state.phase _ w.0
      (Rests-log c.state.phase c.update c.log (succeeded save) w.1) refl (tt, h)
resume-IsOrdered (waits_install u) answer c w h = ((u.id, inr w.2, inl refl, inr refl), (tt, h))
resume-IsOrdered waits_restart answer c w h = (tt, h)

reject-IsOrdered : (t : Task) (c : Controller) → IsOrdered c.log → IsOrdered (reject t c).log
unfolding reject
reject-IsOrdered t c h = ground arith

settle-IsOrdered :
    (o : Option Task) (i : ℕ) (go : Task → Controller → Controller) (c : Controller)
    → get_elem? c.tasks i ≡ o
    → IsSound c
    → IsOrdered c.log
    → ((t : Task) (d : Controller)
        → Waits t d.state.phase d.update d.log
        → IsOrdered d.log
        → IsOrdered (go t d).log)
    → IsOrdered (settle o i go c).log
settle-IsOrdered none i go c e s h k = h
settle-IsOrdered (some t) i go c e s h k =
    k t (record c { tasks = without_task i c.tasks })
      (Agrees-task c.tasks c.busy c.state.phase c.update c.log i t s e).2 h

step-IsOrdered :
    (e : Event) (c : Controller) → IsSound c → IsOrdered c.log → IsOrdered (step e c).log
unfolding step present
step-IsOrdered starts c s h = start-IsOrdered c h
step-IsOrdered downloads c s h = start_download-IsOrdered c h
step-IsOrdered restarts c s h = restart-IsOrdered c h
step-IsOrdered activates c s h = activate-IsOrdered c h
step-IsOrdered presents c s h = ground arith
step-IsOrdered dismisses c s h = h
step-IsOrdered (checks manual) c s h = check-IsOrdered c manual h
step-IsOrdered (sets_prepare callback) c s h = h
step-IsOrdered (clears_prepare callback) c s h = h
step-IsOrdered (progresses received total) c s h = h
step-IsOrdered (resolves i answer) c s h =
    settle-IsOrdered (get_elem? c.tasks i) i (λ t d. resume t answer d) c refl s h
      λ t d. resume-IsOrdered t answer d
step-IsOrdered (rejects i) c s h =
    settle-IsOrdered (get_elem? c.tasks i) i reject c refl s h λ t d w. reject-IsOrdered t d

reached-IsOrdered :
    (c : Controller) (es : List Event) → IsSound c → IsOrdered c.log → IsOrdered (run c es).log
unfolding run
reached-IsOrdered c [] s h = h
reached-IsOrdered c (e ∷ es) s h =
    reached-IsOrdered (step e c) es (step-IsSound e c s) (step-IsOrdered e c s h)

-- In every run of the controller, an install follows a download of the same update that succeeded, and
-- comes right after the workspace was saved; a relaunch follows a download and an install of one update
-- that succeeded, and comes right after the workspace was saved or right after that install.
pub run-IsOrdered :
    (updater : Bool) (es : List Event) → IsOrdered (run (create_controller updater) es).log
run-IsOrdered true es = reached-IsOrdered (create_controller true) es tt tt
run-IsOrdered false es = reached-IsOrdered (create_controller false) es tt tt
