-- ===== src/Updates/Consent.antt =====
-- Installation and relaunch only follow an explicit action of the user.
use purr.Common.{
  ℕ, zero, suc, ◌≡◌, refl, Bool, true, false, Option, none, some, List, [], ◌∷◌, arith, get_elem?,
  all, any,
}
use purr.Updates.{
  AppUpdate, Call, save, relaunch, install, Entry, asked, succeeded, Task, waits_check, waits_close,
  waits_download, waits_save, waits_install, waits_restart, Controller, create_controller, check,
  start, start_download, present, resume, reject, step, run, Event, replaced, settle, starts,
  downloads, restarts, activates, presents, dismisses, checks, sets_prepare, clears_prepare,
  progresses, resolves, rejects, without_task,
}
use purr.Updates.Sound.{start_rule}

-- The user's Restart action, or the one button that stands for it.
abbrev pub is_restart : Event → Bool
is_restart restarts = true
is_restart activates = true
is_restart _ = false

abbrev pub is_quiet_call : Call → Bool
is_quiet_call save = false
is_quiet_call relaunch = false
is_quiet_call (install u) = false
is_quiet_call _ = true

abbrev pub is_quiet_entry : Entry → Bool
is_quiet_entry (asked call) = is_quiet_call call
is_quiet_entry (succeeded call) = is_quiet_call call

abbrev is_quiet_task : Task → Bool
is_quiet_task waits_save = false
is_quiet_task (waits_install u) = false
is_quiet_task waits_restart = false
is_quiet_task _ = true

abbrev IsQuiet : Controller → Type 0
IsQuiet c = (all is_quiet_task c.tasks ≡ true) × (all is_quiet_entry c.log ≡ true)

check-IsQuiet : (c : Controller) (manual : Bool) → IsQuiet c → IsQuiet (check c manual)
unfolding check
check-IsQuiet c manual h = ground arith

start-IsQuiet : (c : Controller) → IsQuiet c → IsQuiet (start c)
unfolding start
start-IsQuiet c h =
    start_rule IsQuiet c.started c h (check-IsQuiet (record c { started = true }) false h)

start_download-IsQuiet : (c : Controller) → IsQuiet c → IsQuiet (start_download c)
unfolding start_download
start_download-IsQuiet c h = ground arith

replaced-IsQuiet :
    (u : Option AppUpdate) (c : Controller) (manual : Bool) (next : Option AppUpdate)
    → IsQuiet c
    → IsQuiet (replaced u c manual next)
replaced-IsQuiet none c manual next h = h
replaced-IsQuiet (some u) c manual next h = ground arith

resume-IsQuiet :
    (t : Task) (answer : Option AppUpdate) (c : Controller)
    → is_quiet_task t ≡ true
    → IsQuiet c
    → IsQuiet (resume t answer c)
unfolding resume
resume-IsQuiet (waits_check manual previous) answer c q h =
    replaced-IsQuiet c.update _ manual answer h
resume-IsQuiet (waits_close manual next) answer c q h = h
resume-IsQuiet (waits_download u) answer c q h = h
resume-IsQuiet waits_save answer c q h = absurd (cc)
resume-IsQuiet (waits_install u) answer c q h = absurd (cc)
resume-IsQuiet waits_restart answer c q h = absurd (cc)

reject-IsQuiet : (t : Task) (c : Controller) → IsQuiet c → IsQuiet (reject t c)
unfolding reject
reject-IsQuiet t c h = ground arith

without_task-quiet :
    (i : ℕ) (ts : List Task)
    → all is_quiet_task ts ≡ true
    → all is_quiet_task (without_task i ts) ≡ true
without_task-quiet i [] h = h
without_task-quiet zero (t ∷ ts) h = ground arith
without_task-quiet (suc i) (t ∷ ts) h = ground (arith, without_task-quiet i ts)

get_elem-quiet :
    (i : ℕ) (ts : List Task) (t : Task)
    → get_elem? ts i ≡ some t
    → all is_quiet_task ts ≡ true
    → is_quiet_task t ≡ true
get_elem-quiet i [] t e h = absurd (cc)
get_elem-quiet zero (s ∷ ts) t e h = ground arith
get_elem-quiet (suc i) (s ∷ ts) t e h = ground (arith, get_elem-quiet i ts t e)

settle-IsQuiet :
    (o : Option Task) (i : ℕ) (go : Task → Controller → Controller) (c : Controller)
    → get_elem? c.tasks i ≡ o
    → IsQuiet c
    → ((t : Task) (d : Controller) → is_quiet_task t ≡ true → IsQuiet d → IsQuiet (go t d))
    → IsQuiet (settle o i go c)
settle-IsQuiet none i go c e h k = h
settle-IsQuiet (some t) i go c e h k =
    k t (record c { tasks = without_task i c.tasks }) (get_elem-quiet i c.tasks t e h.0)
      (without_task-quiet i c.tasks h.0, h.1)

step-IsQuiet : (e : Event) (c : Controller) → is_restart e ≡ false → IsQuiet c → IsQuiet (step e c)
unfolding step present
step-IsQuiet starts c q h = start-IsQuiet c h
step-IsQuiet downloads c q h = start_download-IsQuiet c h
step-IsQuiet restarts c q h = absurd (cc)
step-IsQuiet activates c q h = absurd (cc)
step-IsQuiet presents c q h = ground arith
step-IsQuiet dismisses c q h = h
step-IsQuiet (checks manual) c q h = check-IsQuiet c manual h
step-IsQuiet (sets_prepare callback) c q h = h
step-IsQuiet (clears_prepare callback) c q h = h
step-IsQuiet (progresses received total) c q h = h
step-IsQuiet (resolves i answer) c q h =
    settle-IsQuiet (get_elem? c.tasks i) i (λ t d. resume t answer d) c refl h
      λ t d. resume-IsQuiet t answer d
step-IsQuiet (rejects i) c q h =
    settle-IsQuiet (get_elem? c.tasks i) i reject c refl h λ t d r. reject-IsQuiet t d

reached-IsQuiet :
    (c : Controller) (es : List Event) → any is_restart es ≡ false → IsQuiet c → IsQuiet (run c es)
unfolding run
reached-IsQuiet c [] q h = h
reached-IsQuiet c (e ∷ es) q h =
    reached-IsQuiet (step e c) es (ground arith) (step-IsQuiet e c (ground arith) h)

-- In a run without a Restart action (`restart`, or `activate`, which may stand for it), the controller
-- never saves the workspace for a restart, never installs and never relaunches.
pub run-quiet_log :
    (updater : Bool) (es : List Event)
    → any is_restart es ≡ false
    → all is_quiet_entry (run (create_controller updater) es).log ≡ true
run-quiet_log updater es q = (reached-IsQuiet (create_controller updater) es q (refl, refl)).1
