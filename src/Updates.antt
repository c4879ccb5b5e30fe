-- ===== src/Updates.antt =====
-- src/features/updates/update-controller.ts: the controller of application updates. The code between two
-- `await`s is one step, what an `await` waits for is a task, and the events that end it come in any
-- order with the user's calls. An update is known by its `id`, which stands for the object's identity.
-- Listeners only read the state, and are left out.
pub mod Sound
pub mod Order
pub mod Consent
pub mod Progress
mod Tests
use purr.Common.{
  ℕ, zero, suc, Bool, true, false, ◌&&◌, ◌||◌, not, Option, none, some, List, [], ◌∷◌, String,
  get_elem?, if◌then◌else◌, is_some, nat_eq,
}

-- `AppUpdate`
pub record AppUpdate : Type 0 where
  pub id : ℕ
  pub version : String
  pub notes : String

pub data Phase : Type 0 where
  disabled idle checking available downloading downloaded installing installed : Phase

pub data Notice : Type 0 where
  update_notice current_notice error_notice : Notice

pub data UpdateError : Type 0 where
  check_failed download_failed save_failed install_failed restart_failed : UpdateError

-- `UpdateState`
pub record UpdateState : Type 0 where
  pub phase : Phase
  pub version : Option String
  pub notes : Option String
  pub received : ℕ
  pub total : Option ℕ
  pub notice : Option Notice
  pub error : Option UpdateError

-- The calls out of the controller, of the distribution adapter and of the callback that saves.
pub data Call : Type 0 where
  check_server save relaunch : Call
  close download install : ℕ → Call

-- What the log of a run holds: a call that was made, or that has succeeded.
pub data Entry : Type 0 where
  asked succeeded : Call → Entry

-- Where an asynchronous method waits.
pub data Task : Type 0 where
  waits_check : (manual : Bool) → (previous : Phase) → Task
  waits_close : (manual : Bool) → (next : Option AppUpdate) → Task
  waits_download waits_install : AppUpdate → Task
  waits_save waits_restart : Task

-- `UpdateController`; `prepare` is the callback of `beforeRestart`, by its identity.
pub record Controller : Type 0 where
  pub updater : Bool
  pub state : UpdateState
  pub update : Option AppUpdate
  pub started : Bool
  pub busy : Bool
  pub prepare : Option ℕ
  pub tasks : List Task
  pub log : List Entry

abbrev pub phase_of : Bool → Phase
phase_of true = idle
phase_of false = disabled

-- `constructor`
abbrev pub create_controller : Bool → Controller
create_controller updater = record {
  updater = updater;
  state = record {
    phase = phase_of updater;
    version = none;
    notes = none;
    received = 0;
    total = none;
    notice = none;
    error = none;
  };
  update = none;
  started = false;
  busy = false;
  prepare = none;
  tasks = [];
  log = [];
}

-- `["downloaded", "installed"].includes(phase)`
abbrev pub is_ready : Phase → Bool
is_ready downloaded = true
is_ready installed = true
is_ready _ = false

abbrev pub is_available : Phase → Bool
is_available available = true
is_available _ = false

abbrev pub set_notice : Controller → Option Notice → Controller
set_notice c n = record c { state = record c.state { notice = n } }

-- A method comes to an `await` of a call.
abbrev pub wait : Controller → Task → Call → Controller
wait c t call = record c { tasks = t ∷ c.tasks; log = asked call ∷ c.log }

abbrev pub succeed : Controller → Call → Controller
succeed c call = record c { log = succeeded call ∷ c.log }

-- The catch clauses, with their `finally`.
abbrev pub fail : Controller → Phase → UpdateError → Controller
fail c p e = record c {
  state = record c.state { phase = p; notice = some error_notice; error = some e };
  busy = false;
}

abbrev pub check_when : Bool → Bool → Controller → Bool → Controller
check_when true ready c manual = c
check_when false true c manual = set_notice c (some update_notice)
check_when false false c manual =
    wait
      (record c {
        state = record c.state { phase = checking; error = none; notice = none };
        busy = true;
      })
      (waits_check manual c.state.phase) check_server

unfoldable pub check : Controller → Bool → Controller
check c manual = check_when (not c.updater || c.busy) (is_ready c.state.phase) c manual

abbrev pub start_when : Bool → Controller → Controller
unfolding check
start_when true c = c
start_when false c = check (record c { started = true }) false

unfoldable pub start : Controller → Controller
start c = start_when c.started c

-- `!this.update || …` goes on with the update, where there is one.
abbrev pub download_when : Option AppUpdate → Bool → Controller → Controller
download_when none blocked c = c
download_when (some u) true c = c
download_when (some u) false c =
    wait
      (record c {
        state = record c.state {
          phase = downloading;
          received = 0;
          total = none;
          notice = some update_notice;
          error = none;
        };
        busy = true;
      })
      (waits_download u) (download u.id)

unfoldable pub start_download : Controller → Controller
start_download c = download_when c.update (c.busy || not (is_available c.state.phase)) c

abbrev pub restart_when : Option AppUpdate → Bool → Controller → Controller
restart_when none blocked c = c
restart_when (some u) true c = c
restart_when (some u) false c = wait (record c { busy = true }) waits_save save

unfoldable pub restart : Controller → Controller
restart c = restart_when c.update (not c.updater || c.busy || not (is_ready c.state.phase)) c

abbrev pub activate_from : Phase → Controller → Controller
unfolding check start_download restart
activate_from available c = start_download c
activate_from downloaded c = restart c
activate_from installed c = restart c
activate_from _ c = check c true

unfoldable pub activate : Controller → Controller
activate c = activate_from c.state.phase c

unfoldable pub present : Controller → Controller
present c =
    if is_some c.update
    then set_notice c (some (if is_some c.state.error then error_notice else update_notice))
    else c

abbrev pub phase_after : Option AppUpdate → Phase
phase_after none = idle
phase_after (some u) = available

abbrev pub notice_after : Option AppUpdate → Bool → Option Notice
notice_after (some u) manual = some update_notice
notice_after none true = some current_notice
notice_after none false = none

abbrev pub version_of : Option AppUpdate → Option String
version_of none = none
version_of (some u) = some u.version

abbrev pub notes_of : Option AppUpdate → Option String
notes_of none = none
notes_of (some u) = some u.notes

-- The end of `check`, after the old update is closed.
abbrev pub checked : Controller → Bool → Option AppUpdate → Controller
checked c manual next = record c {
  state = record c.state {
    phase = phase_after next;
    version = version_of next;
    notes = notes_of next;
    received = 0;
    total = none;
    notice = notice_after next manual;
  };
  busy = false;
}

-- `old && old !== next`
abbrev pub is_other : AppUpdate → Option AppUpdate → Bool
is_other old none = true
is_other old (some next) = not (nat_eq old.id next.id)

abbrev pub replaced : Option AppUpdate → Controller → Bool → Option AppUpdate → Controller
replaced none c manual next = checked c manual next
replaced (some old) c manual next =
    if is_other old next
    then wait c (waits_close manual next) (close old.id)
    else checked c manual next

-- `this.update.install()`; without an update it throws.
abbrev pub install_now : Option AppUpdate → Controller → Controller
install_now none c = fail c downloaded install_failed
install_now (some u) c = wait c (waits_install u) (install u.id)

abbrev pub relaunch_now : Controller → Controller
relaunch_now c = wait c waits_restart relaunch

abbrev pub saved_from : Phase → Controller → Controller
saved_from installed c = relaunch_now c
saved_from _ c = install_now c.update (record c {
  state = record c.state { phase = installing; notice = some update_notice; error = none };
})

-- `catch` of `restart`: an installed update stays installed.
abbrev pub phase_kept : Phase → Phase
phase_kept installed = installed
phase_kept _ = downloaded

-- A method goes on: what it waited for has succeeded. `next` is the answer to a check.
unfoldable pub resume : Task → Option AppUpdate → Controller → Controller
resume (waits_check manual previous) next c =
    replaced c.update (succeed (record c { update = next }) check_server) manual next
resume (waits_close manual next) answer c = checked c manual next
resume (waits_download u) answer c = record (succeed c (download u.id)) {
  state = record c.state { phase = downloaded; notice = some update_notice };
  busy = false;
}
resume waits_save answer c = saved_from c.state.phase (succeed c save)
resume (waits_install u) answer c =
    relaunch_now
      (record (succeed c (install u.id)) { state = record c.state { phase = installed } })
resume waits_restart answer c = record (succeed c relaunch) { busy = false }

-- A method goes on in its `catch`. Closing an update has a `catch` of its own, which drops the error.
unfoldable pub reject : Task → Controller → Controller
reject (waits_check manual previous) c = fail c previous check_failed
reject (waits_close manual next) c = checked c manual next
reject (waits_download u) c = fail c available download_failed
reject waits_save c = fail c (phase_kept c.state.phase) save_failed
reject (waits_install u) c = fail c (phase_kept c.state.phase) install_failed
reject waits_restart c = fail c (phase_kept c.state.phase) restart_failed

-- The user's and the application's calls, and what ends the `i`-th task: an answer or an error.
-- `onProgress` may be called at any time.
pub data Event : Type 0 where
  starts downloads restarts activates presents dismisses : Event
  checks : (manual : Bool) → Event
  sets_prepare : ℕ → Event
  clears_prepare : ℕ → Event
  progresses : ℕ → Option ℕ → Event
  resolves : ℕ → Option AppUpdate → Event
  rejects : ℕ → Event

abbrev pub without_task : ℕ → List Task → List Task
without_task i [] = []
without_task zero (t ∷ ts) = ts
without_task (suc i) (t ∷ ts) = t ∷ without_task i ts

abbrev pub settle : Option Task → ℕ → (Task → Controller → Controller) → Controller → Controller
settle none i go c = c
settle (some t) i go c = go t (record c { tasks = without_task i c.tasks })

-- The callback that `beforeRestart` returns only removes its own.
abbrev pub cleared : Option ℕ → ℕ → Option ℕ
cleared none callback = none
cleared (some p) callback = if nat_eq p callback then none else some p

unfoldable pub step : Event → Controller → Controller
unfolding check start start_download restart activate present resume reject
step starts c = start c
step downloads c = start_download c
step restarts c = restart c
step activates c = activate c
step presents c = present c
step dismisses c = set_notice c none
step (checks manual) c = check c manual
step (sets_prepare callback) c = record c { prepare = some callback }
step (clears_prepare callback) c = record c { prepare = cleared c.prepare callback }
step (progresses received total) c = record c {
  state = record c.state { received = received; total = total };
}
step (resolves i answer) c = settle (get_elem? c.tasks i) i (λ t d. resume t answer d) c
step (rejects i) c = settle (get_elem? c.tasks i) i reject c

pub run : Controller → List Event → Controller
unfolding step
run c [] = c
run c (e ∷ es) = run (step e c) es
