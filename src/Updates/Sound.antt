-- ===== src/Updates/Sound.antt =====
-- What holds of the controller of updates in every state that it reaches: one method waits at a time,
-- and the phase, the update and the log of calls agree.
use purr.Common.{
  ℕ, zero, suc, ◌≡◌, refl, Bool, true, false, ◌||◌, not, Option, none, some, List, [], ◌∷◌, arith,
  ap, get_elem?, ◌⊎◌, inl, inr, is_some,
}
use mathlib.Core.Path.{subst}
use purr.Updates.{
  AppUpdate, Phase, disabled, idle, checking, available, downloading, downloaded, installing,
  installed, relaunch, download, install, Entry, asked, succeeded, Task, waits_check, waits_close,
  waits_download, waits_save, waits_install, waits_restart, Controller, create_controller, is_ready,
  without_task, check, start, start_download, restart, activate, present, resume, reject, step, run,
  Event, replaced, install_now, saved_from, phase_kept, settle, start_when, activate_from, starts,
  downloads, restarts, activates, presents, dismisses, checks, sets_prepare, clears_prepare,
  progresses, resolves, rejects,
}

-- A log, newest entry first, has the entry.
abbrev pub Has : Entry → List Entry → Type 0
Has e [] = ⊥
Has e (x ∷ xs) = (x ≡ e) ⊎ Has e xs

abbrev pub Downloaded : Option AppUpdate → List Entry → Type 0
Downloaded none log = ⊥
Downloaded (some u) log = Has (succeeded (download u.id)) log

abbrev pub Installed : Option AppUpdate → List Entry → Type 0
Installed none log = ⊥
Installed (some u) log = Has (succeeded (download u.id)) log × Has (succeeded (install u.id)) log

-- The phases between two actions, and what they promise.
abbrev pub Rests : Phase → Option AppUpdate → List Entry → Type 0
Rests disabled u log = Unit
Rests idle u log = Unit
Rests available u log = is_some u ≡ true
Rests downloaded u log = Downloaded u log
Rests installed u log = Installed u log
Rests _ u log = ⊥

-- What holds while a method waits.
abbrev pub Waits : Task → Phase → Option AppUpdate → List Entry → Type 0
Waits (waits_check manual previous) p u log =
    (p ≡ checking) × (is_ready previous ≡ false) × Rests previous u log
Waits (waits_close manual next) p u log = (p ≡ checking) × (u ≡ next)
Waits (waits_download v) p u log = (p ≡ downloading) × (u ≡ some v)
Waits waits_save p u log = (is_ready p ≡ true) × Rests p u log
Waits (waits_install v) p u log =
    (p ≡ installing) × (u ≡ some v) × Has (succeeded (download v.id)) log
Waits waits_restart p u log = (p ≡ installed) × Rests p u log

-- `busy` says whether a method waits, and there is one at most.
abbrev pub Agrees : List Task → Bool → Phase → Option AppUpdate → List Entry → Type 0
Agrees [] false p u log = Rests p u log
Agrees [] true p u log = ⊥
Agrees (t ∷ []) true p u log = Waits t p u log
Agrees (t ∷ []) false p u log = ⊥
Agrees (t ∷ _ ∷ _) b p u log = ⊥

abbrev pub IsSound : Controller → Type 0
IsSound c = Agrees c.tasks c.busy c.state.phase c.update c.log

pub Agrees-free :
    (ts : List Task) (b : Bool) (p : Phase) (u : Option AppUpdate) (log : List Entry)
    → Agrees ts b p u log
    → b ≡ false
    → (ts ≡ []) × Rests p u log
Agrees-free [] false p u log h k = (refl, h)
Agrees-free [] true p u log h k = absurd h
Agrees-free (t ∷ []) true p u log h k = absurd (cc)
Agrees-free (t ∷ []) false p u log h k = absurd h
Agrees-free (t ∷ _ ∷ _) b p u log h k = absurd h

pub Agrees-task :
    (ts : List Task) (b : Bool) (p : Phase) (u : Option AppUpdate) (log : List Entry) (i : ℕ)
    (t : Task)
    → Agrees ts b p u log
    → get_elem? ts i ≡ some t
    → (without_task i ts ≡ []) × (b ≡ true) × Waits t p u log
Agrees-task [] b p u log i t h k = absurd (cc)
Agrees-task (s ∷ []) false p u log i t h k = absurd h
Agrees-task (s ∷ []) true p u log zero t h k = (refl, refl, subst (λ x. Waits x p u log) (cc) h)
Agrees-task (s ∷ []) true p u log (suc i) t h k = absurd (cc)
Agrees-task (t ∷ _ ∷ _) b p u log i s h k = absurd h

pub Rests-log :
    (p : Phase) (u : Option AppUpdate) (log : List Entry) (e : Entry)
    → Rests p u log
    → Rests p u (e ∷ log)
Rests-log disabled u log e h = h
Rests-log idle u log e h = h
Rests-log checking u log e h = h
Rests-log available u log e h = h
Rests-log downloading u log e h = h
Rests-log downloaded none log e h = h
Rests-log downloaded (some u) log e h = inr h
Rests-log installing u log e h = h
Rests-log installed none log e h = h
Rests-log installed (some u) log e h = (inr h.0, inr h.1)

free : (a b : Bool) → (not a || b) ≡ false → b ≡ false
free a b h = ground arith

check-IsSound : (c : Controller) (manual : Bool) → IsSound c → IsSound (check c manual)
unfolding check
check-IsSound c manual h = ground (arith, Agrees-free c.tasks c.busy c.state.phase c.update c.log h)

pub start_rule :
    (P : Controller → Type 0) (b : Bool) (c : Controller)
    → P c
    → P (check (record c { started = true }) false)
    → P (start_when b c)
unfolding start_when check
start_rule P true c h k = h
start_rule P false c h k = k

pub activate_rule :
    (P : Controller → Type 0) (p : Phase) (c : Controller)
    → P (check c true)
    → P (start_download c)
    → P (restart c)
    → P (activate_from p c)
unfolding activate_from check
activate_rule P disabled c h k l = h
activate_rule P idle c h k l = h
activate_rule P checking c h k l = h
activate_rule P available c h k l = k
activate_rule P downloading c h k l = h
activate_rule P downloaded c h k l = l
activate_rule P installing c h k l = h
activate_rule P installed c h k l = l

start-IsSound : (c : Controller) → IsSound c → IsSound (start c)
unfolding start
start-IsSound c h =
    start_rule IsSound c.started c h (check-IsSound (record c { started = true }) false h)

start_download-IsSound : (c : Controller) → IsSound c → IsSound (start_download c)
unfolding start_download
start_download-IsSound c h =
    ground (arith, Agrees-free c.tasks c.busy c.state.phase c.update c.log h)

restart-IsSound : (c : Controller) → IsSound c → IsSound (restart c)
unfolding restart
restart-IsSound c h = ground (arith, Agrees-free c.tasks c.busy c.state.phase c.update c.log h)

activate-IsSound : (c : Controller) → IsSound c → IsSound (activate c)
unfolding activate
activate-IsSound c h =
    activate_rule IsSound c.state.phase c (check-IsSound c true h) (start_download-IsSound c h)
      (restart-IsSound c h)

replaced-IsSound :
    (u : Option AppUpdate) (c : Controller) (manual : Bool) (next : Option AppUpdate)
    → c.tasks ≡ []
    → c.busy ≡ true
    → c.state.phase ≡ checking
    → c.update ≡ next
    → IsSound (replaced u c manual next)
replaced-IsSound none c manual next e b p q = ground arith
replaced-IsSound (some u) c manual next e b p q = ground arith

install_now-IsSound :
    (u : Option AppUpdate) (c : Controller)
    → c.tasks ≡ []
    → c.busy ≡ true
    → c.state.phase ≡ installing
    → c.update ≡ u
    → Downloaded u c.log
    → IsSound (install_now u c)
install_now-IsSound none c e b p q h = absurd h
install_now-IsSound (some u) c e b p q h = rw (e, b) ((p, q, inr h))

saved_from-IsSound :
    (p : Phase) (c : Controller)
    → c.tasks ≡ []
    → c.busy ≡ true
    → c.state.phase ≡ p
    → is_ready p ≡ true
    → Rests p c.update c.log
    → IsSound (saved_from p c)
saved_from-IsSound downloaded c e b p r h = install_now-IsSound c.update _ e b refl refl h
saved_from-IsSound installed c e b p r h =
    rw (e, b, p) ((refl, Rests-log installed c.update c.log (asked relaunch) h))
saved_from-IsSound disabled c e b p r h = absurd (cc)
saved_from-IsSound idle c e b p r h = absurd (cc)
saved_from-IsSound checking c e b p r h = absurd h
saved_from-IsSound available c e b p r h = absurd (cc)
saved_from-IsSound downloading c e b p r h = absurd h
saved_from-IsSound installing c e b p r h = absurd h

-- A phase that is ready is kept by a failure.
phase_kept-Rests :
    (p : Phase) (u : Option AppUpdate) (log : List Entry)
    → is_ready p ≡ true
    → Rests p u log
    → Rests (phase_kept p) u log
phase_kept-Rests downloaded u log r h = h
phase_kept-Rests installed u log r h = h
phase_kept-Rests disabled u log r h = absurd (cc)
phase_kept-Rests idle u log r h = absurd (cc)
phase_kept-Rests checking u log r h = absurd h
phase_kept-Rests available u log r h = absurd (cc)
phase_kept-Rests downloading u log r h = absurd h
phase_kept-Rests installing u log r h = absurd h

-- A task ends in a state in which nothing else waits.
resume-IsSound :
    (t : Task) (answer : Option AppUpdate) (c : Controller)
    → c.tasks ≡ []
    → c.busy ≡ true
    → Waits t c.state.phase c.update c.log
    → IsSound (resume t answer c)
unfolding resume
resume-IsSound (waits_check manual previous) answer c e b h =
    replaced-IsSound c.update _ manual answer e b h.0 refl
resume-IsSound (waits_close manual next) answer c e b h = ground arith
resume-IsSound (waits_download u) answer c e b h = rw (e, h.1) (inl refl)
resume-IsSound waits_save answer c e b h =
    saved_from-IsSound c.state.phase _ e b refl h.0 (Rests-log c.state.phase c.update c.log _ h.1)
resume-IsSound (waits_install u) answer c e b h =
    rw (e, b, h.1) ((refl, (inr (inr h.2), inr (inl refl))))
resume-IsSound waits_restart answer c e b h =
    rw (e, h.0) (Rests-log installed c.update c.log _ (subst (λ p. Rests p c.update c.log) h.0 h.1))

reject-IsSound :
    (t : Task) (c : Controller)
    → c.tasks ≡ []
    → c.busy ≡ true
    → Waits t c.state.phase c.update c.log
    → IsSound (reject t c)
unfolding reject
reject-IsSound (waits_check manual previous) c e b h = ground arith
reject-IsSound (waits_close manual next) c e b h = ground arith
reject-IsSound (waits_download u) c e b h = ground arith
reject-IsSound waits_save c e b h = rw e (phase_kept-Rests c.state.phase c.update c.log h.0 h.1)
reject-IsSound (waits_install u) c e b h = rw (e, h.0, h.1) h.2
reject-IsSound waits_restart c e b h =
    rw e (phase_kept-Rests c.state.phase c.update c.log (ap is_ready h.0) h.1)

pub settle-IsSound :
    (o : Option Task) (i : ℕ) (go : Task → Controller → Controller) (c : Controller)
    → get_elem? c.tasks i ≡ o
    → IsSound c
    → ((t : Task) (d : Controller)
        → d.tasks ≡ []
        → d.busy ≡ true
        → Waits t d.state.phase d.update d.log
        → IsSound (go t d))
    → IsSound (settle o i go c)
settle-IsSound none i go c e h k = h
settle-IsSound (some t) i go c e h k =
    k t (record c { tasks = without_task i c.tasks }) only.0 only.1 only.2
  where
    only : (without_task i c.tasks ≡ []) × (c.busy ≡ true) × Waits t c.state.phase c.update c.log
    only = Agrees-task c.tasks c.busy c.state.phase c.update c.log i t h e

pub step-IsSound : (e : Event) (c : Controller) → IsSound c → IsSound (step e c)
unfolding step present
step-IsSound starts c h = start-IsSound c h
step-IsSound downloads c h = start_download-IsSound c h
step-IsSound restarts c h = restart-IsSound c h
step-IsSound activates c h = activate-IsSound c h
step-IsSound presents c h = ground arith
step-IsSound dismisses c h = h
step-IsSound (checks manual) c h = check-IsSound c manual h
step-IsSound (sets_prepare callback) c h = h
step-IsSound (clears_prepare callback) c h = h
step-IsSound (progresses received total) c h = h
step-IsSound (resolves i answer) c h =
    settle-IsSound (get_elem? c.tasks i) i (λ t d. resume t answer d) c refl h
      λ t d. resume-IsSound t answer d
step-IsSound (rejects i) c h = settle-IsSound (get_elem? c.tasks i) i reject c refl h reject-IsSound

reached-IsSound : (c : Controller) (es : List Event) → IsSound c → IsSound (run c es)
unfolding run
reached-IsSound c [] h = h
reached-IsSound c (e ∷ es) h = reached-IsSound (step e c) es (step-IsSound e c h)

-- Whatever calls and answers come, and in whatever order: `busy` is set exactly while a method of the
-- controller waits, and one at most waits; the phase is the one of that method, or else one of the
-- phases between two actions; an update that is offered is there, one that counts as downloaded was
-- downloaded, and one that counts as installed was downloaded and installed.
pub run-IsSound : (updater : Bool) (es : List Event) → IsSound (run (create_controller updater) es)
run-IsSound true es = reached-IsSound (create_controller true) es tt
run-IsSound false es = reached-IsSound (create_controller false) es tt
