-- ===== src/Updates/Progress.antt =====
-- An update that is offered can be installed.
use purr.Common.{◌≡◌, refl, true, false, Option, none, some, List, [], ◌∷◌, head?, is_some}
use mathlib.Core.Path.{subst}
use purr.Updates.{
  AppUpdate, available, installed, relaunch, asked, Controller, run, Event, downloads, restarts,
  resolves,
}
use purr.Updates.Sound.{IsSound, Rests, Agrees-free}

abbrev pub installing_events : List Event
installing_events = downloads ∷ resolves 0 none ∷ restarts ∷ resolves 0 none ∷ resolves 0 none ∷ []

install_from :
    (u : Option AppUpdate) (c : Controller)
    → c.update ≡ u
    → is_some u ≡ true
    → c.updater ≡ true
    → c.busy ≡ false
    → c.tasks ≡ []
    → c.state.phase ≡ available
    → (head? (run c installing_events).log ≡ some (asked relaunch))
      × ((run c installing_events).state.phase ≡ installed)
unfolding run
install_from none c e s p b t h = absurd (cc)
install_from (some u) c e s p b t h = rw (e, p, b, t, h) ((refl, refl))

-- From any state that keeps `IsSound`, with an update on offer and no method waiting: if the user
-- downloads, the download succeeds, the user restarts, and the save and the install succeed, then the
-- update is installed and the relaunch is asked for.
pub available-installs :
    (c : Controller)
    → IsSound c
    → c.updater ≡ true
    → c.busy ≡ false
    → c.state.phase ≡ available
    → (head? (run c installing_events).log ≡ some (asked relaunch))
      × ((run c installing_events).state.phase ≡ installed)
available-installs c s p b h = install_from c.update c refl offered p b free.0 h
  where
    free : (c.tasks ≡ []) × Rests c.state.phase c.update c.log
    free = Agrees-free c.tasks c.busy c.state.phase c.update c.log s b

    offered : is_some c.update ≡ true
    offered = subst (λ q. Rests q c.update c.log) h free.1
