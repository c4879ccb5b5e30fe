-- ===== src/Request/Shared/Settled.antt =====
-- Deciding a second time what tracing and authentication a request gets.
use purr.Common.{
  ◌≡◌, refl, sym, ap, ◌∙◌, Bool, true, false, ◌&&◌, ◌||◌, not, Option, none, some, Text, codes,
  Bool-cases, inl, inr, if◌then◌else◌,
}
use purr.Request.{Inherit, RequestTracing, RequestAuth, no_auth, inherit, is_inherit, is_no_auth}
use purr.Request.Shared.{
  Integration, or_else, propagation_of, propagation_text, Propagation, off, w3c, b3,
  IntegrationTracing, text_or, is_on, traced, is_enabled, is_from_workspace,
}

abbrev sent_on : Option Text → Option Text → Text
sent_on p legacy = text_or (or_else p legacy) (codes "w3c")

again : (p legacy : Option Text) → sent_on p (some (sent_on p legacy)) ≡ sent_on p legacy
again none legacy = refl
again (some s) legacy = refl

-- A propagation that is off stays off, and one that is on is kept.
still_on :
    (t : Option IntegrationTracing) (legacy : Option Text)
    → is_on legacy ≡ true
    → (if is_on (some (sent_on (propagation_of t) legacy))
        then sent_on (propagation_of t) (some (sent_on (propagation_of t) legacy))
        else codes "off")
      ≡ sent_on (propagation_of t) legacy
still_on none none h = absurd (cc)
still_on none (some s) h = rw h refl
still_on (some t) legacy h = named t.propagation
  where
    named :
        (p : Propagation)
        → (if is_on (some (propagation_text p)) then propagation_text p else codes "off")
          ≡ propagation_text p
    named off = refl
    named w3c = refl
    named b3 = refl

-- What tracing sends on: the same when it is decided again.
module _ (chosen : Option Integration) where
  pub traced_again :
      (own : Option RequestTracing) (legacy other : Option Text)
      → (traced
          (is_enabled own
            (or_else (some (traced (is_enabled own legacy) chosen legacy).propagation) other))
          chosen
          (or_else
            (some (traced (is_enabled own legacy) chosen legacy).propagation)
            other)).propagation
        ≡ (traced (is_enabled own legacy) chosen legacy).propagation
  traced_again own legacy other = go chosen own legacy
    where
      go :
          (chosen : Option Integration) (own : Option RequestTracing) (legacy : Option Text)
          → (traced
              (is_enabled own (some (traced (is_enabled own legacy) chosen legacy).propagation))
              chosen
              (some (traced (is_enabled own legacy) chosen legacy).propagation)).propagation
            ≡ (traced (is_enabled own legacy) chosen legacy).propagation
      go none own legacy = refl
      go (some i) (some t) legacy = elim (Bool-cases t.enabled) [
        | inl asked ↦ rw asked (again (propagation_of i.tracing) legacy)
        | inr not_enabled ↦ rw not_enabled refl
      ]
      go (some i) none legacy = elim (Bool-cases (is_on legacy)) [
        | inl wanted ↦ rw wanted (still_on i.tracing legacy wanted)
        | inr unwanted ↦ rw unwanted refl
      ]

abbrev pub assigned : Bool → Bool → Inherit → RequestAuth → RequestAuth
assigned enabled applies source a =
    if (not enabled || not applies) && is_inherit a.type && is_from_workspace a.inherit.source
    then record a { type = no_auth }
    else if not enabled || not (is_no_auth a.type) || not applies
    then a
    else record a { type = inherit; inherit = source }

abbrev pub dropped : Bool → RequestAuth → RequestAuth
dropped drops a =
    if drops && is_inherit a.type && is_from_workspace a.inherit.source
    then record a { type = no_auth }
    else a

pub dropped_again :
    (drops : Bool) (a : RequestAuth) → dropped drops (dropped drops a) ≡ dropped drops a
dropped_again true a = elim (Bool-cases (is_inherit a.type && is_from_workspace a.inherit.source)) [
  | inl inherited ↦ rw inherited refl
  | inr other ↦ rw (other, other) refl
]
dropped_again false a = refl

-- Where the workspace has no authentication to give.
assigned-dropped :
    (source : Inherit) (a : RequestAuth) → assigned true false source a ≡ dropped true a
assigned-dropped source a =
    elim (Bool-cases (is_inherit a.type && is_from_workspace a.inherit.source)) [
      | inl inherited ↦ rw inherited refl
      | inr other ↦ elim (Bool-cases (is_no_auth a.type)) [
        | inl bare ↦ rw (other, bare) refl
        | inr used ↦ rw (other, used) refl
      ]
    ]

pub assigned_again :
    (enabled applies : Bool) (source : Inherit) (a : RequestAuth)
    → assigned enabled applies source (assigned enabled applies source a)
      ≡ assigned enabled applies source a
assigned_again true true source a = elim (Bool-cases (is_no_auth a.type)) [
  | inl bare ↦ rw bare refl
  | inr used ↦ rw (used, used) refl
]
assigned_again true false source a =
    assigned-dropped source (assigned true false source a)
    ∙ (ap (dropped true) (assigned-dropped source a)
        ∙ (dropped_again true a ∙ sym (assigned-dropped source a)))
assigned_again false applies source a = dropped_again true a

pub or_else_again : (a b : Option Text) → or_else (or_else a b) b ≡ or_else a b
or_else_again none none = refl
or_else_again none (some b) = refl
or_else_again (some a) b = refl
