-- ===== src/Resilience/Circuit/Probe.antt =====
-- internal/resilience/circuit.go over any sequence of calls: when a circuit opens, what an open one
-- refuses, and that a half-open one lets a single probe through.
use service_reliability_watc.Common.{
  ℕ, suc, ◌≡◌, refl, ap, Bool, true, false, ◌&&◌, List, [], ◌∷◌, arith, if◌then◌else◌, ◌⊎◌, inl,
  inr, Bool-cases, All, All-map, ◌∙◌,
}
use service_reliability_watc.Common.Int.{ltb_ℤ}
use service_reliability_watc.Common.Text.{Text, text_eq, text_eq_iff}
use service_reliability_watc.Common.Clock.{Time, Duration, since}
use service_reliability_watc.Resilience.Circuit.{CircuitBreaker, allow, success, failure}
use service_reliability_watc.Resilience.Circuit.Runs.{run, view-step_other, cooldown-step}
use service_reliability_watc.Resilience.Circuit.Spec.{
  Phase, open_since, probing, view, Call, allows, succeeds, fails, step, step-spec_step, spec_allow,
}

-- How many of the calls are an Allow of this key that answers true.
unfoldable pub granted : Text → CircuitBreaker → List (Text × Call) → ℕ
granted key b [] = 0
granted key b ((k, allows now) ∷ cs) =
    let rest = granted key (step b k (allows now)).0 cs in
    if text_eq k key && (step b k (allows now)).1 then suc rest else rest
granted key b ((k, succeeds) ∷ cs) = granted key (step b k succeeds).0 cs
granted key b ((k, fails now) ∷ cs) = granted key (step b k (fails now)).0 cs

-- A call that settles no check of this key: one on another key, or an Allow.
abbrev pub IsPending : Text → Text × Call → Type 0
IsPending key (k, allows now) = Unit
IsPending key (k, succeeds) = text_eq k key ≡ false
IsPending key (k, fails now) = text_eq k key ≡ false

-- An Allow of this key that comes within the cooldown of `t`.
abbrev pub IsEarly : Text → Duration → Time → Text × Call → Type 0
IsEarly key cooldown t (k, allows now) =
    (text_eq k key ≡ false) ⊎ (ltb_ℤ (since now t) cooldown ≡ true)
IsEarly key cooldown t (k, succeeds) = Unit
IsEarly key cooldown t (k, fails now) = Unit

&&-false : (x : Bool) → (x && false) ≡ false
&&-false x = ground arith

pub allow-spec :
    (b : CircuitBreaker) (key : Text) (now : Time)
    → ((view (allow b key now).0 key).phase ≡ (spec_allow b.cooldown (view b key).phase now).0)
      × ((allow b key now).1 ≡ (spec_allow b.cooldown (view b key).phase now).1)
allow-spec b key now =
    let e = step-spec_step b key (allows now) tt in (ap (λ r. r.0.phase) e, ap (λ r. r.1) e)

-- An Allow of any key, seen from `key` while its circuit is in the phase `p`.
abbrev Holds : CircuitBreaker → Text → Text → Time → Phase → Type 0
Holds b k key now p =
    ((view (allow b k now).0 key).phase ≡ p) × ((text_eq k key && (allow b k now).1) ≡ false)

Holds-own :
    (b : CircuitBreaker) (key : Text) (now : Time) (p : Phase)
    → (view b key).phase ≡ p
    → spec_allow b.cooldown p now ≡ (p, false)
    → Holds b key key now p
Holds-own b key now p h r =
    let (phase, answer) = allow-spec b key now in
    let e : spec_allow b.cooldown (view b key).phase now ≡ (p, false) = rw h r in
    (phase ∙ ap (λ x. x.0) e, rw (answer ∙ ap (λ x. x.1) e) (&&-false (text_eq key key)))

Holds-other :
    (b : CircuitBreaker) (k key : Text) (now : Time) (p : Phase)
    → (view b key).phase ≡ p
    → text_eq k key ≡ false
    → Holds b k key now p
Holds-other b k key now p h differs =
    (ap (λ s. s.phase) (view-step_other b k key (allows now) differs) ∙ h, rw differs)

Holds-refused :
    (b : CircuitBreaker) (k key : Text) (now : Time) (p : Phase)
    → (view b key).phase ≡ p
    → (text_eq k key ≡ false) ⊎ (spec_allow b.cooldown p now ≡ (p, false))
    → Holds b k key now p
Holds-refused b k key now p h (inl differs) = Holds-other b k key now p h differs
Holds-refused b k key now p h (inr r) = elim (Bool-cases (text_eq k key)) [
  | inl same ↦ rw ((text_eq_iff k key).0 same) (Holds-own b key now p h r)
  | inr differs ↦ Holds-other b k key now p h differs
]

-- The calls that a circuit in phase `p` refuses, or that concern another circuit.
abbrev Refused : Text → Duration → Phase → Text × Call → Type 0
Refused key cooldown p (k, allows now) =
    (text_eq k key ≡ false) ⊎ (spec_allow cooldown p now ≡ (p, false))
Refused key cooldown p (k, succeeds) = text_eq k key ≡ false
Refused key cooldown p (k, fails now) = text_eq k key ≡ false

granted-Refused :
    (key : Text) (p : Phase) (d : Duration) (b : CircuitBreaker) (cs : List (Text × Call))
    → b.cooldown ≡ d
    → (view b key).phase ≡ p
    → All (Refused key d p) cs
    → (granted key b cs ≡ 0) × ((view (run b cs) key).phase ≡ p)
unfolding granted run
granted-Refused key p d b [] c h a = (refl, h)
granted-Refused key p d b ((k, allows now) ∷ cs) c h a =
    let (phase, answer) = Holds-refused b k key now p h (rw c a.0) in
    let (none_after, after) =
      granted-Refused key p d (allow b k now).0 cs (cooldown-step b k (allows now) ∙ c) phase a.1 in
    (rw answer none_after, after)
granted-Refused key p d b ((k, succeeds) ∷ cs) c h a =
    granted-Refused key p d (success b k) cs (cooldown-step b k succeeds ∙ c)
      (ap (λ s. s.phase) (view-step_other b k key succeeds a.0) ∙ h) a.1
granted-Refused key p d b ((k, fails now) ∷ cs) c h a =
    granted-Refused key p d (failure b k now).0 cs (cooldown-step b k (fails now) ∙ c)
      (ap (λ s. s.phase) (view-step_other b k key (fails now) a.0) ∙ h) a.1

pending-Refused :
    (key : Text) (d : Duration) (t : Time) (c : Text × Call)
    → IsPending key c
    → Refused key d (probing t) c
pending-Refused key d t (k, allows now) h = inr refl
pending-Refused key d t (k, succeeds) h = h
pending-Refused key d t (k, fails now) h = h

early-Refused :
    (key : Text) (d : Duration) (t : Time) (c : Text × Call)
    → IsPending key c × IsEarly key d t c
    → Refused key d (open_since t) c
early-Refused key d t (k, allows now) (h, inl differs) = inl differs
early-Refused key d t (k, allows now) (h, inr early) = inr (rw early)
early-Refused key d t (k, succeeds) h = h.0
early-Refused key d t (k, fails now) h = h.0

-- Once the cooldown of an open circuit has passed, Allow answers true, and then no later Allow of
-- that key does, whatever its time and whatever happens to other keys, until Success or Failure
-- settles the probe.
pub single_probe :
    (b : CircuitBreaker) (key : Text) (t now : Time) (cs : List (Text × Call))
    → (view b key).phase ≡ open_since t
    → ltb_ℤ (since now t) b.cooldown ≡ false
    → All (IsPending key) cs
    → ((allow b key now).1 ≡ true) × (granted key (allow b key now).0 cs ≡ 0)
single_probe b key t now cs h over pending = (
  answer ∙ ap (λ x. x.1) e,
  (granted-Refused key (probing t) b.cooldown (allow b key now).0 cs
      (cooldown-step b key (allows now)) (phase ∙ ap (λ x. x.0) e)
      (All-map _ _ (pending-Refused key b.cooldown t) cs pending)).0,
)
  where
    phase : (view (allow b key now).0 key).phase ≡ (spec_allow b.cooldown (view b key).phase now).0
    phase = (allow-spec b key now).0

    answer : (allow b key now).1 ≡ (spec_allow b.cooldown (view b key).phase now).1
    answer = (allow-spec b key now).1

    e : spec_allow b.cooldown (view b key).phase now ≡ (probing t, true)
    e = rw (h, over)

-- While an open circuit cools down, no Allow of its key answers true, whatever happens to other
-- keys in between.
cooldown_refuses :
    (b : CircuitBreaker) (key : Text) (t : Time) (cs : List (Text × Call))
    → (view b key).phase ≡ open_since t
    → All (λ c. IsPending key c × IsEarly key b.cooldown t c) cs
    → granted key b cs ≡ 0
cooldown_refuses b key t cs h early =
    (granted-Refused key (open_since t) b.cooldown b cs refl h
      (All-map _ _ (early-Refused key b.cooldown t) cs early)).0
