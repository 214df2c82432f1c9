-- ===== src/QueueLab/Hold/First.antt =====
-- What a hold says: the first admission of the owner's row against the first stop of the victim's.
use gpu_platform_control_pla.Base.{
  ◌+◌, ==_iff, ◌||◌, ap, ◌⊎◌, ◌≡◌, refl, sym, ◌∙◌, subst, Bool, true, false, ◌&&◌, List, [], ◌∷◌,
  Option, none, some, arith, All, Bool-cases, inl, inr,
}
use gpu_platform_control_pla.Base.Int.{
  ℤ, pos, negsuc, ◌≤ℤ◌, ◌<ℤ◌, pos_part, neg_part, eq_ℤ, ltb_ℤ, leb_ℤ, ltb_ℤ_iff, leb_ℤ_iff,
}
use gpu_platform_control_pla.Base.Arith.{sub64}
use gpu_platform_control_pla.Base.Text.{Text}
use gpu_platform_control_pla.QueueLab.Events.{EventType, admitted, attempt_stopped, LifecycleEvent}
use gpu_platform_control_pla.QueueLab.Trace.{victim_row, owner_row}
use gpu_platform_control_pla.QueueLab.Hold.{
  is_of, lesser, first_from, first_elapsed, span, device_hold_ns, window, device_hold_window,
}

-- No event of the row and the type is earlier.
abbrev pub NoneBefore : Text → EventType → ℤ → List LifecycleEvent → Type 0
NoneBefore job kind v events = All (λ e. is_of job kind e ≡ true → v ≤ℤ e.elapsed_ns) events

-- Some event of the row and the type is at the time.
unfoldable pub occurs_at : Text → EventType → ℤ → List LifecycleEvent → Bool
occurs_at job kind v [] = false
occurs_at job kind v (e ∷ es) = (is_of job kind e && eq_ℤ e.elapsed_ns v) || occurs_at job kind v es

-- The time is that of the earliest event of the row and the type.
abbrev pub IsFirst : List LifecycleEvent → Text → EventType → ℤ → Type 0
IsFirst events job kind v = (occurs_at job kind v events ≡ true) × NoneBefore job kind v events

eq_ℤ_refl : (a : ℤ) → eq_ℤ a a ≡ true
eq_ℤ_refl a = (==_iff (pos_part a + neg_part a) (pos_part a + neg_part a)).1 refl

lesser-≤ : (o w v : ℤ) → v ≤ℤ lesser (some o) w → (v ≤ℤ o) × (v ≤ℤ w)
unfolding lesser
lesser-≤ o w v le = elim (Bool-cases (ltb_ℤ w o)) [
  | inl less ↦
      let below : v ≤ℤ w = subst (λ x. v ≤ℤ x) (rw less refl) le in
      let h = (ltb_ℤ_iff w o).0 less in (omega (arith, below, h), below)
  | inr more ↦
      let below : v ≤ℤ o = subst (λ x. v ≤ℤ x) (rw more refl) le in
      let h : o ≤ℤ w = ground arith in (below, omega (arith, below, h))
]

lesser-or : (o w v : ℤ) → lesser (some o) w ≡ v → (o ≡ v) ⊎ (w ≡ v)
unfolding lesser
lesser-or o w v is = elim (Bool-cases (ltb_ℤ w o)) [
  | inl less ↦ inr (sym (rw less refl) ∙ is)
  | inr more ↦ inl (sym (rw more refl) ∙ is)
]

occurs_here :
    (job : Text) (kind : EventType) (v : ℤ) (e : LifecycleEvent) (es : List LifecycleEvent)
    → is_of job kind e ≡ true
    → e.elapsed_ns ≡ v
    → occurs_at job kind v (e ∷ es) ≡ true
unfolding occurs_at
occurs_here job kind v e es is at =
    let same : eq_ℤ e.elapsed_ns v ≡ true =
      subst (λ x. eq_ℤ e.elapsed_ns x ≡ true) at (eq_ℤ_refl e.elapsed_ns) in
    rw (is, same) refl

occurs_there :
    (job : Text) (kind : EventType) (v : ℤ) (e : LifecycleEvent) (es : List LifecycleEvent)
    → occurs_at job kind v es ≡ true
    → occurs_at job kind v (e ∷ es) ≡ true
unfolding occurs_at
occurs_there job kind v e es later = ground arith

-- The search from a time that was found before, and from none.
from_some :
    (job : Text) (kind : EventType) (o : ℤ) (events : List LifecycleEvent)
    → (v : ℤ) × (first_from job kind (some o) events ≡ some v)
      × ((o ≡ v) ⊎ (occurs_at job kind v events ≡ true))
      × (v ≤ℤ o)
      × NoneBefore job kind v events
unfolding first_from occurs_at
from_some job kind o [] = (o, refl, inl refl, omega arith, tt)
from_some job kind o (e ∷ es) = elim (Bool-cases (is_of job kind e)) [
  | inr other ↦
      let (v, same, origin, le, none_before) = from_some job kind o es in
      (v, rw other same, rw other origin, le, ((λ is. absurd (cc)), none_before))
  | inl is ↦
      let (v, same, origin, le, none_before) =
        from_some job kind (lesser (some o) e.elapsed_ns) es in
      let (below, before) = lesser-≤ o e.elapsed_ns v le in
      (
        v,
        rw is same,
        elim origin [
          | inl first ↦ elim (lesser-or o e.elapsed_ns v first) [
            | inl was ↦ inl was
            | inr here ↦ inr (occurs_here job kind v e es is here)
          ]
          | inr later ↦ inr (occurs_there job kind v e es later)
        ],
        below,
        ((λ it. before), none_before),
      )
]

-- The search from none.
abbrev pub NoneOf : List LifecycleEvent → Text → EventType → Type 0
NoneOf events job kind = All (λ e. is_of job kind e ≡ false) events

first_elapsed-cases :
    (events : List LifecycleEvent) (job : Text) (kind : EventType)
    → ((first_elapsed events job kind ≡ none) × NoneOf events job kind)
      ⊎ ((v : ℤ) × (first_elapsed events job kind ≡ some v) × IsFirst events job kind v)
unfolding first_elapsed first_from lesser
first_elapsed-cases [] job kind = inl (refl, tt)
first_elapsed-cases (e ∷ es) job kind = elim (Bool-cases (is_of job kind e)) [
  | inl is ↦
      let (v, same, origin, le, none_before) = from_some job kind e.elapsed_ns es in
      inr (
        v,
        rw is same,
        (
          elim origin [
            | inl here ↦ occurs_here job kind v e es is here
            | inr later ↦ occurs_there job kind v e es later
          ],
          ((λ it. le), none_before),
        ),
      )
  | inr other ↦ elim (first_elapsed-cases es job kind) [
    | inl (same, none_of) ↦ inl (rw other same, (other, none_of))
    | inr (v, same, (here, none_before)) ↦
        inr (
          v,
          rw other same,
          (occurs_there job kind v e es here, ((λ it. absurd (cc)), none_before)),
        )
  ]
]

-- What a log says of the hold: its length and its window.
pub data HoldIs (events : List LifecycleEvent) : Option ℤ → Option (ℤ × ℤ) → Type 0 where
  not_admitted : NoneOf events owner_row admitted → HoldIs events none none
  never_stopped : NoneOf events victim_row attempt_stopped → HoldIs events none none
  stopped_before :
      (a s : ℤ)
      → IsFirst events owner_row admitted a
      → IsFirst events victim_row attempt_stopped s
      → s <ℤ a
      → HoldIs events none none
  empty_hold :
      (a : ℤ)
      → IsFirst events owner_row admitted a
      → IsFirst events victim_row attempt_stopped a
      → HoldIs events (some (pos 0)) none
  held :
      (a s : ℤ)
      → IsFirst events owner_row admitted a
      → IsFirst events victim_row attempt_stopped s
      → a <ℤ s
      → HoldIs events (some (sub64 s a)) (some (a, s))

sub64_self : (a : ℤ) → sub64 a a ≡ pos 0
unfolding sub64
sub64_self (pos n) = ground arith
sub64_self (negsuc n) = ground arith

≤ℤ_antisym : (a b : ℤ) → a ≤ℤ b → b ≤ℤ a → a ≡ b
≤ℤ_antisym (pos a) (pos b) h k = ap pos (omega arith)
≤ℤ_antisym (pos a) (negsuc b) h k = absurd (omega arith)
≤ℤ_antisym (negsuc a) (pos b) h k = absurd (omega arith)
≤ℤ_antisym (negsuc a) (negsuc b) h k = ap negsuc (omega arith)

-- The two readings, where both were found.
both_found :
    (events : List LifecycleEvent) (a s : ℤ)
    → IsFirst events owner_row admitted a
    → IsFirst events victim_row attempt_stopped s
    → HoldIs events (span (some a) (some s)) (window (some a) (some s))
unfolding span window
both_found events a s first last = elim (Bool-cases (ltb_ℤ s a)) [
  | inl before ↦
      let less = (ltb_ℤ_iff s a).0 before in
      let le : leb_ℤ s a ≡ true = (leb_ℤ_iff s a).1 (omega (arith, less)) in
      rw (before, le) (stopped_before a s first last less)
  | inr after ↦ elim (Bool-cases (leb_ℤ s a)) [
    | inl le ↦
        let s≤a = (leb_ℤ_iff s a).0 le in
        let a≤s : a ≤ℤ s = ground arith in
        let same = ≤ℤ_antisym s a s≤a a≤s in
        let zero_hold : sub64 s a ≡ pos 0 = ap (λ x. sub64 x a) same ∙ sub64_self a in
        rw (after, le, zero_hold)
          (empty_hold a first (subst (IsFirst events victim_row attempt_stopped) same last))
    | inr more ↦ rw (after, more) (held a s first last (ground arith))
  ]
]

-- For any log, the hold and its window are the ones between the first admission of the owner's row
-- and the first stop of the victim's: neither is given when one of the two is missing or the stop is
-- the earlier one, a hold of zero with no window when they coincide, else their difference and the
-- pair.
pub hold_runs_first_to_first :
    (events : List LifecycleEvent)
    → HoldIs events (device_hold_ns events) (device_hold_window events)
unfolding device_hold_ns device_hold_window
hold_runs_first_to_first events = elim (first_elapsed-cases events owner_row admitted) [
  | inl (missing, none_of) ↦ unfold span window in rw missing (not_admitted none_of)
  | inr (a, found, first) ↦ elim (first_elapsed-cases events victim_row attempt_stopped) [
    | inl (missing, none_of) ↦ unfold span window in rw (found, missing) (never_stopped none_of)
    | inr (s, stopped, last) ↦ rw (found, stopped) (both_found events a s first last)
  ]
]
