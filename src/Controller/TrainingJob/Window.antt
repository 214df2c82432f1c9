-- ===== src/Controller/TrainingJob/Window.antt =====
-- The wait between admission and run over a whole life of a training job.
use mathlib.Core.List.{append-nil}
use gpu_platform_control_pla.Base.{
  ℕ, ◌≡◌, refl, sym, ◌∙◌, ap, subst, arith, Bool, true, false, not, ◌&&◌, List, [], ◌∷◌, ◌++◌,
  Option, none, some, Bool-cases, inl, inr,
}
use gpu_platform_control_pla.Base.Float.{Float, zero_f, ltb_f}
use gpu_platform_control_pla.Base.Text.{Text, text_eq}
use gpu_platform_control_pla.Base.Clock.{Time, since, is_zero_time}
use gpu_platform_control_pla.Controller.Objects.{Condition}
use gpu_platform_control_pla.Controller.TrainingObjects.{TrainingStatus, TrainingJob}
use gpu_platform_control_pla.Controller.TrainingApi.{TrainingApi}
use gpu_platform_control_pla.Controller.AdmitToRunning.{
  Outcome, nothing, observed, unobserved, seconds, format_seconds, record_admitted, record_running,
  record_admit_to_running, set_unobserved, set_observed, set_admit_to_running_condition,
  phase_admitted, phase_running, admit_to_running_refusal,
}
use gpu_platform_control_pla.Controller.TrainingJob.{
  Event, phase_entered, job_failed, waited, wait_unobserved, outcome_events, desired_status,
  write_phase, set_phase, whole_seconds, stored_time, stored_status,
}

-- The waits that were counted.
unfoldable pub waits_of : List Event → List Float
waits_of [] = []
waits_of (waited secs ∷ es) = secs ∷ waits_of es
waits_of (phase_entered p ∷ es) = waits_of es
waits_of (job_failed r ∷ es) = waits_of es
waits_of (wait_unobserved r ∷ es) = waits_of es

waits_of-append : (es fs : List Event) → waits_of (es ++ fs) ≡ waits_of es ++ waits_of fs
unfolding waits_of
waits_of-append [] fs = refl
waits_of-append (waited secs ∷ es) fs = ap (λ ws. secs ∷ ws) (waits_of-append es fs)
waits_of-append (phase_entered p ∷ es) fs = waits_of-append es fs
waits_of-append (job_failed r ∷ es) fs = waits_of-append es fs
waits_of-append (wait_unobserved r ∷ es) fs = waits_of-append es fs

-- What recordAdmitToRunning did to a status.
data Recorded (s : TrainingStatus) (now : Time) (s' : TrainingStatus) (o : Outcome) : Type 0 where
  kept :
      waits_of (outcome_events o) ≡ []
      → s'.running_observed_at ≡ s.running_observed_at
      → ((a : Time) → s.admitted_at ≡ some a → s'.admitted_at ≡ some a)
      → s'.admit_to_running_seconds ≡ s.admit_to_running_seconds
      → Recorded s now s' o
  measured :
      (a : Time)
      → s.running_observed_at ≡ none
      → s.admitted_at ≡ some a
      → s'.admitted_at ≡ some a
      → s'.running_observed_at ≡ some now
      → ltb_f (seconds (since now a)) zero_f ≡ false
      → s'.admit_to_running_seconds ≡ format_seconds (seconds (since now a))
      → o ≡ observed (seconds (since now a))
      → Recorded s now s' o

refused :
    (s : TrainingStatus) (reason : Text) (now : Time)
    → Recorded s now (set_unobserved reason now s) (unobserved reason)
unfolding set_unobserved set_admit_to_running_condition waits_of outcome_events
refused s reason now = kept refl refl (λ a h. h) refl

untouched : (s : TrainingStatus) (now : Time) → Recorded s now s nothing
unfolding waits_of outcome_events
untouched s now = kept refl refl (λ a h. h) refl

abbrev RecordedPair : TrainingStatus → Time → TrainingStatus × Outcome → Type 0
RecordedPair s now r = Recorded s now r.0 r.1

record_admitted-Recorded :
    (s : TrainingStatus) (admitted stamp : Option Time) (now : Time)
    → s.admitted_at ≡ admitted
    → RecordedPair s now (record_admitted s admitted stamp now)
unfolding record_admitted waits_of outcome_events
record_admitted-Recorded s (some a) stamp now at = untouched s now
record_admitted-Recorded s none none now at = refused s _ now
record_admitted-Recorded s none (some stamp) now at = elim (Bool-cases (is_zero_time stamp)) [
  | inl zero ↦ rw zero (refused s _ now)
  | inr set ↦ rw set (kept refl refl (λ a h. absurd (cc)) refl)
]

record_running-Recorded :
    (s : TrainingStatus) (running admitted : Option Time) (now : Time)
    → s.running_observed_at ≡ running
    → s.admitted_at ≡ admitted
    → RecordedPair s now (record_running s running admitted now)
unfolding record_running waits_of outcome_events set_observed set_admit_to_running_condition
record_running-Recorded s (some r) admitted now was at = untouched s now
record_running-Recorded s none none now was at =
    elim (Bool-cases (not (text_eq (admit_to_running_refusal s.conditions) []))) [
      | inl said ↦ rw said (untouched s now)
      | inr silent ↦ rw silent (refused s _ now)
    ]
record_running-Recorded s none (some a) now was at =
    elim (Bool-cases (ltb_f (seconds (since now a)) zero_f)) [
      | inl negative ↦ rw negative (refused s _ now)
      | inr fine ↦ rw fine (measured a was at at refl fine refl refl)
    ]

recorded :
    (s : TrainingStatus) (prev next : Text) (stamp : Option Time) (now : Time)
    → RecordedPair s now (record_admit_to_running s prev next stamp now)
unfolding record_admit_to_running
recorded s prev next stamp now =
    elim (Bool-cases (text_eq next phase_admitted && not (text_eq prev phase_admitted))) [
      | inl admits ↦ rw admits (record_admitted-Recorded s s.admitted_at stamp now refl)
      | inr other ↦
          elim (Bool-cases (text_eq next phase_running && not (text_eq prev phase_running))) [
            | inl runs ↦
                rw (other, runs)
                  (record_running-Recorded s s.running_observed_at s.admitted_at now refl refl)
            | inr none_of ↦ rw (other, none_of) (untouched s now)
          ]
    ]

-- A stored status against the waits that were counted: none, or the one that it records. `r` is the
-- clock's reading at the run's observation; `a` is the stored time of the admission.
pub data Window (s : TrainingStatus) (ws : List Float) : Type 0 where
  open_window :
      s.running_observed_at ≡ none
      → ((a : Time) → s.admitted_at ≡ some a → whole_seconds a ≡ a)
      → ws ≡ []
      → Window s ws
  closed_window :
      (r a : Time)
      → s.running_observed_at ≡ some (whole_seconds r)
      → s.admitted_at ≡ some a
      → whole_seconds a ≡ a
      → s.admit_to_running_seconds ≡ format_seconds (seconds (since r a))
      → ltb_f (seconds (since r a)) zero_f ≡ false
      → ws ≡ seconds (since r a) ∷ []
      → Window s ws

whole_seconds_idle : (t : Time) → whole_seconds (whole_seconds t) ≡ whole_seconds t
whole_seconds_idle t = omega arith

stored-whole : (o : Option Time) (a : Time) → stored_time o ≡ some a → whole_seconds a ≡ a
stored-whole none a h = absurd (cc)
stored-whole (some t) a h =
    let e : whole_seconds t ≡ a = cc in subst (λ x. whole_seconds x ≡ x) e (whole_seconds_idle t)

-- What is recorded, once it is stored.
Window-Recorded :
    {s s' : TrainingStatus} {now : Time} {o : Outcome} {ws : List Float}
    → Recorded s now s' o
    → Window s ws
    → Window (stored_status s') (ws ++ waits_of (outcome_events o))
unfolding waits_of outcome_events stored_status
Window-Recorded {s' = s'} (kept none_new run adm txt) (open_window was whole no_waits) =
    open_window (ap stored_time (run ∙ was)) (λ a h. stored-whole s'.admitted_at a h)
      (rw (no_waits, none_new) refl)
Window-Recorded (kept none_new run adm txt) (closed_window r a was at whole txt' fine one) =
    closed_window r a (ap stored_time (run ∙ was) ∙ ap (λ t. some t) (whole_seconds_idle r))
      (ap stored_time (adm a at) ∙ ap (λ t. some t) whole) whole (txt ∙ txt') fine
      (rw (one, none_new) refl)
Window-Recorded {now = now} (measured a was had at now_set fine txt it)
      (open_window was' whole no_waits) =
    closed_window now a (ap stored_time now_set)
      (ap stored_time at ∙ ap (λ t. some t) (whole a had)) (whole a had) txt fine
      (rw (no_waits, it) refl)
Window-Recorded (measured a was had at now_set fine txt it)
      (closed_window r b was' at' whole txt' fine' one) =
    absurd (cc)

-- A window reads three fields of the status.
Window-same :
    {s : TrainingStatus} {ws : List Float} (s' : TrainingStatus)
    → s'.running_observed_at ≡ s.running_observed_at
    → s'.admitted_at ≡ s.admitted_at
    → s'.admit_to_running_seconds ≡ s.admit_to_running_seconds
    → Window s ws
    → Window s' ws
Window-same s' run adm txt (open_window was whole no_waits) =
    open_window (run ∙ was) (λ a h. whole a (sym adm ∙ h)) no_waits
Window-same s' run adm txt (closed_window r a was at whole txt' fine one) =
    closed_window r a (run ∙ was) (adm ∙ at) whole (txt ∙ txt') fine one

-- One call of setMLTJPhase: what it is given, and whether its write fails. `generation` and `status`
-- of the job are those that are stored.
pub record Pass : Type 0 where
  pub generation : ℕ
  pub phase : Text
  pub cond : Condition
  pub kueue_stamp : Option Time
  pub set_at : Time
  pub now : Time
  pub later : Time
  pub fails : Bool

abbrev pub History : Type 0
History = TrainingStatus × List Event

abbrev after : History → Option (TrainingStatus × List Event) → History
after (s, es) none = (s, es)
after (s, es) (some (s', new)) = (s', es ++ new)

write_phase-Window :
    (s : TrainingStatus) (es : List Event) (phase : Text) (later : Time)
    (desired : TrainingStatus × Outcome) (is_same fails changed : Bool)
    → Window s (waits_of es)
    → Window (stored_status desired.0) (waits_of es ++ waits_of (outcome_events desired.1))
    → Window
        (after (s, es) (write_phase is_same fails changed s phase later desired)).0
        (waits_of (after (s, es) (write_phase is_same fails changed s phase later desired)).1)
unfolding write_phase stored_status
write_phase-Window s es phase later (d, o) true fails changed w v = rw (append-nil es) w
write_phase-Window s es phase later (d, o) false true changed w v = w
write_phase-Window s es phase later (d, o) false false true w v =
    rw (waits_of-append es (phase_entered phase ∷ outcome_events o))
      (unfold waits_of in Window-same _ refl refl refl v)
write_phase-Window s es phase later (d, o) false false false w v =
    rw (waits_of-append es (outcome_events o)) v

module _ (api : TrainingApi) (t : TrainingJob) where
  abbrev stored : TrainingStatus → Pass → TrainingJob
  stored s p = record t { generation = p.generation; status = s }

  unfoldable pub pass : History → Pass → History
  pass (s, es) p =
      after (s, es)
        (set_phase api p.fails (stored s p) p.phase p.cond p.kueue_stamp p.set_at p.now p.later)

  unfoldable pub live : History → List Pass → History
  live h [] = h
  live h (p ∷ ps) = live (pass h p) ps

  desired_status-Window :
      (s : TrainingStatus) (p : Pass) (ws : List Float)
      → Window s ws
      → Window
          (stored_status
            (desired_status api (stored s p) p.phase p.cond p.kueue_stamp p.set_at p.now).0)
          (ws
            ++ waits_of (
                outcome_events
                  (desired_status api (stored s p) p.phase p.cond p.kueue_stamp p.set_at p.now).1))
  unfolding desired_status
  desired_status-Window s p ws w =
      Window-Recorded (recorded _ s.phase p.phase p.kueue_stamp p.now)
        (Window-same _ refl refl refl w)

  pub pass-Window :
      (s : TrainingStatus) (es : List Event) (p : Pass)
      → Window s (waits_of es)
      → Window (pass (s, es) p).0 (waits_of (pass (s, es) p).1)
  unfolding pass set_phase
  pass-Window s es p w =
      let desired = desired_status api (stored s p) p.phase p.cond p.kueue_stamp p.set_at p.now in
      write_phase-Window s es p.phase p.later desired (api.deep_equal s desired.0) p.fails
        (not (text_eq s.phase p.phase)) w (desired_status-Window s p (waits_of es) w)
