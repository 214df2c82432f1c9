-- ===== src/QueueLab/Timeline/Invariant.antt =====
-- What a timeline satisfies, and the two events that change its attempts.
use gpu_platform_control_pla.Base.{
  true, not, ◌||◌, Option, none, some, ◌≡◌, inl, inr, subst, arith, All, Bool-cases,
}
use gpu_platform_control_pla.Base.Int.{ℤ, pos, ltb_ℤ, ◌≤ℤ◌}
use gpu_platform_control_pla.Base.Text.{Text}
use gpu_platform_control_pla.Base.Maps.{
  Map, lookup, insert, Holds, Holds-insert_self, All-Holds-insert, All-append_one, insert_keeps,
}
use gpu_platform_control_pla.Base.Results.{ok}
use gpu_platform_control_pla.QueueLab.Events.{LifecycleEvent}
use gpu_platform_control_pla.QueueLab.Timeline.{Attempt, JobTimeline, fold_ready, fold_stop}

-- An instant that was observed inside the window.
abbrev pub InWindow : ℤ → ℤ → Type 0
InWindow horizon t = (pos 0 ≤ℤ t) × (t ≤ℤ horizon)

pub record SoundAttempt (horizon : ℤ) (a : Attempt) : Type 0 where
  pub ready_in : InWindow horizon a.ready_ns
  pub stop_in : a.stopped ≡ true → pos 0 ≤ℤ a.stop_ns

pub record SoundTimeline (horizon : ℤ) (t : JobTimeline) : Type 0 where
  pub submitted_in : t.submitted ≡ true → InWindow horizon t.submitted_ns
  pub admitted_in : t.admitted ≡ true → InWindow horizon t.admit_ns
  pub completed_in : t.completed ≡ true → InWindow horizon t.completed_ns
  pub attempts_in :
      (uid : Text) (a : Attempt) → lookup uid t.attempts ≡ some a → SoundAttempt horizon a
  pub seq_held : All (Holds t.attempts) t.attempt_seq

-- Every row of the map is sound.
abbrev pub SoundMap : ℤ → Map JobTimeline → Type 0
SoundMap horizon m =
    (name : Text) (t : JobTimeline) → lookup name m ≡ some t → SoundTimeline horizon t

module _ (horizon : ℤ) (e : LifecycleEvent) (late : pos 0 ≤ℤ e.elapsed_ns) where
  pub fold_ready-Sound :
      (t : JobTimeline) (found : Option Attempt)
      → lookup e.object_uid t.attempts ≡ found
      → e.elapsed_ns ≤ℤ horizon
      → SoundTimeline horizon t
      → SoundTimeline horizon (fold_ready t e found)
  unfolding fold_ready
  fold_ready-Sound t none at in_time s = record {
    submitted_in = s.submitted_in;
    admitted_in = s.admitted_in;
    completed_in = s.completed_in;
    attempts_in =
        insert_keeps (SoundAttempt horizon) t.attempts e.object_uid _ s.attempts_in
          (record { ready_in = (late, in_time); stop_in = λ h. cc });
    seq_held =
        All-append_one (Holds _) t.attempt_seq e.object_uid
          (All-Holds-insert t.attempts e.object_uid _ t.attempt_seq s.seq_held)
          (Holds-insert_self t.attempts e.object_uid _);
  }
  fold_ready-Sound t (some a) at in_time s = elim (Bool-cases (ltb_ℤ e.elapsed_ns a.ready_ns)) [
    | inr after ↦ rw after s
    | inl before ↦
        let old = s.attempts_in e.object_uid a at in
        rw before (record {
          submitted_in = s.submitted_in;
          admitted_in = s.admitted_in;
          completed_in = s.completed_in;
          attempts_in =
              insert_keeps (SoundAttempt horizon) t.attempts e.object_uid _ s.attempts_in
                (record { ready_in = (late, in_time); stop_in = old.stop_in });
          seq_held = All-Holds-insert t.attempts e.object_uid _ t.attempt_seq s.seq_held;
        })
  ]

  pub fold_stop-Sound :
      (t t' : JobTimeline) (found : Option Attempt)
      → lookup e.object_uid t.attempts ≡ found
      → SoundTimeline horizon t
      → fold_stop t e horizon found ≡ ok t'
      → SoundTimeline horizon t'
  unfolding fold_stop
  fold_stop-Sound t t' none at s same = elim (Bool-cases (ltb_ℤ horizon e.elapsed_ns)) [
    | inl past ↦ let this : t ≡ t' = ground arith in subst (SoundTimeline horizon) this s
    | inr within ↦ absurd (ground arith)
  ]
  fold_stop-Sound t t' (some a) at s same =
      elim (Bool-cases (not a.stopped || ltb_ℤ e.elapsed_ns a.stop_ns)) [
        | inr after ↦ let this : t ≡ t' = ground arith in subst (SoundTimeline horizon) this s
        | inl first ↦
            let old = s.attempts_in e.object_uid a at in
            let a' : Attempt = record a {
              stopped = true;
              stop_ns = e.elapsed_ns;
              stop_reason = e.reason;
            } in
            let this : record t { attempts = insert e.object_uid a' t.attempts } ≡ t' =
              ground arith in
            subst (SoundTimeline horizon) this (record {
              submitted_in = s.submitted_in;
              admitted_in = s.admitted_in;
              completed_in = s.completed_in;
              attempts_in =
                  insert_keeps (SoundAttempt horizon) t.attempts e.object_uid a' s.attempts_in
                    (record { ready_in = old.ready_in; stop_in = λ h. late });
              seq_held = All-Holds-insert t.attempts e.object_uid a' t.attempt_seq s.seq_held;
            })
      ]
