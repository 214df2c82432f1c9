-- ===== src/QueueLab/Timeline/Folding.antt =====
-- The loop of foldEvent keeps every timeline sound and every row in the map.
use gpu_platform_control_pla.Base.{
  true, false, not, ◌&&◌, ◌||◌, Option, none, some, List, [], ◌∷◌, ◌++◌, ◌≡◌, refl, ◌⊎◌, inl, inr,
  sym, ◌∙◌, subst, arith, All, Bool-cases, Option-cases,
}
use gpu_platform_control_pla.Base.Int.{ℤ, pos, ltb_ℤ, eq_ℤ, ◌≤ℤ◌}
use gpu_platform_control_pla.Base.Text.{Text}
use gpu_platform_control_pla.Base.Maps.{
  Map, lookup, insert, Holds, Holds-insert, Holds-insert_self, insert_keeps,
}
use gpu_platform_control_pla.Base.Results.{ok, err, ◌>>=◌, >>=-ok}
use gpu_platform_control_pla.QueueLab.Events.{
  EventType, LifecycleEvent, TrainingTraceRow, type_eq, stamp_of, names_of,
}
use gpu_platform_control_pla.QueueLab.Timeline.{
  JobTimeline, Refusal, unknown_job, duplicate_job, check_shape, fold_ready, fold_into, fold_shaped,
  fold_known, fold_event, fold_events, seeded, seed,
}
use gpu_platform_control_pla.QueueLab.Timeline.Invariant.{
  SoundTimeline, SoundMap, fold_ready-Sound, fold_stop-Sound,
}

-- Only a stop may be late.
abbrev OnTime : ℤ → EventType → LifecycleEvent → Type 0
OnTime horizon ty e = type_eq ty EventType.attempt_stopped ≡ false → e.elapsed_ns ≤ℤ horizon

fold_into-Sound :
    (horizon : ℤ) (ty : EventType) (t t' : JobTimeline) (e : LifecycleEvent)
    → pos 0 ≤ℤ e.elapsed_ns
    → OnTime horizon ty e
    → SoundTimeline horizon t
    → fold_into ty t e horizon ≡ ok t'
    → SoundTimeline horizon t'
unfolding fold_into type_eq
fold_into-Sound horizon EventType.submitted t t' e late on_time s same =
    let at = on_time refl in
    elim (Bool-cases (t.submitted && not (eq_ℤ t.submitted_ns e.elapsed_ns))) [
      | inl twice ↦ absurd (ground arith)
      | inr once ↦
          let this : record t { submitted = true; submitted_ns = e.elapsed_ns } ≡ t' =
            ground arith in
          subst (SoundTimeline horizon) this (record {
            submitted_in = λ h. (late, at);
            admitted_in = s.admitted_in;
            completed_in = s.completed_in;
            attempts_in = s.attempts_in;
            seq_held = s.seq_held;
          })
    ]
fold_into-Sound horizon EventType.admitted t t' e late on_time s same =
    let at = on_time refl in
    elim (Bool-cases (not t.admitted || ltb_ℤ e.elapsed_ns t.admit_ns)) [
      | inr later ↦ let this : t ≡ t' = ground arith in subst (SoundTimeline horizon) this s
      | inl first ↦
          let this : record t {
            admitted = true;
            admit_ns = e.elapsed_ns;
            admit_stamp_ns = stamp_of e;
          }
              ≡ t' =
            ground arith in
          subst (SoundTimeline horizon) this (record {
            submitted_in = s.submitted_in;
            admitted_in = λ h. (late, at);
            completed_in = s.completed_in;
            attempts_in = s.attempts_in;
            seq_held = s.seq_held;
          })
    ]
fold_into-Sound horizon EventType.pod_ready t t' e late on_time s same =
    let this : fold_ready t e (lookup e.object_uid t.attempts) ≡ t' = cc in
    subst (SoundTimeline horizon) this
      (fold_ready-Sound horizon e late t (lookup e.object_uid t.attempts) refl (on_time refl) s)
fold_into-Sound horizon EventType.preempted t t' e late on_time s same =
    let this : record t { preempted_ns = t.preempted_ns ++ (e.elapsed_ns ∷ []) } ≡ t' = cc in
    subst (SoundTimeline horizon) this (record {
      submitted_in = s.submitted_in;
      admitted_in = s.admitted_in;
      completed_in = s.completed_in;
      attempts_in = s.attempts_in;
      seq_held = s.seq_held;
    })
fold_into-Sound horizon EventType.attempt_stopped t t' e late on_time s same =
    fold_stop-Sound horizon e late t t' (lookup e.object_uid t.attempts) refl s same
fold_into-Sound horizon EventType.completed t t' e late on_time s same =
    let at = on_time refl in
    elim (Bool-cases (t.completed && not (eq_ℤ t.completed_ns e.elapsed_ns))) [
      | inl twice ↦ absurd (ground arith)
      | inr once ↦
          let this : record t { completed = true; completed_ns = e.elapsed_ns } ≡ t' =
            ground arith in
          subst (SoundTimeline horizon) this (record {
            submitted_in = s.submitted_in;
            admitted_in = s.admitted_in;
            completed_in = λ h. (late, at);
            attempts_in = s.attempts_in;
            seq_held = s.seq_held;
          })
    ]
fold_into-Sound horizon (EventType.unknown u) t t' e late on_time s same =
    let this : t ≡ t' = cc in subst (SoundTimeline horizon) this s

-- What a step that is accepted did: nothing, or one row's timeline was folded.
pub record FoldedRow (horizon : ℤ) (e : LifecycleEvent) (m m' : Map JobTimeline) : Type 0 where
  pub old : JobTimeline
  pub new : JobTimeline
  pub row : lookup e.job m ≡ some old
  pub shape : check_shape e.type e ≡ none
  pub kept : (ltb_ℤ horizon e.elapsed_ns && not (type_eq e.type EventType.attempt_stopped)) ≡ false
  pub step : fold_into e.type old e horizon ≡ ok new
  pub next : m' ≡ insert e.job new m

fold_shaped-cases :
    (m m' : Map JobTimeline) (e : LifecycleEvent) (horizon : ℤ) (t : JobTimeline)
    → lookup e.job m ≡ some t
    → (shape : Option Refusal) → check_shape e.type e ≡ shape
    → fold_shaped m e horizon t shape ≡ ok m'
    → (m' ≡ m) ⊎ FoldedRow horizon e m m'
unfolding fold_shaped
fold_shaped-cases m m' e horizon t row (some r) shape same = absurd (cc)
fold_shaped-cases m m' e horizon t row none shape same =
    elim (Bool-cases
      (ltb_ℤ horizon e.elapsed_ns && not (type_eq e.type EventType.attempt_stopped))) [
        | inl past ↦ inl (ground arith)
        | inr kept ↦
            let folded : (fold_into e.type t e horizon >>= λ t'. ok (insert e.job t' m)) ≡ ok m' =
              sym (rw kept refl) ∙ same in
            let (t', step, next) = >>=-ok (λ t'. ok (insert e.job t' m)) _ m' folded in
            inr (record {
              old = t;
              new = t';
              row = row;
              shape = shape;
              kept = kept;
              step = step;
              next = cc;
            })
      ]

fold_event-cases :
    (m m' : Map JobTimeline) (e : LifecycleEvent) (horizon : ℤ)
    → fold_event m e horizon ≡ ok m'
    → (pos 0 ≤ℤ e.elapsed_ns) × ((m' ≡ m) ⊎ FoldedRow horizon e m m')
unfolding fold_event fold_known
fold_event-cases m m' e horizon same = elim (Bool-cases (ltb_ℤ e.elapsed_ns (pos 0))) [
  | inl early ↦ absurd (ground arith)
  | inr late ↦ elim (Option-cases (lookup e.job m)) [
    | inl gone ↦
        let bad : err unknown_job ≡ ok m' = sym (rw (late, gone) refl) ∙ same in absurd (cc)
    | inr (t, row) ↦ (
      ground arith,
      fold_shaped-cases m m' e horizon t row (check_shape e.type e) refl
          (sym (rw (late, row) refl) ∙ same),
    )
  ]
]

module _ (horizon : ℤ) where
  fold_event-Sound :
      (m m' : Map JobTimeline) (e : LifecycleEvent)
      → SoundMap horizon m
      → fold_event m e horizon ≡ ok m'
      → SoundMap horizon m'
  fold_event-Sound m m' e sound same =
      let (late, did) = fold_event-cases m m' e horizon same in
      elim did [
        | inl nothing ↦ subst (SoundMap horizon) (sym nothing) sound
        | inr f ↦
            let on_time : OnTime horizon e.type e = λ not_stop. ground (arith, f.kept) in
            subst (SoundMap horizon) (sym f.next) (
              insert_keeps (SoundTimeline horizon) m e.job f.new sound (
                fold_into-Sound horizon e.type f.old f.new e late on_time (sound e.job f.old f.row)
                  f.step))
      ]

  fold_event-Holds :
      (m m' : Map JobTimeline) (e : LifecycleEvent) (name : Text)
      → Holds m name
      → fold_event m e horizon ≡ ok m'
      → Holds m' name
  fold_event-Holds m m' e name held same = elim ((fold_event-cases m m' e horizon same).1) [
    | inl nothing ↦ subst (λ n. Holds n name) (sym nothing) held
    | inr f ↦ subst (λ n. Holds n name) (sym f.next) (Holds-insert m e.job name f.new held)
  ]

  pub fold_events-Sound :
      (m m' : Map JobTimeline) (es : List LifecycleEvent)
      → SoundMap horizon m
      → fold_events m es horizon ≡ ok m'
      → SoundMap horizon m'
  unfolding fold_events
  fold_events-Sound m m' [] sound same = subst (SoundMap horizon) (cc) sound
  fold_events-Sound m m' (e ∷ es) sound same =
      let (n, one, rest) = >>=-ok (λ n. fold_events n es horizon) _ m' same in
      fold_events-Sound n m' es (fold_event-Sound m n e sound one) rest

  pub fold_events-Holds :
      (m m' : Map JobTimeline) (es : List LifecycleEvent) (name : Text)
      → Holds m name
      → fold_events m es horizon ≡ ok m'
      → Holds m' name
  unfolding fold_events
  fold_events-Holds m m' [] name held same =
      let this : m ≡ m' = cc in subst (λ n. Holds n name) this held
  fold_events-Holds m m' (e ∷ es) name held same =
      let (n, one, rest) = >>=-ok (λ n. fold_events n es horizon) _ m' same in
      fold_events-Holds n m' es name (fold_event-Holds m n e name held one) rest

  seeded-Sound : (row : TrainingTraceRow) → SoundTimeline horizon (seeded row)
  unfolding seeded lookup
  seeded-Sound row = record {
    submitted_in = λ h. cc;
    admitted_in = λ h. cc;
    completed_in = λ h. cc;
    attempts_in = λ uid a h. cc;
    seq_held = tt;
  }

  pub seed-Sound :
      (m m' : Map JobTimeline) (rows : List TrainingTraceRow)
      → SoundMap horizon m
      → seed m rows ≡ ok m'
      → SoundMap horizon m'
  unfolding seed
  seed-Sound m m' [] sound same = subst (SoundMap horizon) (cc) sound
  seed-Sound m m' (row ∷ rows) sound same = elim (Option-cases (lookup row.name m)) [
    | inr (t, dup) ↦ absurd (let bad : err duplicate_job ≡ ok m' = sym (rw dup refl) ∙ same in cc)
    | inl new ↦
        seed-Sound (insert row.name (seeded row) m) m' rows
          (insert_keeps (SoundTimeline horizon) m row.name _ sound (seeded-Sound row))
          (sym (rw new refl) ∙ same)
  ]

pub seed-Holds :
    (m m' : Map JobTimeline) (rows : List TrainingTraceRow)
    → seed m rows ≡ ok m'
    → ((name : Text) → Holds m name → Holds m' name) × All (Holds m') (names_of rows)
unfolding seed
seed-Holds m m' [] same =
    let this : m ≡ m' = cc in ((λ name h. subst (λ n. Holds n name) this h), tt)
seed-Holds m m' (row ∷ rows) same = elim (Option-cases (lookup row.name m)) [
  | inr (t, dup) ↦ absurd (let bad : err duplicate_job ≡ ok m' = sym (rw dup refl) ∙ same in cc)
  | inl new ↦
      let (kept, rest) =
        seed-Holds (insert row.name (seeded row) m) m' rows (sym (rw new refl) ∙ same) in
      (
        (λ name h. kept name (Holds-insert m row.name name _ h)),
        (kept row.name (Holds-insert_self m row.name _), rest),
      )
]
