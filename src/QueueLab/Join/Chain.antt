-- ===== src/QueueLab/Join/Chain.antt =====
-- Each loop of ResolveTraceJobs, when it accepts, as the insertions that it made.
use mathlib.Core.List.{Memᴰ}
use gpu_platform_control_pla.Base.{
  ◌≡◌, refl, sym, ◌∙◌, ap, Bool, true, false, not, ◌&&◌, ◌||◌, Option, none, some, List, [], ◌∷◌,
  arith, All, All-imp, Bool-cases, inl, inr, subst,
}
use gpu_platform_control_pla.Base.Text.{Text, text_eq, text_eq_iff}
use gpu_platform_control_pla.Base.Maps.{
  Map, lookup, insert, has_key, Holds, Holds-insert, Holds-insert_self,
}
use gpu_platform_control_pla.Base.Results.{Result, ok, err, on_ok, >>=-ok}
use gpu_platform_control_pla.Base.Sort.{All-mem}
use gpu_platform_control_pla.QueueLab.Join.{
  ObservedObject, JoinError, no_uid, duplicate_uid, orphan_leaf, label_disagrees, unknown_kind,
  kind_mltj, kind_job, kind_workload, kind_pod, or_empty, controller_owner, check_uids, join_roots,
  Joined, add_job, join_job, join_jobs, add_leaf, join_leaf, join_leaves,
}
use gpu_platform_control_pla.QueueLab.Join.Phases.{Distinct, Inserts, finished, passed, named}

abbrev pub is_root : ObservedObject → Bool
is_root o = text_eq o.kind kind_mltj

abbrev pub is_job : ObservedObject → Bool
is_job o = text_eq o.kind kind_job

abbrev pub is_leaf : ObservedObject → Bool
is_leaf o = not (text_eq o.kind kind_mltj || text_eq o.kind kind_job)

pub check_uids-ok :
    (seen : List Text) (objs : List ObservedObject) (u : Unit {0})
    → check_uids seen objs ≡ ok u
    → Distinct objs × All (λ o. has_key o.uid seen ≡ false) objs
unfolding check_uids has_key
check_uids-ok seen [] u same = (tt, tt)
check_uids-ok seen (o ∷ os) u same = elim (Bool-cases (text_eq o.uid [])) [
  | inl empty ↦ let bad : err no_uid ≡ ok u = sym (rw empty refl) ∙ same in absurd (cc)
  | inr full ↦ elim (Bool-cases (has_key o.uid seen)) [
    | inl dup ↦ let bad : err duplicate_uid ≡ ok u = sym (rw (full, dup) refl) ∙ same in absurd (cc)
    | inr new ↦
        let (apart, later) = check_uids-ok (o.uid ∷ seen) os u (sym (rw (full, new) refl) ∙ same) in
        (
          (All-imp _ _ os (λ r h. ground arith) later, apart),
          (new, All-imp _ _ os (λ r h. ground arith) later),
        )
  ]
]

text_eq_swap : (a b : Text) → text_eq a b ≡ false → text_eq b a ≡ false
text_eq_swap a b h = elim (Bool-cases (text_eq b a)) [
  | inl same ↦ let e = (text_eq_iff a b).1 (sym ((text_eq_iff b a).0 same)) in absurd (cc)
  | inr other ↦ other
]

-- Objects of two kinds have two UIDs.
pub kinds_apart :
    (p q : ObservedObject → Bool) (r : ObservedObject) (objs : List ObservedObject)
    → ((o : ObservedObject) → p o ≡ true → q o ≡ true → ⊥)
    → q r ≡ true
    → Distinct objs
    → Memᴰ r objs
    → All (λ o. p o ≡ true → text_eq o.uid r.uid ≡ false) objs
kinds_apart p q r [] apart is_q d here = tt
kinds_apart p q r (o ∷ os) apart is_q d (Memᴰ.head e) = (
  (λ is_p. absurd (apart r (subst (λ x. p x ≡ true) (sym e) is_p) is_q)),
  All-imp _ _ os
      (λ x h is_p. text_eq_swap r.uid x.uid (subst (λ y. text_eq y.uid x.uid ≡ false) (sym e) h))
      d.0,
)
kinds_apart p q r (o ∷ os) apart is_q d (Memᴰ.tail there) = (
  (λ is_p. All-mem (λ x. text_eq o.uid x.uid ≡ false) there d.0),
  kinds_apart p q r os apart is_q d.1 there,
)

abbrev pub RootName : ObservedObject → Map Text → Text → Type 0
RootName o m v = v ≡ o.name

pub join_roots-Inserts :
    (os : List ObservedObject) (m : Map Text) → Inserts is_root RootName os m (join_roots os m)
unfolding join_roots
join_roots-Inserts [] m = finished
join_roots-Inserts (o ∷ os) m = elim (Bool-cases (is_root o)) [
  | inl root ↦ rw root (named o.name root refl (join_roots-Inserts os (insert o.uid o.name m)))
  | inr other ↦ rw other (passed other (join_roots-Inserts os m))
]

-- A Job has the name of its controller MLTrainingJob.
abbrev pub JobName : ObservedObject → Map Text → Text → Type 0
JobName o m v = (u : Text) × (controller_owner o kind_mltj ≡ ok u) × (lookup u m ≡ some v)

join_job-ok :
    (o : ObservedObject) (names names' : Map Text) (jobs jobs' : List Text)
    → join_job o (names, jobs) ≡ ok (names', jobs')
    → (v : Text) × JobName o names v × (names' ≡ insert o.uid v names) × (jobs' ≡ o.uid ∷ jobs)
unfolding join_job add_job
join_job-ok o names names' jobs jobs' same =
    let add : Text → Result JoinError Joined =
      λ owner. add_job o (names, jobs) owner (lookup owner names) in
    let (u, one, rest) = >>=-ok add (controller_owner o kind_mltj) (names', jobs') same in
    added u one (lookup u names) refl rest
  where
    added :
        (u : Text)
        → controller_owner o kind_mltj ≡ ok u
        → (parent : Option Text) → lookup u names ≡ parent
        → add_job o (names, jobs) u parent ≡ ok (names', jobs')
        → (v : Text) × JobName o names v × (names' ≡ insert o.uid v names) × (jobs' ≡ o.uid ∷ jobs)
    added u one none at made = absurd (cc)
    added u one (some v) at made =
        let made' : ◌≡◌ {A = Joined} (insert o.uid v names, o.uid ∷ jobs) (names', jobs') = cc in
        (v, (u, one, at), sym (ap (λ j. j.0) made'), sym (ap (λ j. j.1) made'))

pub join_jobs-Inserts :
    (os : List ObservedObject) (names names' : Map Text) (jobs jobs' : List Text)
    → join_jobs os (names, jobs) ≡ ok (names', jobs')
    → All (Holds names) jobs
    → Inserts is_job JobName os names names' × All (Holds names') jobs'
unfolding join_jobs
join_jobs-Inserts [] names names' jobs jobs' same held =
    let e : ◌≡◌ {A = Joined} (names, jobs) (names', jobs') = cc in
    subst (λ j. Inserts is_job JobName [] names j.0 × All (Holds j.0) j.1) e (finished, held)
join_jobs-Inserts (o ∷ os) names names' jobs jobs' same held = elim (Bool-cases (is_job o)) [
  | inr other ↦
      let (ins, all) =
        join_jobs-Inserts os names names' jobs jobs' (sym (rw other refl) ∙ same) held in
      (passed other ins, all)
  | inl job ↦
      let go : Joined → Result JoinError Joined = λ next. join_jobs os next in
      let chain : on_ok go (join_job o (names, jobs)) ≡ ok (names', jobs') =
        sym (rw job refl) ∙ same in
      let (next, one, rest) = >>=-ok go (join_job o (names, jobs)) (names', jobs') chain in
      let (v, named_by, names_are, jobs_are) = join_job-ok o names next.0 jobs next.1 one in
      let (ins, all) = join_jobs-Inserts os next.0 names' next.1 jobs' rest (
        subst (λ n. All (Holds n) next.1) (sym names_are)
          (subst (λ j. All (Holds (insert o.uid v names)) j) (sym jobs_are)
            (
              Holds-insert_self names o.uid v,
              All-imp _ _ jobs (λ k h. Holds-insert names o.uid k v h) held,
            ))) in
      (named v job named_by (subst (λ n. Inserts is_job JobName os n names') names_are ins), all)
]

-- A Workload or a Pod has the name of its controller Job, which the label of a Workload names too.
abbrev pub LeafName : List Text → ObservedObject → Map Text → Text → Type 0
LeafName jobs o m v =
    (u : Text) × (controller_owner o kind_job ≡ ok u)
    × (has_key u jobs ≡ true)
    × (text_eq o.kind kind_workload ≡ true → o.job_uid_label ≡ u)
    × (v ≡ or_empty (lookup u m))

add_leaf-ok :
    (o : ObservedObject) (names names' : Map Text) (jobs : List Text) (u : Text)
    → controller_owner o kind_job ≡ ok u
    → add_leaf o (names, jobs) u ≡ ok names'
    → (v : Text) × LeafName jobs o names v × (names' ≡ insert o.uid v names)
unfolding add_leaf
add_leaf-ok o names names' jobs u one made = elim (Bool-cases (has_key u jobs)) [
  | inr gone ↦ let bad : err orphan_leaf ≡ ok names' = sym (rw gone refl) ∙ made in absurd (cc)
  | inl there ↦
      elim (Bool-cases (text_eq o.kind kind_workload && not (text_eq o.job_uid_label u))) [
        | inl odd ↦
            let bad : err label_disagrees ≡ ok names' = sym (rw (there, odd) refl) ∙ made in
            absurd (cc)
        | inr fine ↦
            let last : ok (insert o.uid (or_empty (lookup u names)) names) ≡ ok names' =
              sym (rw (there, fine) refl) ∙ made in
            (
              or_empty (lookup u names),
              (u, one, there, (λ w. (text_eq_iff o.job_uid_label u).0 (ground arith)), refl),
              cc,
            )
      ]
]

join_leaf-ok :
    (o : ObservedObject) (names names' : Map Text) (jobs : List Text)
    → is_leaf o ≡ true
    → join_leaf o (names, jobs) ≡ ok names'
    → (v : Text) × LeafName jobs o names v × (names' ≡ insert o.uid v names)
unfolding join_leaf
join_leaf-ok o names names' jobs leaf same =
    let below : (text_eq o.kind kind_mltj || text_eq o.kind kind_job) ≡ false = ground arith in
    elim (Bool-cases (not (text_eq o.kind kind_workload || text_eq o.kind kind_pod))) [
      | inl odd ↦
          let bad : err unknown_kind ≡ ok names' = sym (rw (below, odd) refl) ∙ same in absurd (cc)
      | inr fine ↦
          let add : Text → Result JoinError (Map Text) = λ owner. add_leaf o (names, jobs) owner in
          let chain : on_ok add (controller_owner o kind_job) ≡ ok names' =
            sym (rw (below, fine) refl) ∙ same in
          let (u, one, rest) = >>=-ok add (controller_owner o kind_job) names' chain in
          add_leaf-ok o names names' jobs u one rest
    ]

join_leaf-skip :
    (o : ObservedObject) (names next : Map Text) (jobs : List Text)
    → is_leaf o ≡ false
    → join_leaf o (names, jobs) ≡ ok next
    → next ≡ names
unfolding join_leaf
join_leaf-skip o names next jobs other same =
    let above : (text_eq o.kind kind_mltj || text_eq o.kind kind_job) ≡ true = ground arith in
    let this : ok names ≡ ok next = sym (rw above refl) ∙ same in cc

pub join_leaves-Inserts :
    (os : List ObservedObject) (names names' : Map Text) (jobs : List Text)
    → join_leaves os (names, jobs) ≡ ok names'
    → Inserts is_leaf (LeafName jobs) os names names'
unfolding join_leaves
join_leaves-Inserts [] names names' jobs same =
    let e : names ≡ names' = cc in
    subst (λ n. Inserts is_leaf (LeafName jobs) [] names n) e finished
join_leaves-Inserts (o ∷ os) names names' jobs same =
    let go : Map Text → Result JoinError (Map Text) = λ next. join_leaves os (next, jobs) in
    let (next, one, rest) = >>=-ok go (join_leaf o (names, jobs)) names' same in
    let ins = join_leaves-Inserts os next names' jobs rest in
    elim (Bool-cases (is_leaf o)) [
      | inl leaf ↦
          let (v, named_by, names_are) = join_leaf-ok o names next jobs leaf one in
          named v leaf named_by
            (subst (λ n. Inserts is_leaf (LeafName jobs) os n names') names_are ins)
      | inr other ↦ passed other (
          subst (λ n. Inserts is_leaf (LeafName jobs) os n names')
            (join_leaf-skip o names next jobs other one) ins)
    ]
