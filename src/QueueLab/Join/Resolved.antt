-- ===== src/QueueLab/Join/Resolved.antt =====
-- What ResolveTraceJobs resolves: every object to the root that it descends from.
use mathlib.Core.List.{Memᴰ}
use gpu_platform_control_pla.Base.{
  ◌≡◌, refl, sym, ◌∙◌, true, some, List, [], ◌∷◌, arith, All, Bool-cases, Option-cases, inl, inr,
  subst,
}
use gpu_platform_control_pla.Base.Text.{Text, text_eq, text_eq_iff}
use gpu_platform_control_pla.Base.Maps.{Map, lookup, has_key, Holds}
use gpu_platform_control_pla.Base.Results.{Result, ok, ◌>>=◌, >>=-ok}
use gpu_platform_control_pla.Base.Sort.{All-self}
use gpu_platform_control_pla.QueueLab.Join.{
  ObservedObject, JoinError, kind_mltj, kind_job, kind_workload, controller_owner, check_uids,
  join_roots, Joined, join_jobs, join_leaves, resolve_trace_jobs,
}
use gpu_platform_control_pla.QueueLab.Join.Phases.{
  Distinct, IsFresh, Extends, Inserts, Inserts-Extends, Inserts-named, Inserts-others,
}
use gpu_platform_control_pla.QueueLab.Join.Chain.{
  is_root, is_job, is_leaf, JobName, LeafName, check_uids-ok, kinds_apart, join_roots-Inserts,
  join_jobs-Inserts, join_leaves-Inserts,
}

-- The object has a name in the map, and its owner has the same one.
abbrev pub NamedAfter : Map Text → ObservedObject → Text → Type 0
NamedAfter names o owner =
    (v : Text) × (lookup o.uid names ≡ some v) × (lookup owner names ≡ some v)

-- Every object is named: a root by itself, any other after its one controller owner.
pub record Resolved (objs : List ObservedObject) (names : Map Text) : Type 0 where
  pub root :
      (o : ObservedObject) → Memᴰ o objs → is_root o ≡ true → lookup o.uid names ≡ some o.name
  pub job :
      (o : ObservedObject)
      → Memᴰ o objs
      → is_job o ≡ true
      → (u : Text) × (controller_owner o kind_mltj ≡ ok u) × NamedAfter names o u
  pub leaf :
      (o : ObservedObject)
      → Memᴰ o objs
      → is_leaf o ≡ true
      → (u : Text) × (controller_owner o kind_job ≡ ok u)
        × NamedAfter names o u
        × (text_eq o.kind kind_workload ≡ true → o.job_uid_label ≡ u)

root_not_job : (o : ObservedObject) → is_root o ≡ true → is_job o ≡ true → ⊥
root_not_job o root job =
    let e = sym ((text_eq_iff o.kind kind_mltj).0 root) ∙ (text_eq_iff o.kind kind_job).0 job in cc

held_key :
    (m : Map Text) (u : Text) (jobs : List Text)
    → All (Holds m) jobs
    → has_key u jobs ≡ true
    → Holds m u
unfolding has_key
held_key m u [] held h = absurd (cc)
held_key m u (j ∷ js) held h = elim (Bool-cases (text_eq j u)) [
  | inl same ↦ subst (Holds m) ((text_eq_iff j u).0 same) held.0
  | inr other ↦ held_key m u js held.1 (ground arith)
]

module _ (objs : List ObservedObject) (apart : Distinct objs) (names_j names : Map Text)
    (jobs : List Text) (jobs_in : Inserts is_job JobName objs (join_roots objs []) names_j)
    (held : All (Holds names_j) jobs)
    (leaves_in : Inserts is_leaf (LeafName jobs) objs names_j names) where
  roots-IsFresh : IsFresh is_root [] objs
  unfolding lookup
  roots-IsFresh = All-self _ objs (λ r here root. refl)

  jobs-IsFresh : IsFresh is_job (join_roots objs []) objs
  unfolding lookup
  jobs-IsFresh = All-self _ objs (λ r here job.
      Inserts-others r.uid (join_roots-Inserts objs [])
        (kinds_apart is_root is_job r objs root_not_job job apart here))

  leaves-IsFresh : IsFresh is_leaf names_j objs
  unfolding lookup
  leaves-IsFresh = All-self _ objs (λ r here leaf.
      Inserts-others r.uid jobs_in
        (kinds_apart is_job is_leaf r objs (λ o p q. ground arith) leaf apart here)
      ∙ Inserts-others r.uid (join_roots-Inserts objs [])
          (kinds_apart is_root is_leaf r objs (λ o p q. ground arith) leaf apart here))

  jobs_extend : Extends (join_roots objs []) names_j
  jobs_extend = Inserts-Extends jobs_in apart jobs-IsFresh

  leaves_extend : Extends names_j names
  leaves_extend = Inserts-Extends leaves_in apart leaves-IsFresh

  phases-Resolved : Resolved objs names
  phases-Resolved = record {
    root = λ o here is_it.
        let (m, v, name, before, ext, found) =
          Inserts-named (join_roots-Inserts objs []) apart roots-IsFresh here is_it in
        leaves_extend o.uid o.name (
          jobs_extend o.uid o.name
            (subst (λ w. lookup o.uid (join_roots objs []) ≡ some w) name found));
    job = λ o here is_it.
        let (m, v, (u, one, owner), before, ext, found) =
          Inserts-named jobs_in apart jobs-IsFresh here is_it in
        (u, one, (v, leaves_extend o.uid v found, leaves_extend u v (ext u v owner)));
    leaf = λ o here is_it. leaf_named o here is_it;
  }
    where
      leaf_named :
          (o : ObservedObject)
          → Memᴰ o objs
          → is_leaf o ≡ true
          → (u : Text) × (controller_owner o kind_job ≡ ok u)
            × NamedAfter names o u
            × (text_eq o.kind kind_workload ≡ true → o.job_uid_label ≡ u)
      leaf_named o here is_it =
          let (m, v, (u, one, there, label, v_is), before, ext, found) =
            Inserts-named leaves_in apart leaves-IsFresh here is_it in
          elim (Option-cases (lookup u names_j)) [
            | inl gone ↦ absurd (held_key names_j u jobs held there gone)
            | inr (w, at) ↦
                let same : v ≡ w = v_is ∙ rw (before u w at) refl in
                (
                  u,
                  one,
                  (w, subst (λ x. lookup o.uid names ≡ some x) same found, ext u w (before u w at)),
                  label,
                )
          ]

-- When ResolveTraceJobs accepts the observed objects, every one of them is named: an MLTrainingJob by
-- its own name, a Job like its one controller owner of kind MLTrainingJob, and a Workload or a Pod
-- like its one controller owner of kind Job, whose UID the label of a Workload gives as well.
pub resolves_along_owners :
    (objs : List ObservedObject) (names : Map Text)
    → resolve_trace_jobs objs ≡ ok names
    → Resolved objs names
unfolding resolve_trace_jobs
resolves_along_owners objs names same =
    let rest : Unit {0} → Result JoinError (Map Text) = λ u.
      join_jobs objs (join_roots objs [], []) >>= λ (joined : Joined). join_leaves objs joined in
    let (u, checked, joined_ok) = >>=-ok rest (check_uids [] objs) names same in
    let leaves : Joined → Result JoinError (Map Text) = λ joined. join_leaves objs joined in
    let (joined, jobs_ok, leaves_ok) =
      >>=-ok leaves (join_jobs objs (join_roots objs [], [])) names joined_ok in
    let apart = (check_uids-ok [] objs u checked).0 in
    let (jobs_in, held) =
      join_jobs-Inserts objs (join_roots objs []) joined.0 [] joined.1 jobs_ok tt in
    phases-Resolved objs apart joined.0 names joined.1 jobs_in held
      (join_leaves-Inserts objs joined.0 names joined.1 leaves_ok)
