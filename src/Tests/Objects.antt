-- ===== src/Tests/Objects.antt =====
-- The join of watched objects and the Pod registry at concrete values.
use gpu_platform_control_pla.Base.{◌≡◌, ◌≢◌, ◌↔◌, refl, true, List, [], ◌∷◌, any}
use gpu_platform_control_pla.Base.Text.{Text, text, text_eq}
use gpu_platform_control_pla.Base.Maps.{Map, lookup, insert, has_key}
use gpu_platform_control_pla.Base.Results.{ok}
use gpu_platform_control_pla.QueueLab.Join.{
  OwnerRef, ObservedObject, kind_mltj, kind_job, kind_workload, resolve_trace_jobs, check_uids,
  join_roots, join_jobs, join_job, add_job, join_leaves, join_leaf, add_leaf, controller_owner,
  count_owners,
}
use gpu_platform_control_pla.QueueLab.Join.Resolved.{Resolved, resolves_along_owners}
use gpu_platform_control_pla.QueueLab.Registry.{registry_key, resolve}
use gpu_platform_control_pla.QueueLab.Registry.Agreed.{
  Sighting, note_all, counts_for, AllAgree, resolves_iff_agreed,
}

abbrev object : Text → Text → Text → List OwnerRef → Text → ObservedObject
object kind name uid owners label = record {
  kind = kind;
  name = name;
  uid = uid;
  owners = owners;
  job_uid_label = label;
}

abbrev owner : Text → Text → OwnerRef
owner kind uid = record { uid = uid; kind = kind; controller = true }

-- A Workload before the Job that it stands for, and that before the training job.
abbrev objects : List ObservedObject
objects =
    object kind_workload (text "w") (text "3") (owner kind_job (text "2") ∷ []) (text "2")
    ∷ (object kind_job (text "j") (text "2") (owner kind_mltj (text "1") ∷ []) []
        ∷ (object kind_mltj (text "train-7b") (text "1") [] [] ∷ []))

abbrev names : Map Text
names =
    (text "1", text "train-7b") ∷ ((text "2", text "train-7b") ∷ ((text "3", text "train-7b") ∷ []))

objects-names : resolve_trace_jobs objects ≡ ok names
unfolding resolve_trace_jobs check_uids join_roots join_jobs join_job add_job join_leaves join_leaf
    add_leaf controller_owner count_owners lookup insert has_key text_eq
objects-names = refl

resolves_along_owners_example : Resolved objects names
resolves_along_owners_example = resolves_along_owners objects names objects-names

abbrev seen : Text → Text → Sighting
seen name uid = record { namespace = text "team-a"; name = name; uid = uid }

abbrev sightings : List Sighting
sightings =
    seen (text "p") (text "u") ∷ (seen (text "q") (text "v") ∷ (seen (text "p") (text "u") ∷ []))

u_named : text "u" ≢ []
u_named h = cc

resolves_iff_agreed_example :
    (resolve (note_all [] sightings) (text "team-a") (text "p") ≡ text "u") ↔ (
      (any (counts_for (registry_key (text "team-a") (text "p"))) sightings ≡ true)
      × AllAgree (registry_key (text "team-a") (text "p")) (text "u") sightings)
resolves_iff_agreed_example =
    resolves_iff_agreed sightings (text "team-a") (text "p") (text "u") u_named
