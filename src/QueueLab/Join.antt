-- ===== src/QueueLab/Join.antt =====
-- ResolveTraceJobs of internal/queuelab/joinchain.go, and ObservedFrom of adapt.go: which row of the
-- trace a watched object belongs to.
pub mod Phases
pub mod Chain
pub mod Resolved
use gpu_platform_control_pla.Base.{
  ℕ, ◌+◌, Bool, true, false, not, ◌&&◌, ◌||◌, Option, none, some, List, [], ◌∷◌, if◌then◌else◌,
  ◌==◌, map,
}
use gpu_platform_control_pla.Base.Text.{Text, text, text_eq}
use gpu_platform_control_pla.Base.Maps.{Map, lookup, insert, has_key}
use gpu_platform_control_pla.Base.Results.{Result, ok, err, ◌>>=◌, on_ok}

pub record OwnerRef : Type 0 where
  pub uid : Text
  pub kind : Text
  pub controller : Bool

pub record ObservedObject : Type 0 where
  pub kind : Text
  pub name : Text
  pub uid : Text
  pub owners : List OwnerRef
  pub job_uid_label : Text

abbrev pub kind_mltj : Text
kind_mltj = text "MLTrainingJob"

abbrev pub kind_job : Text
kind_job = text "Job"

abbrev pub kind_workload : Text
kind_workload = text "Workload"

abbrev pub kind_pod : Text
kind_pod = text "Pod"

abbrev pub job_uid_label_key : Text
job_uid_label_key = text "kueue.x-k8s.io/job-uid"

-- An ownerReference of an object's metadata: Controller may be nil.
pub record MetaOwner : Type 0 where
  pub uid : Text
  pub kind : Text
  pub controller : Option Bool

-- What ObservedFrom reads of an object's metadata.
pub record Metadata : Type 0 where
  pub name : Text
  pub uid : Text
  pub owner_references : List MetaOwner
  pub labels : Map Text

abbrev is_controller : Option Bool → Bool
is_controller none = false
is_controller (some c) = c

abbrev owner_ref : MetaOwner → OwnerRef
owner_ref r = record { uid = r.uid; kind = r.kind; controller = is_controller r.controller }

abbrev pub or_empty : Option Text → Text
or_empty none = []
or_empty (some t) = t

unfoldable pub observed_from : Text → Metadata → ObservedObject
observed_from kind obj = record {
  kind = kind;
  name = obj.name;
  uid = obj.uid;
  owners = map owner_ref obj.owner_references;
  job_uid_label =
      if text_eq kind kind_workload then or_empty (lookup job_uid_label_key obj.labels) else [];
}

pub data JoinError : Type 0 where
  no_uid duplicate_uid unknown_kind : JoinError
  not_one_owner orphan_job orphan_leaf label_disagrees : JoinError

-- The last controller owner of the kind, and how many there are.
unfoldable pub count_owners : Text → List OwnerRef → Text × ℕ → Text × ℕ
count_owners kind [] found = found
count_owners kind (r ∷ rs) (uid, n) =
    count_owners kind rs (if r.controller && text_eq r.kind kind then (r.uid, n + 1) else (uid, n))

unfoldable pub controller_owner : ObservedObject → Text → Result JoinError Text
unfolding count_owners
controller_owner o kind =
    let (uid, n) = count_owners kind o.owners ([], 0) in
    if not (n == 1) then err not_one_owner else ok uid

-- The first loop: every object has a UID of its own.
unfoldable pub check_uids : List Text → List ObservedObject → Result JoinError (Unit {0})
check_uids seen [] = ok tt
check_uids seen (o ∷ os) =
    let rest = check_uids (o.uid ∷ seen) os in
    if text_eq o.uid [] then err no_uid else if has_key o.uid seen then err duplicate_uid else rest

-- The roots: an MLTrainingJob's own name is the trace job name.
unfoldable pub join_roots : List ObservedObject → Map Text → Map Text
join_roots [] names = names
join_roots (o ∷ os) names =
    join_roots os (if text_eq o.kind kind_mltj then insert o.uid o.name names else names)

-- The names of the objects so far, and the UIDs known to be Jobs.
abbrev pub Joined : Type 0
Joined = Map Text × List Text

unfoldable pub add_job : ObservedObject → Joined → Text → Option Text → Result JoinError Joined
add_job o (names, jobs) owner none = err orphan_job
add_job o (names, jobs) owner (some parent) = ok (insert o.uid parent names, o.uid ∷ jobs)

unfoldable pub join_job : ObservedObject → Joined → Result JoinError Joined
unfolding add_job
join_job o (names, jobs) =
    controller_owner o kind_mltj >>= λ owner. add_job o (names, jobs) owner (lookup owner names)

unfoldable pub join_jobs : List ObservedObject → Joined → Result JoinError Joined
join_jobs [] joined = ok joined
join_jobs (o ∷ os) joined =
    (if text_eq o.kind kind_job then join_job o joined else ok joined) >>= λ (next : Joined).
    join_jobs os next

unfoldable pub add_leaf : ObservedObject → Joined → Text → Result JoinError (Map Text)
add_leaf o (names, jobs) owner =
    if not (has_key owner jobs)
    then err orphan_leaf
    else if text_eq o.kind kind_workload && not (text_eq o.job_uid_label owner)
    then err label_disagrees
    else ok (insert o.uid (or_empty (lookup owner names)) names)

unfoldable pub join_leaf : ObservedObject → Joined → Result JoinError (Map Text)
unfolding add_leaf
join_leaf o (names, jobs) =
    if text_eq o.kind kind_mltj || text_eq o.kind kind_job
    then ok names
    else if not (text_eq o.kind kind_workload || text_eq o.kind kind_pod)
    then err unknown_kind
    else controller_owner o kind_job >>= λ owner. add_leaf o (names, jobs) owner

unfoldable pub join_leaves : List ObservedObject → Joined → Result JoinError (Map Text)
join_leaves [] (names, jobs) = ok names
join_leaves (o ∷ os) (names, jobs) =
    join_leaf o (names, jobs) >>= λ (next : Map Text). join_leaves os (next, jobs)

unfoldable pub resolve_trace_jobs : List ObservedObject → Result JoinError (Map Text)
resolve_trace_jobs objs = check_uids [] objs >>= λ (checked : Unit {0}).
    join_jobs objs (join_roots objs [], []) >>= λ (joined : Joined). join_leaves objs joined
