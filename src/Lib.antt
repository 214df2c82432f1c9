-- ===== src/Lib.antt =====
-- The control plane for GPU workloads: a verification library of its Go code. Paths are from the
-- repository's root.
--
-- Five parts are modelled: the gateway, the node health controller, the training job controller,
-- the webhook that guards Pods, and the ledger of the queue lab.
--
-- The gateway (internal/gateway): a request to POST /v1/chat/completions passes the stages of
-- Server.chatCompletions (server.go): the tenant of its API key (tenant.go), the tenant's policy
-- and request budget (ratelimit.go), the body's metadata (proxy.go), the backends of its model
-- (router.go), admission control (admission.go, kvguard.go), and the reverse proxy with one spare
-- backend (proxy.go). Beside the requests a scraper per backend reads the pressure telemetry that
-- the kv-aware admitter decides on, and a janitor stops the scrapers of idle backends.
--
-- The node health controller (internal/controller) taints a node that is not ready, takes the
-- taint off again, and says so in the status of the NodeHealth that watches the node.
--
-- The training job controller (internal/controller) renders an MLTrainingJob as a Job that Kueue
-- admits, reports the phase, and measures the wait between the admission and the run.
--
-- The Pod webhook (internal/webhook/v1) refuses a Pod whose GPUs nobody would be charged for.
--
-- The queue lab (internal/queuelab) measures what a queue policy costs. Each watch observation is
-- classified (provenance.go), attributed to a row of the trace along its owners (joinchain.go), and
-- appended to the ledger (collector.go); at the end of a run Reconstruct (ledger.go) folds the events
-- into one timeline per row, charges each preempted attempt, and sums the rows up. The rows come
-- from a trace (trace.go) that is submitted by a schedule (schedule.go); hold.go reads from the same
-- events how long a victim kept the device.
--
-- Which file models what:
--   Gateway/Types        the values that stages hand on: BackendRef, RequestMeta, tiers, reasons.
--   Gateway/Exposition   gaugeValues, parseUsage, parseWaiting, parseKVMetrics of kvguard.go.
--   Gateway/Pressure     pressureState.observe and resetConsecutive; `run` reads a history of samples
--                        and telemetry gaps, newest first.
--   Gateway/Scraper      backendScraper: scrape, tick and publish, with the gauges of metrics.go.
--   Gateway/Manager      scraperManager: Register, sweep and snapshotFor, each one section under the
--                        manager's lock; Manager/Fleet has Unregister and Stop, by their sections
--                        and their waits for a scraper to exit, and Manager/States the step relation
--                        over all goroutines and its reachable states.
--   Gateway/Limiter      golang.org/x/time/rate, a parameter: its operations and documented laws.
--   Gateway/Admission    the off, static-cap and kv-aware admitters, and admitCandidates of server.go.
--   Gateway/Policy       policyForTenant and bucketRegistry of ratelimit.go.
--   Gateway/Router       servingPort, olderInfD and backendsFor of router.go.
--   Gateway/Writer       statusRecorder and attemptWriter of proxy.go over net/http's response.
--   Gateway/Forward      the proxy's ErrorHandler and tryBackends of proxy.go.
--   Gateway/Tenant       resolveTenant of tenant.go.
--   Gateway/Body         readRequestMeta of proxy.go.
--   Gateway/Reply        the counters, headers and failures of server.go.
--   Gateway/Stages       the stages of chatCompletions that keep no state, by what each found.
--   Gateway/Server       chatCompletions: the server's state, the stages in their order.
--   Gateway/Flags        newAdmitter of cmd/gateway/main.go, NewKVAwareAdmitter of kvguard.go.
--   Controller/Objects   the fields of Node and NodeHealth (api/v1/nodehealth_types.go) that it reads.
--   Controller/Api       the API server, apimachinery and controller-runtime, a parameter: the calls
--                        made and what each documents.
--   Controller/NodeHealth  Reconcile and mapNodeToNodeHealth of nodehealth_controller.go, and the
--                        helpers of reconcile_helpers.go.
--   Controller/TrainingObjects  the fields of MLTrainingJob, Job and Workload that it reads.
--   Controller/TrainingApi  what the training job controller calls, a parameter.
--   Controller/AdmitToRunning  admit_to_running.go.
--   Controller/TrainingJob  the helpers and the status of mltrainingjob_controller.go; TrainingJob/
--                        Reconcile has the pass over what the API server holds, with the calls that
--                        fail as an argument.
--   Webhook/QuotaMode    meteredByResourceQuota of quota_mode.go.
--   Webhook/PodGuard     GPUPodValidator.Handle of gpupod_webhook.go.
--   QueueLab/Events      the events and the rows of the trace: types of ledger.go and trace.go.
--   QueueLab/Provenance  provenance.go: what a Workload, a Job or a Pod says.
--   QueueLab/Builder     LedgerBuilder of collector.go.
--   QueueLab/Join        ResolveTraceJobs of joinchain.go, ObservedFrom of adapt.go.
--   QueueLab/Registry    PodRegistry of podregistry.go.
--   QueueLab/Spread      the observation spread of resolution.go.
--   QueueLab/Timeline    the seeding of Reconstruct and foldEvent of ledger.go.
--   QueueLab/Charge      chargeWaste of ledger.go, pass by pass, and what it calls.
--   QueueLab/Ledger      Reconstruct of ledger.go and its percentile.
--   QueueLab/Trace       trace.go: the traces of the studies; Trace/Checks has their validation.
--   QueueLab/Schedule    schedule.go: what each row of a trace waits for.
--   QueueLab/Hold        hold.go: how long the victim held the device.
--   Base                 what these share: text, maps, results, signed integers, wrapping int64,
--                        float64, time, sorting, the string functions of the library.
--   Tests                instances at concrete values.
--
-- State is passed explicitly. An operation under a lock is a function from state to state. What
-- comes from outside is an argument: the clock's readings, the outcome of a scrape, the result of
-- a read through the cache (an Option, none where it failed), the calls that a backend's response
-- makes the reverse proxy do, and whether the copy of its body fails: then the reverse proxy leaves
-- the handler by panicking with http.ErrAbortHandler. A status of a training job is stored with its
-- times cut to whole seconds, as metav1.Time is. For a NodeHealth the cut is left out: its times
-- are only compared with themselves. An int or a time.Duration is ℤ: half and comparison are exact there,
-- Sub saturates and a product wraps as the code's do. A float64 is a whole number of units of 2 ^
-- -1074, an infinity or NaN. A text is its list of code points.
--
-- Every loop of the code modelled here walks a list, so recursion is structural; the only fuel is
-- the number itself for its decimal digits, and 2200 binary digits for a float64, which has at
-- most 2099.
--
-- Not modelled: the Prometheus text parser and registry, encoding/json, strconv.ParseFloat (a
-- parameter), net/http's transport and the reverse proxy's own streaming, logs, the latency
-- histogram, the gauge of the active mode and the wiring of caches, muxes and controllers, which are
-- calls of libraries; the texts of errors. The controllers of quota policies, workload runs and
-- inference deployments, the webhooks of GPU and training jobs, the rest of the queue lab (device
-- accounting, the arms of the protocol, the collectors and the reports), the benchmark
-- (internal/bench) and the commands are outside the library.
pub mod Base
pub mod Controller
pub mod Gateway
pub mod QueueLab
pub mod Tests
pub mod Webhook
