-- ===== src/Lib.antt =====
-- The verification library of kubeadapt-agent: a Kubernetes agent that collects the state of a
-- cluster, builds a snapshot of it, and sends the snapshot to a backend.
--
-- The program's parts, and the files that model them:
--   internal/store/typed.go keeps the resources of one kind: TypedStore. TypedStore.Refinement states it
--     against a partial function.
--     internal/store/store.go and metrics.go put the stores of all kinds side by side: Store.
--   internal/collector/resource fills it: Informers (the handlers that all files there share, and
--     runner.go), Informers.Resources (what the handlers of each of the 21 resources have of their
--     own), Convert.NodePools (nodePoolToModel of nodepools.go).
--   internal/collector/metrics/server.go polls metrics-server: Metrics.
--   internal/collector/registry.go starts, stops and questions the collectors: Registry. A
--     collector is the record of what its methods answer; the results of the goroutines of StartAll
--     and WaitForSync come as a list, in the order of their arrival.
--   internal/snapshot/builder.go and summary.go make a snapshot: Snapshot.Merge (mergeNodeMetrics,
--     mergePodMetrics), Snapshot.Backfill (backfillReferencedNodes), Snapshot.Staleness
--     (step 8 of Build), Snapshot.Gpu (mergeGPUNodeMetrics; Snapshot.Gpu.Containers,
--     mergeGPUContainerMetrics; Snapshot.Gpu.Readings, what the readings of devices come to),
--     Snapshot.Summary (ComputeSummary, a function for each
--     loop), Snapshot.Build (Build with readStores and deriveProvider, which calls all of these and
--     the enrichers).
--   internal/collector/gpu/parser.go reads what dcgm-exporter answers: Dcgm.Labels (parseLabels),
--     Dcgm.Lines (parseSampleLine, parsePrometheusText), Dcgm.Devices (ParseDCGMMetrics);
--     collector.go, api.go and scraper.go poll its endpoints: Dcgm.Collector, with
--     informerHealthy of internal/collector/resource/health.go.
--   internal/config reads and checks the configuration: Config, with Atoi and ParseBool in
--     Config.Numbers.
--   internal/convert reads the objects of the Kubernetes API, as records of the fields that it
--     uses (Convert.Api, Convert.HpaApi, and the head of each file): Convert.Cloud (cloud.go),
--     Convert.Annotations and Convert.Shared (helpers.go, and what several conversions share),
--     Convert.Pods, Convert.Nodes, Convert.Workloads, Convert.Network, Convert.Storage and
--     Convert.Scheduling (pod.go, node.go, workload.go and so on), Convert.Jobs, Convert.Hpa and
--     Convert.Vpa (autoscaling.go, the last over Convert.Unstructured).
--   internal/enrichment adds derived data to it: Enrichment.Ownership (the owner at the top of a
--     pod's chain), Enrichment.Aggregation (totals of workloads), Enrichment.Targets (what PDBs and
--     Services select), Enrichment.Pipeline (the enrichers in
--     order, as Build and cmd/agent/main.go chain them).
--   internal/transport/client.go and middleware.go send it: Transport.Client (Send with its retry
--     loop, doSend), Transport.Response (ParseResponse, isNonRetryableError), Transport.Message
--     (the error texts, which isNonRetryableError searches), Transport.Middleware (retryTransport).
--   internal/discovery finds out what the cluster has: Discovery (Detect, DetectProvider,
--     detectDCGMExporter, CheckResource); internal/cloud/metadata.go asks the metadata services:
--     CloudMetadata. cmd/agent/main.go puts the parts together: Command (steps 6 and 6b, which
--     register the collectors).
--   internal/errors/errors.go collects the agent's errors: Errors.
--   internal/agent/state.go and agent.go drive all of this: StateMachine, Agent (doSnapshot,
--     populateHealth) and Agent.Loop (Run).
--   pkg/model holds the payload: Model.
-- Prelude, GoMap and Clock are shared: tests on numbers, integers with the wrap-around of 64 bits,
-- Go's maps and the loops that index a slice, time.Time and time.Duration. Examples runs the
-- theorems on concrete inputs.
--
-- How Go is rendered. A method that changes its receiver takes the old record and returns the new
-- one; a mutex makes each method one step. A map is an association list, and the order of its
-- entries stands for the order in which a range visits them. What comes from outside the code is
-- an argument: the network, the encoder and the clocks in SendWorld, World and RunWorld; the
-- events of Run's select, in order, in a list; what an informer of client-go tells its handlers,
-- and what metrics-server answers; what the discovery API and the metadata services answer; the
-- stores as Build finds them at each of its reads, in BuildWorld; the environment; what the HTTP
-- client answers a scrape; strconv.ParseFloat and time.ParseDuration; what reads, prints and
-- parses a resource.Quantity. An int or int64 that is summed is its 64-bit pattern (add64). An
-- instant is a whole number of nanoseconds; t.Sub saturates and a product of seconds wraps as in
-- Go. float64 is the parameter Float64 of the definitions that use it, with no law assumed. An
-- error text is a list of code points.
--
-- Loops. The loops over slices and maps recurse on the list. Send's loop has MaxRetries + 1 rounds
-- and none for a sum that is not positive, as where it wraps, which is Go's own bound. The
-- ownership walk makes maxOwnerDepth hops, the constant of the source. Run's loop recurses on the
-- events, of which there may be any finite number. The loop of parseLabels has a round for each
-- byte and one more, and ends before they run out. The recovery loop of an informer has five
-- rounds of fuel and makes four at most; that of retryTransport has one round more than retries,
-- as in Go. The printer of numbers has more rounds than the number has digits.
--
-- Aliasing. Build reads the stores as values. In Go the copies of the pods share their Containers
-- slices with the store, so that the merges of readings write into the store as well; the stores
-- that a Build finds are arbitrary here, those that an earlier Build has written to included.
--
-- Not modelled: logging, JSON and zstd encoding, net/http, and the authTransport and
-- loggingTransport of middleware.go. Nor memorypressure.go of internal/agent, counting.go of
-- internal/transport, internal/health, internal/observability and the other steps of main, which
-- read the runtime, serve requests or only wire the parts together; of Prometheus only the calls
-- that the handlers of the informers make.
pub mod Prelude
pub mod GoMap
pub mod Clock
pub mod Model
pub mod Errors
pub mod TypedStore
pub mod Store
pub mod Enrichment
pub mod StateMachine
pub mod Registry
pub mod Transport
pub mod Dcgm
pub mod Config
pub mod Convert
pub mod Snapshot
pub mod Metrics
pub mod Informers
pub mod Discovery
pub mod CloudMetadata
pub mod Command
pub mod Agent
pub mod Examples
