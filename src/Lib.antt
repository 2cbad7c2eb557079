-- ===== src/Lib.antt =====
-- Verification of the cost-risk-aware GitOps platform: the pre-merge gate, the demonstration
-- application, the cost exporter and the dashboard.
--
-- The gate (gate/cmd/gate/main.go) compares two commits. It renders the manifests that a change
-- touches in both (gate/internal/render), prices them with the rate table of each commit
-- (gate/internal/cost over pricing/pricing.go), compares the two estimates
-- (gate/internal/cost/delta.go), runs the policy rules over the head's objects
-- (gate/internal/policy), and decides by the configuration (gate/internal/verdict over
-- gate/internal/config). Its exit code is the contract with the continuous integration, and a comment
-- on the pull request (gate/internal/report) explains it. After the merge, the cost exporter
-- (exporter) prices what Prometheus measures with the same table (pricing), for the dashboard
-- (dashboard), which also runs two demonstrations against the cluster. These drive the application
-- (app): an API that puts jobs on a Redis list, and workers that take them off and do them.
--
-- Files, and what they model:
--   Prelude, Prelude/*   the library's names, tests, lists, texts, integers, sorting
--   Float64              Go's float64 as an interface; IsIeee lists what the proofs use of the
--                        arithmetic: order, monotone rounding, signs. Float64/Cents shows that
--                        whole numbers meet it, and the examples run over them.
--   Results              a value or an error: Go's (T, error), %w and errors.Is
--   Json                 decoded YAML: any, map[string]any, []any and type assertions
--   Pricing              pricing/pricing.go: Table, validate, Load, HourlyUSD, MonthlyUSD
--   Config               gate/internal/config/config.go: the types, Severity, Blocks, validate, Load
--   Cost/*               gate/internal/cost/cost.go: Types the records, Quantity the quantities,
--                        Containers, Pods and Kinds the capacity of an object, Autoscaling
--                        collectAutoscalers, Price the rest of price, Estimating Estimate and
--                        mergeEstimates; Delta is delta.go
--   Policy               gate/internal/policy/policy.go: the types; Policy/Engine New, Evaluate,
--                        decodeViolation and the self-test
--   Verdict/*            gate/internal/verdict/verdict.go: CostGate, PolicyGate, Aggregate
--   Gate/*               gate/cmd/gate/main.go: Rates loadPricingTables and ratesChanged, Roots the
--                        loop over the roots and priceEstate, Output emit and the exit codes, Run
--                        run, PriceOnly runPrice
--   Render/*             gate/internal/render/render.go: Documents decodeDocuments, splitYAMLDocuments,
--                        isDocumentSeparator; Directories Dir and the two ways to render one;
--                        AllRoots AllRoots over what filepath.WalkDir finds; Roots Roots, and where
--                        the two agree
--   Report, Report/*     gate/internal/report/report.go: Markdown, in the pieces that it writes
--   App/*                Queue app/internal/queue/queue.go; Work app/internal/work/work.go; Worker the
--                        loop consume of app/cmd/worker/main.go; Api/* the handlers of
--                        app/cmd/api/main.go
--   Exporter/*           Prometheus exporter/internal/promapi/client.go; Attribution
--                        exporter/internal/attribution/attribution.go; Gauges collect of
--                        exporter/cmd/costexporter/main.go
--   Dashboard/*          Demo and Api dashboard/demo.go; Load and Drift the two demonstrations of
--                        dashboard/runs.go; Server the lock of handleDemo and Status handleStatus of
--                        dashboard/main.go, with prom of dashboard/kube.go
--   Examples/*           the theorems at concrete inputs
-- A child module named for what it proves (Formula, Limits, Complete, ...) holds the proofs.
--
-- A function keeps the name of its Go function in snake case. A function whose Go body is one long
-- switch or loop is split at its cases; the parts are composed as the code composes them. Methods that
-- assign to their receiver return the new record: Estimate sets the calculator's autoscalers for the
-- objects it prices, and no other state is kept between calls. A map is an association list, or the
-- list of its keys in an order that the code then sorts away. int is an unbounded integer: replica
-- counts and durations stay far from the bounds of 64 bits. Loops are recursions on the list they
-- range over. The walk of Roots upward runs on fuel, which the length of the path is: a round shortens
-- it. A loop that waits is a recursion on what its rounds meet, the clock and the context included,
-- and is unfinished where these end before it does. What other processes do between two calls is in
-- the answers of the calls; the two critical sections of handleDemo are steps of a relation, in any
-- order.
--
-- Parameters, as records of functions or as the values that were read: files and YAML and JSON
-- decoding, resource.Quantity, kustomize, the Git repository, filepath.Join and Clean, what OPA
-- compiles and answers, and the writers of reports; Redis, Prometheus, the Kubernetes API and the clock.
-- The gate's loops take the renderer (Gate.Roots.Renderer) as one too. The laws assumed of Redis are in
-- App.Queue.IsRedis, and of paths and of readable folders among the hypotheses of the theorems. Not
-- modelled: flag and environment parsing, the Git commands of Repo, the start and shutdown of the
-- processes and their HTTP routes, the Kubernetes client and the patch that it sends, server-sent
-- events, the histograms of requests (app/internal/metrics), the web page; and the Rego rules, the
-- manifests, the scripts and the workflows, which are data and glue.
pub mod Prelude
pub mod Float64
pub mod Results
pub mod Json
pub mod Pricing
pub mod Config
pub mod Cost
pub mod Policy
pub mod Verdict
pub mod Report
pub mod Gate
pub mod Render
pub mod App
pub mod Exporter
pub mod Dashboard
mod Examples
