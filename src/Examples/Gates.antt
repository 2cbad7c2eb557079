-- ===== src/Examples/Gates.antt =====
-- The command on a repository whose two commits render alike.
use cost_risk_aware_gitops_p.Prelude.{
  dedupe_onto, contains, some, none, str_eq, if◌then◌else◌, ◌≡◌, refl, ◌↔◌, String, List, [], ◌∷◌,
  concat, false,
}
use cost_risk_aware_gitops_p.Prelude.Int.{pos, ◌+ℤ◌, ◌-ℤ◌, ◌*ℤ◌}
use cost_risk_aware_gitops_p.Float64.Cents.{Cents, cents_float}
use cost_risk_aware_gitops_p.Results.{ok}
use cost_risk_aware_gitops_p.Cost.Estimating.{merge_estimates, estimate, price_objects}
use cost_risk_aware_gitops_p.Gate.Roots.{
  Renderer, Paths, Tally, no_tally, evaluate_root, evaluate_roots, price_head, render_base,
  price_estate, add_roots, add_root, add_estimate,
}
use cost_risk_aware_gitops_p.Gate.Roots.Complete.{complete_roots, evaluate_roots_iff}
use cost_risk_aware_gitops_p.Gate.Output.{emit, exit_code, deliver, render_report, exit_status}
use cost_risk_aware_gitops_p.Gate.Run.{
  World, Repo, Request, run, calculator, judge, evaluate_trees, table_in, dirty_notes, roots_for,
  estate_or_zero, policy_result,
}
use cost_risk_aware_gitops_p.Gate.Rates.{load_pricing_tables, base_or_head, rates_changed}
use cost_risk_aware_gitops_p.Cost.Delta.{
  compare_estimates, committed_percent, workload_deltas, refs_of, by_ref, delta_of, change_of,
}
use cost_risk_aware_gitops_p.Verdict.Aggregate.{aggregate, decide_on}
use cost_risk_aware_gitops_p.Verdict.CostGate.{
  evaluate_cost, evaluate_autoscaling, judge_ceiling, judge_bursts, judge_committed, judge_absolute,
  judge_percent, note_fallback,
}
use cost_risk_aware_gitops_p.Verdict.PolicyGate.{evaluate_policy, file_all}
use cost_risk_aware_gitops_p.Cost.Price.{price, conclude, finish_price, apply_bounds, total_up}
use cost_risk_aware_gitops_p.Cost.Kinds.{switch_kind, claim}
use cost_risk_aware_gitops_p.Cost.Pods.{storage_request, storage_from}
use cost_risk_aware_gitops_p.Cost.Quantity.{parse_quantity}
use cost_risk_aware_gitops_p.Cost.Types.{Workload, Estimate, ref_of}
use cost_risk_aware_gitops_p.Cost.Autoscaling.{
  collect_autoscalers, collect_from, autoscaler_of, bounds_of,
}
use cost_risk_aware_gitops_p.Policy.Engine.{
  Engine, check_violation, decode_map, decode_violation, add_values, add_answer, add_evaluated,
  add_objects, evaluate, self_test, new_engine,
}
use cost_risk_aware_gitops_p.Json.{
  text, arr, obj, nil, cons, end, field, as_list, lookup, index, as_string, as_map, as_map?,
}
use cost_risk_aware_gitops_p.Pricing.{monthly_usd, hourly_usd}
use cost_risk_aware_gitops_p.Prelude.{sort, insert_sorted, lowers_to}
use cost_risk_aware_gitops_p.Gate.Run.Approval.{IsJustified, run_zero}
use cost_risk_aware_gitops_p.Gate.PriceOnly.{run_price, roots_to_price, price_roots}
use cost_risk_aware_gitops_p.Gate.PriceOnly.Estate.{run_price-price_estate}
use cost_risk_aware_gitops_p.Config.{Config}
use cost_risk_aware_gitops_p.Examples.Data.{spelled, rates, gate_config, disk}

abbrev shop_paths : Paths
shop_paths = record {
  join = λ a b. concat (a ∷ "/" ∷ b ∷ []);
  rel = λ base target. ok "manifests/shop";
}

abbrev shop_renderer : Renderer Cents
shop_renderer = record {
  dir = λ root. ok (disk ∷ []);
  roots = λ tree changed manifests. ok ("head/manifests/shop" ∷ []);
  all_roots = λ tree manifests. ok ("base/manifests/shop" ∷ []);
}

abbrev shop_repo : Repo
shop_repo = record {
  root = "repo";
  changed_files = λ base head pathspec. ok ("manifests/shop/web.yaml" ∷ []);
  uncommitted_changes = λ pathspec. ok [];
  worktree = λ reference. ok reference;
}

-- One rule, which only Deployments break.
abbrev deployments_rejected : Engine Cents
deployments_rejected = record {
  eval = λ manifest peers.
      if str_eq (as_string (index manifest "kind")) "Deployment"
      then ok (
          some (
            arr (
              cons
                (obj (
                  field "rule" (text "no-limits")
                    (field "severity" (text "high") (field "message" (text "set limits") end))))
                nil)))
      else ok none;
  show_map = λ m. "map[]";
}

abbrev shop_world : World Cents
shop_world = record {
  load_config = λ path. ok gate_config;
  new_repo = λ path. ok shop_repo;
  load_table = λ path. ok rates;
  rego_files = λ policies. ok ("limits.rego" ∷ []);
  prepare = λ files. ok deployments_rejected;
  renderer = shop_renderer;
  paths = shop_paths;
  outputs = record {
    markdown = λ v. "a report";
    json = λ v. ok "{}";
    write_file = λ path text. ok tt;
  };
}

abbrev shop_request : Request
shop_request = record {
  config_path = "gate.yaml";
  repo_path = ".";
  base = "base";
  head = "head";
  format = "markdown";
  output_path = "";
}

shop_exits_zero : exit_status (run shop_world shop_request) ≡ 0
unfolding ◌+ℤ◌ ◌-ℤ◌ ◌*ℤ◌ run judge evaluate_trees table_in dirty_notes roots_for estate_or_zero
    policy_result load_pricing_tables base_or_head rates_changed evaluate_roots evaluate_root
    price_head render_base price_estate add_roots add_root add_estimate compare_estimates
    committed_percent workload_deltas refs_of dedupe_onto contains by_ref delta_of change_of
    aggregate decide_on evaluate_cost evaluate_autoscaling judge_ceiling judge_bursts
    judge_committed judge_absolute judge_percent note_fallback evaluate_policy file_all emit
    exit_code deliver render_report lowers_to estimate price_objects collect_autoscalers
    collect_from autoscaler_of price conclude finish_price apply_bounds total_up switch_kind claim
    storage_request storage_from parse_quantity lookup index as_string as_map as_map? bounds_of
    monthly_usd hourly_usd sort insert_sorted ref_of concat merge_estimates new_engine self_test
    evaluate add_objects add_evaluated add_answer add_values decode_violation decode_map
    check_violation as_list
shop_exits_zero = refl

run_zero_example : IsJustified shop_world shop_request
run_zero_example = run_zero shop_world shop_request shop_exits_zero

abbrev disk_workload : Workload Cents
disk_workload = record {
  kind = "PersistentVolumeClaim";
  namespace = "shop";
  name = "disk";
  replicas = pos 1;
  per_replica = record { cpu_cores = pos 0; memory_gib = pos 0; storage_gib = pos 1 };
  total = record { cpu_cores = pos 0; memory_gib = pos 0; storage_gib = pos 1 };
  monthly_usd = pos 100;
  autoscaled = false;
  min_replicas = pos 0;
  max_replicas = pos 0;
  floor_monthly_usd = pos 100;
  flags = [];
}

abbrev disk_estimate : Estimate Cents
disk_estimate = record {
  workloads = disk_workload ∷ [];
  monthly_usd = pos 100;
  committed_monthly_usd = pos 100;
  total = record { cpu_cores = pos 0; memory_gib = pos 0; storage_gib = pos 1 };
  flags = [];
}

abbrev disk_tally : Tally Cents
disk_tally = record {
  head_objects = disk ∷ [];
  base_estimate = disk_estimate;
  head_estimate = disk_estimate;
  cost_errors = [];
}

abbrev head_roots : List String
head_roots = "head/manifests/shop" ∷ []

evaluate_roots_iff_example :
    ((evaluate_roots
          (calculator gate_config rates)
          (calculator gate_config rates)
          shop_renderer
          shop_paths
          "base"
          "head"
          no_tally
          head_roots
        ≡ ok disk_tally)
      × (disk_tally.cost_errors ≡ []))
    ↔ (complete_roots
          (calculator gate_config rates)
          (calculator gate_config rates)
          shop_renderer
          shop_paths
          "base"
          "head"
          no_tally
          head_roots
        ≡ ok disk_tally)
evaluate_roots_iff_example =
    evaluate_roots_iff (calculator gate_config rates) (calculator gate_config rates) shop_renderer
      shop_paths "base" "head" head_roots disk_tally

disk_priced :
    run_price shop_world "gate.yaml" "." ""
    ≡ ok (record { table = rates; estimate = disk_estimate })
unfolding ◌+ℤ◌ ◌-ℤ◌ ◌*ℤ◌ run_price roots_to_price price_roots estimate price_objects
    collect_autoscalers collect_from autoscaler_of price conclude finish_price apply_bounds total_up
    switch_kind claim storage_request storage_from parse_quantity lookup index as_string as_map
    as_map? bounds_of monthly_usd hourly_usd sort insert_sorted ref_of concat merge_estimates
disk_priced = refl

run_price-price_estate_example :
    (cfg : Config Cents) × (repo : Repo) × (shop_world.load_config "gate.yaml" ≡ ok cfg)
    × (shop_world.new_repo "." ≡ ok repo)
    × (price_estate (calculator cfg rates) shop_renderer repo.root cfg.spec.paths.manifests
        ≡ ok (pos 100))
run_price-price_estate_example =
    run_price-price_estate shop_world "gate.yaml" "."
      (record { table = rates; estimate = disk_estimate }) disk_priced
