-- ===== src/Gate/Run.antt =====
-- main.go: `run`.
pub mod Approval
use cost_risk_aware_gitops_p.Prelude.{
  String, Bool, true, false, not, List, [], ◌∷◌, ◌++◌, map, ℕ, length, is_empty, concat, show_nat,
  show_int, str_eq, if◌then◌else◌,
}
use cost_risk_aware_gitops_p.Prelude.Int.{ℤ, pos}
use cost_risk_aware_gitops_p.Float64.{Float64, zero_f}
use cost_risk_aware_gitops_p.Results.{Error, Result, ok, err, ◌>>=◌}
use cost_risk_aware_gitops_p.Pricing.{Table}
use cost_risk_aware_gitops_p.Config.{Config}
use cost_risk_aware_gitops_p.Policy.{PolicyResult}
use cost_risk_aware_gitops_p.Policy.Engine.{Engine, evaluate, new_engine}
use cost_risk_aware_gitops_p.Cost.Quantity.{Quantities}
use cost_risk_aware_gitops_p.Cost.Autoscaling.{Object}
use cost_risk_aware_gitops_p.Cost.Kinds.{Calculator}
use cost_risk_aware_gitops_p.Cost.Estimating.{no_estimate}
use cost_risk_aware_gitops_p.Cost.Delta.{Delta, compare_estimates}
use cost_risk_aware_gitops_p.Verdict.{Decision, pass, Verdict, CostVerdict, PolicyVerdict}
use cost_risk_aware_gitops_p.Verdict.Aggregate.{aggregate}
use cost_risk_aware_gitops_p.Gate.Rates.{Tables, load_pricing_tables, rates_changed}
use cost_risk_aware_gitops_p.Gate.Roots.{
  Renderer, Paths, Tally, no_tally, evaluate_roots, price_estate,
}
use cost_risk_aware_gitops_p.Gate.Output.{Outputs, Emitted, emit}

-- `render.Repo`: the trees that `Worktree` makes are removed when `run` returns.
pub record Repo : Type 0 where
  pub root : String
  pub changed_files : (base head pathspec : String) → Result (List String)
  pub uncommitted_changes : (pathspec : String) → Result (List String)
  pub worktree : (reference : String) → Result String

-- The packages and files that `run` calls. `rego_files` and `prepare` stand for OPA.
pub record World (F : Type 0) : Type 0 where
  pub load_config : (path : String) → Result (Config F)
  pub new_repo : (path : String) → Result Repo
  pub load_table : (path : String) → Result (Table F)
  pub rego_files : (policies : String) → Result (List String)
  pub prepare : (files : List String) → Result (Engine F)
  pub renderer : Renderer F
  pub paths : Paths
  pub outputs : Outputs F

-- The arguments of `evaluate`.
pub record Request : Type 0 where
  pub config_path : String
  pub repo_path : String
  pub base : String
  pub head : String
  pub format : String
  pub output_path : String

abbrev uncommitted_note : ℕ → String
uncommitted_note n = concat (
    show_nat n
    ∷ " uncommitted manifest change(s) were NOT evaluated, the gate compares commits. Commit them and re-run, or this verdict does not describe your working tree."
    ∷ [])

unfoldable pub dirty_notes : Result (List String) → List String
dirty_notes (ok dirty) = if is_empty dirty then [] else uncommitted_note (length dirty) ∷ []
dirty_notes (err e) = []

abbrev repriced_note : (base head : ℤ) → String
repriced_note base head = concat (
    "the pricing table changed (v"
    ∷ show_int base
    ∷ " → v"
    ∷ show_int head
    ∷ "), so **every** manifest root was re-priced, not only the ones this pull request edits, a rate change alters the cost of everything the platform runs."
    ∷ [])

abbrev estate_note : Error → String
estate_note e = concat (
    "could not price the full estate at the base commit (" ∷ e.message
    ∷ "), so no percentage threshold was applied, only the absolute limit." ∷ [])

unfoldable pub rel_or_self : Paths → (tree root : String) → String
rel_or_self paths tree root = elim (paths.rel tree root) [ ok rel ↦ rel | err e ↦ root ]

module _ {F : Type 0} where
  -- A policy engine that cannot be made is an error of the policy sub-gate.
  unfoldable pub policy_result : Result (Engine F) → List (Object F) → PolicyResult
  policy_result (ok engine) objects = evaluate engine objects
  policy_result (err e) objects = record { violations = []; errors = e.message ∷ [] }

  abbrev pub calculator : Config F → Table F → Calculator F
  calculator cfg table = record {
    table = table;
    assumed_node_count = cfg.spec.cost.assumed_node_count;
    autoscalers = [];
  }

module _ {F : Type 0} ⦃fl : Float64 F⦄ where
  -- The verdict where no manifest changed.
  unfoldable pub nothing_to_evaluate : Verdict F
  nothing_to_evaluate = record {
    decision = pass;
    reasons = "no manifest changes in this pull request; nothing to evaluate" ∷ [];
    notes = [];
    cost = record {
      delta = no_delta;
      passed = true;
      warned = false;
      fired = [];
      warnings = [];
      errors = [];
    };
    policy = record { blocking = []; warnings = []; errors = []; passed = true };
    pricing_version = pos 0;
    pricing_source = "";
    currency = "";
    base_ref = "";
    head_ref = "";
    evaluated_roots = [];
  }
    where
      no_delta : Delta F
      no_delta = record {
        baseline_monthly_usd = zero_f;
        projected_monthly_usd = zero_f;
        delta_monthly_usd = zero_f;
        percent_increase = zero_f;
        has_percent_basis = false;
        estate_baseline_monthly_usd = zero_f;
        committed_baseline_usd = zero_f;
        committed_projected_usd = zero_f;
        committed_delta_usd = zero_f;
        committed_percent = zero_f;
        has_committed_basis = false;
        workloads = [];
        flags = [];
      }

  -- Where the verdict's figures and refs come from.
  abbrev provenance : Table F → Request → (notes roots : List String) → Verdict F → Verdict F
  provenance table request notes roots v = record v {
    pricing_version = table.metadata.version;
    pricing_source = table.metadata.source;
    currency = table.spec.currency;
    base_ref = request.base;
    head_ref = request.head;
    notes = notes;
    evaluated_roots = roots;
  }

  -- The roots to evaluate: those of the changed files, or all of them where the rates changed.
  unfoldable pub roots_for :
      Renderer F
      → Tables F
      → (head_tree : String) (changed : List String) (manifests : String)
      → Result (List String × List String)
  roots_for renderer tables head_tree changed manifests = do
    roots ← renderer.roots head_tree changed manifests
    if rates_changed tables.base tables.head
        then (do
          every ← renderer.all_roots head_tree manifests
          ok (every, repriced_note tables.base.metadata.version tables.head.metadata.version ∷ []))
        else ok (roots, [])

  -- The denominator of the percentage, 0 where it cannot be had, and the note that says so.
  unfoldable pub estate_or_zero : Result F → F × List String
  estate_or_zero (ok estate) = (estate, [])
  estate_or_zero (err e) = (zero_f, estate_note e ∷ [])

  module _ ⦃qs : Quantities⦄ (world : World F) (cfg : Config F) (request : Request) where
    unfoldable pub table_in : (tree : String) → Result (Table F)
    table_in tree = world.load_table (world.paths.join tree cfg.spec.paths.pricing)

    -- From the trees of the two commits to the verdict.
    unfoldable pub evaluate_trees :
        (base_tree head_tree : String) (changed notes : List String) → Result (Verdict F)
    unfolding table_in
    evaluate_trees base_tree head_tree changed notes = do
      let paths = world.paths
      tables ← load_pricing_tables (table_in base_tree) (table_in head_tree)
      (roots, repriced) ← roots_for world.renderer tables head_tree changed cfg.spec.paths.manifests
      let base_calc = calculator cfg tables.base
      let head_calc = calculator cfg tables.head
      tally ←
          evaluate_roots base_calc head_calc world.renderer paths base_tree head_tree no_tally roots
      let (estate, unpriced) =
          estate_or_zero (price_estate base_calc world.renderer base_tree cfg.spec.paths.manifests)
      let delta = compare_estimates tally.base_estimate tally.head_estimate estate
      let engine =
          new_engine world.rego_files world.prepare (paths.join head_tree cfg.spec.paths.policies)
      let result = policy_result engine tally.head_objects
      let pricing_notes = if str_eq tables.note "" then [] else tables.note ∷ []
      ok (
          provenance tables.head request (notes ++ pricing_notes ++ repriced ++ unpriced)
            (map (rel_or_self paths head_tree) roots)
            (aggregate cfg delta tally.cost_errors result))

    -- The verdict on the changed files; with none there is nothing to evaluate.
    unfoldable pub judge : Repo → Table F → (changed notes : List String) → Result (Verdict F)
    unfolding evaluate_trees
    judge repo table [] notes = ok (provenance table request notes [] nothing_to_evaluate)
    judge repo table (file ∷ files) notes = do
      head_tree ← repo.worktree request.head
      base_tree ← repo.worktree request.base
      evaluate_trees base_tree head_tree (file ∷ files) notes

  -- `run`
  unfoldable pub run : ⦃qs : Quantities⦄ → World F → Request → Result Emitted
  unfolding judge
  run world request = do
    cfg ← world.load_config request.config_path
    repo ← world.new_repo request.repo_path
    let manifests = cfg.spec.paths.manifests
    changed ← repo.changed_files request.base request.head manifests
    table ← world.load_table (world.paths.join repo.root cfg.spec.paths.pricing)
    let notes = dirty_notes (repo.uncommitted_changes manifests)
    verdict ← judge world cfg request repo table changed notes
    emit world.outputs verdict request.format request.output_path
