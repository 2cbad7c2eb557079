-- ===== src/Gate/Run/Approval.antt =====
-- What it takes for the command to exit with 0.
use cost_risk_aware_gitops_p.Prelude.{
  ◌≡◌, ◌≢◌, ◌⊎◌, inl, inr, Bool, false, arith, refl, ap, ◌∙◌, List, [], ◌∷◌, String,
}
use cost_risk_aware_gitops_p.Float64.{Float64}
use cost_risk_aware_gitops_p.Results.{Result, err, ok, ok_inj, bind_ok}
use cost_risk_aware_gitops_p.Pricing.{Table}
use cost_risk_aware_gitops_p.Config.{Config}
use cost_risk_aware_gitops_p.Cost.Quantity.{Quantities}
use cost_risk_aware_gitops_p.Cost.Delta.{compare_estimates}
use cost_risk_aware_gitops_p.Verdict.{pass, Verdict}
use cost_risk_aware_gitops_p.Verdict.Aggregate.Safety.{IsAcceptable, aggregate-pass_iff}
use cost_risk_aware_gitops_p.Policy.Engine.{Engine, canary, evaluate, new_engine}
use cost_risk_aware_gitops_p.Policy.Engine.Refusal.{new_engine_rejects}
use cost_risk_aware_gitops_p.Cost.Autoscaling.{Object}
use cost_risk_aware_gitops_p.Gate.Rates.{Tables, load_pricing_tables}
use cost_risk_aware_gitops_p.Gate.Roots.{Tally, no_tally, evaluate_roots, price_estate}
use cost_risk_aware_gitops_p.Gate.Roots.Complete.{complete_roots, evaluate_roots_iff}
use cost_risk_aware_gitops_p.Gate.Output.{exit_status}
use cost_risk_aware_gitops_p.Gate.Output.Codes.{emit_pass, status_zero}
use cost_risk_aware_gitops_p.Gate.Run.{
  World, Repo, Request, calculator, roots_for, estate_or_zero, policy_result, table_in,
  evaluate_trees, judge, run,
}

module _ {F : Type 0} ⦃fl : Float64 F⦄ ⦃qs : Quantities⦄ (world : World F) (request : Request) where
  -- Two trees whose comparison the gate accepts: their rate tables could be read, every root could be
  -- rendered and priced in both, the change is acceptable by the configuration, and, unless errors of
  -- the policies are let through, the rules were made into an engine that rejects the canary.
  pub record IsApproved (cfg : Config F) (base_tree head_tree : String) (changed : List String)
      : Type 0 where
    pub tables : Tables F
    pub tables_read :
        load_pricing_tables
          (world.load_table (world.paths.join base_tree cfg.spec.paths.pricing))
          (world.load_table (world.paths.join head_tree cfg.spec.paths.pricing))
        ≡ ok tables
    pub roots : List String
    pub notes : List String
    pub roots_found :
        roots_for world.renderer tables head_tree changed cfg.spec.paths.manifests
        ≡ ok (roots, notes)
    pub tally : Tally F
    pub complete :
        complete_roots
          (calculator cfg tables.base)
          (calculator cfg tables.head)
          world.renderer
          world.paths
          base_tree
          head_tree
          no_tally
          roots
        ≡ ok tally
    pub acceptable :
        IsAcceptable cfg
          (compare_estimates tally.base_estimate tally.head_estimate
            (estate_or_zero (
              price_estate
                (calculator cfg tables.base)
                world.renderer
                base_tree
                cfg.spec.paths.manifests)).0)
          []
          (policy_result
            (new_engine world.rego_files world.prepare
              (world.paths.join head_tree cfg.spec.paths.policies))
            tally.head_objects)
    pub rejecting :
        (cfg.spec.policy.treat_error_as_blocking ≡ false)
        ⊎ ((engine : Engine F) × (new_engine world.rego_files world.prepare
                (world.paths.join head_tree cfg.spec.paths.policies)
              ≡ ok engine)
            × ((evaluate engine (canary ∷ [])).violations ≢ []))

  made_engine :
      (policies : String) (made : Result (Engine F)) (objects : List (Object F))
      → new_engine world.rego_files world.prepare policies ≡ made
      → (policy_result made objects).errors ≡ []
      → (engine : Engine F) × (new_engine world.rego_files world.prepare policies ≡ ok engine)
        × ((evaluate engine (canary ∷ [])).violations ≢ [])
  unfolding policy_result
  made_engine policies (ok engine) objects e h =
      (engine, e, (new_engine_rejects world.rego_files world.prepare policies engine e).2)
  made_engine policies (err x) objects e h = ground arith

  or_made :
      (strict : Bool) (policies : String) (objects : List (Object F))
      → ((strict ≡ false)
          ⊎ ((policy_result (new_engine world.rego_files world.prepare policies) objects).errors
              ≡ []))
      → (strict ≡ false)
        ⊎ ((engine : Engine F) × (new_engine world.rego_files world.prepare policies ≡ ok engine)
            × ((evaluate engine (canary ∷ [])).violations ≢ []))
  or_made strict policies objects (inl lax) = inl lax
  or_made strict policies objects (inr h) =
      inr (made_engine policies (new_engine world.rego_files world.prepare policies) objects refl h)

  evaluate_trees-pass :
      (cfg : Config F) (base_tree head_tree : String) (changed notes : List String) (v : Verdict F)
      → evaluate_trees world cfg request base_tree head_tree changed notes ≡ ok v
      → v.decision ≡ pass
      → IsApproved cfg base_tree head_tree changed
  unfolding evaluate_trees table_in
  evaluate_trees-pass cfg base_tree head_tree changed notes v e p =
      let (tables, read, e₁) = bind_ok (load_pricing_tables _ _) _ v e in
      let ((roots, repriced), found, e₂) =
        bind_ok (roots_for world.renderer tables head_tree changed cfg.spec.paths.manifests) _ v
          e₁ in
      let base_calc = calculator cfg tables.base in
      let head_calc = calculator cfg tables.head in
      let (tally, looped, e₃) =
        bind_ok
          (evaluate_roots base_calc head_calc world.renderer world.paths base_tree head_tree
            no_tally roots)
          _ v e₂ in
      let decided = ap (λ u. u.decision) (ok_inj _ v e₃) ∙ p in
      let accepted = (aggregate-pass_iff cfg _ tally.cost_errors _).0 decided in
      record {
        tables = tables;
        tables_read = read;
        roots = roots;
        notes = repriced;
        roots_found = found;
        tally = tally;
        complete =
            (evaluate_roots_iff base_calc head_calc world.renderer world.paths base_tree head_tree
                roots tally).0
              (looped, accepted.evaluated);
        acceptable = record {
          evaluated = refl;
          affordable = accepted.affordable;
          compliant = accepted.compliant;
          checked = accepted.checked;
        };
        rejecting =
            or_made cfg.spec.policy.treat_error_as_blocking
              (world.paths.join head_tree cfg.spec.paths.policies) tally.head_objects
              accepted.checked;
      }

  -- The ways to exit with 0.
  pub data IsJustified : Type 0 where
    unchanged :
        (cfg : Config F) (repo : Repo)
        → world.load_config request.config_path ≡ ok cfg
        → world.new_repo request.repo_path ≡ ok repo
        → repo.changed_files request.base request.head cfg.spec.paths.manifests ≡ ok []
        → IsJustified
    approved :
        (cfg : Config F) (repo : Repo) (changed : List String) (base_tree head_tree : String)
        → world.load_config request.config_path ≡ ok cfg
        → world.new_repo request.repo_path ≡ ok repo
        → repo.changed_files request.base request.head cfg.spec.paths.manifests ≡ ok changed
        → repo.worktree request.base ≡ ok base_tree
        → repo.worktree request.head ≡ ok head_tree
        → IsApproved cfg base_tree head_tree changed
        → IsJustified

  judge-IsJustified :
      (cfg : Config F) (repo : Repo) (table : Table F) (changed notes : List String) (v : Verdict F)
      → world.load_config request.config_path ≡ ok cfg
      → world.new_repo request.repo_path ≡ ok repo
      → repo.changed_files request.base request.head cfg.spec.paths.manifests ≡ ok changed
      → judge world cfg request repo table changed notes ≡ ok v
      → v.decision ≡ pass
      → IsJustified
  unfolding judge
  judge-IsJustified cfg repo table [] notes v c r f e p = unchanged cfg repo c r f
  judge-IsJustified cfg repo table (x ∷ xs) notes v c r f e p =
      let (head_tree, at_head, e₁) = bind_ok (repo.worktree request.head) _ v e in
      let (base_tree, at_base, e₂) = bind_ok (repo.worktree request.base) _ v e₁ in
      approved cfg repo (x ∷ xs) base_tree head_tree c r f at_base at_head
        (evaluate_trees-pass cfg base_tree head_tree (x ∷ xs) notes v e₂ p)

  -- If the command exits with 0, then the configuration and the repository could be read, and either
  -- no manifest changed between the two commits, or both were checked out, their rate tables were
  -- read, every root to evaluate was rendered and priced in both, and the change is within every
  -- budget and free of violations that fail the gate, as judged, unless the configuration lets policy
  -- errors through, by rules that reject the self-test's manifest.
  pub run_zero : exit_status (run world request) ≡ 0 → IsJustified
  unfolding run
  run_zero z =
      let (x, ran, code) = status_zero (run world request) z in
      let (cfg, configured, e₁) = bind_ok (world.load_config request.config_path) _ x ran in
      let (repo, opened, e₂) = bind_ok (world.new_repo request.repo_path) _ x e₁ in
      let (changed, listed, e₃) =
        bind_ok (repo.changed_files request.base request.head cfg.spec.paths.manifests) _ x e₂ in
      let (table, _, e₄) = bind_ok (world.load_table _) _ x e₃ in
      let (v, judged, e₅) = bind_ok (judge world cfg request repo table changed _) _ x e₄ in
      judge-IsJustified cfg repo table changed _ v configured opened listed judged
        (emit_pass world.outputs v request.format request.output_path x e₅ code)
