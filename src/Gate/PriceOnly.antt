-- ===== src/Gate/PriceOnly.antt =====
-- main.go: `runPrice`, the cost of the manifests as they stand. What it prints is left out.
pub mod Estate
use cost_risk_aware_gitops_p.Prelude.{String, List, [], ◌∷◌, concat, str_eq, if◌then◌else◌}
use cost_risk_aware_gitops_p.Float64.{Float64}
use cost_risk_aware_gitops_p.Results.{Result, ok, err, ◌>>=◌, wrap}
use cost_risk_aware_gitops_p.Pricing.{Table}
use cost_risk_aware_gitops_p.Config.{Config}
use cost_risk_aware_gitops_p.Cost.Types.{Estimate}
use cost_risk_aware_gitops_p.Cost.Quantity.{Quantities}
use cost_risk_aware_gitops_p.Cost.Kinds.{Calculator}
use cost_risk_aware_gitops_p.Cost.Estimating.{no_estimate, merge_estimates, estimate}
use cost_risk_aware_gitops_p.Gate.Roots.{Renderer}
use cost_risk_aware_gitops_p.Gate.Run.{World, calculator}

-- What is printed: the estimate under its rate table.
pub record Priced (F : Type 0) : Type 0 where
  pub table : Table F
  pub estimate : Estimate F

module _ {F : Type 0} ⦃fl : Float64 F⦄ ⦃qs : Quantities⦄ where
  -- The loop over the roots: the first that cannot be rendered or priced ends it.
  unfoldable pub price_roots :
      Calculator F → Renderer F → Estimate F → List String → Result (Estimate F)
  price_roots calc renderer total [] = ok total
  price_roots calc renderer total (root ∷ roots) = do
    objects ← wrap (concat ("rendering " ∷ root ∷ [])) (renderer.dir root)
    est ← wrap (concat ("pricing " ∷ root ∷ [])) (estimate calc objects)
    price_roots calc renderer (merge_estimates total est) roots

  -- The directory that was asked for, or every root of the repository.
  unfoldable pub roots_to_price : World F → Config F → (root path : String) → Result (List String)
  roots_to_price world cfg root path =
      if str_eq path ""
      then world.renderer.all_roots root cfg.spec.paths.manifests
      else ok (world.paths.join root path ∷ [])

  -- `runPrice`
  unfoldable pub run_price : World F → (config_path repo_path path : String) → Result (Priced F)
  unfolding roots_to_price price_roots
  run_price world config_path repo_path path = do
    cfg ← world.load_config config_path
    repo ← world.new_repo repo_path
    table ← world.load_table (world.paths.join repo.root cfg.spec.paths.pricing)
    roots ← roots_to_price world cfg repo.root path
    total ← price_roots (calculator cfg table) world.renderer no_estimate roots
    ok (record { table = table; estimate = total })
