-- ===== src/Gate/PriceOnly/Estate.antt =====
-- The figure that `price` prints is the denominator that `evaluate` computes for the same tree.
use cost_risk_aware_gitops_p.Prelude.{◌≡◌, ap, ◌∙◌, subst, String, List, [], ◌∷◌}
use cost_risk_aware_gitops_p.Float64.{Float64}
use cost_risk_aware_gitops_p.Results.{ok, wrap, bind_ok, ok_inj, wrap_ok}
use cost_risk_aware_gitops_p.Config.{Config}
use cost_risk_aware_gitops_p.Cost.Types.{Estimate}
use cost_risk_aware_gitops_p.Cost.Quantity.{Quantities}
use cost_risk_aware_gitops_p.Cost.Kinds.{Calculator}
use cost_risk_aware_gitops_p.Cost.Estimating.{no_estimate, merge_estimates, estimate}
use cost_risk_aware_gitops_p.Gate.Roots.{Renderer, add_roots, price_estate}
use cost_risk_aware_gitops_p.Gate.Roots.Skipping.{add_roots-nil, add_roots-cons, price_estate_lem}
use cost_risk_aware_gitops_p.Gate.Run.{World, Repo, calculator}
use cost_risk_aware_gitops_p.Gate.PriceOnly.{Priced, price_roots, roots_to_price, run_price}

module _ {F : Type 0} ⦃fl : Float64 F⦄ ⦃qs : Quantities⦄ where
  price_roots-add_roots :
      (calc : Calculator F) (renderer : Renderer F) (total : Estimate F) (roots : List String)
      (est : Estimate F)
      → price_roots calc renderer total roots ≡ ok est
      → add_roots calc renderer total.monthly_usd roots ≡ est.monthly_usd
  unfolding price_roots merge_estimates
  price_roots-add_roots calc renderer total [] est e =
      add_roots-nil calc renderer total.monthly_usd ∙ ap (λ t. t.monthly_usd) (ok_inj total est e)
  price_roots-add_roots calc renderer total (root ∷ roots) est e =
      let (objects, rendered, e₁) = bind_ok (wrap _ (renderer.dir root)) _ est e in
      let (this, priced, rest) = bind_ok (wrap _ (estimate calc objects)) _ est e₁ in
      add_roots-cons calc renderer total.monthly_usd root roots objects this
        (wrap_ok _ _ objects rendered) (wrap_ok _ _ this priced)
      ∙ price_roots-add_roots calc renderer (merge_estimates total this) roots est rest

  -- If `price` succeeds for the whole repository, then the estate figure that `evaluate` computes for a
  -- tree at the repository's root, with the same rates and settings, is the monthly figure printed.
  pub run_price-price_estate :
      (world : World F) (config_path repo_path : String) (priced : Priced F)
      → run_price world config_path repo_path "" ≡ ok priced
      → (cfg : Config F) × (repo : Repo) × (world.load_config config_path ≡ ok cfg)
        × (world.new_repo repo_path ≡ ok repo)
        × (price_estate
              (calculator cfg priced.table)
              world.renderer
              repo.root
              cfg.spec.paths.manifests
            ≡ ok priced.estimate.monthly_usd)
  unfolding run_price roots_to_price
  run_price-price_estate world config_path repo_path priced e =
      let (cfg, configured, e₁) = bind_ok (world.load_config config_path) _ priced e in
      let (repo, opened, e₂) = bind_ok (world.new_repo repo_path) _ priced e₁ in
      let (table, loaded, e₃) = bind_ok (world.load_table _) _ priced e₂ in
      let (roots, found, e₄) =
        bind_ok (world.renderer.all_roots repo.root cfg.spec.paths.manifests) _ priced e₃ in
      let (total, summed, e₅) =
        bind_ok (price_roots (calculator cfg table) world.renderer no_estimate roots) _ priced e₄ in
      let estate =
        price_estate_lem (calculator cfg table) world.renderer repo.root cfg.spec.paths.manifests
          roots found
        ∙ ap ok (
            price_roots-add_roots (calculator cfg table) world.renderer no_estimate roots total
              summed) in
      (
        cfg,
        repo,
        configured,
        opened,
        subst
            (λ p.
              price_estate (calculator cfg p.table) world.renderer repo.root
                cfg.spec.paths.manifests
              ≡ ok p.estimate.monthly_usd)
            (ok_inj _ priced e₅) estate,
      )
