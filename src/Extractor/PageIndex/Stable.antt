-- ===== src/Extractor/PageIndex/Stable.antt =====
-- extractor/page_resolver_index.go: the index below is asked once for each request.
use agent_graph.Prelude.{List, [], ◌∷◌, some, ◌≡◌, arith, lookup, inl, inr, Option-cases, ap, ◌∙◌}
use agent_graph.Extractor.PageIndex.{
  ResolverTargetRequest, ResolverPackagePageRequest, TargetAnswer, PackageAnswer, PageResolverIndex,
  PageRequest, for_target, for_package, resolver_target, resolver_package_page, serve_all,
  target_request_eq, package_request_eq,
}

module _ {S : Type 0} (ask_target : S → ResolverTargetRequest → TargetAnswer × S)
    (ask_package : S → ResolverPackagePageRequest → PackageAnswer × S) where
  target_known :
      (i : PageResolverIndex) (s : S) (k : ResolverTargetRequest)
      → lookup k (resolver_target ask_target ask_package i s k).1.targets
        ≡ some (resolver_target ask_target ask_package i s k).0
  unfolding resolver_target
  target_known i s k = elim (Option-cases (lookup k i.targets)) [
    | inl e ↦ ground (arith, e)
    | inr (a, e) ↦ ground (arith, e)
  ]

  resolver_target-keeps :
      (i : PageResolverIndex) (s : S) (k l : ResolverTargetRequest) (a : TargetAnswer)
      → lookup k i.targets ≡ some a
      → lookup k (resolver_target ask_target ask_package i s l).1.targets ≡ some a
  unfolding resolver_target
  resolver_target-keeps i s k l a h = elim (Option-cases (lookup l i.targets)) [
    | inl e ↦ ground (arith, e, h)
    | inr (b, e) ↦ ground (arith, e, h)
  ]

  resolver_package_page-keeps :
      (i : PageResolverIndex) (s : S) (l : ResolverPackagePageRequest)
      → (resolver_package_page ask_target ask_package i s l).1.targets ≡ i.targets
  unfolding resolver_package_page
  resolver_package_page-keeps i s l = elim (Option-cases (lookup l i.packages)) [
    | inl e ↦ ground (arith, e)
    | inr (b, e) ↦ ground (arith, e)
  ]

  serve_all-keeps :
      (requests : List PageRequest) (i : PageResolverIndex) (s : S) (k : ResolverTargetRequest)
      (a : TargetAnswer)
      → lookup k i.targets ≡ some a
      → lookup k (serve_all ask_target ask_package i s requests).0.targets ≡ some a
  unfolding serve_all
  serve_all-keeps [] i s k a h = h
  serve_all-keeps (for_target l ∷ rest) i s k a h =
      serve_all-keeps rest _ _ k a (resolver_target-keeps i s k l a h)
  serve_all-keeps (for_package l ∷ rest) i s k a h =
      serve_all-keeps rest _ _ k a (ap (λ m. lookup k m) (resolver_package_page-keeps i s l) ∙ h)

  answered :
      (i : PageResolverIndex) (s : S) (k : ResolverTargetRequest) (a : TargetAnswer)
      → lookup k i.targets ≡ some a
      → resolver_target ask_target ask_package i s k ≡ (a, i, s)
  unfolding resolver_target
  answered i s k a h = ground (arith, h)

  -- After a request for a target, and whatever else was asked since, the same request gets the same answer, and the
  -- index below is not asked again.
  pub resolver_target_stable :
      (index : PageResolverIndex) (s : S) (request : ResolverTargetRequest)
      (requests : List PageRequest)
      → (let first = resolver_target ask_target ask_package index s request in
          let later = serve_all ask_target ask_package first.1 first.2 requests in
          resolver_target ask_target ask_package later.0 later.1 request
          ≡ (first.0, later.0, later.1))
  resolver_target_stable index s request requests =
      answered _ _ request _ (serve_all-keeps requests _ _ request _ (target_known index s request))
