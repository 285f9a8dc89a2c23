-- ===== src/Workspace/Discover/Sources.antt =====
-- workspace/discovery.go: the sources and projects that Discover gives.
use agent_graph.Prelude.{
  ℕ, suc, Str, List, [], ◌∷◌, ◌++◌, Bool, true, false, none, some, ◌≡◌, refl, sym, arith, In,
  In-append, In-append_left, In-append_right, ◌↔◌, ◌⊎◌, inl, inr, ok, err, Result-cases,
  Option-cases, Bool-cases, subst, map,
}
use agent_graph.GoPath.{rel}
use agent_graph.Workspace.{
  DiscoverOptions, Source, Discovery, IgnoreRules, Visit, visited, stopped, DiscoverError,
}
use agent_graph.Workspace.Ignore.{source_excluded, load_ignore_rules}
use agent_graph.Workspace.Roots.{supported_source, project_id, most_specific_root, unique_sorted}
use agent_graph.Workspace.Roots.Unique.{Increasing, unique_sorted-Increasing}
use agent_graph.Workspace.Discover.{
  absolute, normalize_roots, manifest_roots, source_in, source_at, Emitted, emit_sources,
  append_source, FileSystem, project_of, prepare, discover_stream, discover,
}

-- A visit of a file that is a source of the workspace.
pub record IsListed (root : Str) (rules : IgnoreRules) (roots : List Str) (path : Str) (s : Source)
    : Type 0 where
  pub relative : rel root path ≡ some s.path
  pub kept : source_excluded s.path rules ≡ false
  pub supported : supported_source s.path ≡ true
  pub owner : Str
  pub specific : most_specific_root s.path roots ≡ some owner
  pub project : s.project_id ≡ project_id owner

module _ (root : Str) (rules : IgnoreRules) (roots : List Str) where
  source_in→IsListed :
      (path relative_path : Str) (s : Source)
      → rel root path ≡ some relative_path
      → source_in root rules roots relative_path ≡ some s
      → IsListed root rules roots path s
  source_in→IsListed path relative_path s e h =
      elim (Bool-cases (source_excluded relative_path rules)) [
        | inl t ↦ absurd (ground arith)
        | inr kept ↦ elim (Bool-cases (supported_source relative_path)) [
          | inr f ↦ absurd (ground arith)
          | inl supported ↦ elim (Option-cases (most_specific_root relative_path roots)) [
            | inl n ↦ absurd (ground arith)
            | inr (owner, m) ↦ go owner kept supported m (ground arith)
          ]
        ]
      ]
    where
      go :
          (owner : Str)
          → source_excluded relative_path rules ≡ false
          → supported_source relative_path ≡ true
          → most_specific_root relative_path roots ≡ some owner
          → ◌≡◌ {A = Source} (record { path = relative_path; project_id = project_id owner }) s
          → IsListed root rules roots path s
      go owner kept supported m same = subst (IsListed root rules roots path) same (record {
        relative = e;
        kept = kept;
        supported = supported;
        owner = owner;
        specific = m;
        project = refl;
      })

  IsListed→source_at :
      (path : Str) (s : Source)
      → IsListed root rules roots path s
      → source_at root rules roots (visited path false) ≡ ok (some s)
  unfolding source_at
  IsListed→source_at path s h =
      ground (arith, h.relative, h.kept, h.supported, h.specific, h.project)

  source_at→IsListed :
      (v : Visit) (s : Source)
      → source_at root rules roots v ≡ ok (some s)
      → (path : Str) × (v ≡ visited path false) × IsListed root rules roots path s
  unfolding source_at
  source_at→IsListed (stopped path e) s h = absurd (ground arith)
  source_at→IsListed (visited path true) s h = absurd (ground arith)
  source_at→IsListed (visited path false) s h = elim (Option-cases (rel root path)) [
    | inl e ↦ absurd (ground arith)
    | inr (relative_path, e) ↦
        (path, refl, source_in→IsListed path relative_path s e (ground (arith, e, h)))
  ]

  emit_skipped :
      (v : Visit) (visits : List Visit) (state : List Source) (count : ℕ)
      → source_at root rules roots v ≡ ok none
      → emit_sources append_source root rules roots visits state count
        ≡ emit_sources append_source root rules roots (v ∷ visits) state count
  unfolding emit_sources
  emit_skipped v visits state count p = ground (arith, p)

  emit_taken :
      (v : Visit) (visits : List Visit) (state : List Source) (count : ℕ) (found : Source)
      → source_at root rules roots v ≡ ok (some found)
      → emit_sources append_source root rules roots visits (state ++ found ∷ []) (suc count)
        ≡ emit_sources append_source root rules roots (v ∷ visits) state count
  unfolding emit_sources
  emit_taken v visits state count found p = ground (arith, p)

  emit_failed :
      (v : Visit) (visits : List Visit) (state : List Source) (count : ℕ) (e : DiscoverError)
      → source_at root rules roots v ≡ err e
      → (emit_sources append_source root rules roots (v ∷ visits) state count).failure ≡ some e
  unfolding emit_sources
  emit_failed v visits state count e p = ground (arith, p)

  abbrev GivenBy : List Visit → Source → Type 0
  GivenBy visits s = (v : Visit) × In v visits × (source_at root rules roots v ≡ ok (some s))

  GivenBy-skipped :
      (v : Visit) (visits : List Visit) (s : Source)
      → source_at root rules roots v ≡ ok none
      → GivenBy (v ∷ visits) s ↔ GivenBy visits s
  GivenBy-skipped v visits s p = (
    λ (w, i, e). elim i [
      | inl same ↦
          let q = subst (λ x. source_at root rules roots x ≡ ok (some s)) (sym same) e in
          absurd (ground (arith, p, q))
      | inr j ↦ (w, j, e)
    ],
    λ (w, i, e). (w, inr i, e),
  )

  GivenBy-taken :
      (v : Visit) (visits : List Visit) (s found : Source)
      → source_at root rules roots v ≡ ok (some found)
      → GivenBy (v ∷ visits) s ↔ ((found ≡ s) ⊎ GivenBy visits s)
  GivenBy-taken v visits s found p = (
    λ (w, i, e). elim i [
      | inl same ↦
          let q = subst (λ x. source_at root rules roots x ≡ ok (some s)) (sym same) e in
          inl (ground (arith, p, q))
      | inr j ↦ inr (w, j, e)
    ],
    λ h. elim h [
      | inl same ↦ (v, inl refl, subst (λ x. source_at root rules roots v ≡ ok (some x)) same p)
      | inr (w, j, e) ↦ (w, inr j, e)
    ],
  )

  abbrev Collects : List Visit → List Source → Source → Emitted (List Source) → Type 0
  Collects visits state s e = e.failure ≡ none → In s e.state ↔ (In s state ⊎ GivenBy visits s)

  -- The emitted sources are those in front, and one for each visit that gives one.
  emit-Collects :
      (visits : List Visit) (state : List Source) (count : ℕ) (s : Source)
      → Collects visits state s (emit_sources append_source root rules roots visits state count)
  unfolding emit_sources
  emit-Collects [] state count s = λ h. (inl, λ i. elim i [ inl j ↦ j | inr (v, j, e) ↦ absurd j ])
  emit-Collects (v ∷ visits) state count s = elim (Result-cases (source_at root rules roots v)) [
    | inr (e, p) ↦ λ h. absurd (ground (arith, h, emit_failed v visits state count e p))
    | inl (none, p) ↦
        subst (Collects (v ∷ visits) state s) (emit_skipped v visits state count p)
          (λ h. ground (arith, emit-Collects visits state count s h, GivenBy-skipped v visits s p))
    | inl (some found, p) ↦
        subst (Collects (v ∷ visits) state s) (emit_taken v visits state count found p) (λ h.
          ground (
            arith,
            emit-Collects visits (state ++ found ∷ []) (suc count) s h,
            GivenBy-taken v visits s found p,
            In_end s state found,
          ))
  ]
    where
      In_end :
          (s : Source) (xs : List Source) (a : Source) → In s (xs ++ a ∷ []) ↔ (In s xs ⊎ (a ≡ s))
      In_end s [] a = ground arith
      In_end s (x ∷ xs) a = ground (arith, In_end s xs a)

module _ (compile_ignore_lines : List Str → Str → Bool) (files : FileSystem) where
  -- Where the second walk starts from: the rules, and the roots in order, those that are configured and those that
  -- manifests name.
  pub record IsPrepared (root : Str) (options : DiscoverOptions) (workspace_root : Str)
      (rules : IgnoreRules) (roots : List Str) : Type 0 where
    pub rules_loaded :
        load_ignore_rules compile_ignore_lines files.read_file workspace_root files.ignore_visits
        ≡ ok rules
    pub configured : List Str
    pub configured_found : normalize_roots workspace_root options.configured_roots ≡ ok configured
    pub manifests : List Str
    pub manifests_found : manifest_roots workspace_root rules files.project_visits ≡ ok manifests
    pub increasing : Increasing roots
    pub members : (r : Str) → In r roots ↔ (In r configured ⊎ In r manifests)

  prepare-IsPrepared :
      (root : Str) (options : DiscoverOptions) (workspace_root : Str) (rules : IgnoreRules)
      (roots : List Str)
      → prepare compile_ignore_lines files root options ≡ ok (workspace_root, (rules, roots))
      → IsPrepared root options workspace_root rules roots
  unfolding prepare
  prepare-IsPrepared root options workspace_root rules roots h =
      elim (Result-cases (absolute files.working_directory root)) [
        | inr (e, p) ↦ absurd (ground (arith, p, h))
        | inl (w, p) ↦
            elim (Result-cases
              (load_ignore_rules compile_ignore_lines files.read_file w files.ignore_visits)) [
                | inr (e, q) ↦ absurd (ground (arith, p, q, h))
                | inl (loaded, q) ↦
                    elim (Result-cases (normalize_roots w options.configured_roots)) [
                      | inr (e, r) ↦ absurd (ground (arith, p, q, r, h))
                      | inl (configured, r) ↦
                          elim (Result-cases (manifest_roots w loaded files.project_visits)) [
                            | inr (e, m) ↦ absurd (ground (arith, p, q, r, m, h))
                            | inl (found, m) ↦
                                go w loaded configured found q r m (ground (arith, p, q, r, m, h))
                          ]
                    ]
              ]
      ]
    where
      go :
          (w : Str) (loaded : IgnoreRules) (configured found : List Str)
          → load_ignore_rules compile_ignore_lines files.read_file w files.ignore_visits ≡ ok loaded
          → normalize_roots w options.configured_roots ≡ ok configured
          → manifest_roots w loaded files.project_visits ≡ ok found
          → (w ≡ workspace_root) × (loaded ≡ rules) × (unique_sorted (configured ++ found) ≡ roots)
          → IsPrepared root options workspace_root rules roots
      go w loaded configured found q r m (a, b, c) =
          let (increasing, members) = unique_sorted-Increasing (configured ++ found) in
          record {
            rules_loaded = ground (arith, q, a, b);
            configured = configured;
            configured_found = ground (arith, r, a);
            manifests = found;
            manifests_found = ground (arith, m, a, b);
            increasing = subst Increasing c increasing;
            members = λ x. ground (
              arith,
              subst (λ l. In x l ↔ In x (configured ++ found)) c (members x),
              In-append x configured found,
              In-append_left x configured found,
              In-append_right x configured found,
            );
          }

  -- When `Discover` succeeds, its projects are the configured roots and the roots of manifests, each once and in order,
  -- and its sources are exactly the files of the second walk that no rule excludes, that have the extension of
  -- a source and that some project's root owns, each with the project of the root that `mostSpecificRoot` takes.
  pub discover_lem :
      (root : Str) (options : DiscoverOptions) (found : Discovery)
      → discover compile_ignore_lines files root options ≡ ok found
      → (workspace_root : Str) × (rules : IgnoreRules) × (roots : List Str) × IsPrepared root
          options workspace_root rules roots
        × (found.projects ≡ map project_of roots)
        × ((s : Source)
            → In s found.sources ↔ (
                (path : Str) × In (visited path false) files.source_visits
                × IsListed workspace_root rules roots path s))
  unfolding discover discover_stream
  discover_lem root options found h =
      elim (Result-cases (prepare compile_ignore_lines files root options)) [
        | inr (e, p) ↦ absurd (ground (arith, p, h))
        | inl ((w, (rules, roots)), p) ↦
            let run = emit_sources append_source w rules roots files.source_visits [] 0 in
            elim (Option-cases run.failure) [
              | inr (e, f) ↦ absurd (ground (arith, p, f, h))
              | inl f ↦
                  let whole = emit-Collects w rules roots files.source_visits [] 0 in
                  go w rules roots p (ground (arith, p, f, h)) (λ s. whole s f)
            ]
      ]
    where
      go :
          (w : Str) (rules : IgnoreRules) (roots : List Str)
          → prepare compile_ignore_lines files root options ≡ ok (w, (rules, roots))
          → (found.projects ≡ map project_of roots)
            × (found.sources
                ≡ (emit_sources append_source w rules roots files.source_visits [] 0).state)
          → ((s : Source)
              → In s (emit_sources append_source w rules roots files.source_visits [] 0).state
                ↔ (In s [] ⊎ GivenBy w rules roots files.source_visits s))
          → (workspace_root : Str) × (rules : IgnoreRules) × (roots : List Str) × IsPrepared root
              options workspace_root rules roots
            × (found.projects ≡ map project_of roots)
            × ((s : Source)
                → In s found.sources ↔ (
                    (path : Str) × In (visited path false) files.source_visits
                    × IsListed workspace_root rules roots path s))
      go w rules roots p (projects, sources) collected = (
        w,
        rules,
        roots,
        prepare-IsPrepared root options w rules roots p,
        projects,
        λ s. (
          λ i. elim ((collected s).0 (subst (In s) sources i)) [
            | inl j ↦ absurd j
            | inr (v, j, e) ↦
                let (path, same, listed) = source_at→IsListed w rules roots v s e in
                (path, subst (λ x. In x files.source_visits) same j, listed)
          ],
          λ (path, i, listed). subst (In s) (sym sources) (
              (collected s).1
                (inr (visited path false, i, IsListed→source_at w rules roots path s listed))),
        ),
      )
