-- ===== src/Extractor/Registry/Table.antt =====
-- extractors/registry/registry.go: what the table of a registry holds.
use agent_graph.Prelude.{
  Str, List, [], ◌∷◌, ◌++◌, Option, none, some, ok, str_eq, map, lookup, ◌≡◌, ◌↔◌, ◌⊎◌, inl, inr,
  refl, sym, ap, ap₂, arith, In, Distinct, Option-cases, Result-cases, lookup→In, In→lookup,
  lookup-none, subst, ◌∙◌, In-append, In-append_left, In-append_right,
}
use agent_graph.Extractor.Types.{Extractor}
use agent_graph.Extractor.Extension.{normalize_extension, extension}
use mathlib.Core.List.{append-nil}
use agent_graph.Extractor.Registry.{
  Registry, add_extensions, check_extractor, register_extractor, register_all, new_registry,
  for_path,
}

abbrev pub Serves : Extractor → Str → Type 0
Serves x key = In key (map normalize_extension x.metadata.extensions)

-- The table has one entry for each extension of an extractor that is registered, and no others.
pub record IsRegistry (r : Registry) : Type 0 where
  pub distinct : Distinct (map (λ p. p.0) r.by_extension)
  pub entries :
      (key : Str) (x : Extractor) → In (key, x) r.by_extension ↔ (In x r.extractors × Serves x key)

abbrev Added : Extractor → List (Str × Extractor) → List Str → List (Str × Extractor) → Type 0
Added x before es after =
    Distinct (map (λ p. p.0) after)
    × ((key : Str) (y : Extractor)
        → In (key, y) after
          ↔ (In (key, y) before ⊎ ((x ≡ y) × In key (map normalize_extension es))))

add_extensions-Added :
    (x : Extractor) (before : List (Str × Extractor)) (es : List Str)
    (after : List (Str × Extractor))
    → Distinct (map (λ p. p.0) before)
    → add_extensions x before es ≡ ok after
    → Added x before es after
unfolding add_extensions
add_extensions-Added x before [] after d h =
    subst (Added x before []) {x = before} (ground (arith, h))
      (d, λ key y. (λ i. inl i, λ i. elim i [ inl j ↦ j | inr j ↦ absurd j.1 ]))
add_extensions-Added x before (e ∷ es) after d h =
    let n = normalize_extension e in
    elim (Option-cases (lookup n before)) [
      | inr (current, f) ↦ ground (arith, h, f)
      | inl f ↦
          let (d', k) =
            add_extensions-Added x ((n, x) ∷ before) es after (lookup-none n before f, d)
              (ground (arith, h, f)) in
          (
            d',
            λ key y. (
              λ i. elim ((k key y).0 i) [
                | inl (inl p) ↦
                    inr (
                      ap (λ (q : Str × Extractor). q.1) p,
                      inl (ap (λ (q : Str × Extractor). q.0) p),
                    )
                | inl (inr j) ↦ inl j
                | inr (p, j) ↦ inr (p, inr j)
              ],
              λ i. (k key y).1 (elim i [
                | inl j ↦ inl (inr j)
                | inr (p, inl q) ↦ inl (inl (ap₂ (λ a b. (a, b)) q p))
                | inr (p, inr j) ↦ inr (p, j)
              ]),
            ),
          )
    ]

abbrev extended : Registry → Extractor → List (Str × Extractor) → Registry
extended r x table = record { by_extension = table; extractors = r.extractors ++ x ∷ [] }

register_extractor-parts :
    (r : Registry) (x : Extractor) (r' : Registry)
    → register_extractor r x ≡ ok r'
    → (table : List (Str × Extractor)) × (add_extensions x r.by_extension x.metadata.extensions
        ≡ ok table)
      × (extended r x table ≡ r')
unfolding register_extractor
register_extractor-parts r x r' h = elim (Option-cases (check_extractor x)) [
  | inr (error, e) ↦ ground (arith, h, e)
  | inl e ↦ elim (Result-cases (add_extensions x r.by_extension x.metadata.extensions)) [
    | inr (error, f) ↦ ground (arith, h, e, f)
    | inl (table, f) ↦ (table, f, ground (arith, h, e, f))
  ]
]

register_extractor-IsRegistry :
    (r : Registry) (x : Extractor) (r' : Registry)
    → IsRegistry r
    → register_extractor r x ≡ ok r'
    → IsRegistry r' × (r'.extractors ≡ r.extractors ++ x ∷ [])
register_extractor-IsRegistry r x r' w h =
    let (table, e, p) = register_extractor-parts r x r' h in
    let (d, k) = add_extensions-Added x r.by_extension x.metadata.extensions table w.distinct e in
    subst (λ s. IsRegistry s × (s.extractors ≡ r.extractors ++ x ∷ [])) p
      (
        record {
          distinct = d;
          entries = λ key y. (
            λ i. elim ((k key y).0 i) [
              | inl j ↦
                  let (m, s) = (w.entries key y).0 j in
                  (In-append_left y r.extractors (x ∷ []) m, s)
              | inr (q, s) ↦
                  (In-append_right y r.extractors (x ∷ []) (inl q), subst (λ z. Serves z key) q s)
            ],
            λ (m, s). (k key y).1 (elim (In-append y r.extractors (x ∷ []) m) [
              | inl j ↦ inl ((w.entries key y).1 (j, s))
              | inr (inl q) ↦ inr (q, subst (λ z. Serves z key) (sym q) s)
              | inr (inr z) ↦ absurd z
            ]),
          );
        },
        refl,
      )

map-snoc :
    (xs : List Extractor) (x : Extractor) (given : List (Option Extractor))
    → map some (xs ++ x ∷ []) ++ given ≡ map some xs ++ some x ∷ given
map-snoc [] x given = refl
map-snoc (y ∷ xs) x given = ap (λ r. some y ∷ r) (map-snoc xs x given)

register_all-IsRegistry :
    (r : Registry) (given : List (Option Extractor)) (r' : Registry)
    → IsRegistry r
    → register_all r given ≡ ok r'
    → IsRegistry r' × (map some r'.extractors ≡ map some r.extractors ++ given)
unfolding register_all
register_all-IsRegistry r [] r' w h =
    subst (λ s. IsRegistry s × (map some s.extractors ≡ map some r.extractors ++ [])) {x = r}
      (ground (arith, h)) (w, sym (append-nil (map some r.extractors)))
register_all-IsRegistry r (none ∷ given) r' w h = cc
register_all-IsRegistry r (some x ∷ given) r' w h = elim (Result-cases (register_extractor r x)) [
  | inr (error, e) ↦ ground (arith, h, e)
  | inl (s, e) ↦
      let (v, p) = register_extractor-IsRegistry r x s w e in
      let (u, q) = register_all-IsRegistry s given r' v (ground (arith, h, e)) in
      (u, q ∙ ap (λ es. map some es ++ given) p ∙ map-snoc r.extractors x given)
]

-- A registry that `New` returns holds the extractors it was given, in their order, and `ForPath` finds under a
-- path exactly the extractor that serves the extension of the path, so there is at most one.
pub new_registry-for_path :
    (given : List (Option Extractor)) (r : Registry)
    → new_registry given ≡ ok r
    → (map some r.extractors ≡ given)
      × ((path : Str) (x : Extractor)
          → (for_path r path ≡ some x) ↔ (In x r.extractors × Serves x (extension path)))
unfolding new_registry for_path
new_registry-for_path given r h =
    let (w, e) =
      register_all-IsRegistry (record { by_extension = []; extractors = [] }) given r
        (record { distinct = tt; entries = λ key x. (λ i. absurd i, λ (i, s). i) }) h in
    (
      e,
      λ path x. (
        λ f. (w.entries (extension path) x).0 (lookup→In (extension path) r.by_extension f),
        λ s.
            In→lookup (extension path) r.by_extension w.distinct
              ((w.entries (extension path) x).1 s),
      ),
    )
