-- ===== src/Indexer/Unique.antt =====
-- indexer/queue.go: uniquePaths keeps each path once.
use agent_graph.Prelude.{
  Str, List, [], ◌∷◌, ◌++◌, ◌≡◌, ◌↔◌, sym, arith, mem, In, Distinct, ◌⊎◌, inl, inr, str_eq, mem→In,
  not-mem→not-In, Bool-cases, In-append, In-append_left, In-append_right, subst,
}
use agent_graph.Indexer.Queue.{add_unique, unique_paths}

pub Distinct-snoc :
    {A : Type 0} (xs : List A) (x : A) → Distinct xs → ¬ In x xs → Distinct (xs ++ x ∷ [])
Distinct-snoc [] x d n = (λ i. i, tt)
Distinct-snoc (y ∷ ys) x d n = (
  λ i. elim (In-append y ys (x ∷ []) i) [
    | inl j ↦ d.0 j
    | inr (inl e) ↦ n (inl (sym e))
    | inr (inr j) ↦ j
  ],
  Distinct-snoc ys x d.1 (λ i. n (inr i)),
)

pub In-snoc : (p x : Str) (xs : List Str) → In p (xs ++ x ∷ []) ↔ ((x ≡ p) ⊎ In p xs)
In-snoc p x xs = (
  λ i. elim (In-append p xs (x ∷ []) i) [
    | inl j ↦ inr j
    | inr (inl e) ↦ inl e
    | inr (inr j) ↦ absurd j
  ],
  λ i. elim i [
    | inl e ↦ In-append_right p xs (x ∷ []) (inl e)
    | inr j ↦ In-append_left p xs (x ∷ []) j
  ],
)

abbrev SameSet : List Str → List Str → Type 0
SameSet xs ys = (p : Str) → In p xs ↔ In p ys

SameSet-snoc :
    (seen unique : List Str) (x : Str) → SameSet seen unique → SameSet (x ∷ seen) (unique ++ x ∷ [])
SameSet-snoc seen unique x s p =
    let e = In-snoc p x unique in
    (λ i. ground (arith, e.1, (s p).0, i), λ i. ground (arith, e.0 i, (s p).1))

add_unique-lem :
    (paths seen unique : List Str)
    → SameSet seen unique
    → Distinct unique
    → Distinct (add_unique seen unique paths)
      × ((p : Str) → In p (add_unique seen unique paths) ↔ (In p unique ⊎ In p paths))
unfolding add_unique
add_unique-lem [] seen unique s d = (d, λ p. (λ i. inl i, λ i. ground arith))
add_unique-lem (x ∷ paths) seen unique s d = elim (Bool-cases (mem x seen)) [
  | inl old ↦
      let (d', e) = add_unique-lem paths seen unique s d in
      let known : In x unique = (s x).0 (mem→In x seen old) in
      rw old (
        d',
        λ p. (
          λ i. ground (arith, (e p).0 i),
          λ i. elim i [
            | inl j ↦ (e p).1 (inl j)
            | inr (inl q) ↦ (e p).1 (inl (subst (λ y. In y unique) q known))
            | inr (inr j) ↦ (e p).1 (inr j)
          ],
        ),
      )
  | inr new ↦
      let absent : ¬ In x unique = λ i. not-mem→not-In x seen new ((s x).1 i) in
      let (d', e) =
        add_unique-lem paths (x ∷ seen) (unique ++ x ∷ []) (SameSet-snoc seen unique x s)
          (Distinct-snoc unique x d absent) in
      rw new (
        d',
        λ p.
            let q = In-snoc p x unique in
            (λ i. ground (arith, (e p).0 i, q.0), λ i. ground (arith, (e p).1, q.1, i)),
      )
]

-- `uniquePaths` keeps every path, and each once.
pub unique_paths_lem :
    (paths : List Str)
    → Distinct (unique_paths paths) × ((p : Str) → In p (unique_paths paths) ↔ In p paths)
unfolding unique_paths
unique_paths_lem paths =
    let (d, e) = add_unique-lem paths [] [] (λ p. (λ i. i, λ i. i)) tt in
    (d, λ p. (λ i. ground (arith, (e p).0 i), λ i. (e p).1 (inr i)))
