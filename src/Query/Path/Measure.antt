-- ===== src/Query/Path/Measure.antt =====
-- query/path.go: the nodes that a search has not seen, which bound its rounds.
use agent_graph.Prelude.{
  ℕ, suc, Str, List, [], ◌∷◌, false, ◌≡◌, arith, In, str_eq, mem, length, ◌≤◌, ◌<◌, if◌then◌else◌,
  inl, inr,
}

abbrev pub unseen : List Str → List Str → ℕ
unseen seen [] = 0
unseen seen (id ∷ ids) = let rest = unseen seen ids in if mem id seen then rest else suc rest

pub unseen_bound : (seen ids : List Str) → unseen seen ids ≤ length ids
unseen_bound seen [] = omega arith
unseen_bound seen (id ∷ ids) = ground (arith, unseen_bound seen ids)

pub unseen_less : (x : Str) (seen ids : List Str) → unseen (x ∷ seen) ids ≤ unseen seen ids
unseen_less x seen [] = omega arith
unseen_less x seen (id ∷ ids) = ground (arith, unseen_less x seen ids)

-- To see one of the nodes makes them fewer.
pub unseen_falls :
    (x : Str) (seen ids : List Str)
    → mem x seen ≡ false
    → In x ids
    → unseen (x ∷ seen) ids < unseen seen ids
unseen_falls x seen [] m i = absurd i
unseen_falls x seen (id ∷ ids) m (inl e) = ground (arith, e, m, unseen_less x seen ids)
unseen_falls x seen (id ∷ ids) m (inr i) = ground (arith, m, unseen_falls x seen ids m i)
