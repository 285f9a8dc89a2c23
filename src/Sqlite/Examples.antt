-- ===== src/Sqlite/Examples.antt =====
-- storage/sqlite/batch.go on three rows, two to a statement.
use agent_graph.Prelude.{
  ℕ, Str, bytes, List, [], ◌∷◌, ok, err, ◌≡◌, refl, arith, All, str_eq, nat_eq, ℕ_discrete,
}
use agent_graph.Sqlite.Batch.{
  row_mismatched, repeat_text, trim_comma, collect_arguments, insert_batches, insert_rows,
}
use agent_graph.Sqlite.Batches.{keep, values, flatten, IsBound, insert_rows_lem}

-- Evaluates the component.
run : Unit {0}
unfolding repeat_text trim_comma collect_arguments insert_batches insert_rows ℕ_discrete
run = tt

abbrev pub insert : Str
insert = bytes "INSERT INTO t VALUES "

abbrev pub rows : List (List ℕ)
rows = (1 ∷ 2 ∷ []) ∷ (3 ∷ 4 ∷ []) ∷ (5 ∷ 6 ∷ []) ∷ []

insert_rows-rows :
    insert_rows keep insert 5 100 rows []
    ≡ ok (
        (bytes "INSERT INTO t VALUES (?,?),(?,?)", 1 ∷ 2 ∷ 3 ∷ 4 ∷ [])
        ∷ (bytes "INSERT INTO t VALUES (?,?)", 5 ∷ 6 ∷ [])
        ∷ [])
unfolding run
insert_rows-rows = refl

insert_rows-ragged :
    insert_rows {V = ℕ} keep insert 5 100 ((1 ∷ 2 ∷ []) ∷ (3 ∷ []) ∷ []) [] ≡ err row_mismatched
unfolding run
insert_rows-ragged = refl

insert_rows_lem_example :
    (log : List (Str × List ℕ)) × (insert_rows keep insert 5 100 rows [] ≡ ok log)
    × (flatten (values log) ≡ 1 ∷ 2 ∷ 3 ∷ 4 ∷ 5 ∷ 6 ∷ [])
    × All (IsBound insert 5) log
insert_rows_lem_example =
    insert_rows_lem insert 5 100 (1 ∷ 2 ∷ []) ((3 ∷ 4 ∷ []) ∷ (5 ∷ 6 ∷ []) ∷ []) (omega arith)
      (omega arith) (omega arith) (refl, (refl, (refl, tt)))
