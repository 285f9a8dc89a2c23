-- ===== src/Sqlite/Batch.antt =====
-- storage/sqlite/batch.go: insertRows. The limits are not negative. The transaction is a state that each
-- statement changes, or refuses.
use agent_graph.Prelude.{
  ℕ, zero, suc, ◌/◌, min, Str, List, [], ◌∷◌, ◌++◌, Result, ok, err, ◌>>=◌, ◌==◌, nat_eq,
  if◌then◌else◌, length, take, drop, ltb, is_empty, ◌&&◌, not,
}

pub data InsertError : Type 0 where
  row_empty row_mismatched limit_too_small : InsertError
  statement_failed : Str → InsertError

-- `strings.Repeat`.
unfoldable pub repeat_text : Str → ℕ → Str
repeat_text s zero = []
repeat_text s (suc n) = s ++ repeat_text s n

-- `strings.TrimSuffix` of a comma.
unfoldable pub trim_comma : Str → Str
trim_comma [] = []
trim_comma (c ∷ cs) = let rest = trim_comma cs in if is_empty cs && c == b',' then [] else c ∷ rest

abbrev pub placeholder : ℕ → Str
placeholder width = b'(' ∷ trim_comma (repeat_text (b'?' ∷ b',' ∷ []) width) ++ b')' ∷ []

abbrev pub statement : Str → ℕ → ℕ → Str
statement prefix width count =
    prefix ++ trim_comma (repeat_text (placeholder width ++ b',' ∷ []) count)

module _ {V S : Type 0} (exec : Str → List V → S → Result InsertError S) (prefix : Str) where
  -- The arguments of one statement: the values of its rows.
  unfoldable pub collect_arguments : ℕ → List (List V) → Result InsertError (List V)
  collect_arguments width [] = ok []
  collect_arguments width (row ∷ rows) =
      let rest = collect_arguments width rows in
      if not (length row == width)
      then err row_mismatched
      else rest >>= λ arguments. ok (row ++ arguments)

  -- The loop over the batches; there are not more of them than rows.
  unfoldable pub insert_batches : ℕ → ℕ → ℕ → List (List V) → S → Result InsertError S
  insert_batches zero width rows_per_batch rows s = ok s
  insert_batches (suc fuel) width rows_per_batch rows s =
      if is_empty rows
      then ok s
      else collect_arguments width (take rows_per_batch rows) >>= λ arguments.
          exec (statement prefix width (length (take rows_per_batch rows))) arguments s >>= λ s'.
          insert_batches fuel width rows_per_batch (drop rows_per_batch rows) s'

  abbrev pub rows_per_batch : ℕ → ℕ → ℕ → ℕ
  rows_per_batch variable_limit maximum_rows zero = 0
  rows_per_batch variable_limit maximum_rows (suc width) =
      min (variable_limit / suc width) maximum_rows

  unfoldable pub insert_rows : ℕ → ℕ → List (List V) → S → Result InsertError S
  insert_rows variable_limit maximum_rows [] s = ok s
  insert_rows variable_limit maximum_rows (row ∷ rows) s =
      let width = length row in
      let count = rows_per_batch variable_limit maximum_rows width in
      if width == 0
      then err row_empty
      else if ltb count 1
      then err limit_too_small
      else insert_batches (length (row ∷ rows)) width count (row ∷ rows) s
