-- ===== src/Sqlite/Batches.antt =====
-- storage/sqlite/batch.go: the statements that insertRows runs.
use agent_graph.Prelude.{
  ℕ, zero, suc, ◌+◌, ◌*◌, ◌/◌, ◌≤◌, ◌<◌, min, Str, List, [], ◌∷◌, ◌++◌, Result, ok, err, ◌==◌,
  nat_eq, ℕ_discrete, if◌then◌else◌, length, take, drop, ◌≡◌, refl, sym, ap, arith, ◌∙◌, All,
  length-append, length-take, length-drop, take-append-drop, map, subst, Result-cases, inl, inr,
}
use agent_graph.Sqlite.Batch.{
  InsertError, repeat_text, trim_comma, placeholder, statement, collect_arguments, insert_batches,
  insert_rows,
}
use mathlib.Core.List.{append_assoc, append-nil}
use native.Mathlib.Nat.{suc-mul, mul-one, mul-le-mul_right, div-mul-le_self, le-div_iff_mul-le}

-- The parameters of a statement.
abbrev pub parameters : Str → ℕ
parameters [] = 0
parameters (c ∷ cs) = let rest = parameters cs in if c == b'?' then suc rest else rest

pub parameters-append : (s t : Str) → parameters (s ++ t) ≡ parameters s + parameters t
parameters-append [] t = omega arith
parameters-append (c ∷ s) t = ground (arith, parameters-append s t)

parameters-trim_comma : (s : Str) → parameters (trim_comma s) ≡ parameters s
unfolding trim_comma
parameters-trim_comma [] = refl
parameters-trim_comma (c ∷ []) = ground arith
parameters-trim_comma (c ∷ d ∷ s) = ground (arith, parameters-trim_comma (d ∷ s))

parameters-repeat_text : (s : Str) (n : ℕ) → parameters (repeat_text s n) ≡ n * parameters s
unfolding repeat_text
parameters-repeat_text s zero = omega arith
parameters-repeat_text s (suc n) = omega (
  arith,
  parameters-append s (repeat_text s n),
  parameters-repeat_text s n,
  suc-mul n (parameters s),
)

parameters-placeholder : (width : ℕ) → parameters (placeholder width) ≡ width
parameters-placeholder width =
    let body = trim_comma (repeat_text (b'?' ∷ b',' ∷ []) width) in
    let e : parameters (placeholder width) ≡ parameters (body ++ b')' ∷ []) =
      unfold ℕ_discrete in refl in
    let one : parameters (b'?' ∷ b',' ∷ []) ≡ 1 = unfold ℕ_discrete in refl in
    let none_more : parameters (b')' ∷ []) ≡ 0 = unfold ℕ_discrete in refl in
    omega (
      arith,
      e,
      parameters-append body (b')' ∷ []),
      none_more,
      parameters-trim_comma (repeat_text (b'?' ∷ b',' ∷ []) width),
      parameters-repeat_text (b'?' ∷ b',' ∷ []) width,
      ap (λ (k : ℕ). width * k) one,
      mul-one width,
    )

-- A statement has a parameter for each value of its rows.
parameters-statement :
    (prefix : Str) (width count : ℕ)
    → parameters (statement prefix width count) ≡ parameters prefix + count * width
parameters-statement prefix width count =
    let row = placeholder width ++ b',' ∷ [] in
    let comma : parameters (b',' ∷ []) ≡ 0 = unfold ℕ_discrete in refl in
    let each : parameters row ≡ width = omega (
      arith,
      parameters-append (placeholder width) (b',' ∷ []),
      comma,
      parameters-placeholder width,
    ) in
    omega (
      arith,
      parameters-append prefix (trim_comma (repeat_text row count)),
      parameters-trim_comma (repeat_text row count),
      parameters-repeat_text row count,
      ap (λ (k : ℕ). count * k) each,
    )

module _ {V : Type 0} where
  abbrev pub flatten : List (List V) → List V
  flatten [] = []
  flatten (row ∷ rows) = row ++ flatten rows

  flatten-append : (xs ys : List (List V)) → flatten (xs ++ ys) ≡ flatten xs ++ flatten ys
  flatten-append [] ys = refl
  flatten-append (x ∷ xs) ys =
      ap (λ r. x ++ r) (flatten-append xs ys) ∙ sym (append_assoc x (flatten xs) (flatten ys))

  abbrev pub IsTable : ℕ → List (List V) → Type 0
  IsTable width rows = All (λ row. length row ≡ width) rows

  IsTable-take :
      (n width : ℕ) (rows : List (List V)) → IsTable width rows → IsTable width (take n rows)
  IsTable-take zero width rows t = tt
  IsTable-take (suc n) width [] t = tt
  IsTable-take (suc n) width (row ∷ rows) t = (t.0, IsTable-take n width rows t.1)

  IsTable-drop :
      (n width : ℕ) (rows : List (List V)) → IsTable width rows → IsTable width (drop n rows)
  IsTable-drop zero width rows t = t
  IsTable-drop (suc n) width [] t = tt
  IsTable-drop (suc n) width (row ∷ rows) t = IsTable-drop n width rows t.1

  length-flatten :
      (width : ℕ) (rows : List (List V))
      → IsTable width rows
      → length (flatten rows) ≡ length rows * width
  length-flatten width [] t = omega arith
  length-flatten width (row ∷ rows) t = omega (
    arith,
    length-append row (flatten rows),
    t.0,
    length-flatten width rows t.1,
    suc-mul (length rows) width,
  )

  -- A transaction that accepts every statement and keeps it.
  abbrev pub keep : Str → List V → List (Str × List V) → Result InsertError (List (Str × List V))
  keep query arguments log = ok (log ++ (query, arguments) ∷ [])

  abbrev pub values : List (Str × List V) → List (List V)
  values log = map (λ s. s.1) log

  -- The statement stays below SQLite's limit, and its parameters are as many as its arguments.
  abbrev pub IsBound : Str → ℕ → Str × List V → Type 0
  IsBound prefix variable_limit (query, arguments) =
      (length arguments ≤ variable_limit)
      × (parameters query ≡ parameters prefix + length arguments)

  collect_arguments-IsTable :
      (prefix : Str) (width : ℕ) (rows : List (List V))
      → IsTable width rows
      → collect_arguments keep prefix width rows ≡ ok (flatten rows)
  unfolding collect_arguments
  collect_arguments-IsTable prefix width [] t = refl
  collect_arguments-IsTable prefix width (row ∷ rows) t =
      ground (arith, t.0, collect_arguments-IsTable prefix width rows t.1)

  All-snoc :
      (P : Str × List V → Type 0) (log : List (Str × List V)) (x : Str × List V)
      → All P log
      → P x
      → All P (log ++ x ∷ [])
  All-snoc P [] x a p = (p, tt)
  All-snoc P (y ∷ log) x a p = (a.0, All-snoc P log x a.1 p)

  values-snoc :
      (log : List (Str × List V)) (x : Str × List V)
      → flatten (values (log ++ x ∷ [])) ≡ flatten (values log) ++ x.1
  values-snoc [] x = append-nil x.1
  values-snoc (y ∷ log) x =
      ap (λ r. y.1 ++ r) (values-snoc log x) ∙ sym (append_assoc y.1 (flatten (values log)) x.1)

  module _ (prefix : Str) (variable_limit width count : ℕ) (one : 1 ≤ count)
      (fits : count * width ≤ variable_limit) where
    -- One more round.
    insert_batches-round :
        (fuel : ℕ) (row : List V) (rows : List (List V)) (log : List (Str × List V))
        → IsTable width (row ∷ rows)
        → insert_batches keep prefix (suc fuel) width count (row ∷ rows) log
          ≡ insert_batches keep prefix fuel width count (drop count (row ∷ rows)) (
              log
              ++ (
                statement prefix width (length (take count (row ∷ rows))),
                flatten (take count (row ∷ rows)),
              )
                ∷ [])
    unfolding insert_batches
    insert_batches-round fuel row rows log t =
        rw
          (collect_arguments-IsTable prefix width (take count (row ∷ rows))
            (IsTable-take count width (row ∷ rows) t))
          refl

    batch-IsBound :
        (rows : List (List V))
        → IsTable width rows
        → IsBound prefix variable_limit
            (statement prefix width (length (take count rows)), flatten (take count rows))
    batch-IsBound rows t =
        let l = length-flatten width (take count rows) (IsTable-take count width rows t) in
        (
          omega (
            arith,
            l,
            length-take count rows,
            mul-le-mul_right {m = length (take count rows)} {n = count} width
                (omega (arith, length-take count rows)),
            fits,
          ),
          omega (arith, l, parameters-statement prefix width (length (take count rows))),
        )

    -- What the loop has done when it ends.
    abbrev Inserted :
        List (List V) → List (Str × List V) → Result InsertError (List (Str × List V)) → Type 0
    Inserted rows before (err e) = ⊥
    Inserted rows before (ok after) =
        (flatten (values after) ≡ flatten (values before) ++ flatten rows)
        × (All (IsBound prefix variable_limit) before → All (IsBound prefix variable_limit) after)

    Inserted-more :
        (rows : List (List V)) (before : List (Str × List V)) (x : Str × List V)
        (r : Result InsertError (List (Str × List V)))
        → x.1 ≡ flatten (take count rows)
        → IsBound prefix variable_limit x
        → Inserted (drop count rows) (before ++ x ∷ []) r
        → Inserted rows before r
    Inserted-more rows before x (err e) p b i = i
    Inserted-more rows before x (ok after) p b (e, keeps) = (
      e
          ∙ ap (λ r. r ++ flatten (drop count rows))
              (values-snoc before x ∙ ap (λ r. flatten (values before) ++ r) p)
          ∙ append_assoc (flatten (values before)) (flatten (take count rows))
              (flatten (drop count rows))
          ∙ ap (λ r. flatten (values before) ++ r)
              (sym (flatten-append (take count rows) (drop count rows))
                ∙ ap flatten (take-append-drop count rows)),
      λ a. keeps (All-snoc (IsBound prefix variable_limit) before x a b),
    )

    insert_batches-Inserted :
        (fuel : ℕ) (rows : List (List V)) (log : List (Str × List V))
        → length rows ≤ fuel
        → IsTable width rows
        → Inserted rows log (insert_batches keep prefix fuel width count rows log)
    insert_batches-Inserted zero [] log l t =
        unfold insert_batches in (sym (append-nil (flatten (values log))), λ a. a)
    insert_batches-Inserted zero (row ∷ rows) log l t = absurd (omega (arith, l))
    insert_batches-Inserted (suc fuel) [] log l t =
        unfold insert_batches in (sym (append-nil (flatten (values log))), λ a. a)
    insert_batches-Inserted (suc fuel) (row ∷ rows) log l t =
        let x : Str × List V = (
          statement prefix width (length (take count (row ∷ rows))),
          flatten (take count (row ∷ rows)),
        ) in
        subst (Inserted (row ∷ rows) log) (sym (insert_batches-round fuel row rows log t)) (
          Inserted-more (row ∷ rows) log x _ refl (batch-IsBound (row ∷ rows) t) (
            insert_batches-Inserted fuel (drop count (row ∷ rows)) (log ++ x ∷ [])
              (omega (arith, length-drop count (row ∷ rows), l, one))
              (IsTable-drop count width (row ∷ rows) t)))

  -- In a transaction that accepts every statement, `insertRows` of rows of one width that is not zero and within
  -- the limit inserts all rows, in their order: together the arguments of the statements are the values of the
  -- rows, no statement has more arguments than the limit allows, and each has a parameter for every argument.
  pub insert_rows_lem :
      (prefix : Str) (variable_limit maximum_rows : ℕ) (row : List V) (rows : List (List V))
      → 0 < length row
      → length row ≤ variable_limit
      → 0 < maximum_rows
      → IsTable (length row) (row ∷ rows)
      → (log : List (Str × List V)) × (insert_rows keep prefix variable_limit maximum_rows
            (row ∷ rows)
            []
          ≡ ok log)
        × (flatten (values log) ≡ flatten (row ∷ rows))
        × All (IsBound prefix variable_limit) log
  insert_rows_lem prefix variable_limit maximum_rows [] rows wide fits some_rows t =
      absurd (omega (arith, wide))
  insert_rows_lem prefix variable_limit maximum_rows (v ∷ row) rows wide fits some_rows t =
      let width = length (v ∷ row) in
      let count : ℕ = min (variable_limit / width) maximum_rows in
      let quotient =
        (le-div_iff_mul-le {k = width} {x = 1} {y = variable_limit} wide).1 (omega (arith, fits)) in
      let one : 1 ≤ count = omega (arith, quotient, some_rows) in
      let bound : count * width ≤ variable_limit = omega (
        arith,
        mul-le-mul_right {m = count} {n = variable_limit / width} width (omega arith),
        div-mul-le_self variable_limit width,
      ) in
      let table = (v ∷ row) ∷ rows in
      let run = insert_batches keep prefix (length table) width count table [] in
      let done =
        insert_batches-Inserted prefix variable_limit width count one bound (length table) table []
          (omega arith) t in
      elim (Result-cases run) [
        | inr (error, e) ↦
            absurd (subst (Inserted prefix variable_limit width count one bound table []) e done)
        | inl (log, e) ↦
            let (all, bounds) =
              subst (Inserted prefix variable_limit width count one bound table []) e done in
            (log, insert_rows-runs one ∙ e, all, bounds tt)
      ]
    where
      insert_rows-runs :
          1 ≤ min (variable_limit / length (v ∷ row)) maximum_rows
          → insert_rows keep prefix variable_limit maximum_rows ((v ∷ row) ∷ rows) []
            ≡ insert_batches keep prefix
                (length ((v ∷ row) ∷ rows))
                (length (v ∷ row))
                (min (variable_limit / length (v ∷ row)) maximum_rows)
                ((v ∷ row) ∷ rows)
                []
      insert_rows-runs one = unfold insert_rows in ground (arith, one)
