-- ===== src/Indexer/Backoff.antt =====
-- indexer/queue.go: the delay between the retries of a failing publisher.
use agent_graph.Prelude.{
  ℕ, zero, suc, ◌*◌, ◌^◌, ◌≤◌, ◌<◌, min, Str, List, some, ◌≡◌, refl, ap, arith, ◌∙◌, [], ◌∷◌,
  length,
}
use native.Mathlib.Nat.{pow-suc, mul-pos, mul_assoc}
use agent_graph.Prelude.Int.{ℤ, pos, int_eq, double_int64}
use agent_graph.Indexer.Types.{Worker, Manager}
use agent_graph.Indexer.Queue.{next_delay, finish_publish_worker}

-- The delay after some failures in a row.
abbrev iterate : Manager → ℤ → ℕ → ℤ
iterate m d zero = d
iterate m d (suc n) = iterate m (next_delay m d) n

-- A worker whose publications fail one after another, each with its paths and its error.
abbrev pub failures : Manager → Worker → List (List Str × Str) → Worker
failures m w [] = w
failures m w ((paths, error) ∷ rest) =
    failures m (finish_publish_worker m paths (some error) w) rest

delays-shift :
    (m : Manager) (d : ℤ) (n : ℕ) → iterate m (next_delay m d) n ≡ next_delay m (iterate m d n)
delays-shift m d zero = refl
delays-shift m d (suc n) = delays-shift m (next_delay m d) n

retry_delay-finish :
    (m : Manager) (paths : List Str) (error : Str) (w : Worker)
    → (finish_publish_worker m paths (some error) w).retry_delay ≡ next_delay m w.retry_delay
unfolding finish_publish_worker
retry_delay-finish m paths error w = ground arith

retry_delay-failures-iterate :
    (m : Manager) (w : Worker) (fs : List (List Str × Str))
    → (failures m w fs).retry_delay ≡ iterate m w.retry_delay (length fs)
retry_delay-failures-iterate m w [] = refl
retry_delay-failures-iterate m w ((paths, error) ∷ fs) =
    retry_delay-failures-iterate m (finish_publish_worker m paths (some error) w) fs
    ∙ ap (λ d. iterate m d (length fs)) (retry_delay-finish m paths error w)

two_pow : (n : ℕ) → 0 < 2 ^ n
two_pow zero = omega arith
two_pow (suc n) = omega (arith, pow-suc 2 n, two_pow n)

double_pos : (n : ℕ) → n < 2 ^ 62 → double_int64 (pos n) ≡ pos (2 * n)
unfolding double_int64
double_pos n h = ground arith

module _ (m : Manager) (base maximum : ℕ) (is_base : m.retry_base ≡ pos base)
    (is_maximum : m.retry_max ≡ pos maximum) (started : 0 < base) (ordered : base ≤ maximum)
    (fits : maximum < 2 ^ 62) where
  next_delay_first : next_delay m (pos 0) ≡ pos base
  unfolding next_delay
  next_delay_first = ground (arith, is_base)

  next_delay_more : (n : ℕ) → 0 < n → n ≤ maximum → next_delay m (pos n) ≡ pos (min (2 * n) maximum)
  unfolding next_delay
  next_delay_more n p q = ground (arith, is_maximum, double_pos n)

  iterate_closed : (n : ℕ) → iterate m (pos 0) (suc n) ≡ pos (min (base * 2 ^ n) maximum)
  iterate_closed zero = rw next_delay_first (ap pos (omega arith))
  iterate_closed (suc n) =
      let x : ℕ = min (base * 2 ^ n) maximum in
      let p : 0 < base * 2 ^ n = mul-pos started (two_pow n) in
      delays-shift m (pos 0) (suc n)
      ∙ rw (iterate_closed n, next_delay_more x (omega arith) (omega arith))
          (ap pos (omega (arith, ap (λ (t : ℕ). base * t) (pow-suc 2 n), mul_assoc base (2 ^ n) 2)))

  -- The first failure sets the retry delay to the base, each further one in a row doubles it, and it
  -- stays at the maximum: for a base that is positive and at most the maximum, and a maximum below 2^62.
  pub retry_delay-failures :
      (w : Worker) (first : List Str × Str) (more : List (List Str × Str))
      → w.retry_delay ≡ pos 0
      → (failures m w (first ∷ more)).retry_delay ≡ pos (min (base * 2 ^ length more) maximum)
  retry_delay-failures w first more rest =
      retry_delay-failures-iterate m w (first ∷ more) ∙ rw rest (iterate_closed (length more))
