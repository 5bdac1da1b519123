-- ===== src/TextPositions/Search.antt =====
-- text-positions.ts: the starts of lines ascend, and the binary search finds the last one up to an offset.
use Prim.Native.Nat.{◌/◌}
use l4_ide.Prelude.{
  ℕ, zero, suc, ◌+◌, ◌-◌, ◌≤◌, ◌<◌, Bool, true, false, ◌&&◌, ◌||◌, List, [], ◌∷◌, ◌≡◌, refl, arith,
  ◌==◌, if◌then◌else◌, ltb, leb, length, Bool-cases, inl, inr,
}
use l4_ide.TextPositions.{code_at, starts_from, line_starts, start_at, last_start}

-- Each number is greater than the one before, the first greater than `n`.
abbrev pub IsAfter : ℕ → List ℕ → Type 0
IsAfter n [] = Unit
IsAfter n (x ∷ xs) = (n < x) × IsAfter x xs

IsAfter-less : (m n : ℕ) (xs : List ℕ) → m ≤ n → IsAfter n xs → IsAfter m xs
IsAfter-less m n [] h a = tt
IsAfter-less m n (x ∷ xs) h a = let a0 = a.0 in (omega arith, a.1)

starts_from-IsAfter : (i : ℕ) (text : List ℕ) → IsAfter i (starts_from i text)
unfolding starts_from
starts_from-IsAfter i [] = tt
starts_from-IsAfter i (c ∷ []) = by_test ((c == 13) || (c == 10))
  where
    by_test : (b : Bool) → IsAfter i (if b then (i + 1) ∷ [] else [])
    by_test true = (omega arith, tt)
    by_test false = tt
starts_from-IsAfter i (c ∷ d ∷ cs) =
    by_tests ((c == 13) && (d == 10)) ((c == 13) || (c == 10)) (starts_from (i + 2) cs)
      (starts_from (i + 1) (d ∷ cs)) (starts_from-IsAfter (i + 2) cs)
      (starts_from-IsAfter (i + 1) (d ∷ cs))
  where
    by_tests :
        (b c : Bool) (xs ys : List ℕ)
        → IsAfter (i + 2) xs
        → IsAfter (i + 1) ys
        → IsAfter i (if b then (i + 2) ∷ xs else if c then (i + 1) ∷ ys else ys)
    by_tests true c xs ys p q = (omega arith, p)
    by_tests false true xs ys p q = (omega arith, q)
    by_tests false false xs ys p q = IsAfter-less i (i + 1) ys (omega arith) q

start_at-after : (n : ℕ) (xs : List ℕ) (i : ℕ) → IsAfter n xs → i < length xs → n < start_at xs i
unfolding code_at
start_at-after n [] i a h = absurd (omega arith)
start_at-after n (x ∷ xs) zero a h = a.0
start_at-after n (x ∷ xs) (suc i) a h =
    let ih = start_at-after x xs i a.1 (omega arith) in let a0 = a.0 in omega arith

-- A later line starts at a greater offset.
start_at_mono :
    (xs : List ℕ) (n i j : ℕ) → IsAfter n xs → i < j → j < length xs → start_at xs i < start_at xs j
unfolding code_at
start_at_mono [] n i j a h k = absurd (omega arith)
start_at_mono (x ∷ xs) n zero zero a h k = absurd (omega arith)
start_at_mono (x ∷ xs) n zero (suc j) a h k = start_at-after x xs j a.1 (omega arith)
start_at_mono (x ∷ xs) n (suc i) zero a h k = absurd (omega arith)
start_at_mono (x ∷ xs) n (suc i) (suc j) a h k =
    start_at_mono xs x i j a.1 (omega arith) (omega arith)

pub line_starts_mono :
    (text : List ℕ) (i j : ℕ)
    → i < j
    → j < length (line_starts text)
    → start_at (line_starts text) i < start_at (line_starts text) j
unfolding line_starts code_at
line_starts_mono text zero zero h k = absurd (omega arith)
line_starts_mono text zero (suc j) h k =
    start_at-after 0 (starts_from 0 text) j (starts_from-IsAfter 0 text) (omega arith)
line_starts_mono text (suc i) zero h k = absurd (omega arith)
line_starts_mono text (suc i) (suc j) h k =
    start_at_mono (starts_from 0 text) 0 i j (starts_from-IsAfter 0 text) (omega arith)
      (omega arith)

-- The line that an offset stands in.
pub record IsLineOf (starts : List ℕ) (offset r : ℕ) : Type 0 where
  pub in_range : r < length starts
  pub starts_before : start_at starts r ≤ offset
  pub last : (j : ℕ) → r < j → j < length starts → offset < start_at starts j

module _ (starts : List ℕ) (offset : ℕ)
    (rising : (i j : ℕ) → i < j → j < length starts → start_at starts i < start_at starts j) where
  -- From a line that starts past the offset on, all do.
  start_at_above :
      (m j : ℕ)
      → m ≤ j
      → j < length starts
      → offset < start_at starts m
      → offset < start_at starts j
  start_at_above m j h k p = elim (Bool-cases (j == m)) [
    | inl e ↦ let same : j ≡ m = ground arith in rw same p
    | inr e ↦ let r = rising m j (ground arith) k in omega arith
  ]

  pub last_start-IsLineOf :
      (fuel lo hi : ℕ)
      → lo ≤ hi
      → hi < length starts
      → hi - lo < fuel
      → start_at starts lo ≤ offset
      → ((j : ℕ) → hi < j → j < length starts → offset < start_at starts j)
      → IsLineOf starts offset (last_start fuel starts offset lo hi)
  unfolding last_start
  last_start-IsLineOf zero lo hi h k f below above = absurd (omega arith)
  last_start-IsLineOf (suc fuel) lo hi h k f below above =
      by_tests (ltb lo hi) (leb (start_at starts ((lo + hi + 1) / 2)) offset) refl refl
        (λ t u.
          last_start-IsLineOf fuel ((lo + hi + 1) / 2) hi (ground arith) k (ground arith)
            (ground arith) above)
        (λ t u.
          last_start-IsLineOf fuel lo ((lo + hi + 1) / 2 - 1) (ground arith) (ground arith)
            (ground arith) below
            (λ j p q. start_at_above ((lo + hi + 1) / 2) j (omega arith) q (ground arith)))
    where
      by_tests :
          (b c : Bool)
          → ltb lo hi ≡ b
          → leb (start_at starts ((lo + hi + 1) / 2)) offset ≡ c
          → (ltb lo hi ≡ true
              → leb (start_at starts ((lo + hi + 1) / 2)) offset ≡ true
              → IsLineOf starts offset (last_start fuel starts offset ((lo + hi + 1) / 2) hi))
          → (ltb lo hi ≡ true
              → leb (start_at starts ((lo + hi + 1) / 2)) offset ≡ false
              → IsLineOf starts offset (last_start fuel starts offset lo ((lo + hi + 1) / 2 - 1)))
          → IsLineOf starts offset (
              if b
              then (if c
                  then last_start fuel starts offset ((lo + hi + 1) / 2) hi
                  else last_start fuel starts offset lo ((lo + hi + 1) / 2 - 1))
              else lo)
      by_tests true true p q right left = right p q
      by_tests true false p q right left = left p q
      by_tests false c p q right left = record {
        in_range = omega arith;
        starts_before = below;
        last = λ j g. above j (ground arith);
      }
