-- ===== src/Digits.antt =====
-- Decimal numbers in texts, by code units: what `${n}` prints, and what a pattern's digits are read as.
use Prim.Native.Nat.{◌/◌, ◌%◌}
use mathlib.Core.List.{reverse, reverse-cons, reverse-reverse}
use l4_ide.Prelude.{
  ℕ, zero, suc, ◌+◌, ◌*◌, ◌-◌, ◌≤◌, ◌<◌, Bool, true, false, ◌&&◌, List, [], ◌∷◌, ◌++◌, ◌≡◌, refl,
  ap, ◌∙◌, arith, if◌then◌else◌, leb, ltb, length, length-append, Bool-cases, inl, inr,
}

abbrev pub is_digit : ℕ → Bool
is_digit c = leb 48 c && leb c 57

-- The digits of a number, the last one first, with as many steps as the number.
unfoldable pub digits_from : ℕ → ℕ → List ℕ
digits_from zero n = []
digits_from (suc left) n =
    let rest = digits_from left (n / 10) in (48 + n % 10) ∷ (if ltb n 10 then [] else rest)

abbrev pub last_digits : ℕ → List ℕ
unfolding digits_from
last_digits n = digits_from (suc n) n

-- The number of some digits, the last one first.
unfoldable pub number_of : List ℕ → ℕ
number_of [] = 0
number_of (c ∷ cs) = (c - 48) + 10 * number_of cs

-- The digits at the start of a text, and the rest.
unfoldable pub span_digits : List ℕ → List ℕ × List ℕ
span_digits [] = ([], [])
span_digits (c ∷ s) =
    let rest = span_digits s in if is_digit c then (c ∷ rest.0, rest.1) else ([], c ∷ s)

pub number_of-digits_from : (left n : ℕ) → n < left → number_of (digits_from left n) ≡ n
unfolding number_of digits_from
number_of-digits_from zero n h = absurd (omega arith)
number_of-digits_from (suc left) n h = elim (Bool-cases (ltb n 10)) [
  | inl e ↦ rw e (ground arith)
  | inr e ↦
      let smaller : n / 10 < left = ground arith in
      rw (e, number_of-digits_from left (n / 10) smaller) (omega arith)
]

abbrev pub AreDigits : List ℕ → Type 0
AreDigits [] = Unit
AreDigits (c ∷ cs) = (is_digit c ≡ true) × AreDigits cs

pub digits_from-AreDigits : (left n : ℕ) → AreDigits (digits_from left n)
unfolding digits_from
digits_from-AreDigits zero n = tt
digits_from-AreDigits (suc left) n =
    (ground arith, by_test (ltb n 10) (digits_from-AreDigits left (n / 10)))
  where
    by_test :
        (b : Bool)
        → AreDigits (digits_from left (n / 10))
        → AreDigits (if b then [] else digits_from left (n / 10))
    by_test true ih = tt
    by_test false ih = ih

pub span_digits_lem :
    (ds : List ℕ) (c : ℕ) (s : List ℕ)
    → AreDigits ds
    → is_digit c ≡ false
    → span_digits (ds ++ (c ∷ s)) ≡ (ds, c ∷ s)
unfolding span_digits
span_digits_lem [] c s a h = rw h refl
span_digits_lem (d ∷ ds) c s a h = rw (a.0, span_digits_lem ds c s a.1 h) refl

unfoldable pub tens : ℕ → ℕ
tens zero = 1
tens (suc k) = 10 * tens k

pub digits_from-length : (left n k : ℕ) → n < tens (suc k) → length (digits_from left n) ≤ suc k
unfolding digits_from tens
digits_from-length zero n k h = omega arith
digits_from-length (suc left) n zero h =
    let one : ltb n 10 ≡ true = ground arith in rw one (omega arith)
digits_from-length (suc left) n (suc k) h =
    let ih = digits_from-length left (n / 10) k (omega arith) in
    elim (Bool-cases (ltb n 10)) [ inl e ↦ rw e (omega arith) | inr e ↦ rw e (omega (arith, ih)) ]

pub length-reverse : (s : List ℕ) → length (reverse s) ≡ length s
length-reverse [] = refl
length-reverse (c ∷ s) =
    ap length (reverse-cons c s)
    ∙ length-append (reverse s) (c ∷ [])
    ∙ omega (arith, length-reverse s)

-- The text of a number.
unfoldable pub decimal : ℕ → List ℕ
unfolding digits_from
decimal n = reverse (last_digits n)

digits_from-long : (left n k : ℕ) → n < left → tens k ≤ n → suc k ≤ length (digits_from left n)
unfolding digits_from tens
digits_from-long zero n k h le = absurd (omega (arith, h))
digits_from-long (suc left) n zero h le = omega arith
digits_from-long (suc left) n (suc k) h le =
    let long : ltb n 10 ≡ false = ten_up n (tens k) (tens_up k) le in
    let ih = digits_from-long left (n / 10) k (ground (arith, h, long)) (omega (arith, le)) in
    rw long (omega (arith, ih))
  where
    ten_up : (n m : ℕ) → 1 ≤ m → 10 * m ≤ n → ltb n 10 ≡ false
    ten_up n m one le = ground (arith, one, le)

    tens_up : (k : ℕ) → 1 ≤ tens k
    tens_up zero = omega arith
    tens_up (suc k) = let ih = tens_up k in omega (arith, ih)

AreDigits-append : (a b : List ℕ) → AreDigits a → AreDigits b → AreDigits (a ++ b)
AreDigits-append [] b h g = g
AreDigits-append (c ∷ a) b h g = (h.0, AreDigits-append a b h.1 g)

AreDigits-reverse : (s : List ℕ) → AreDigits s → AreDigits (reverse s)
AreDigits-reverse [] h = tt
AreDigits-reverse (c ∷ s) h =
    rw reverse-cons (AreDigits-append (reverse s) (c ∷ []) (AreDigits-reverse s h.1) (h.0, tt))

pub decimal-AreDigits : (n : ℕ) → AreDigits (decimal n)
unfolding decimal
decimal-AreDigits n = AreDigits-reverse (last_digits n) (digits_from-AreDigits (suc n) n)

-- The text of a number is read as this number.
pub number_of-decimal : (n : ℕ) → number_of (reverse (decimal n)) ≡ n
unfolding decimal
number_of-decimal n =
    ap number_of (reverse-reverse (last_digits n)) ∙ number_of-digits_from (suc n) n (omega arith)

-- It has as many digits as the powers of ten say.
pub decimal-short : (n k : ℕ) → n < tens (suc k) → length (decimal n) ≤ suc k
unfolding decimal
decimal-short n k h =
    let le = digits_from-length (suc n) n k h in
    let same = length-reverse (last_digits n) in omega (arith, le, same)

pub decimal-long : (n k : ℕ) → tens k ≤ n → suc k ≤ length (decimal n)
unfolding decimal
decimal-long n k h =
    let le = digits_from-long (suc n) n k (omega arith) h in
    let same = length-reverse (last_digits n) in omega (arith, le, same)

pub decimal-some : (n : ℕ) → 1 ≤ length (decimal n)
unfolding decimal digits_from
decimal-some n = let same = length-reverse (last_digits n) in omega (arith, same)

pub span_digits_all : (ds : List ℕ) → AreDigits ds → span_digits ds ≡ (ds, [])
unfolding span_digits
span_digits_all [] h = refl
span_digits_all (d ∷ ds) h = rw (h.0, span_digits_all ds h.1) refl
