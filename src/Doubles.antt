-- ===== src/Doubles.antt =====
-- Numbers as the language has them: a whole number that is not negative, rounded to 53 bits, or infinity; and
-- the text of one, with the fewest digits that are read as it.
use Prim.Native.Nat.{◌/◌, ◌%◌, ◌^◌}
use mathlib.Core.List.{reverse}
use l4_ide.Prelude.{
  ℕ, zero, suc, ◌+◌, ◌*◌, ◌-◌, ◌<◌, Bool, true, false, ◌&&◌, ◌||◌, List, [], ◌∷◌, ◌++◌, ◌≡◌, refl,
  arith, if◌then◌else◌, leb, ltb, ◌==◌, length,
}
use l4_ide.Digits.{digits_from, last_digits}
use l4_ide.Protocol.{codes}

pub data Number : Type 0 where
  finite : ℕ → Number
  infinite : Number

-- Below this, every whole number is one.
abbrev pub exact_limit : ℕ
exact_limit = 9007199254740992

abbrev infinity_limit : ℕ
infinity_limit = 2 ^ 1024

-- The power of two that leaves 53 bits, which is at most the fuel's.
unfoldable pub scale_from : ℕ → ℕ → ℕ → ℕ
scale_from zero n scale = scale
scale_from (suc fuel) n scale =
    let more = scale_from fuel n (2 * scale) in if ltb (n / scale) exact_limit then scale else more

-- The nearest multiple, the even one of two.
unfoldable pub nearest : ℕ → ℕ → ℕ
nearest n unit =
    let q = n / unit in
    let r = n % unit in
    if ltb unit (2 * r) || (unit == 2 * r && q % 2 == 1) then (q + 1) * unit else q * unit

unfoldable pub to_number : ℕ → Number
unfolding nearest scale_from
to_number n =
    if ltb n exact_limit
    then finite n
    else (let d = nearest n (scale_from 1024 n 1) in
        if leb infinity_limit d then infinite else finite d)

abbrev pub plus_number : ℕ → Number → Number
unfolding to_number
plus_number k (finite n) = to_number (k + n)
plus_number k infinite = infinite

-- A difference that is not negative.
abbrev pub minus_number : Number → ℕ → Number
unfolding to_number
minus_number (finite n) k = to_number (n - k)
minus_number infinite k = infinite

abbrev is_number : Number → ℕ → Bool
is_number (finite m) n = m == n
is_number infinite n = false

-- The next multiple on the other side.
abbrev other_side : ℕ → ℕ → ℕ
unfolding nearest
other_side n unit =
    let q = n / unit in if nearest n unit == q * unit then (q + 1) * unit else q * unit

-- The nearest number with few digits that is read as `n`; 17 digits are always enough.
unfoldable pub shortest_from : ℕ → ℕ → ℕ → ℕ
unfolding nearest to_number
shortest_from zero unit n = n
shortest_from (suc fuel) unit n =
    let more = shortest_from fuel (unit / 10) n in
    if is_number (to_number (nearest n unit)) n
    then nearest n unit
    else if is_number (to_number (other_side n unit)) n
    then other_side n unit
    else more

unfoldable pub without_zeros : List ℕ → List ℕ
without_zeros [] = []
without_zeros (c ∷ cs) = if c == 48 then without_zeros cs else c ∷ cs

abbrev pub fraction_text : List ℕ → List ℕ
fraction_text [] = []
fraction_text (c ∷ cs) = 46 ∷ c ∷ cs

-- With an exponent, from the digits that count.
abbrev pub exponent_text : ℕ → List ℕ → List ℕ
unfolding digits_from
exponent_text e [] = []
exponent_text e (c ∷ cs) = c ∷ fraction_text cs ++ (codes "e+" ++ reverse (last_digits e))

unfoldable pub number_text : Number → List ℕ
unfolding digits_from shortest_from without_zeros
number_text infinite = codes "Infinity"
number_text (finite n) =
    if ltb n exact_limit
    then reverse (last_digits n)
    else (let d = shortest_from 17 (10 ^ (length (last_digits n) - 1)) n in
        if ltb d 1000000000000000000000
        then reverse (last_digits d)
        else exponent_text (length (last_digits d) - 1) (reverse (without_zeros (last_digits d))))

pub if_true {ℓ} : {A : Type ℓ} (b : Bool) (x y : A) → b ≡ true → (if b then x else y) ≡ x
if_true true x y e = refl
if_true false x y e = absurd (cc)

pub if_false {ℓ} : {A : Type ℓ} (b : Bool) (x y : A) → b ≡ false → (if b then x else y) ≡ y
if_false true x y e = absurd (cc)
if_false false x y e = refl

pub to_number-exact : (n : ℕ) → n < exact_limit → to_number n ≡ finite n
unfolding to_number
to_number-exact n h = let e : ltb n exact_limit ≡ true = ground (arith, h) in rw e refl

pub number_text-exact : (n : ℕ) → n < exact_limit → number_text (finite n) ≡ reverse (last_digits n)
unfolding number_text
number_text-exact n h = if_true (ltb n exact_limit) (reverse (last_digits n)) _ (ground (arith, h))
