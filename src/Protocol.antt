-- ===== src/Protocol.antt =====
-- ts-shared/legalese-agent/src/protocol: the JSON values that the checks of the protocol read, and their fields.
-- A text is the list of its code units. A number that is not whole, or is none, is told apart by a number.
pub mod Validate
pub mod Patterns
pub mod Events
pub mod Commands
pub mod Settled
pub mod Objects
pub mod Spread
pub mod Variants
pub mod Chunks
pub mod Chunked
pub mod Tagged
pub mod Reader
pub mod Declared
pub mod Stored
pub mod Numbers
pub mod Printed
use Prim.Native.String.{String}
use Prim.Native.Char.{code}
use text.Mathlib.Text.{◌==◌}
use l4_ide.Prelude.{ℕ, Bool, true, false, List, [], ◌∷◌, ◌++◌, suc, if◌then◌else◌, ◌+◌}

mutual
  pub data Value : Type 0 where
    undefined null_value : Value
    boolean : Bool → Value
    whole : ℕ → Value
    negative : ℕ → Value
    fraction : ℕ → Value
    string : List ℕ → Value
    array : Items → Value
    object : Fields → Value

  pub data Items : Type 0 where
    nil : Items
    cons : Value → Items → Items

  pub data Fields : Type 0 where
    end : Fields
    field : String → Value → Fields → Fields

abbrev pub codes : String → List ℕ
codes String.[] = []
codes (String.◌∷◌ c s) = code c ∷ codes s

abbrev pub is_named : String → String → Bool
is_named j k = j == k

-- A property of an object, or undefined.
abbrev pub get : String → Fields → Value
get k end = undefined
get k (field j v fs) = if j == k then v else get k fs

-- `{ ...o, [k]: v }`
abbrev pub put : String → Value → Fields → Fields
put k v end = field k v end
put k v (field j w fs) = if j == k then field k v fs else field j w (put k v fs)

-- `{ ...a, ...b }`
abbrev pub spread : Fields → Fields → Fields
spread a end = a
spread a (field k v b) = spread (put k v a) b

abbrev pub count : Items → ℕ
count nil = 0
count (cons v xs) = suc (count xs)

abbrev pub is_nullish : Value → Bool
is_nullish undefined = true
is_nullish null_value = true
is_nullish _ = false
