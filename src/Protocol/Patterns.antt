-- ===== src/Protocol/Patterns.antt =====
-- common.ts, events.ts and files.ts: the patterns of the protocol's texts, by code units.
use l4_ide.Prelude.{
  ℕ, Bool, true, false, not, ◌&&◌, ◌||◌, List, [], ◌∷◌, if◌then◌else◌, ltb, leb, ◌==◌, length, take,
  drop,
}
use l4_ide.Protocol.{codes}
use l4_ide.Protocol.Validate.{same_text}

abbrev pub every {ℓ} : {A : Type ℓ} → (A → Bool) → List A → Bool
every p [] = true
every p (x ∷ xs) = p x && every p xs

abbrev within : ℕ → ℕ → ℕ → Bool
within low high c = leb low c && leb c high

abbrev is_digit : ℕ → Bool
is_digit = within 48 57

-- `\w`
abbrev is_word : ℕ → Bool
is_word c = is_digit c || within 65 90 c || within 97 122 c || c == 95

abbrev has_length : ℕ → ℕ → List ℕ → Bool
has_length least most s = within least most (length s)

-- OPAQUE_ID_RE
abbrev pub is_opaque_id : List ℕ → Bool
is_opaque_id s = has_length 1 128 s && every (λ c. is_word c || c == 46 || c == 58 || c == 45) s

-- GIT_SHA_RE
abbrev pub is_git_sha : List ℕ → Bool
is_git_sha s = (length s == 40 || length s == 64) && every (λ c. is_digit c || within 97 102 c) s

-- ULID_RE
abbrev pub is_ulid : List ℕ → Bool
is_ulid [] = false
is_ulid (c ∷ s) =
    within 48 55 c
    && length s == 25
    && every
        (λ x.
          is_digit x
          || within 65 72 x
          || x == 74
          || x == 75
          || x == 77
          || x == 78
          || within 80 84 x
          || within 86 90 x)
        s

-- No path separator, and no end of a line or of a text.
abbrev is_plain : ℕ → Bool
is_plain c = not (c == 92 || c == 0 || c == 13 || c == 10)

abbrev starts_with_dot : List ℕ → Bool
starts_with_dot [] = false
starts_with_dot (c ∷ s) = c == 46

-- FILE_NAME_RE
abbrev pub is_file_name : List ℕ → Bool
is_file_name s =
    not (starts_with_dot s) && has_length 1 255 s && every (λ c. is_plain c && not (c == 47)) s

-- `/^[A-Za-z0-9_-]+$/`, where the length is checked too.
abbrev pub is_base64url : List ℕ → Bool
is_base64url s = leb 1 (length s) && every (λ c. is_word c || c == 45) s

abbrev pub onto_first : ℕ → List (List ℕ) → List (List ℕ)
onto_first c [] = (c ∷ []) ∷ []
onto_first c (s ∷ parts) = (c ∷ s) ∷ parts

-- `s.split(sep)`, for a separator of one code unit.
abbrev pub split_on : ℕ → List ℕ → List (List ℕ)
split_on sep [] = [] ∷ []
split_on sep (c ∷ s) =
    let parts = split_on sep s in if c == sep then [] ∷ parts else onto_first c parts

-- `s.split('/')`
abbrev pub split_slash : List ℕ → List (List ℕ)
split_slash s = split_on 47 s

abbrev is_type_part : List ℕ → Bool
is_type_part s = leb 1 (length s) && every (λ c. is_word c || c == 46 || c == 43 || c == 45) s

-- The pattern of an attachment's content type.
abbrev pub is_content_type : List ℕ → Bool
is_content_type s = length (split_slash s) == 2 && every is_type_part (split_slash s)

abbrev is_path_part : List ℕ → Bool
is_path_part s =
    not (length s == 0 || same_text s (codes ".") || same_text s (codes "..") || ltb 255 (length s))
    && every is_plain s

-- `repoRelativePath`, which throws where this is false.
abbrev pub is_repo_relative_path : List ℕ → Bool
is_repo_relative_path s =
    not (length s == 0 || ltb 1024 (length s)) && every is_path_part (split_slash s)

abbrev first_is : List ℕ → List (List ℕ) → Bool
first_is name [] = false
first_is name (s ∷ parts) = same_text s name

abbrev pub is_repo_data_path : List ℕ → Bool
is_repo_data_path s =
    is_repo_relative_path s
    && leb 2 (length (split_slash s))
    && first_is (codes "data") (split_slash s)

-- `<ulid>.bundle`
abbrev pub is_bundle_name : List ℕ → Bool
is_bundle_name s = is_ulid (take 26 s) && same_text (drop 26 s) (codes ".bundle")

abbrev is_sealed_part : ℕ → ℕ → List ℕ → Bool
is_sealed_part least most s = has_length least most s && every (λ c. is_word c || c == 45) s

abbrev pub sealed_string_max : ℕ
sealed_string_max = 1000100

abbrev are_sealed_parts : List (List ℕ) → Bool
are_sealed_parts (v ∷ epk ∷ iv ∷ ct ∷ tag ∷ []) =
    same_text v (codes "v1")
    && is_sealed_part 43 43 epk
    && is_sealed_part 16 16 iv
    && is_sealed_part 0 sealed_string_max ct
    && is_sealed_part 22 22 tag
are_sealed_parts _ = false

-- SEALED_STRING_RE and the longest text that is accepted.
abbrev pub is_sealed_string : List ℕ → Bool
is_sealed_string s = leb (length s) sealed_string_max && are_sealed_parts (split_on 46 s)
