-- ===== src/Release/Patterns.antt =====
-- The regular expressions of pstack_release.py and release_controller.py, with `fullmatch`.
use tugling.Prelude.{
  codes, ℕ, ◌++◌, String, Bool, false, ◌&&◌, ◌||◌, List, [], ◌∷◌, all, length, leb, ◌==◌,
  if◌then◌else◌,
}

abbrev is_digit : ℕ → Bool
is_digit c = leb b'0' c && leb c b'9'

abbrev is_lower : ℕ → Bool
is_lower c = leb b'a' c && leb c b'z'

abbrev is_upper : ℕ → Bool
is_upper c = leb b'A' c && leb c b'Z'

abbrev is_hex : ℕ → Bool
is_hex c = is_digit c || (leb b'a' c && leb c b'f')

-- `SHA`: `[0-9a-f]{40}`
unfoldable pub is_sha : String → Bool
is_sha s = (length (codes s) == 40) && all is_hex (codes s)

-- `DIGEST`: `[0-9a-f]{64}`
unfoldable pub is_digest : String → Bool
is_digest s = (length (codes s) == 64) && all is_hex (codes s)

abbrev identifier_codes : List ℕ → Bool
identifier_codes [] = false
identifier_codes (c ∷ cs) =
    (is_lower c || is_digit c)
    && all (λ d. is_lower d || is_digit d || d == b'-') cs
    && leb (length cs) 79

-- `IDENTIFIER`: `[a-z0-9][a-z0-9-]{0,79}`
unfoldable pub is_identifier : String → Bool
is_identifier s = identifier_codes (codes s)

abbrev is_alphanumeric : ℕ → Bool
is_alphanumeric c = is_lower c || is_upper c || is_digit c

abbrev runtime_codes : List ℕ → Bool
runtime_codes [] = false
runtime_codes (c ∷ cs) =
    is_alphanumeric c
    && all (λ d. is_alphanumeric d || d == b'.' || d == b'_' || d == b' ' || d == b'-') cs
    && leb (length cs) 79

-- `RUNTIME`: `[A-Za-z0-9][A-Za-z0-9._ -]{0,79}`
unfoldable pub is_runtime_name : String → Bool
is_runtime_name s = runtime_codes (codes s)

-- `0|[1-9][0-9]*`
abbrev is_number : List ℕ → Bool
is_number [] = false
is_number (c ∷ []) = is_digit c
is_number (c ∷ d ∷ cs) = leb b'1' c && leb c b'9' && all is_digit (d ∷ cs)

-- The parts of a text between its dots.
split_dots : List ℕ → List ℕ → List (List ℕ)
split_dots part [] = part ∷ []
split_dots part (c ∷ cs) =
    let closed = split_dots [] cs in
    let open_ = split_dots (part ++ c ∷ []) cs in if c == b'.' then part ∷ closed else open_

-- `VERSION`: `(?:0|[1-9][0-9]*)(?:\.(?:0|[1-9][0-9]*)){2}`
unfoldable pub is_version : String → Bool
unfolding split_dots
is_version s = let parts = split_dots [] (codes s) in (length parts == 3) && all is_number parts

abbrev run_codes : List ℕ → Bool
run_codes [] = false
run_codes (c ∷ cs) = leb b'1' c && leb c b'9' && all is_digit cs && leb (length cs) 19

-- `[1-9][0-9]{0,19}`
unfoldable pub is_run_id : String → Bool
is_run_id s = run_codes (codes s)

-- `[0-9T:.+Z-]{20,40}`
unfoldable pub is_timestamp : String → Bool
is_timestamp s =
    leb 20 (length (codes s))
    && leb (length (codes s)) 40
    && all
        (λ c.
          is_digit c || c == b'T' || c == b':' || c == b'.' || c == b'+' || c == b'Z' || c == b'-')
        (codes s)

abbrev tag_codes : List ℕ → Bool
tag_codes [] = false
tag_codes (c ∷ cs) =
    is_alphanumeric c
    && all (λ d. is_alphanumeric d || d == b'.' || d == b'_' || d == b'-') cs
    && leb (length cs) 100

-- The text behind a prefix, if it is there.
abbrev behind : List ℕ → List ℕ → List ℕ
behind [] cs = cs
behind (p ∷ ps) [] = []
behind (p ∷ ps) (c ∷ cs) = let rest = behind ps cs in if p == c then rest else []

-- `CONTROLLER_TAG`: `controller-[A-Za-z0-9][A-Za-z0-9._-]{0,100}`
unfoldable pub is_controller_tag : String → Bool
is_controller_tag s = tag_codes (behind (codes "controller-") (codes s))
