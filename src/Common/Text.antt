-- ===== src/Common/Text.antt =====
-- Texts: joining, decimal numbers, and the patterns of identifiers.
use Prim.Native.Nat.{ℕ, zero, suc, ◌+◌, ◌-◌, ◌*◌, ◌/◌, ◌%◌}
use Prim.Native.Char.{code}
use Prim.Native.String
use Prim.Native.String.{String}
use mathlib.Core.Bool.{Bool, true, false, ◌&&◌, ◌||◌}
use mathlib.Core.Option.{Option, none, some}
use mathlib.Core.List.{List, [], ◌∷◌}
use telconet_sentinel.Common.Tests.{ltb, leb, nat_beq, if◌then◌else◌}
use telconet_sentinel.Common.Lists.{length}
use telconet_sentinel.Common.Names.{codes}

infixr 65 ◌<>◌
abbrev pub ◌<>◌ : String → String → String
s <> t = String.◌++◌ s t

unfoldable pub digit : ℕ → String
digit zero = "0"
digit (suc zero) = "1"
digit (suc (suc zero)) = "2"
digit (suc (suc (suc zero))) = "3"
digit (suc (suc (suc (suc zero)))) = "4"
digit (suc (suc (suc (suc (suc zero))))) = "5"
digit (suc (suc (suc (suc (suc (suc zero)))))) = "6"
digit (suc (suc (suc (suc (suc (suc (suc zero))))))) = "7"
digit (suc (suc (suc (suc (suc (suc (suc (suc zero)))))))) = "8"
digit (suc (suc (suc (suc (suc (suc (suc (suc (suc n))))))))) = "9"

unfoldable pub decimal_within : ℕ → ℕ → String
decimal_within zero n = ""
decimal_within (suc fuel) n =
    let front = decimal_within fuel (n / 10) in
    if ltb n 10 then digit n else front <> digit (n % 10)

-- `str(n)`; a number has no more digits than its value and one.
unfoldable pub decimal : ℕ → String
decimal n = decimal_within (suc n) n

abbrev pub is_lower : ℕ → Bool
is_lower c = leb b'a' c && leb c b'z'

abbrev pub is_digit : ℕ → Bool
is_digit c = leb b'0' c && leb c b'9'

unfoldable pub all_codes : (ℕ → Bool) → List ℕ → Bool
all_codes p [] = true
all_codes p (c ∷ cs) = p c && all_codes p cs

unfoldable pub matches_codes : (ℕ → Bool) → ℕ → List ℕ → Bool
matches_codes allowed limit [] = false
matches_codes allowed limit (c ∷ cs) = is_lower c && all_codes allowed cs && leb (length cs) limit

-- `[a-z][...]{0,limit}`, of a whole text
unfoldable pub is_identifier : (ℕ → Bool) → ℕ → String → Bool
is_identifier allowed limit s = matches_codes allowed limit (codes s)

abbrev pub is_upper : ℕ → Bool
is_upper c = leb b'A' c && leb c b'Z'

-- `c.lower()`, for the letters of ASCII and for the other sign whose lower case is one of them, that
-- of the kelvin.
abbrev pub lower_code : ℕ → ℕ
lower_code c = if is_upper c then c + 32 else if nat_beq c 8490 then b'k' else c

-- The codes of a node's name and of a link's id after their first letter.
abbrev pub is_name_code : ℕ → Bool
is_name_code c = is_lower c || is_digit c || nat_beq c b'-'

abbrev pub is_hex_code : ℕ → Bool
is_hex_code c = is_digit c || (leb b'a' c && leb c b'f')

-- `[0-9a-f]{n}`, of a whole text
unfoldable pub is_hex : ℕ → String → Bool
is_hex n s = all_codes is_hex_code (codes s) && nat_beq (length (codes s)) n

-- The codes that follow a prefix.
unfoldable pub after_codes : List ℕ → List ℕ → Option (List ℕ)
after_codes [] cs = some cs
after_codes (p ∷ ps) [] = none
after_codes (p ∷ ps) (c ∷ cs) = let rest = after_codes ps cs in if nat_beq p c then rest else none

unfoldable pub after : String → String → Option (List ℕ)
after prefix s = after_codes (codes prefix) (codes s)

-- `s.split(separator)`, on the codes
unfoldable pub split_codes : ℕ → List ℕ → List (List ℕ)
split_codes separator [] = [] ∷ []
split_codes separator (c ∷ cs) =
    let parts = split_codes separator cs in
    if nat_beq c separator then [] ∷ parts else before_first c parts
  where
    before_first : ℕ → List (List ℕ) → List (List ℕ)
    before_first c [] = (c ∷ []) ∷ []
    before_first c (part ∷ parts) = (c ∷ part) ∷ parts

-- The text before the first `separator`.
unfoldable pub text_before : ℕ → String → String
text_before separator String.[] = ""
text_before separator (String.◌∷◌ c s) =
    let rest = text_before separator s in
    if nat_beq (code c) separator then "" else String.◌∷◌ c rest

-- The number that decimal digits write, from the one before them.
unfoldable pub number_of : ℕ → List ℕ → ℕ
number_of n [] = n
number_of n (c ∷ cs) = number_of (n * 10 + (c - b'0')) cs

-- `separator.join(parts)`
unfoldable pub join : String → List String → String
join separator [] = ""
join separator (s ∷ []) = s
join separator (s ∷ t ∷ rest) = s <> separator <> join separator (t ∷ rest)

-- The text after the first `separator`, if there is one.
unfoldable pub text_after : ℕ → String → Option String
text_after separator String.[] = none
text_after separator (String.◌∷◌ c s) =
    let rest = text_after separator s in if nat_beq (code c) separator then some s else rest

-- `s.count(c)`
unfoldable pub count_code : ℕ → List ℕ → ℕ
count_code c [] = 0
count_code c (d ∷ ds) = (if nat_beq c d then 1 else 0) + count_code c ds

-- The escapes of a label of Prometheus: each replacement leaves the results of the others alone.
unfoldable pub escape_label : String → String
escape_label String.[] = ""
escape_label (String.◌∷◌ c s) =
    let rest = escape_label s in
    if nat_beq (code c) 92
    then "\\\\" <> rest
    else if nat_beq (code c) 10
    then "\\n" <> rest
    else if nat_beq (code c) 34
    then "\\\"" <> rest
    else String.◌∷◌ c rest

-- `c.isspace()`
abbrev pub is_space : ℕ → Bool
is_space c =
    (leb 9 c && leb c 13)
    || (leb 28 c && leb c 32)
    || nat_beq c 133
    || nat_beq c 160
    || nat_beq c 5760
    || (leb 8192 c && leb c 8202)
    || nat_beq c 8232
    || nat_beq c 8233
    || nat_beq c 8239
    || nat_beq c 8287
    || nat_beq c 12288

unfoldable pub strip_left : List ℕ → List ℕ
strip_left [] = []
strip_left (c ∷ cs) = let rest = strip_left cs in if is_space c then rest else c ∷ cs

unfoldable pub strip_right : List ℕ → List ℕ
strip_right [] = []
strip_right (c ∷ cs) = put c (strip_right cs)
  where
    put : ℕ → List ℕ → List ℕ
    put c [] = if is_space c then [] else c ∷ []
    put c (d ∷ ds) = c ∷ d ∷ ds

-- `s.strip()`, on the codes
abbrev pub strip : List ℕ → List ℕ
strip cs = strip_right (strip_left cs)
