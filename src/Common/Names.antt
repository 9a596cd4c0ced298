-- ===== src/Common/Names.antt =====
-- Sets of names as lists of texts without repetition, and the order of texts by code points.
use Prim.Native.Nat.{ℕ}
use Prim.Native.Char.{code}
use Prim.Native.String.{String}
use mathlib.Core.Path.{◌≡◌, refl, ap, ◌∙◌}
use mathlib.Core.Logic.{◌↔◌}
use mathlib.Core.Bool.{Bool, true, false, ◌&&◌, not}
use mathlib.Core.List.{List, [], ◌∷◌, ◌++◌, Memᴰ}
use mathlib.Core.List.Memᴰ
use native.Mathlib.Omega.{arith}
use text.Mathlib.Text.{◌==◌}
use text.Mathlib.TextEquality.{eq_iff, Char-path}
use text.Mathlib.TextPositions.{eq_refl}
use telconet_sentinel.Common.Tests.{ltb, if◌then◌else◌}
use telconet_sentinel.Common.Lists.{is_empty, Memᴰ-cons}

-- `x in names`
unfoldable pub contains : String → List String → Bool
contains x [] = false
contains x (y ∷ ys) = if y == x then true else contains x ys

-- `names.add(x)`; a new name goes to the end.
unfoldable pub add : String → List String → List String
add x xs = if contains x xs then xs else xs ++ x ∷ []

-- `set(names)` and `frozenset(names)`
unfoldable pub distinct : List String → List String
distinct [] = []
distinct (x ∷ xs) = let rest = distinct xs in if contains x rest then rest else x ∷ rest

-- `len(names) == len(set(names))`
unfoldable pub all_distinct : List String → Bool
all_distinct [] = true
all_distinct (x ∷ xs) = not (contains x xs) && all_distinct xs

-- `set(xs) <= set(ys)`
unfoldable pub subset : List String → List String → Bool
subset [] ys = true
subset (x ∷ xs) ys = contains x ys && subset xs ys

-- `set(xs) == set(ys)`
unfoldable pub same_names : List String → List String → Bool
same_names xs ys = subset xs ys && subset ys xs

-- The code points of a text, which is how texts are compared.
abbrev pub codes : String → List ℕ
codes String.[] = []
codes (String.◌∷◌ c s) = code c ∷ codes s

unfoldable pub codes_leb : List ℕ → List ℕ → Bool
codes_leb [] ds = true
codes_leb (c ∷ cs) [] = false
codes_leb (c ∷ cs) (d ∷ ds) = if ltb c d then true else if ltb d c then false else codes_leb cs ds

unfoldable pub name_leb : String → String → Bool
name_leb a b = codes_leb (codes a) (codes b)

pub contains-mem : (x : String) (xs : List String) → (contains x xs ≡ true) ↔ Memᴰ x xs
unfolding contains
contains-mem x [] = (λ h. absurd (ground arith), λ m. absurd (Memᴰ.not-nil m))
contains-mem x (y ∷ ys) = ground (arith, contains-mem x ys, eq_iff y x, Memᴰ-cons x y ys)

pub contains-cons :
    (x y : String) (ys : List String)
    → contains x (y ∷ ys) ≡ (if y == x then true else contains x ys)
unfolding contains
contains-cons x y ys = refl

pub contains-append_one :
    (x y : String) (ys : List String)
    → contains x (ys ++ y ∷ []) ≡ (if y == x then true else contains x ys)
unfolding contains
contains-append_one x y [] = refl
contains-append_one x y (z ∷ zs) = ground (arith, contains-append_one x y zs)

pub contains-add :
    (x y : String) (ys : List String)
    → contains x (add y ys) ≡ (if y == x then true else contains x ys)
unfolding add
contains-add x y ys = ground (arith, contains-append_one x y ys, eq_iff y x)

pub contains-distinct : (x : String) (xs : List String) → contains x (distinct xs) ≡ contains x xs
unfolding contains distinct
contains-distinct x [] = refl
contains-distinct x (y ∷ ys) = ground (arith, contains-distinct x ys, eq_iff y x)

-- The order is total, so that a sort by it is ordered.
codes_leb_total : (cs ds : List ℕ) → codes_leb cs ds ≡ false → codes_leb ds cs ≡ true
unfolding codes_leb
codes_leb_total [] ds h = absurd (ground arith)
codes_leb_total (c ∷ cs) [] h = refl
codes_leb_total (c ∷ cs) (d ∷ ds) h = ground (arith, codes_leb_total cs ds)

pub name_leb_total : (a b : String) → name_leb a b ≡ false → name_leb b a ≡ true
unfolding name_leb
name_leb_total a b h = codes_leb_total (codes a) (codes b) h

codes_leb_trans :
    (cs ds es : List ℕ) → codes_leb cs ds ≡ true → codes_leb ds es ≡ true → codes_leb cs es ≡ true
unfolding codes_leb
codes_leb_trans [] ds es h k = refl
codes_leb_trans (c ∷ cs) [] es h k = absurd (ground arith)
codes_leb_trans (c ∷ cs) (d ∷ ds) [] h k = absurd (ground arith)
codes_leb_trans (c ∷ cs) (d ∷ ds) (e ∷ es) h k = ground (arith, codes_leb_trans cs ds es)

pub name_leb_trans :
    (a b c : String) → name_leb a b ≡ true → name_leb b c ≡ true → name_leb a c ≡ true
unfolding name_leb
name_leb_trans a b c h k = codes_leb_trans (codes a) (codes b) (codes c) h k

pub contains-empty : (x : String) (xs : List String) → is_empty xs ≡ true → contains x xs ≡ false
unfolding contains
contains-empty x [] h = refl
contains-empty x (y ∷ ys) h = cc

pub contains-head : (x : String) (xs : List String) → contains x (x ∷ xs) ≡ true
contains-head x xs = rw (contains-cons, eq_refl)

pub contains-tail :
    (x y : String) (ys : List String) → contains x ys ≡ true → contains x (y ∷ ys) ≡ true
contains-tail x y ys h = ground (arith, contains-cons x y ys)

pub subset-of :
    (xs ys : List String) → ((x : String) → Memᴰ x xs → contains x ys ≡ true) → subset xs ys ≡ true
unfolding subset
subset-of [] ys h = refl
subset-of (x ∷ xs) ys h =
    ground (arith, h x (Memᴰ.head refl), subset-of xs ys (λ y m. h y (Memᴰ.tail m)))

pub subset-contains :
    (xs ys : List String) (x : String)
    → subset xs ys ≡ true
    → contains x xs ≡ true
    → contains x ys ≡ true
unfolding subset contains
subset-contains [] ys x h m = absurd (ground arith)
subset-contains (y ∷ xs) ys x h m = ground (arith, subset-contains xs ys x, eq_iff y x)

pub same_names_refl : (xs : List String) → same_names xs xs ≡ true
unfolding same_names
same_names_refl xs = let inside = subset-of xs xs (λ x m. (contains-mem x xs).1 m) in rw inside refl

codes_leb_antisym : (cs ds : List ℕ) → codes_leb cs ds ≡ true → codes_leb ds cs ≡ true → cs ≡ ds
unfolding codes_leb
codes_leb_antisym [] [] h k = refl
codes_leb_antisym [] (d ∷ ds) h k = absurd (ground arith)
codes_leb_antisym (c ∷ cs) [] h k = absurd (ground arith)
codes_leb_antisym (c ∷ cs) (d ∷ ds) h k =
    let same : c ≡ d = ground arith in
    let rest = codes_leb_antisym cs ds (ground arith) (ground arith) in
    ap (λ e. e ∷ cs) same ∙ ap (λ es. d ∷ es) rest

codes-injective : (s t : String) → codes s ≡ codes t → s ≡ t
codes-injective String.[] String.[] h = refl
codes-injective String.[] (String.◌∷◌ d t) h = absurd (ground arith)
codes-injective (String.◌∷◌ c s) String.[] h = absurd (ground arith)
codes-injective (String.◌∷◌ c s) (String.◌∷◌ d t) h =
    let same : code c ≡ code d = cc in
    let rest : codes s ≡ codes t = cc in
    ap (λ e. String.◌∷◌ e s) (Char-path c d same)
    ∙ ap (λ u. String.◌∷◌ d u) (codes-injective s t rest)

pub name_leb_antisym : (a b : String) → name_leb a b ≡ true → name_leb b a ≡ true → a ≡ b
unfolding name_leb
name_leb_antisym a b h k = codes-injective a b (codes_leb_antisym (codes a) (codes b) h k)
