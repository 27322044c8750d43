-- ===== src/Globs.antt =====
-- `matchGlob` of packages/cli/src/lockfile.ts: the regular expression that it builds, as tokens and
-- their matcher. The source does not escape a `?`, which is then a quantifier of the expression. Where
-- it follows nothing that can be repeated, the source throws a syntax error; here no path matches.
use podokit.Base.{
  sym, append-nil, ◌∙◌, ap, codes, ==_iff, ◌++◌, all, ℕ, ◌≡◌, refl, Bool, true, false, not, ◌&&◌,
  ◌||◌, List, [], ◌∷◌, map, arith, ◌==◌, if◌then◌else◌, any, list_beq, Text, same, nat_eq, text_eq,
}
use podokit.Texts.{newline, starts_with}

pub data Token : Type 0 where
  -- `(?:/.*)?`
  tree : Token
  -- `(?:.*/)?`
  dirs : Token
  -- `.*`
  any_text : Token
  -- `[^/]*`
  segment : Token
  unit : ℕ → Token
  -- The unit with a `?` after it.
  optional : ℕ → Token
  -- What follows a `?` that repeats nothing.
  refused : Token

abbrev pub slash : ℕ
slash = 47

abbrev pub star : ℕ
star = 42

abbrev pub question : ℕ
question = 63

abbrev pub is_empty : Text → Bool
is_empty [] = true
is_empty (c ∷ cs) = false

-- `\/\*\*$|\*\*\/|\*\*|\*`, in this order at each place. A `?` is still a unit.
unfoldable pub pieces : Text → List Token
pieces [] = []
pieces (a ∷ []) = if a == star then segment ∷ [] else unit a ∷ []
pieces (a ∷ (b ∷ [])) =
    let rest = pieces (b ∷ []) in
    if a == star then (if b == star then any_text ∷ [] else segment ∷ rest) else unit a ∷ rest
pieces (a ∷ (b ∷ (c ∷ cs))) =
    let after_one = pieces (b ∷ (c ∷ cs)) in
    let after_two = pieces (c ∷ cs) in
    let after_three = pieces cs in
    if a == slash && b == star && c == star && is_empty cs
    then tree ∷ []
    else if a == star && b == star && c == slash
    then dirs ∷ after_three
    else if a == star && b == star
    then any_text ∷ after_two
    else if a == star
    then segment ∷ after_one
    else unit a ∷ after_one

-- What a `?` would follow: nothing that it can repeat, one unit, or a quantifier, which it makes lazy.
pub data Before : Type 0 where
  nothing : Before
  one : ℕ → Before
  quantifier : Before

abbrev pub ended : Before → List Token
ended (one c) = unit c ∷ []
ended _ = []

-- A lazy quantifier matches the same texts.
unfoldable pub quantified : Before → List Token → List Token
quantified before [] = ended before
quantified nothing (unit c ∷ ts) =
    let rest = quantified (one c) ts in if c == question then refused ∷ [] else rest
quantified (one d) (unit c ∷ ts) =
    let lazy = quantified quantifier ts in
    let rest = quantified (one c) ts in if c == question then optional d ∷ lazy else unit d ∷ rest
quantified quantifier (unit c ∷ ts) =
    let lazy = quantified nothing ts in
    let rest = quantified (one c) ts in if c == question then lazy else rest
quantified before (t ∷ ts) = ended before ++ t ∷ quantified quantifier ts

unfoldable pub tokens : Text → List Token
unfolding pieces quantified
tokens glob = quantified nothing (pieces glob)

-- What `.` matches.
abbrev pub in_line : ℕ → Bool
in_line c = not (c == newline || c == 13 || c == 0x2028 || c == 0x2029)

abbrev pub in_segment : ℕ → Bool
in_segment c = not (c == slash)

-- Any number of the units that `p` allows, and then what `rest` matches.
unfoldable pub repeated : (ℕ → Bool) → (Text → Bool) → Text → Bool
repeated p rest [] = rest []
repeated p rest (c ∷ cs) = rest (c ∷ cs) || (p c && repeated p rest cs)

unfoldable pub after_slash : (Text → Bool) → Text → Bool
after_slash rest [] = false
after_slash rest (c ∷ cs) = c == slash && rest cs

unfoldable pub matches : List Token → Text → Bool
matches [] text = is_empty text
matches (tree ∷ ts) text = matches ts text || after_slash (repeated in_line (matches ts)) text
matches (dirs ∷ ts) text = matches ts text || repeated in_line (after_slash (matches ts)) text
matches (any_text ∷ ts) text = repeated in_line (matches ts) text
matches (segment ∷ ts) text = repeated in_segment (matches ts) text
matches (unit c ∷ ts) [] = false
matches (unit c ∷ ts) (d ∷ text) = c == d && matches ts text
matches (optional c ∷ ts) [] = matches ts []
matches (optional c ∷ ts) (d ∷ text) = (c == d && matches ts text) || matches ts (d ∷ text)
matches (refused ∷ ts) text = false

unfoldable pub match_glob : Text → Text → Bool
unfolding tokens matches repeated after_slash
match_glob path glob = matches (tokens glob) path

-- No unit of the glob is a star or a question mark.
abbrev pub IsLiteral : Text → Type 0
IsLiteral glob = any (λ c. c == star || c == question) glob ≡ false

-- Without a `?`, the tokens are the pieces.
quantified-literal :
    (before : Before) (glob : Text) (ts : List Token)
    → IsLiteral glob
    → ((b : Before) → quantified b ts ≡ ended b ++ ts)
    → quantified before (map unit glob ++ ts) ≡ ended before ++ (map unit glob ++ ts)
unfolding quantified
quantified-literal before [] ts h last = last before
quantified-literal nothing (c ∷ glob) ts h last =
    ground (arith, quantified-literal (one c) glob ts _ last)
quantified-literal (one d) (c ∷ glob) ts h last =
    ground (arith, quantified-literal (one c) glob ts _ last)
quantified-literal quantifier (c ∷ glob) ts h last =
    ground (arith, quantified-literal (one c) glob ts _ last)

quantified-end : (before : Before) → quantified before [] ≡ ended before ++ []
unfolding quantified
quantified-end nothing = refl
quantified-end (one c) = refl
quantified-end quantifier = refl

quantified-tree : (before : Before) → quantified before (tree ∷ []) ≡ ended before ++ tree ∷ []
unfolding quantified
quantified-tree nothing = refl
quantified-tree (one c) = refl
quantified-tree quantifier = refl

pieces-literal : (glob : Text) → IsLiteral glob → pieces glob ≡ map unit glob
unfolding pieces
pieces-literal [] h = refl
pieces-literal (a ∷ []) h = ground arith
pieces-literal (a ∷ (b ∷ [])) h = ground (arith, pieces-literal (b ∷ []))
pieces-literal (a ∷ (b ∷ (c ∷ cs))) h = ground (arith, pieces-literal (b ∷ (c ∷ cs)))

matches-units : (glob path : Text) → matches (map unit glob) path ≡ same glob path
unfolding matches same list_beq
matches-units [] [] = refl
matches-units [] (d ∷ path) = refl
matches-units (c ∷ glob) [] = refl
matches-units (c ∷ glob) (d ∷ path) = ground (arith, matches-units glob path)

tokens-literal : (glob : Text) → IsLiteral glob → tokens glob ≡ map unit glob
unfolding tokens
tokens-literal glob h =
    ap (quantified nothing) (pieces-literal glob h ∙ sym (append-nil (map unit glob)))
    ∙ quantified-literal nothing glob [] h quantified-end
    ∙ append-nil (map unit glob)

-- A glob with no star and no question mark matches the path that it is, and nothing else.
pub match_glob-literal : (path glob : Text) → IsLiteral glob → match_glob path glob ≡ same glob path
unfolding match_glob
match_glob-literal path glob h = rw (tokens-literal glob h) (matches-units glob path)

-- `matchesPathOrChild` of packages/cli/src/module-migrations.ts.
unfoldable pub matches_path_or_child : Text → Text → Bool
unfolding same list_beq starts_with
matches_path_or_child path prefix = same path prefix || starts_with path (prefix ++ slash ∷ [])

abbrev tree_suffix : Text
tree_suffix = slash ∷ star ∷ star ∷ []

pieces-tree : (dir : Text) → IsLiteral dir → pieces (dir ++ tree_suffix) ≡ map unit dir ++ tree ∷ []
unfolding pieces
pieces-tree [] h = refl
pieces-tree (a ∷ []) h = ground (arith, pieces-tree [])
pieces-tree (a ∷ (b ∷ [])) h = ground (arith, pieces-tree (b ∷ []))
pieces-tree (a ∷ (b ∷ (c ∷ cs))) h = ground (arith, pieces-tree (b ∷ (c ∷ cs)))

repeated-end : (text : Text) → all in_line text ≡ true → repeated in_line (matches []) text ≡ true
unfolding repeated matches
repeated-end [] h = refl
repeated-end (c ∷ cs) h = ground (arith, repeated-end cs)

matches-tree :
    (dir path : Text)
    → all in_line path ≡ true
    → matches (map unit dir ++ tree ∷ []) path ≡ matches_path_or_child path dir
unfolding matches matches_path_or_child after_slash
matches-tree [] [] h = refl
matches-tree [] (c ∷ path) h = ground (arith, repeated-end path, starts_with path)
matches-tree (d ∷ dir) [] h = refl
matches-tree (d ∷ dir) (c ∷ path) h = ground (arith, matches-tree dir path, ==_iff c d, ==_iff d c)

tokens-tree : (dir : Text) → IsLiteral dir → tokens (dir ++ tree_suffix) ≡ map unit dir ++ tree ∷ []
unfolding tokens
tokens-tree dir h =
    ap (quantified nothing) (pieces-tree dir h)
    ∙ quantified-literal nothing dir (tree ∷ []) h quantified-tree

-- A glob `dir/**` with no other star and no question mark matches a path of one line exactly if it is the directory or lies
-- under it, which is the test of the path migrations.
pub match_glob-tree :
    (path dir : Text)
    → IsLiteral dir
    → all in_line path ≡ true
    → match_glob path (dir ++ codes "/**") ≡ matches_path_or_child path dir
unfolding match_glob
match_glob-tree path dir h line =
    ap (λ ts. matches ts path) (tokens-tree dir h) ∙ matches-tree dir path line
