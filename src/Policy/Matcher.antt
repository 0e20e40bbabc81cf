-- ===== src/Policy/Matcher.antt =====
-- crates/policy/src/matcher.rs: the predicate on one axis of a rule. A `str` is its bytes.
pub mod Glob
pub mod Greedy
pub mod Source
pub mod Admits
use chaperone.Prelude.{
  ℕ, suc, Bytes, List, [], ◌∷◌, ◌++◌, Bool, true, false, ◌&&◌, Option, none, some, ◌+◌, ◌-◌, length,
  drop, is_empty, ◌≡◌, refl, str_eq, strip_prefix, starts_with, ends_with, find, contains, split,
  ascii, leb, if◌then◌else◌,
}

pub data Matcher : Type 0 where
  any : Matcher
  exact : Bytes → Matcher
  prefix : Bytes → Matcher
  glob : Bytes → Matcher

abbrev pub star : ℕ
star = b'*'

-- `parts[parts.len() - 1]`, of a list that is not empty.
abbrev pub last : Bytes → List Bytes → Bytes
last m [] = m
last m (n ∷ r) = last n r

-- `parts[1..parts.len() - 1]`, of the parts behind the first.
abbrev pub but_last : Bytes → List Bytes → List Bytes
but_last m [] = []
but_last m (n ∷ r) = m ∷ but_last n r

-- The loop over the middle parts: the position behind the last one, or none if one is not found.
pub match_middles : Bytes → List Bytes → ℕ → Option ℕ
match_middles text [] pos = some pos
match_middles text (middle ∷ rest) pos =
    let go = λ (p : ℕ). match_middles text rest p in
    if is_empty middle then go pos else elim (find middle (drop pos text)) [
      | none ↦ none
      | some found ↦ go (pos + (found + length middle))
    ]

-- The test of the last part.
pub match_tail : Bytes → Bytes → Option ℕ → Bool
match_tail text tail none = false
match_tail text tail (some pos) =
    if is_empty tail then true else leb (length tail) (length text - pos) && ends_with tail text

pub match_parts : Bytes → Bytes → List Bytes → Bool
match_parts pattern text [] = false
match_parts pattern text (only ∷ []) = str_eq pattern text
match_parts pattern text (head ∷ next ∷ rest) =
    if starts_with head text
    then match_tail text (last next rest) (match_middles text (but_last next rest) (length head))
    else false

unfoldable pub glob_match : Bytes → Bytes → Bool
unfolding match_parts match_tail match_middles
glob_match pattern text = match_parts pattern text (split star pattern)

unfoldable pub matches : Matcher → Bytes → Bool
matches any candidate = true
matches (exact v) candidate = str_eq v candidate
matches (prefix p) candidate = starts_with p candidate
matches (glob g) candidate = glob_match g candidate

abbrev pub glob_tag : Bytes
glob_tag = ascii "glob:"

abbrev pub prefix_tag : Bytes
prefix_tag = ascii "prefix:"

abbrev pub exact_tag : Bytes
exact_tag = ascii "exact:"

-- The code never takes its error branch: every string parses.
pub parse : Bytes → Matcher
parse raw = elim (strip_prefix glob_tag raw) [
  | some pat ↦ glob pat
  | none ↦ elim (strip_prefix prefix_tag raw) [
    | some lit ↦ prefix lit
    | none ↦ elim (strip_prefix exact_tag raw) [
      | some lit ↦ exact lit
      | none ↦ if contains star raw then glob raw else exact raw
    ]
  ]
]

unfoldable pub source : Matcher → Option Bytes
source any = none
source (exact v) = if contains star v then some (exact_tag ++ v) else some v
source (prefix p) = some (prefix_tag ++ p)
source (glob g) = if contains star g then some g else some (glob_tag ++ g)

-- The operator's rendering.
pub describe : Matcher → Bytes
describe any = ascii "any value"
describe (exact v) = ascii "exactly `" ++ (v ++ ascii "`")
describe (prefix p) = ascii "starting with `" ++ (p ++ ascii "`")
describe (glob g) = ascii "matching `" ++ (g ++ ascii "`")
