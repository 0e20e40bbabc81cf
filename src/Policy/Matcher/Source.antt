-- ===== src/Policy/Matcher/Source.antt =====
-- `Matcher::source` against `Matcher::parse` (crates/policy/src/matcher.rs): which matchers survive a
-- save and a load of the policy document.
use chaperone.Prelude.{
  ◌≡◌, ◌≢◌, refl, ap, ◌↔◌, Bool, true, false, not, ◌&&◌, ◌||◌, some, ◌++◌, arith, Bytes, ascii,
  length, length-append, starts_with, strip_prefix, strip_prefix_iff, contains, ◌<◌, if◌then◌else◌,
}
use chaperone.Policy.Matcher.{
  Matcher, any, exact, prefix, glob, star, glob_tag, prefix_tag, exact_tag, parse, source, describe,
}

-- The text begins with one of the tags that `parse` reads.
abbrev pub is_tagged : Bytes → Bool
is_tagged s = starts_with glob_tag s || (starts_with prefix_tag s || starts_with exact_tag s)

-- The matchers that `source` writes bare although their text begins with a tag.
abbrev pub is_ambiguous : Matcher → Bool
is_ambiguous any = false
is_ambiguous (exact v) = not (contains star v) && is_tagged v
is_ambiguous (prefix p) = false
is_ambiguous (glob g) = contains star g && is_tagged g

longer : (t s : Bytes) → 0 < length t → s ≢ t ++ s
longer t s h e = absurd (omega (arith, ap length e, length-append t s))

not_own_rest : (t s : Bytes) → 0 < length t → strip_prefix t s ≢ some s
not_own_rest t s h e = longer t s h ((strip_prefix_iff t s s).0 e)

untagged_parse :
    (s : Bytes) → is_tagged s ≡ false → parse s ≡ (if contains star s then glob s else exact s)
unfolding parse starts_with
untagged_parse s h = ground arith

tagged_parse_exact : (s : Bytes) → is_tagged s ≡ true → parse s ≢ exact s
unfolding parse starts_with
tagged_parse_exact s h e = ground (arith, not_own_rest exact_tag s (omega arith))

tagged_parse_glob : (s : Bytes) → is_tagged s ≡ true → parse s ≢ glob s
unfolding parse starts_with
tagged_parse_glob s h e = ground (arith, not_own_rest glob_tag s (omega arith))

parse-exact_tag : (v : Bytes) → parse (exact_tag ++ v) ≡ exact v
unfolding parse strip_prefix
parse-exact_tag v = refl

parse-prefix_tag : (v : Bytes) → parse (prefix_tag ++ v) ≡ prefix v
unfolding parse strip_prefix
parse-prefix_tag v = refl

parse-glob_tag : (v : Bytes) → parse (glob_tag ++ v) ≡ glob v
unfolding parse strip_prefix
parse-glob_tag v = refl

-- What `source` writes parses back to the matcher it was written from exactly when the matcher is
-- not an exact text without a `*`, nor a glob with one, that begins with a tag.
pub parse-source :
    (m : Matcher) (s : Bytes) → source m ≡ some s → (parse s ≡ m) ↔ (is_ambiguous m ≡ false)
unfolding source
parse-source any s h = absurd (cc h)
parse-source (exact v) s h =
    ground (arith, parse-exact_tag v, untagged_parse v, tagged_parse_exact v)
parse-source (prefix p) s h = ground (arith, parse-prefix_tag p)
parse-source (glob g) s h = ground (arith, parse-glob_tag g, untagged_parse g, tagged_parse_glob g)

bare : (a v b : Bytes) → 0 < length a → v ≢ a ++ (v ++ b)
bare a v b h e = absurd (omega (arith, ap length e, length-append a (v ++ b), length-append v b))

-- The operator's rendering of a matcher never parses back to that matcher.
pub parse-describe : (m : Matcher) → parse (describe m) ≢ m
unfolding parse describe strip_prefix
parse-describe any e = ground arith
parse-describe (exact v) e = ground (arith, bare (ascii "exactly `") v (ascii "`") (omega arith))
parse-describe (prefix p) e = ground arith
parse-describe (glob g) e = ground (arith, bare (ascii "matching `") g (ascii "`") (omega arith))
