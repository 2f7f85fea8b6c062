-- ===== src/Tests/Query.antt =====
-- Runs of internal/query.
use ayd.Common.{
  bytes_eq, ◌≡◌, refl, true, false, List, [], ◌∷◌, Option, none, some, Bytes, codes, arith, tests,
}
use ayd.Api.Record.{Record}
use ayd.Query.Ast.{
  Query, and_query, or_query, not_query, simple_query, nil, cons, match, match_simple, append,
}
use ayd.Query.Optimize.{optimize, depth, invert, join_or, join_and}
use ayd.Query.Optimize.Normal.{Improves}
use ayd.Query.Optimize.Sound.{optimize-Improves}
use ayd.Query.TimeRange.{time_range, value_range}
use ayd.Query.TimeRange.Period.{InRange}
use ayd.Query.TimeRange.Sound.{IsBounded, time_range-covers}
use ayd.Query.TimeRange.Gap.{or-time_range_gap}
use ayd.Query.Glob.{GlobMatcher, includes, contains, match_glob, string_match, new_string_matcher}
use ayd.Query.Glob.Pattern.{Matches}
use ayd.Query.Glob.Chunks.{Decides}
use ayd.Query.Glob.Matcher.{GlobForm, match_glob-Decides}
use ayd.Query.Glob.Build.{new_string_matcher-Decides}
use ayd.Tests.Matchers.{since, text, conditions, condition_match, sample}

abbrev recent : Query conditions
recent = simple_query (since 5)

abbrev about_disk : Query conditions
about_disk = simple_query (text (includes (codes "disk")))

-- NOT (NOT recent OR (disk OR NOT recent))
abbrev nested : Query conditions
nested = not_query (
    or_query (
      cons (not_query recent)
        (cons (or_query (cons about_disk (cons (not_query recent) nil))) nil)))

nested_optimized :
    optimize nested
    ≡ some (and_query (cons recent (cons (not_query about_disk) (cons recent nil))) false)
unfolding optimize depth invert join_or join_and append
nested_optimized = refl

optimize-Improves_example : Improves nested (optimize nested)
optimize-Improves_example = optimize-Improves nested

abbrev pub both : Query conditions
both = and_query (cons recent (cons about_disk nil)) false

recent_bounded :
    (r : Record Unit) → match conditions recent r ≡ true → InRange (time_range recent) r.time
unfolding match time_range match_simple condition_match value_range
recent_bounded r h = (grind (arith, tests), tt)

pub both-IsBounded : IsBounded both
unfolding IsBounded time_range value_range
both-IsBounded = (recent_bounded, ((λ r h. (tt, tt)), tt))

pub both_matches : match conditions both (sample 7 (codes "disk full")) ≡ true
unfolding match match_simple condition_match contains
both_matches = refl

time_range-covers_example : InRange (time_range both) 7
time_range-covers_example =
    time_range-covers both (sample 7 (codes "disk full")) both-IsBounded both_matches

recent_range : time_range recent ≡ (some 5, none)
unfolding time_range value_range
recent_range = refl

disk_range : time_range about_disk ≡ (none, none)
unfolding time_range value_range
disk_range = refl

disk_matches : match conditions about_disk (sample 3 (codes "disk full")) ≡ true
unfolding match match_simple condition_match contains
disk_matches = refl

or-time_range_gap_example :
    (match conditions (or_query (cons recent (cons about_disk nil))) (sample 3 (codes "disk full"))
      ≡ true)
    × ¬ InRange (time_range (or_query (cons recent (cons about_disk nil)))) 3
or-time_range_gap_example =
    or-time_range_gap recent about_disk (sample 3 (codes "disk full")) 5 recent_range disk_range
      disk_matches (omega arith)

-- `ab*c`
abbrev ab_star_c : List (Option Bytes)
ab_star_c = some (codes "ab") ∷ none ∷ some (codes "c") ∷ []

ab_star_c_answers :
    (string_match (new_string_matcher ab_star_c) (codes "abxxc") ≡ some true)
    × (string_match (new_string_matcher ab_star_c) (codes "abxx") ≡ some false)
unfolding string_match new_string_matcher bytes_eq
ab_star_c_answers = (refl, refl)

new_string_matcher-Decides_example :
    Decides
      (Matches ab_star_c (codes "abxxc"))
      (string_match (new_string_matcher ab_star_c) (codes "abxxc"))
new_string_matcher-Decides_example =
    new_string_matcher-Decides ab_star_c (codes "abxxc") ((λ e. cc), (tt, ((λ e. cc), tt)))

abbrev two_chunks : GlobMatcher
two_chunks = record {
  prefix = codes "a";
  suffix = codes "z";
  chunks = codes "b" ∷ codes "bc" ∷ [];
  chunks_length = 3;
}

match_glob-Decides_example :
    Decides
      (GlobForm (codes "a") (codes "b" ∷ codes "bc" ∷ []) (codes "z") (codes "aabbcz"))
      (match_glob two_chunks (codes "aabbcz"))
match_glob-Decides_example = match_glob-Decides two_chunks (codes "aabbcz") refl
