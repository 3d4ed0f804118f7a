-- ===== src/Filter/Tests.antt =====
-- Runs at concrete texts, those of handler/text_utils_test.go and util/intset_test.go among them.
use httpdump.Base.{
  ℕ, ◌≤◌, ◌<◌, ◌^◌, ◌++◌, ◌≡◌, ◌↔◌, refl, Bool, true, false, none, some, [], ◌∷◌, if◌then◌else◌,
  leb, min, length, Bytes, codes, itoa, panic, ℤ, pos, arith,
}
use httpdump.Http.Title.{ato_i}
use httpdump.Http.Title.Number.{ato_i-itoa}
use httpdump.Filter.Wildcard.{wildcard_match, scan, rounds, round, backtrack, all_stars}
use httpdump.Filter.Wildcard.Glob.{Glob}
use httpdump.Filter.Wildcard.Correct.{wildcard_match-Glob}
use httpdump.Filter.IntSet.{IntRange, ordered, set_string, parse_int_set}
use httpdump.Filter.IntSet.Contains.{parse_int_set-set_string, parse_int_set-second}
use httpdump.Filter.Options.{Options, reached_n}
use httpdump.Filter.Options.Budget.{permitted, permit_n_budget}
use httpdump.Filter.Mime.{trim_space, like_json}
use httpdump.Filter.Mime.Parse.{like_json-panic}

wildcard_test : wildcard_match (codes "/api/v1/users") (codes "/api/*/user?") ≡ some true
unfolding wildcard_match scan rounds round backtrack all_stars
wildcard_test = refl

wildcard_backtrack_test : wildcard_match (codes "aabab") (codes "*ab") ≡ some true
unfolding wildcard_match scan rounds round backtrack all_stars
wildcard_backtrack_test = refl

wildcard_no_match_test : wildcard_match (codes "abc") (codes "a*d") ≡ some false
unfolding wildcard_match scan rounds round backtrack all_stars
wildcard_no_match_test = refl

wildcard_match-Glob_example :
    (b : Bool) × (wildcard_match (codes "aabab") (codes "*ab") ≡ some b)
    × ((b ≡ true) ↔ Glob (codes "*ab") (codes "aabab"))
wildcard_match-Glob_example = wildcard_match-Glob (codes "aabab") (codes "*ab")

abbrev atoi : Bytes → ℤ × Bool
atoi s = (pos (ato_i s 10).0, (ato_i s 10).1)

atoi-itoa : (n : ℕ) → n < 2 ^ 63 → atoi (itoa n) ≡ (pos n, true)
atoi-itoa n h = let e : ato_i (itoa n) 10 ≡ (n, true) = ato_i-itoa n (omega arith) in rw e refl

abbrev range_200 : IntRange
range_200 = record { start = pos 200; end = pos 299 }

abbrev range_404 : IntRange
range_404 = record { start = pos 404; end = pos 404 }

parse_int_set-set_string_example :
    parse_int_set atoi (set_string (range_200 ∷ range_404 ∷ [])) ≡ some (range_200 ∷ range_404 ∷ [])
parse_int_set-set_string_example =
    parse_int_set-set_string atoi atoi-itoa range_200 (range_404 ∷ [])
      ((200, 299, refl, omega arith, omega arith), ((404, 404, refl, omega arith, omega arith), tt))

parse_int_set-second_example : parse_int_set atoi (codes "x" ++ (b'-' ∷ codes "300")) ≡ (
    if (atoi (codes "300")).1
    then some (ordered ((atoi (codes "x")).0, (atoi (codes "300")).0) ∷ [])
    else none)
parse_int_set-second_example =
    parse_int_set-second atoi (codes "x") (codes "300") (refl, tt) (refl, tt)
      (refl, (refl, (refl, tt))) (refl, (refl, (refl, tt)))

abbrev options : Options
options = record {
  host = [];
  uri = codes "/api/*";
  method = [];
  status = [];
  dump_body = [];
  dump_num = 0;
  dump_max = 0;
  n = pos 2;
  num = pos 2;
  cancelled = false;
}

permit_n_budget_example :
    ((permitted 5 options).0 ≡ min 2 5) × ((reached_n (permitted 5 options).1).0 ≡ leb 2 5)
permit_n_budget_example = permit_n_budget 5 2 options (omega arith) (omega arith) refl refl

like_json-panic_example :
    (like_json (codes "  ") ≡ panic) ↔ ((2 ≤ length (codes "  ")) × (trim_space (codes "  ") ≡ []))
like_json-panic_example = like_json-panic (codes "  ")
