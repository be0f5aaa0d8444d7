-- ===== src/Fs/PathParser/Tests.antt =====
-- The theorems on paths at `0:/ab/c`.
use ra_os.Base.{ℕ, ◌≡◌, refl, Option, some, List, [], ◌∷◌, ◌++◌, map, arith}
use native.Mathlib.Decide.{ℕ_discrete, dec_lt, dec_le}
use ra_os.Base.Int.{pos}
use ra_os.Strings.{isdigit, chtoi}
use ra_os.Fs.PathParser.{PathRoot, parse}
use ra_os.Fs.PathParser.Parts.{IsPart, buffer_of, join}
use ra_os.Fs.PathParser.Parse.{parse-join, parse-total}

abbrev ab : List ℕ
ab = b'a' ∷ b'b' ∷ []

abbrev c : List ℕ
c = b'c' ∷ []

ab-IsPart : IsPart ab
ab-IsPart = record {
  bytes = ((omega arith, omega arith), ((omega arith, omega arith), tt));
  filled = omega arith;
}

c-IsPart : IsPart c
c-IsPart = record { bytes = ((omega arith, omega arith), tt); filled = omega arith }

parse-join_example :
    parse (b'0' ∷ b':' ∷ b'/' ∷ join (ab ∷ c ∷ []) ++ 0x00 ∷ [])
    ≡ some (some (record { drive_no = pos 0; parts = map buffer_of (ab ∷ c ∷ []) }))
unfolding isdigit chtoi ℕ_discrete dec_lt dec_le
parse-join_example = parse-join b'0' (ab ∷ c ∷ []) [] refl (ab-IsPart, (c-IsPart, tt)) (omega arith)

parse-total_example : (root : Option PathRoot) × (parse (ab ++ 0x00 ∷ []) ≡ some root)
parse-total_example = parse-total ab [] (omega arith, (omega arith, tt))
