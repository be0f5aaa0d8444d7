-- ===== src/Terminal/Tests.antt =====
-- The theorem on `print` at two characters on either side of the end of a line.
use ra_os.Base.{ℕ, ◌≡◌, arith, some, List, [], ◌∷◌}
use ra_os.Terminal.{Terminal, print}
use ra_os.Terminal.Print.{cursor, IsInLine, shown, print-shown}

abbrev near_end : Terminal
near_end = record { video_mem = λ i. 0; row = 0; col = 79 }

abbrev hi : List ℕ
hi = b'H' ∷ b'i' ∷ []

print-shown_example :
    (t' : Terminal) × (print near_end hi ≡ some t')
    × IsInLine t'
    × (cursor t' ≡ 81)
    × ((i : ℕ) → t'.video_mem i ≡ shown hi 79 15 (λ i. 0) i)
print-shown_example =
    print-shown hi near_end (omega arith)
      ((omega arith, omega arith), ((omega arith, omega arith), tt)) (omega arith)
