-- ===== src/Process/Arguments/Count.antt =====
-- The list of the arguments of a command, and its length.
use ra_os.Base.{
  ℕ, zero, suc, ◌+◌, ◌≤◌, ◌<◌, ◌≡◌, ◌∙◌, ap, Option, none, some, List, [], ◌∷◌, ◌++◌, ◌>>=◌, length,
  arith,
}
use ra_os.Strings.Length.{NonZero}
use ra_os.Process.Arguments.{Commands, count_loop, process_count_command_arguments, argument_size}

-- A chain of arguments in memory that holds the strings of a list, each of which ends by a zero byte.
pub data Chain (commands : Commands) : Option ℕ → List (List ℕ) → Type 0 where
  finish : Chain commands none []
  link :
      (current : ℕ) (next : Option ℕ) (s after : List ℕ) (strings : List (List ℕ))
      → commands current ≡ some (record { argument = s ++ 0 ∷ after; next = next })
      → NonZero s
      → length s < argument_size
      → Chain commands next strings
      → Chain commands (some current) (s ∷ strings)

count_loop-length :
    (fuel : ℕ) (commands : Commands) (root : Option ℕ) (strings : List (List ℕ)) (i : ℕ)
    → Chain commands root strings
    → length strings ≤ fuel
    → count_loop fuel commands root i ≡ some (i + length strings)
unfolding count_loop
count_loop-length zero commands _ _ i finish enough = ap some (omega arith)
count_loop-length (suc fuel) commands _ _ i finish enough = ap some (omega arith)
count_loop-length zero commands _ _ i (link current next s after strings at text short rest)
      enough =
    absurd (omega arith)
count_loop-length (suc fuel) commands _ _ i (link current next s after strings at text short rest)
      enough =
    rw (at, ◌>>=◌)
      (count_loop-length fuel commands next strings (i + 1) rest (omega arith)
        ∙ ap some (omega arith))

-- The arguments are counted, with a round of fuel for each.
pub process_count_command_arguments-length :
    (fuel : ℕ) (commands : Commands) (root : Option ℕ) (strings : List (List ℕ))
    → Chain commands root strings
    → length strings ≤ fuel
    → process_count_command_arguments fuel commands root ≡ some (length strings)
unfolding process_count_command_arguments
process_count_command_arguments-length fuel commands root strings chain enough =
    count_loop-length fuel commands root strings 0 chain enough ∙ ap some (omega arith)
