-- ===== src/Fs/Fat16/Names.antt =====
-- The names of directory items.
pub mod Padding
use ra_os.Base.{
  ℕ, zero, suc, ◌-◌, ◌==◌, if◌then◌else◌, Bool, ◌||◌, Option, none, some, List, [], ◌∷◌, ◌++◌,
  ◌>>=◌, drop, replicate, length,
}
use ra_os.Fs.PathParser.{max_path}
use ra_os.Fs.Fat16.{DirectoryItem, byte}

-- A terminator or a space.
abbrev pub ends : ℕ → Bool
ends c = c == 0x00 || c == 0x20

-- The bytes that `fat16_to_proper_string` writes, from the bytes from `in` on to the end of the item.
unfoldable pub to_proper_string : List ℕ → Option (List ℕ)
to_proper_string [] = none
to_proper_string (c ∷ bytes) =
    if ends c then some [] else (to_proper_string bytes >>= λ out. some (c ∷ out))

-- The buffer of RAOS_MAX_PATH bytes, which was set to 0 before.
unfoldable pub get_full_relative_filename : DirectoryItem → Option (List ℕ)
unfolding to_proper_string
get_full_relative_filename item = do
  name ← to_proper_string item
  full ←
      (if ends (byte item 8)
        then some name
        else (to_proper_string (drop 8 item) >>= λ ext. some (name ++ b'.' ∷ ext)))
  some (full ++ replicate (max_path - length full) 0x00)
