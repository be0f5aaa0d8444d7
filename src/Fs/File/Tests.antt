-- ===== src/Fs/File/Tests.antt =====
-- The theorems on file calls over a file system that holds the file `a` on drive 0, whose private
-- data is a position.
use ra_os.Base.{
  done, ◌++◌, ◌≢◌, ◌⊎◌, ℕ, zero, suc, ◌≡◌, ◌≢◌, refl, sym, ap, Option, none, some, List, [], ◌∷◌,
  arith, true, ok, err, Error, set, get_elem?, replicate, length-replicate, ◌⊎◌,
}
use ra_os.Base.Int.{pos}
use native.Mathlib.Decide.{ℕ_discrete, dec_lt, dec_le}
use ra_os.Memory.{memcmp}
use ra_os.Strings.{strlen, strnlen, isdigit, chtoi, strncmp}
use ra_os.Fs.PathParser.{parse, get_path_part}
use ra_os.Fs.File.{
  FileSystem, Files, Table, Descriptor, max_descriptors, new_descriptor, free_slot_loop,
  get_descriptor, get_mode_by_string, fopen, fclose,
}
use ra_os.Fs.File.Table.{IsValid, set-IsValid}
use ra_os.Fs.File.Calls.{number, Opened, Changes, fopen-Opened, fclose-Changes}

abbrev one_file : FileSystem
one_file = record {
  Private = ℕ;
  open_path = λ path mode. some (done 0);
  read = λ position size nmemb. some (done (nmemb, replicate (size) 0));
  seek = λ position offset whence. (ok tt, offset);
  stat = λ position. ok (record { flags = 0; size = 16 });
  close = λ position. some (ok tt);
}

-- All entries are free.
abbrev empty_table : Table ℕ
empty_table = replicate max_descriptors none

replicate-none : (n i : ℕ) (d : Descriptor ℕ) → get_elem? (replicate n none) i ≢ some (some d)
replicate-none zero i d h = cc
replicate-none (suc n) zero d h = cc
replicate-none (suc n) (suc i) d h = replicate-none n i d h

empty_table-IsValid : IsValid empty_table
empty_table-IsValid = record {
  numbered = λ i d h. absurd (replicate-none max_descriptors i d h);
  size = length-replicate {A = Option (Descriptor ℕ)} max_descriptors none;
}

abbrev files : Files ℕ
files = record { table = empty_table; mounted = true }

abbrev descriptor : Descriptor ℕ
descriptor = record { index = 1; private_ = 0 }

abbrev files_opened : Files ℕ
files_opened = record { table = set empty_table 0 (some descriptor); mounted = true }

abbrev path : List ℕ
path = b'0' ∷ b':' ∷ b'/' ∷ b'a' ∷ []

fopen-Opened_example :
    (fd : ℕ) × (files' : Files ℕ) × (fopen one_file files (path ++ 0x00 ∷ []) (b'r' ∷ 0x00 ∷ [])
      ≡ some (fd, files'))
    × Opened one_file files files' fd
fopen-Opened_example =
    fopen-Opened one_file files empty_table-IsValid path [] b'r' (0x00 ∷ [])
      (omega arith, (omega arith, (omega arith, (omega arith, tt))))
      (λ root e mode f. (done 0, refl))

-- The path is opened under the number 1.
opens_first : fopen one_file files (path ++ 0x00 ∷ []) (b'r' ∷ 0x00 ∷ []) ≡ some (1, files_opened)
unfolding fopen new_descriptor ℕ_discrete dec_lt dec_le parse strlen strnlen isdigit memcmp
    get_path_part chtoi get_mode_by_string strncmp free_slot_loop
opens_first = refl

opened-IsValid : IsValid files_opened.table
opened-IsValid =
    set-IsValid empty_table 0 (some descriptor) empty_table-IsValid (omega arith)
      (λ d h. sym (ap number h))

get_opened : get_descriptor files_opened.table (pos 1) ≡ some descriptor
unfolding get_descriptor ℕ_discrete dec_lt dec_le
get_opened = refl

fclose-Changes_example :
    ((one_file.close 0 ≡ none) × (fclose one_file files_opened (pos 1) ≡ none))
    ⊎ ((e : Error) × (one_file.close 0 ≡ some (err e))
        × (fclose one_file files_opened (pos 1) ≡ some (err e, files_opened)))
    ⊎ ((table : Table ℕ) × (one_file.close 0 ≡ some (ok tt))
        × (fclose one_file files_opened (pos 1)
            ≡ some (ok tt, record files_opened { table = table }))
        × Changes files_opened.table table 1 none)
fclose-Changes_example = fclose-Changes one_file files_opened opened-IsValid 1 descriptor get_opened
