-- ===== src/Fs/Fat16/System/Tests.antt =====
-- Reading the file SUB/A.TXT of the small volume by its path.
use ra_os.Base.{
  ℕ, ◌*◌, ◌<◌, ◌≡◌, refl, true, none, some, List, [], ◌∷◌, ◌++◌, arith, ok, done, inr, replicate,
}
use ra_os.Base.Int.{pos}
use ra_os.Strings.{istrncmp, tolower}
use ra_os.Disk.Streamer.{Contents}
use ra_os.Disk.Streamer.Bytes.{disk_bytes}
use ra_os.Fs.PathParser.Parts.{IsPart, buffer_of, join}
use ra_os.Fs.File.{Files, fopen, fread, fseek, seek_set, r_mode}
use ra_os.Fs.File.Whole.{Holds}
use ra_os.Fs.Fat16.{FatPrivate, DirectoryItem, filesize}
use ra_os.Fs.Fat16.Names.{get_full_relative_filename}
use ra_os.Fs.Fat16.Clusters.{cluster_sector}
use ra_os.Fs.Fat16.Clusters.Reading.{IsAligned}
use ra_os.Fs.Fat16.Lookup.{file_item, FatFileDescriptor, new_fat_item_for_directory_item}
use ra_os.Fs.Fat16.Lookup.Find.{has_name}
use ra_os.Fs.Fat16.Lookup.Path.{Leads, last, into}
use ra_os.Fs.Fat16.Calls.Reading.{file_byte}
use ra_os.Fs.Fat16.System.{fat16_fs}
use ra_os.Fs.Fat16.System.Opening.{fread-fopen}
use ra_os.Fs.Fat16.System.Whole.{fat16-Holds}
use ra_os.Fs.Fat16.Tests.{
  sub, a_txt, nested_volume, sub_directory, nested_private, sub_found, a_found,
}

-- The names "sub" and "a.TXt".
abbrev sub_part : List ℕ
sub_part = b's' ∷ b'u' ∷ b'b' ∷ []

abbrev a_part : List ℕ
a_part = b'a' ∷ b'.' ∷ b'T' ∷ b'X' ∷ b't' ∷ []

sub_fits : has_name sub (buffer_of sub_part) ≡ some true
unfolding has_name get_full_relative_filename istrncmp tolower
sub_fits = refl

a_fits : has_name a_txt (buffer_of a_part) ≡ some true
unfolding has_name get_full_relative_filename istrncmp tolower
a_fits = refl

abbrev pub volume_files : Files FatFileDescriptor
volume_files = record { table = replicate 512 none; mounted = true }

sub_part-IsPart : IsPart sub_part
sub_part-IsPart = record { bytes = omega arith; filled = omega arith }

a_part-IsPart : IsPart a_part
a_part-IsPart = record { bytes = omega arith; filled = omega arith }

fread-fopen_example :
    (fd : ℕ) × (opened : Files FatFileDescriptor) × (moved : Files FatFileDescriptor) × (fopen
        (fat16_fs 3 nested_volume nested_private)
        volume_files
        (b'0' ∷ b':' ∷ b'/' ∷ join (sub_part ∷ a_part ∷ []) ++ 0x00 ∷ [])
        r_mode
      ≡ some (fd, opened))
    × (0 < fd)
    × (fseek (fat16_fs 3 nested_volume nested_private) opened (pos fd) 8 seek_set ≡ (ok tt, moved))
    × (fread (fat16_fs 3 nested_volume nested_private) moved 100 2 (pos fd)
        ≡ some (done (2, disk_bytes nested_volume (file_byte nested_private a_txt 8) (2 * 100))))
unfolding IsAligned cluster_sector
fread-fopen_example =
    fread-fopen 3 nested_volume nested_private volume_files sub_part (a_part ∷ []) [] a_txt 0 8 100
      2 refl (omega arith) refl (sub_part-IsPart, (a_part-IsPart, tt)) (omega arith)
      (into nested_private.root_directory sub_directory (buffer_of sub_part) (buffer_of a_part) []
        sub (file_item a_txt)
        (record {
          count = 1;
          index = 0;
          counted = refl;
          below = omega arith;
          at = refl;
          named = sub_fits;
          others = λ j h other. absurd (other (omega arith));
        })
        sub_found
        (last sub_directory (buffer_of a_part) a_txt (file_item a_txt)
          (record {
            count = 1;
            index = 0;
            counted = refl;
            below = omega arith;
            at = refl;
            named = a_fits;
            others = λ j h other. absurd (other (omega arith));
          })
          a_found))
      (omega arith) refl (omega arith) (omega arith) (omega arith) (omega arith) (omega arith)
      (λ i h. inr (omega arith))

-- B.TXT, whose first cluster is 3 and whose size is 300, in a root directory of its own.
abbrev pub b_txt : DirectoryItem
b_txt =
    (b'B' ∷ replicate 7 0x20)
    ++ (b'T' ∷ b'X' ∷ b'T' ∷ (0x20 ∷ (replicate 14 0 ++ (3 ∷ 0 ∷ 44 ∷ 1 ∷ 0 ∷ 0 ∷ []))))

abbrev pub plain_volume : Contents
plain_volume sector i = b'x'

abbrev pub plain_private : FatPrivate
plain_private = record {
  header = nested_private.header;
  root_directory = record {
    items = b_txt ∷ [];
    total = done 1;
    sector_pos = 1;
    end_sector_pos = 2;
  };
  stream = nested_private.stream;
}

abbrev pub b_part : List ℕ
b_part = b'b' ∷ b'.' ∷ b't' ∷ b'x' ∷ b't' ∷ []

b_fits : has_name b_txt (buffer_of b_part) ≡ some true
unfolding has_name get_full_relative_filename istrncmp tolower
b_fits = refl

b_found :
    new_fat_item_for_directory_item 3 plain_volume plain_private b_txt ≡ some (file_item b_txt)
unfolding new_fat_item_for_directory_item
b_found = refl

pub b_path_found :
    Leads 3 plain_volume plain_private plain_private.root_directory
      (buffer_of b_part ∷ [])
      (file_item b_txt)
b_path_found =
    last plain_private.root_directory (buffer_of b_part) b_txt (file_item b_txt)
      (record {
        count = 1;
        index = 0;
        counted = refl;
        below = omega arith;
        at = refl;
        named = b_fits;
        others = λ j h other. absurd (other (omega arith));
      })
      b_found

pub b_part-IsPart : IsPart b_part
b_part-IsPart = record { bytes = omega arith; filled = omega arith }

abbrev pub b_path : List ℕ
b_path = b'0' ∷ b':' ∷ b'/' ∷ join (b_part ∷ []) ++ 0x00 ∷ []

abbrev pub b_bytes : List ℕ
b_bytes = disk_bytes plain_volume (file_byte plain_private b_txt 0) (filesize b_txt)

fat16-Holds_example : Holds (fat16_fs 3 plain_volume plain_private) volume_files b_path b_bytes
unfolding cluster_sector
fat16-Holds_example =
    fat16-Holds 3 plain_volume plain_private volume_files b_part [] [] b_txt 0 refl (omega arith)
      refl (b_part-IsPart, tt) (omega arith) b_path_found refl (omega arith) (omega arith)
      (omega arith) (omega arith)
