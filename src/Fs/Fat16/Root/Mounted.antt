-- ===== src/Fs/Fat16/Root/Mounted.antt =====
-- What a disk is that the file system accepts.
use ra_os.Base.{
  done, failed, fails, ℕ, zero, suc, ◌+◌, ◌*◌, ◌/◌, ◌^◌, ◌<◌, ◌≡◌, ◌≢◌, ◌>>=◌, refl, ◌∙◌, ap, sym,
  true, some, List, arith, Option-cases, inl, inr, length, ==_of_eq, ==_of_ne, efsnotus, eio, ◌↔◌,
}
use ra_os.Disk.Streamer.{Contents, Stream, sector_size}
use ra_os.Disk.Streamer.Bytes.{disk_bytes}
use ra_os.Fs.Fat16.{item_size, Header, header_size, read_header, FatPrivate, read_at}
use ra_os.Fs.Fat16.Clusters.Reading.{IsAligned, read_at-disk_bytes}
use ra_os.Fs.Fat16.Root.Count.{disk_byte, used_items, get_total_items-used_items}
use ra_os.Fs.Fat16.Root.{split_items, get_total_items_for_directory, get_root_directory, resolve}

length-split_items : (n : ℕ) (bytes : List ℕ) → length (split_items n bytes) ≡ n
unfolding split_items
length-split_items zero bytes = refl
length-split_items (suc n) bytes = ap suc (length-split_items n _)

-- The header of a disk: its first 62 bytes.
abbrev pub header_of : Contents → Header
header_of disk = read_header (disk_bytes disk 0 header_size)

abbrev pub root_sector : Header → ℕ
root_sector header = header.fat_copies * header.sectors_per_fat + header.reserved_sectors

header_at :
    (disk : Contents) (stream : Stream)
    → stream.known ≡ true
    → read_at disk stream 0 header_size ≡ some (done (disk_bytes disk 0 header_size))
unfolding IsAligned
header_at disk stream known =
    read_at-disk_bytes disk stream 0 header_size known (omega arith) (inl (omega arith))

-- The root directory of a header, when its items were counted.
unfoldable pub mounted : Contents → Stream → Header → ℕ → FatPrivate
mounted disk stream header total =
    let size = header.root_dir_entries * item_size in
    record {
      header = header;
      root_directory = record {
        items =
            split_items header.root_dir_entries
              (disk_bytes disk (root_sector header * sector_size) size);
        total = done total;
        sector_pos = root_sector header;
        end_sector_pos = root_sector header + size / sector_size;
      };
      stream = stream;
    }

root_read :
    (fuel : ℕ) (disk : Contents) (stream : Stream) (header : Header) (total : ℕ)
    → stream.known ≡ true
    → root_sector header * sector_size + header.root_dir_entries * item_size < 2 ^ 31
    → get_total_items_for_directory fuel disk stream (root_sector header) ≡ some (done total)
    → get_root_directory fuel disk stream header
      ≡ some (done (mounted disk stream header total).root_directory)
unfolding get_root_directory mounted IsAligned
root_read fuel disk stream header total known below counted =
    let size = header.root_dir_entries * item_size in
    let at = root_sector header * sector_size in
    let bytes : read_at disk stream at size ≡ some (done (disk_bytes disk at size)) =
      read_at-disk_bytes disk stream at size known below (inl (omega arith)) in
    rw (counted, ◌>>=◌, bytes) refl

-- On the kernel's disk, the file system is mounted on a disk whose byte 38 is 0x29 and whose root
-- directory has its first item whose first byte is 0 at index `n`, when the directory and the items up
-- to that one end in the first 2 GiB, with fuel above `n`. Then the root directory holds the bytes behind the reserved sectors and the tables,
-- as many items as the header says, is searched as far as the items were counted, and the data starts
-- at the sector behind it.
pub resolve-mounted :
    (fuel n : ℕ) (disk : Contents) (stream : Stream)
    → stream.known ≡ true
    → (header_of disk).signature ≡ 0x29
    → let at = root_sector (header_of disk) * sector_size in
      at + (header_of disk).root_dir_entries * item_size < 2 ^ 31
      → at + suc n * item_size < 2 ^ 31
      → ((k : ℕ) → k < n → disk_byte disk (at + k * item_size) ≢ 0)
      → disk_byte disk (at + n * item_size) ≡ 0
      → n < fuel
      → resolve fuel disk stream
        ≡ some (done (mounted disk stream (header_of disk) (used_items disk at n)))
unfolding resolve mounted
resolve-mounted fuel n disk stream known signed below near items end enough =
    let counted =
      get_total_items-used_items n fuel disk stream (root_sector (header_of disk)) known near items
        end enough in
    rw
      (
        header_at disk stream known,
        ◌>>=◌,
        ==_of_eq (header_of disk).signature 0x29 signed,
        root_read fuel disk stream (header_of disk) _ known below counted,
      )
      refl

signature_byte : (disk : Contents) → (header_of disk).signature ≡ disk 0 38
unfolding disk_bytes
signature_byte disk = refl

pub unsigned_refused :
    (fuel : ℕ) (disk : Contents) (stream : Stream)
    → stream.known ≡ true
    → (header_of disk).signature ≢ 0x29
    → resolve fuel disk stream ≡ some (fails efsnotus)
unfolding resolve
unsigned_refused fuel disk stream known unsigned =
    rw (header_at disk stream known, ◌>>=◌, ==_of_ne (header_of disk).signature 0x29 unsigned) refl

eio-differs : some (fails {A = FatPrivate} eio) ≢ some (fails {A = FatPrivate} efsnotus)
eio-differs h = ground (arith, h)

signed_kept :
    (fuel : ℕ) (disk : Contents) (stream : Stream)
    → stream.known ≡ true
    → (header_of disk).signature ≡ 0x29
    → resolve fuel disk stream ≢ some (fails efsnotus)
unfolding resolve
signed_kept fuel disk stream known signed =
    let start = header_at disk stream known in
    let sign = ==_of_eq (header_of disk).signature 0x29 signed in
    elim (Option-cases (get_root_directory fuel disk stream (header_of disk))) [
      | inl e ↦ rw (resolve, start, ◌>>=◌, sign, e) (λ h. ground arith)
      | inr (failed _, e) ↦ rw (resolve, start, ◌>>=◌, sign, e) eio-differs
      | inr (done root, e) ↦ rw (resolve, start, ◌>>=◌, sign, e) (λ h. ground arith)
    ]

-- A disk is refused as one of another file system exactly when its byte 38 is not 0x29.
pub resolve-efsnotus_iff :
    (fuel : ℕ) (disk : Contents) (stream : Stream)
    → stream.known ≡ true
    → (resolve fuel disk stream ≡ some (fails efsnotus)) ↔ (disk 0 38 ≢ 0x29)
resolve-efsnotus_iff fuel disk stream known = (
  λ refused signed. signed_kept fuel disk stream known (signature_byte disk ∙ signed) refused,
  λ unsigned.
      unsigned_refused fuel disk stream known (λ e. unsigned (sym (signature_byte disk) ∙ e)),
)
