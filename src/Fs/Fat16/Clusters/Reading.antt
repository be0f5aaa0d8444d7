-- ===== src/Fs/Fat16/Clusters/Reading.antt =====
-- What is read of a chain of clusters, in and beyond its first cluster.
use ra_os.Base.{
  done, failed, ℕ, suc, ◌+◌, ◌*◌, ◌/◌, ◌%◌, ◌^◌, ◌<◌, ◌≤◌, ◌≡◌, ◌>>=◌, ◌⊎◌, refl, ap, ◌∙◌, sym,
  true, some, arith, lt→ltb, le→ltb, ==_of_ne, inl, inr, Option-cases,
}
use native.Mathlib.Nat.{div-eq_of_lt, mod-eq_of_lt, mod-lt, mod-le}
use ra_os.Disk.Streamer.{Contents, Stream, sector_size, seek}
use ra_os.Disk.Streamer.Bytes.{disk_bytes, read-disk_bytes}
use ra_os.Fs.Fat16.{FatPrivate, read_at}
use ra_os.Fs.Fat16.Clusters.{
  follow_chain, size_of_cluster_bytes, get_cluster_for_offset, cluster_sector,
  read_items_of_directory,
}

-- A read of `total` bytes from byte `at` on starts at a sector or stays inside one.
unfoldable pub IsAligned : ℕ → ℕ → Type 0
IsAligned at total = (at % sector_size ≡ 0) ⊎ (at % sector_size + total ≤ sector_size)

pub read_at-disk_bytes :
    (disk : Contents) (stream : Stream) (position total : ℕ)
    → stream.known ≡ true
    → position + total < 2 ^ 31
    → IsAligned position total
    → read_at disk stream position total ≡ some (done (disk_bytes disk position total))
unfolding read_at seek IsAligned
read_at-disk_bytes disk stream position total known below aligned =
    rw
      (
        lt→ltb position (2 ^ 31) (omega arith),
        read-disk_bytes (total / sector_size + 1) disk (record stream { position = position }) total
            known aligned below (omega arith),
      )
      refl

-- The byte of the disk at which byte `offset` of the file is expected that starts at `cluster`.
abbrev pub first_cluster_byte : FatPrivate → ℕ → ℕ → ℕ
first_cluster_byte fat_private cluster offset =
    cluster_sector fat_private cluster * sector_size + offset

first_cluster :
    (disk : Contents) (fat_private : FatPrivate) (start offset : ℕ)
    → start < 2 ^ 31
    → offset < size_of_cluster_bytes fat_private
    → get_cluster_for_offset disk fat_private start offset ≡ some (done start)
unfolding get_cluster_for_offset follow_chain
first_cluster disk fat_private start offset small inside =
    rw
      (
        get_cluster_for_offset,
        ==_of_ne (size_of_cluster_bytes fat_private) 0 (λ e. omega arith),
        div-eq_of_lt {n = offset} {m = size_of_cluster_bytes fat_private} inside,
        lt→ltb start (2 ^ 31) small,
      )
      refl

-- A round that is the last one is a read of the disk.
last_round :
    (fuel : ℕ) (disk : Contents) (fat_private : FatPrivate) (start offset total cluster : ℕ)
    → offset < 2 ^ 31
    → total < 2 ^ 31
    → get_cluster_for_offset disk fat_private start offset ≡ some (done cluster)
    → total ≤ size_of_cluster_bytes fat_private
    → read_items_of_directory (suc fuel) disk fat_private start offset total
      ≡ read_at disk fat_private.stream
          (((cluster_sector fat_private start * sector_size) % 2 ^ 32
              + offset % size_of_cluster_bytes fat_private)
            % 2 ^ 32)
          total
unfolding read_items_of_directory
last_round fuel disk fat_private start offset total cluster fits fits_total reached short =
    let size = size_of_cluster_bytes fat_private in
    let position =
      ((cluster_sector fat_private start * sector_size) % 2 ^ 32 + offset % size) % 2 ^ 32 in
    let last = le→ltb size total short in
    let fits1 = lt→ltb offset (2 ^ 31) fits in
    let fits2 = lt→ltb total (2 ^ 31) fits_total in
    elim (Option-cases (read_at disk fat_private.stream position total)) [
      | inl e ↦ rw (read_items_of_directory, fits1, fits2, reached, ◌>>=◌, last, e) refl
      | inr (failed code, e) ↦
          rw (read_items_of_directory, fits1, fits2, reached, ◌>>=◌, last, e) refl
      | inr (done bytes, e) ↦
          rw (read_items_of_directory, fits1, fits2, reached, ◌>>=◌, last, e, last) refl
    ]

-- Inside the first cluster of a chain, `total` bytes from `offset` on are those of the disk at that
-- place of the cluster. The volume is in the first 2 GiB of the kernel's disk, and the read starts at
-- a sector or stays inside one.
pub read_items_of_directory-first :
    (fuel : ℕ) (disk : Contents) (fat_private : FatPrivate) (start offset total : ℕ)
    → fat_private.stream.known ≡ true
    → start < 2 ^ 31
    → offset < size_of_cluster_bytes fat_private
    → offset + total ≤ size_of_cluster_bytes fat_private
    → first_cluster_byte fat_private start offset + total < 2 ^ 31
    → IsAligned offset total
    → read_items_of_directory (suc fuel) disk fat_private start offset total
      ≡ some (done (disk_bytes disk (first_cluster_byte fat_private start offset) total))
unfolding IsAligned
read_items_of_directory-first fuel disk fat_private start offset total known small inside whole
      below aligned =
    let sector = cluster_sector fat_private start in
    let size = size_of_cluster_bytes fat_private in
    let at = sector * sector_size + offset in
    let same : ((sector * sector_size) % 2 ^ 32 + offset % size) % 2 ^ 32 ≡ at =
      rw (mod-eq_of_lt {n = offset} {m = size} inside) (omega arith) in
    let at_aligned : IsAligned at total = elim aligned [
      | inl start_ ↦ inl (omega arith)
      | inr within ↦ inr (omega arith)
    ] in
    last_round fuel disk fat_private start offset total start (omega arith) (omega arith)
      (first_cluster disk fat_private start offset small inside) (omega arith)
    ∙ ap (λ p. read_at disk fat_private.stream p total) same
    ∙ read_at-disk_bytes disk fat_private.stream at total known (omega arith) at_aligned

-- Beyond the first cluster of a chain the bytes of the first cluster are read again: where the chain
-- reaches `offset`, a read of at most one cluster from there is the read from the offset's place in
-- the first cluster.
pub read_items_of_directory-wraps :
    (fuel : ℕ) (disk : Contents) (fat_private : FatPrivate) (start offset total cluster : ℕ)
    → start < 2 ^ 31
    → offset < 2 ^ 31
    → total < 2 ^ 31
    → get_cluster_for_offset disk fat_private start offset ≡ some (done cluster)
    → 0 < size_of_cluster_bytes fat_private
    → total ≤ size_of_cluster_bytes fat_private
    → read_items_of_directory (suc fuel) disk fat_private start offset total
      ≡ read_items_of_directory
          (suc fuel)
          disk
          fat_private
          start
          (offset % size_of_cluster_bytes fat_private)
          total
read_items_of_directory-wraps fuel disk fat_private start offset total cluster small fits fits_total
      reached some_ short =
    let size = size_of_cluster_bytes fat_private in
    let inside : offset % size < size = mod-lt offset some_ in
    let le : offset % size ≤ offset = mod-le offset size in
    last_round fuel disk fat_private start offset total cluster fits fits_total reached short
    ∙ ap
        (λ o.
          read_at disk fat_private.stream
            (((cluster_sector fat_private start * sector_size) % 2 ^ 32 + o) % 2 ^ 32) total)
        (sym (mod-eq_of_lt {n = offset % size} {m = size} inside))
    ∙ sym (
        last_round fuel disk fat_private start (offset % size) total start (omega (arith, le))
          fits_total (first_cluster disk fat_private start (offset % size) small inside) short)
