-- ===== src/Fs/Fat16/Calls/Reading.antt =====
-- What `fat16_read` reads.
use ra_os.Base.{
  done, ℕ, zero, suc, ◌+◌, ◌-◌, ◌*◌, ◌%◌, ◌^◌, ◌<◌, ◌≤◌, ◌≡◌, ◌>>=◌, ◌++◌, refl, ◌∙◌, ap, sym, true,
  some, subst, ◌/◌, arith,
}
use ra_os.Disk.Streamer.{Contents, sector_size}
use ra_os.Disk.Streamer.Bytes.{disk_bytes, disk_bytes-append}
use ra_os.Fs.Fat16.{byte, FatPrivate, DirectoryItem}
use ra_os.Fs.Fat16.Clusters.{
  get_first_cluster_for_directory_item, size_of_cluster_bytes, cluster_sector,
  read_items_of_directory,
}
use ra_os.Fs.Fat16.Clusters.Reading.{IsAligned, first_cluster_byte, read_items_of_directory-first}
use ra_os.Fs.Fat16.Lookup.{file_item}
use ra_os.Fs.Fat16.Calls.{read_loop, fat16_read}

-- The byte of the disk at which byte `offset` of the file is expected.
abbrev pub file_byte : FatPrivate → DirectoryItem → ℕ → ℕ
file_byte fat_private item offset =
    first_cluster_byte fat_private (get_first_cluster_for_directory_item item) offset

read_loop-disk_bytes :
    (n : ℕ) (disk : Contents) (fat_private : FatPrivate) (item : DirectoryItem) (offset size : ℕ)
    → fat_private.stream.known ≡ true
    → get_first_cluster_for_directory_item item < 2 ^ 31
    → 0 < size
    → offset + n * size ≤ size_of_cluster_bytes fat_private
    → file_byte fat_private item offset + n * size < 2 ^ 31
    → ((i : ℕ) → i < n → IsAligned (offset + i * size) size)
    → read_loop disk fat_private item n offset size
      ≡ some (done (disk_bytes disk (file_byte fat_private item offset) (n * size)))
unfolding read_loop disk_bytes
read_loop-disk_bytes zero disk fat_private item offset size known small some_ whole below aligned =
    let nothing : 0 * size ≡ 0 = omega arith in rw nothing refl
read_loop-disk_bytes (suc n) disk fat_private item offset size known small some_ whole below
      aligned =
    let start = get_first_cluster_for_directory_item item in
    let at = file_byte fat_private item offset in
    let one : 0 + size ≤ suc n * size = omega arith in
    let fuel_suc : size / sector_size + 1 ≡ suc (size / sector_size) = omega arith in
    let first : read_items_of_directory (size / sector_size + 1) disk fat_private start offset size
        ≡ some (done (disk_bytes disk at size)) =
      ap (λ fuel. read_items_of_directory fuel disk fat_private start offset size) fuel_suc
      ∙ read_items_of_directory-first (size / sector_size) disk fat_private start offset size known
          small (omega arith) (omega arith) (omega arith)
          (subst (λ o. IsAligned o size) (omega arith) (aligned 0 (omega arith))) in
    let next : (offset + size) % 2 ^ 32 ≡ offset + size = omega arith in
    let rest =
      read_loop-disk_bytes n disk fat_private item (offset + size) size known small some_
        (omega arith) (omega arith)
        (λ i h. subst (λ o. IsAligned o size) (omega arith) (aligned (suc i) (omega arith))) in
    rw (first, ◌>>=◌, next, rest)
      (ap (λ bytes. some (done bytes))
        (ap (λ p. disk_bytes disk at size ++ disk_bytes disk p (n * size)) (omega arith)
          ∙ disk_bytes-append disk size (n * size) at (suc n * size) (omega arith)))

-- `nmemb` elements of `size` bytes of a file are the bytes of the disk from the descriptor's position
-- on, when they are in the file's first cluster, in the first 2 GiB of the kernel's disk, and no
-- element starts inside a sector and goes beyond it.
pub fat16_read-file_byte :
    (disk : Contents) (fat_private : FatPrivate) (item : DirectoryItem) (pos size nmemb : ℕ)
    → fat_private.stream.known ≡ true
    → get_first_cluster_for_directory_item item < 2 ^ 31
    → 0 < size
    → pos + nmemb * size ≤ size_of_cluster_bytes fat_private
    → file_byte fat_private item pos + nmemb * size < 2 ^ 31
    → ((i : ℕ) → i < nmemb → IsAligned (pos + i * size) size)
    → fat16_read disk fat_private (record { item = file_item item; pos = pos }) size nmemb
      ≡ some (done (nmemb, disk_bytes disk (file_byte fat_private item pos) (nmemb * size)))
unfolding fat16_read
fat16_read-file_byte disk fat_private item pos size nmemb known small some_ whole below aligned =
    rw
      (read_loop-disk_bytes nmemb disk fat_private item pos size known small some_ whole below
        aligned)
      refl

-- The first cluster of an item, by its bytes, the low half behind the high half.
abbrev pub cluster_of : DirectoryItem → ℕ
cluster_of item = byte item 26 + byte item 27 * 256 + (byte item 24 + byte item 25 * 256) * 65536

-- Where byte `offset` of a file lies: clusters follow the root directory, and count from 2.
abbrev pub place_of : FatPrivate → ℕ → ℕ → ℕ
place_of fat_private cluster offset =
    (fat_private.root_directory.end_sector_pos
        + (cluster - 2) * fat_private.header.sectors_per_cluster)
      * 512
    + offset

cluster_sector-place :
    (fat_private : FatPrivate) (d : ℕ)
    → fat_private.root_directory.end_sector_pos + d * fat_private.header.sectors_per_cluster
      < 2 ^ 32
    → cluster_sector fat_private (d + 2)
      ≡ fat_private.root_directory.end_sector_pos + d * fat_private.header.sectors_per_cluster
unfolding cluster_sector
cluster_sector-place fat_private d h =
    let spc = fat_private.header.sectors_per_cluster in
    let wrapped : (d + 2 + (2 ^ 32 - 2)) * spc ≡ d * spc + 2 ^ 32 * spc = omega arith in
    omega (arith, wrapped)

cluster_sector-place_of :
    (fat_private : FatPrivate) (cluster : ℕ)
    → 2 ≤ cluster
    → place_of fat_private cluster 0 < 2 ^ 31
    → cluster_sector fat_private cluster * sector_size ≡ place_of fat_private cluster 0
cluster_sector-place_of fat_private cluster counted near =
    let same : cluster - 2 + 2 ≡ cluster = omega arith in
    ap (λ c. cluster_sector fat_private c * sector_size) (sym same)
    ∙ omega (arith, cluster_sector-place fat_private (cluster - 2) (omega arith))

-- `nmemb` elements of `size` bytes of a file are the bytes of the disk from the descriptor's position
-- on, which the file's first cluster, number 2 or above, has behind the root directory. They are in that
-- cluster and in the first 2 GiB of the kernel's disk, and no element starts inside a sector and goes
-- beyond it.
pub fat16_read-disk_bytes :
    (disk : Contents) (fat_private : FatPrivate) (item : DirectoryItem) (pos size nmemb : ℕ)
    → fat_private.stream.known ≡ true
    → 2 ≤ cluster_of item
    → cluster_of item < 2 ^ 31
    → 0 < size
    → pos + nmemb * size ≤ size_of_cluster_bytes fat_private
    → place_of fat_private (cluster_of item) pos + nmemb * size < 2 ^ 31
    → ((i : ℕ) → i < nmemb → IsAligned (pos + i * size) size)
    → fat16_read disk fat_private (record { item = file_item item; pos = pos }) size nmemb
      ≡ some (
          done (nmemb, disk_bytes disk (place_of fat_private (cluster_of item) pos) (nmemb * size)))
fat16_read-disk_bytes disk fat_private item pos size nmemb known counted small some_ whole below
      aligned =
    let named : get_first_cluster_for_directory_item item ≡ cluster_of item = omega arith in
    let start : cluster_sector fat_private (cluster_of item) * sector_size
        ≡ place_of fat_private (cluster_of item) 0 =
      cluster_sector-place_of fat_private (cluster_of item) counted (omega arith) in
    let place : file_byte fat_private item pos ≡ place_of fat_private (cluster_of item) pos =
      ap (λ c. cluster_sector fat_private c * sector_size + pos) named ∙ omega (arith, start) in
    fat16_read-file_byte disk fat_private item pos size nmemb known (omega (arith, named)) some_
      whole (omega (arith, place)) aligned
    ∙ ap (λ at. some (done (nmemb, disk_bytes disk at (nmemb * size)))) place
