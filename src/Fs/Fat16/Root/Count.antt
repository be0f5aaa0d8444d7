-- ===== src/Fs/Fat16/Root/Count.antt =====
-- The count of the items of a directory, against a count over the bytes of the disk.
use ra_os.Base.{
  done, ℕ, zero, suc, ◌+◌, ◌*◌, ◌/◌, ◌%◌, ◌^◌, ◌<◌, ◌≡◌, ◌≢◌, ◌==◌, ◌>>=◌, refl, ap, ◌∙◌,
  if◌then◌else◌, Bool, true, false, some, arith, lt→ltb, ==_of_eq, ==_of_ne, inr, ok,
}
use ra_os.Disk.Streamer.{Contents, Stream, sector_size, seek, read}
use ra_os.Disk.Streamer.Bytes.{disk_bytes, read-disk_bytes}
use ra_os.Fs.Fat16.{byte, item_size}
use ra_os.Fs.Fat16.Root.{count_loop, get_total_items_for_directory}

-- The byte of the disk at a position.
abbrev pub disk_byte : Contents → ℕ → ℕ
disk_byte disk at = disk (at / sector_size) (at % sector_size)

-- Of the `n` items from byte `at` on, those that are not marked as unused.
unfoldable pub used_items : Contents → ℕ → ℕ → ℕ
used_items disk at zero = 0
used_items disk at (suc n) =
    (if disk_byte disk at == 0xe5 then 0 else 1) + used_items disk (at + item_size) n

read-item :
    (disk : Contents) (stream : Stream)
    → stream.known ≡ true
    → stream.position % item_size ≡ 0
    → stream.position + item_size < 2 ^ 31
    → read 1 disk stream item_size
      ≡ some (
        ok tt,
        disk_bytes disk stream.position item_size,
        record stream { position = stream.position + item_size },
      )
read-item disk stream known aligned room =
    read-disk_bytes 1 disk stream item_size known (inr (omega arith)) room (omega arith)

byte-disk_bytes :
    (disk : Contents) (at : ℕ) → byte (disk_bytes disk at item_size) 0 ≡ disk_byte disk at
unfolding disk_bytes
byte-disk_bytes disk at = refl

count_loop-stop :
    (fuel : ℕ) (disk : Contents) (stream : Stream) (i : ℕ)
    → stream.known ≡ true
    → stream.position % item_size ≡ 0
    → stream.position + item_size < 2 ^ 31
    → disk_byte disk stream.position ≡ 0
    → count_loop (suc fuel) disk stream i ≡ some (done i)
unfolding count_loop
count_loop-stop fuel disk stream i known aligned room end =
    rw
      (
        read-item disk stream known aligned room,
        ◌>>=◌,
        byte-disk_bytes disk stream.position,
        ==_of_eq (disk_byte disk stream.position) 0 end,
      )
      refl

count_loop-next :
    (fuel : ℕ) (disk : Contents) (stream : Stream) (i : ℕ)
    → stream.known ≡ true
    → stream.position % item_size ≡ 0
    → stream.position + item_size < 2 ^ 31
    → disk_byte disk stream.position ≢ 0
    → count_loop (suc fuel) disk stream i
      ≡ count_loop fuel disk
          (record stream { position = stream.position + item_size })
          (if disk_byte disk stream.position == 0xe5 then i else i + 1)
unfolding count_loop disk_bytes
count_loop-next fuel disk stream i known aligned room item =
    rw
      (
        read-item disk stream known aligned room,
        ◌>>=◌,
        byte-disk_bytes disk stream.position,
        ==_of_ne (disk_byte disk stream.position) 0 item,
      )
      refl

add-if :
    (b : Bool) (i rest : ℕ) → (if b then i else i + 1) + rest ≡ i + ((if b then 0 else 1) + rest)
add-if true i rest = omega arith
add-if false i rest = omega arith

count_loop-used_items :
    (n fuel : ℕ) (disk : Contents) (stream : Stream) (i : ℕ)
    → stream.known ≡ true
    → stream.position % item_size ≡ 0
    → stream.position + suc n * item_size < 2 ^ 31
    → ((k : ℕ) → k < n → disk_byte disk (stream.position + k * item_size) ≢ 0)
    → disk_byte disk (stream.position + n * item_size) ≡ 0
    → n < fuel
    → count_loop fuel disk stream i ≡ some (done (i + used_items disk stream.position n))
unfolding used_items
count_loop-used_items n zero disk stream i known aligned room items end enough =
    absurd (omega arith)
count_loop-used_items zero (suc fuel) disk stream i known aligned room items end enough =
    count_loop-stop fuel disk stream i known aligned (omega arith)
      (ap (λ at. disk_byte disk at) (omega arith) ∙ end)
    ∙ ap (λ k. some (done k)) (omega arith)
count_loop-used_items (suc n) (suc fuel) disk stream i known aligned room items end enough =
    let at = stream.position in
    count_loop-next fuel disk stream i known aligned (omega arith)
      (λ e. items 0 (omega arith) (ap (λ p. disk_byte disk p) (omega arith) ∙ e))
    ∙ count_loop-used_items n fuel disk (record stream { position = at + item_size }) _ known
        (omega arith) (omega arith)
        (λ k below e. items (suc k) (omega arith) (ap (λ p. disk_byte disk p) (omega arith) ∙ e))
        (ap (λ p. disk_byte disk p) (omega arith) ∙ end) (omega arith)
    ∙ ap (λ k. some (done k)) (add-if (disk_byte disk at == 0xe5) i _)

-- Of a directory whose first item with a first byte of 0 is item `n`, that many items are counted as
-- are before it and do not start with the byte 0xE5 of an unused item. The items up to that one
-- are in the first 2 GiB of the kernel's disk, and the fuel is above `n`.
pub get_total_items-used_items :
    (n fuel : ℕ) (disk : Contents) (stream : Stream) (sector : ℕ)
    → stream.known ≡ true
    → sector * sector_size + suc n * item_size < 2 ^ 31
    → ((k : ℕ) → k < n → disk_byte disk (sector * sector_size + k * item_size) ≢ 0)
    → disk_byte disk (sector * sector_size + n * item_size) ≡ 0
    → n < fuel
    → get_total_items_for_directory fuel disk stream sector
      ≡ some (done (used_items disk (sector * sector_size) n))
unfolding get_total_items_for_directory seek
get_total_items-used_items n fuel disk stream sector known below items end enough =
    let at = sector * sector_size in
    let small : (at % 2 ^ 32) ≡ at = omega arith in
    rw (small, lt→ltb at (2 ^ 31) (omega arith))
      (count_loop-used_items n fuel disk (record stream { position = at }) 0 known (omega arith)
          below items end enough
        ∙ ap (λ k. some (done k)) (omega arith))
