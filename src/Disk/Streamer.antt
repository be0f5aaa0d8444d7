-- ===== src/Disk/Streamer.antt =====
-- src/disk/streamer.c and the block layer of src/disk/disk.c that it calls. The contents of the disk
-- are a function from sector and byte to the byte that the controller delivers; a stream of another
-- disk than the one of the kernel has `known` false. Positions and totals are of type `int` in the code
-- and not negative; `none` is an access beyond the sector buffer, or a position that leaves the `int`.
pub mod Bytes
use ra_os.Base.{
  ℕ, zero, suc, ◌+◌, ◌-◌, ◌*◌, ◌/◌, ◌%◌, ◌^◌, ◌==◌, if◌then◌else◌, ltb, Bool, true, false, Option,
  none, some, List, [], ◌∷◌, ◌++◌, ◌>>=◌, Result, ok, err, eio,
}

-- RAOS_SECTOR_SIZE
abbrev pub sector_size : ℕ
sector_size = 512

abbrev pub Contents : Type 0
Contents = ℕ → ℕ → ℕ

-- `struct disk_stream`: the position, and the disk.
pub record Stream : Type 0 where
  pub position : ℕ
  pub known : Bool

-- One sector: its bytes by index.
unfoldable pub read_block : Contents → Stream → ℕ → Result (ℕ → ℕ)
read_block disk stream lba = if stream.known then ok (disk lba) else err eio

-- The loop that copies `rounds` bytes from index `i` of the buffer on.
unfoldable pub copy_loop : ℕ → (ℕ → ℕ) → ℕ → Option (List ℕ)
copy_loop zero buf i = some []
copy_loop (suc rounds) buf i =
    if ltb i sector_size
    then (copy_loop rounds buf (i + 1) >>= λ bytes. some (buf i ∷ bytes))
    else none

unfoldable pub seek : Stream → ℕ → Stream
seek stream pos = record stream { position = pos }

-- The status, the bytes read, and the stream. The recursion takes a sector each time, so that fuel
-- above `total / sector_size` is enough; `none` also stands for the end of the fuel.
unfoldable pub read : ℕ → Contents → Stream → ℕ → Option (Result (Unit {0}) × List ℕ × Stream)
read zero disk stream total = none
read (suc fuel) disk stream total = elim (read_block disk stream (stream.position / sector_size)) [
  | err e ↦ some (err e, [], stream)
  | ok buf ↦ do
    let total_to_read = (if ltb sector_size total then sector_size else total)
    bytes ← copy_loop total_to_read buf (stream.position % sector_size)
    let moved = record stream { position = stream.position + total_to_read }
    elim (ltb moved.position (2 ^ 31)) [
      | false ↦ none
      | true ↦ elim (ltb sector_size total) [
        | false ↦ some (ok tt, bytes, moved)
        | true ↦ do
          (res, more, last) ← read fuel disk moved (total - sector_size)
          some (res, bytes ++ more, last)
      ]
    ]
]
