-- ===== src/Disk/Streamer/Bytes.antt =====
-- What a stream reads: the bytes of the disk at its position.
use ra_os.Base.{
  ℕ, zero, suc, ◌+◌, ◌-◌, ◌*◌, ◌/◌, ◌%◌, ◌^◌, ◌≤◌, ◌<◌, ◌≡◌, ◌≢◌, refl, ap, ◌∙◌, ltb, true, false,
  none, some, List, [], ◌∷◌, ◌++◌, arith, tests, Bool-cases, lt→ltb, le→ltb, ok, err, eio, ◌⊎◌, inl,
  inr,
}
use native.Mathlib.Decide.{dec_lt}
use mathlib.Core.Path.{ap₂}
use ra_os.Disk.Streamer.{sector_size, Contents, Stream, copy_loop, read_block, read}

-- The `n` bytes of the disk from byte `at` on.
unfoldable pub disk_bytes : Contents → ℕ → ℕ → List ℕ
disk_bytes disk at zero = []
disk_bytes disk at (suc n) = disk (at / sector_size) (at % sector_size) ∷ disk_bytes disk (at + 1) n

pub disk_bytes-append :
    (disk : Contents) (m n at total : ℕ)
    → total ≡ m + n
    → disk_bytes disk at m ++ disk_bytes disk (at + m) n ≡ disk_bytes disk at total
unfolding disk_bytes
disk_bytes-append disk zero n at total e =
    ap₂ (λ a k. disk_bytes disk a k) (omega arith) (omega arith)
disk_bytes-append disk (suc m) n at zero e = absurd (omega arith)
disk_bytes-append disk (suc m) n at (suc total) e =
    ap (λ l. disk (at / sector_size) (at % sector_size) ∷ l)
      (ap (λ a. disk_bytes disk (at + 1) m ++ disk_bytes disk a n) (omega arith)
        ∙ disk_bytes-append disk m n (at + 1) total (omega arith))

-- The bytes of sector `q` from byte `i` on are those of the disk.
copy_loop-disk :
    (n : ℕ) (disk : Contents) (q i at : ℕ)
    → at ≡ q * sector_size + i
    → i + n ≤ sector_size
    → copy_loop n (disk q) i ≡ some (disk_bytes disk at n)
unfolding copy_loop disk_bytes
copy_loop-disk zero disk q i at e h = refl
copy_loop-disk (suc n) disk q i at e h =
    rw
      (
        lt→ltb i sector_size (omega arith),
        copy_loop-disk n disk q (i + 1) (at + 1) (omega arith) (omega arith),
      )
      (ap₂ (λ a b. some (disk a b ∷ disk_bytes disk (at + 1) n)) (omega arith) (omega arith))

copy_loop-past :
    (n : ℕ) (buf : ℕ → ℕ) (i : ℕ) → sector_size < i + n → i ≤ sector_size → copy_loop n buf i ≡ none
unfolding copy_loop
copy_loop-past zero buf i h k = absurd (omega arith)
copy_loop-past (suc n) buf i h k = elim (dec_lt i sector_size) [
  | yes inside ↦
      rw (lt→ltb i sector_size inside, copy_loop-past n buf (i + 1) (omega arith) (omega arith))
        refl
  | no outside ↦ rw (le→ltb i sector_size (omega arith)) refl
]

read_block-known :
    (disk : Contents) (stream : Stream) (q : ℕ)
    → stream.known ≡ true
    → read_block disk stream q ≡ ok (disk q)
unfolding read_block
read_block-known disk stream q h = rw h refl

-- The rounds of the recursion.
read-last :
    (fuel : ℕ) (disk : Contents) (stream : Stream) (total : ℕ) (bytes : List ℕ)
    → read_block disk stream (stream.position / sector_size)
      ≡ ok (disk (stream.position / sector_size))
    → ltb (stream.position + total) (2 ^ 31) ≡ true
    → ltb sector_size total ≡ false
    → copy_loop total (disk (stream.position / sector_size)) (stream.position % sector_size)
      ≡ some bytes
    → read (suc fuel) disk stream total
      ≡ some (ok tt, bytes, record stream { position = stream.position + total })
unfolding read
read-last fuel disk stream total bytes b room t c = ground (arith, b, room, t, c)

read-more :
    (fuel : ℕ) (disk : Contents) (stream : Stream) (total : ℕ) (bytes more : List ℕ) (last : Stream)
    → read_block disk stream (stream.position / sector_size)
      ≡ ok (disk (stream.position / sector_size))
    → ltb (stream.position + sector_size) (2 ^ 31) ≡ true
    → ltb sector_size total ≡ true
    → copy_loop sector_size (disk (stream.position / sector_size)) (stream.position % sector_size)
      ≡ some bytes
    → read fuel disk
        (record stream { position = stream.position + sector_size })
        (total - sector_size)
      ≡ some (ok tt, more, last)
    → read (suc fuel) disk stream total ≡ some (ok tt, bytes ++ more, last)
unfolding read
read-more fuel disk stream total bytes more last b room t c d = ground (arith, b, room, t, c, d)

pub read-disk_bytes :
    (fuel : ℕ) (disk : Contents) (stream : Stream) (total : ℕ)
    → stream.known ≡ true
    → (stream.position % sector_size ≡ 0) ⊎ (stream.position % sector_size + total ≤ sector_size)
    → stream.position + total < 2 ^ 31
    → total / sector_size < fuel
    → read fuel disk stream total
      ≡ some (
        ok tt,
        disk_bytes disk stream.position total,
        record stream { position = stream.position + total },
      )
read-disk_bytes zero disk stream total h k room f = absurd (omega arith)
read-disk_bytes (suc fuel) disk stream total h k room f =
    let q = stream.position / sector_size in
    let i = stream.position % sector_size in
    elim (Bool-cases (ltb sector_size total)) [
      | inr last ↦
          read-last fuel disk stream total _ (read_block-known disk stream q h)
            (lt→ltb (stream.position + total) (2 ^ 31) room) last
            (copy_loop-disk total disk q i stream.position (omega arith) (omega (tests, last)))
      | inl more ↦
          let moved : Stream = record stream { position = stream.position + sector_size } in
          read-more fuel disk stream total _ _ _ (read_block-known disk stream q h)
            (lt→ltb (stream.position + sector_size) (2 ^ 31) (omega (tests, more))) more
            (copy_loop-disk sector_size disk q i stream.position (omega arith)
              (omega (tests, more)))
            (read-disk_bytes fuel disk moved (total - sector_size) h (inl (omega (tests, more)))
              (omega (tests, more)) (omega (tests, more)))
          ∙ ap₂ (λ bytes at. some (ok tt, bytes, record stream { position = at }))
              (disk_bytes-append disk sector_size (total - sector_size) stream.position total
                (omega (tests, more)))
              (omega (tests, more))
    ]

-- A read of a stream of the kernel's disk that starts inside a sector and goes beyond its end
-- accesses the sector buffer beyond its end, whatever the fuel.
pub read-overrun :
    (fuel : ℕ) (disk : Contents) (stream : Stream) (total : ℕ)
    → stream.known ≡ true
    → stream.position % sector_size ≢ 0
    → sector_size < stream.position % sector_size + total
    → read fuel disk stream total ≡ none
unfolding read
read-overrun zero disk stream total h k l = refl
read-overrun (suc fuel) disk stream total h k l =
    let q = stream.position / sector_size in
    let i = stream.position % sector_size in
    let block = read_block-known disk stream q h in
    elim (Bool-cases (ltb sector_size total)) [
      | inl more ↦ ground (arith, copy_loop-past sector_size (disk q) i)
      | inr last ↦ ground (arith, copy_loop-past total (disk q) i)
    ]

-- A stream of another disk reads nothing and stays where it is.
pub read-eio :
    (fuel : ℕ) (disk : Contents) (stream : Stream) (total : ℕ)
    → stream.known ≡ false
    → read (suc fuel) disk stream total ≡ some (err eio, [], stream)
unfolding read read_block
read-eio fuel disk stream total h = rw h refl
