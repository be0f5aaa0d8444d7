-- ===== src/Disk/Ata.antt =====
-- `disk_read_sector` of src/disk/disk.c: the commands to the controller of the disk, and the words that it
-- delivers. The ports of the processor are a parameter.
pub mod Sectors
use ra_os.Base.{
  ℕ, zero, suc, ◌+◌, ◌/◌, ◌%◌, ◌^◌, ◌==◌, true, false, Option, none, some, List, [], ◌∷◌, ◌++◌,
  ◌>>=◌, bit_and, bit_or,
}

-- src/io/io.h, which is assembly: a state of what is behind the ports, and writes and reads of a port.
pub record Ports : Type 1 where
  pub State : Type 0
  pub outb : State → ℕ → ℕ → State
  pub insb : State → ℕ → ℕ × State
  pub insw : State → ℕ → ℕ × State

module _ (ports : Ports) where
  open ports use {State, outb, insb, insw}

  -- The value of `outb` is an unsigned char.
  unfoldable pub send_command : State → ℕ → ℕ → State
  send_command state lba total =
      let s1 = outb state 0x1f6 (bit_or (lba / 2 ^ 24) 0xe0 % 2 ^ 8) in
      let s2 = outb s1 0x1f2 (total % 2 ^ 8) in
      let s3 = outb s2 0x1f3 (bit_and lba 0xff) in
      let s4 = outb s3 0x1f4 (lba / 2 ^ 8 % 2 ^ 8) in
      let s5 = outb s4 0x1f5 (lba / 2 ^ 16 % 2 ^ 8) in outb s5 0x1f7 0x20

  -- `c` is the status that was read last. The wait has no bound in the code.
  unfoldable pub wait_loop : ℕ → State → ℕ → Option State
  wait_loop zero state c = none
  wait_loop (suc fuel) state c = elim (bit_and c 0x08 == 0) [
    | false ↦ some state
    | true ↦ let (c', state') = insb state 0x1f7 in wait_loop fuel state' c'
  ]

  -- `rounds` words are left of the 256 of a sector.
  unfoldable pub copy_words : ℕ → State → List ℕ × State
  copy_words zero state = ([], state)
  copy_words (suc rounds) state =
      let (w, state') = insw state 0x1f0 in
      let (rest, last) = copy_words rounds state' in (w ∷ rest, last)

  -- `rounds` sectors are left.
  unfoldable pub sectors_loop : ℕ → ℕ → State → Option (List ℕ × State)
  unfolding wait_loop copy_words
  sectors_loop zero fuel state = some ([], state)
  sectors_loop (suc rounds) fuel state = do
    let (c, asked) = insb state 0x1f7
    waited ← wait_loop fuel asked c
    let (words, copied) = copy_words 256 waited
    (more, last) ← sectors_loop rounds fuel copied
    some (words ++ more, last)

  -- The words that are put into the buffer.
  unfoldable pub disk_read_sector : ℕ → State → ℕ → ℕ → Option (List ℕ × State)
  unfolding send_command sectors_loop
  disk_read_sector fuel state lba total = sectors_loop total fuel (send_command state lba total)
