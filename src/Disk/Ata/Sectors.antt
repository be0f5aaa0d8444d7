-- ===== src/Disk/Ata/Sectors.antt =====
-- The sectors that are read from a controller that keeps to the ATA commands.
mod Tests
use ra_os.Base.{
  ℕ, zero, suc, ◌+◌, ◌-◌, ◌*◌, ◌/◌, ◌%◌, ◌^◌, ◌≤◌, ◌<◌, ◌≡◌, ◌≢◌, refl, ◌∙◌, ap, sym, subst, ◌==◌,
  true, false, none, some, List, [], ◌∷◌, ◌++◌, ◌>>=◌, arith, bit_and, bit_or, ==_of_ne, ==_of_eq,
}
use ra_os.Base.Bits.{bit_and-mask, bit_or-halves}
use ra_os.Disk.Ata.{Ports, send_command, wait_loop, copy_words, sectors_loop, disk_read_sector}

-- The status that port 0x1f7 gives: `k` times without the bit of a sector that is there, then with it.
pub data Polls (ports : Ports) : ℕ → ports.State → ports.State → Type 0 where
  there :
      (c : ℕ) (state state' : ports.State)
      → ports.insb state 0x1f7 ≡ (c, state')
      → bit_and c 0x08 ≢ 0
      → Polls ports zero state state'
  again :
      (c k : ℕ) (state next state' : ports.State)
      → ports.insb state 0x1f7 ≡ (c, next)
      → bit_and c 0x08 ≡ 0
      → Polls ports k next state'
      → Polls ports (suc k) state state'

-- A controller of a disk with the words `contents`, by sector and index, that has a sector ready after
-- fewer than `patience` polls. In a state of `Serving lba left i` it is to deliver word `i` of sector
-- `lba` and what follows, up to `left` sectors.
pub record IsAta (ports : Ports) (contents : ℕ → ℕ → ℕ) (patience : ℕ) : Type 1 where
  pub Serving : ℕ → ℕ → ℕ → ports.State → Type 0
  pub command :
      (state : ports.State) (a b c d total : ℕ)
      → a < 2 ^ 8
      → b < 2 ^ 8
      → c < 2 ^ 8
      → d < 2 ^ 4
      → total < 2 ^ 8
      → let s1 = ports.outb state 0x1f6 (0xe0 + d) in
        let s2 = ports.outb s1 0x1f2 total in
        let s3 = ports.outb s2 0x1f3 a in
        let s4 = ports.outb s3 0x1f4 b in
        let s5 = ports.outb s4 0x1f5 c in
        Serving (a + b * 2 ^ 8 + c * 2 ^ 16 + d * 2 ^ 24) total 0 (ports.outb s5 0x1f7 0x20)
  pub ready :
      (state : ports.State) (lba left : ℕ)
      → Serving lba (suc left) 0 state
      → (k : ℕ) × (state' : ports.State) × (k < patience)
        × Polls ports k state state'
        × Serving lba (suc left) 0 state'
  pub word :
      (state : ports.State) (lba left i : ℕ)
      → i < 255
      → Serving lba (suc left) i state
      → (state' : ports.State) × (ports.insw state 0x1f0 ≡ (contents lba i, state'))
        × Serving lba (suc left) (i + 1) state'
  pub last_word :
      (state : ports.State) (lba left : ℕ)
      → Serving lba (suc left) 255 state
      → (state' : ports.State) × (ports.insw state 0x1f0 ≡ (contents lba 255, state'))
        × Serving (lba + 1) left 0 state'

-- `n` words of a sector from word `i` on.
abbrev pub words_from : (ℕ → ℕ) → ℕ → ℕ → List ℕ
words_from sector i zero = []
words_from sector i (suc n) = sector i ∷ words_from sector (i + 1) n

-- The words of `total` sectors.
unfoldable pub sectors_from : (ℕ → ℕ → ℕ) → ℕ → ℕ → List ℕ
sectors_from contents lba zero = []
sectors_from contents lba (suc total) =
    words_from (contents lba) 0 256 ++ sectors_from contents (lba + 1) total

module _ (ports : Ports) (contents : ℕ → ℕ → ℕ) (patience : ℕ)
    (ata : IsAta ports contents patience) where
  open ata use {Serving, command, ready, word, last_word}

  wait_loop-Polls :
      (k fuel : ℕ) (state state' : ports.State)
      → k < fuel
      → Polls ports k state state'
      → wait_loop ports fuel (ports.insb state 0x1f7).1 (ports.insb state 0x1f7).0 ≡ some state'
  unfolding wait_loop
  wait_loop-Polls k zero state state' enough polls = absurd (omega arith)
  wait_loop-Polls _ (suc fuel) _ _ enough (there c state state' read bit) =
      ap (λ p. wait_loop ports (suc fuel) p.1 p.0) read
      ∙ rw (wait_loop, ==_of_ne (bit_and c 0x08) 0 bit) refl
  wait_loop-Polls _ (suc fuel) _ _ enough (again c k state next state' read bit rest) =
      ap (λ p. wait_loop ports (suc fuel) p.1 p.0) read
      ∙ rw (wait_loop, ==_of_eq (bit_and c 0x08) 0 bit)
          (wait_loop-Polls k fuel next state' (omega arith) rest)

  copy_words-sector :
      (n i lba left : ℕ) (state : ports.State)
      → i + suc n ≡ 256
      → Serving lba (suc left) i state
      → (state' : ports.State) × (copy_words ports (suc n) state
          ≡ (words_from (contents lba) i (suc n), state'))
        × Serving (lba + 1) left 0 state'
  unfolding copy_words
  copy_words-sector zero i lba left state e serving =
      let at : i ≡ 255 = omega arith in
      let (state', read, served) =
        last_word state lba left (subst (λ j. Serving lba (suc left) j state) at serving) in
      (
        state',
        ap (λ p. (p.0 ∷ [], p.1)) read ∙ ap (λ j. (contents lba j ∷ [], state')) (sym at),
        served,
      )
  copy_words-sector (suc n) i lba left state e serving =
      let (next, read, on) = word state lba left i (omega arith) serving in
      let (state', copied, served) = copy_words-sector n (i + 1) lba left next (omega arith) on in
      (
        state',
        ap (λ p. let q = copy_words ports (suc n) p.1 in (p.0 ∷ q.0, q.1)) read
            ∙ ap (λ q. (contents lba i ∷ q.0, q.1)) copied,
        served,
      )

  sectors_loop-sectors :
      (total fuel lba : ℕ) (state : ports.State)
      → patience ≤ fuel
      → Serving lba total 0 state
      → (state' : ports.State) × (sectors_loop ports total fuel state
          ≡ some (sectors_from contents lba total, state'))
        × Serving (lba + total) 0 0 state'
  unfolding sectors_loop sectors_from
  sectors_loop-sectors zero fuel lba state enough serving =
      (state, refl, subst (λ l. Serving l 0 0 state) (omega arith) serving)
  sectors_loop-sectors (suc total) fuel lba state enough serving =
      let (k, asked, soon, polls, still) = ready state lba total serving in
      let waited = wait_loop-Polls k fuel state asked (omega (arith, soon)) polls in
      let (copied, words, on) = copy_words-sector 255 0 lba total asked (omega arith) still in
      let (last, rest, served) = sectors_loop-sectors total fuel (lba + 1) copied enough on in
      (
        last,
        ap
              (λ o. o >>= λ w.
                (sectors_loop ports total fuel (copy_words ports 256 w).1 >>= λ m.
                some ((copy_words ports 256 w).0 ++ m.0, m.1)))
              waited
            ∙ ap (λ p. sectors_loop ports total fuel p.1 >>= λ m. some (p.0 ++ m.0, m.1)) words
            ∙ ap (λ o. o >>= λ m. some (words_from (contents lba) 0 256 ++ m.0, m.1)) rest,
        subst (λ l. Serving l 0 0 last) (omega arith) served,
      )

-- `d | 0xe0`, for the top four bits of a sector's number.
bit_or-drive : (d : ℕ) → d < 2 ^ 4 → bit_or d 0xe0 ≡ 0xe0 + d
bit_or-drive d h =
    let gone : d / 2 / 2 / 2 / 2 ≡ 0 = omega arith in
    let top : bit_or (d / 2 / 2 / 2 / 2) 14 ≡ 14 = ap (λ (t : ℕ). bit_or t 14) gone in
    omega (
      arith,
      top,
      bit_or-halves d 224,
      bit_or-halves (d / 2) 112,
      bit_or-halves (d / 2 / 2) 56,
      bit_or-halves (d / 2 / 2 / 2) 28,
    )

-- `disk_read_sector` of fewer than 256 sectors, from a sector `lba` below 2^28 on, returns with their
-- words in order, when the controller keeps to the ATA commands and each wait has the fuel that the
-- controller's patience asks for.
pub disk_read_sector-sectors :
    (ports : Ports) (contents : ℕ → ℕ → ℕ) (patience fuel lba total : ℕ) (state : ports.State)
    → IsAta ports contents patience
    → patience ≤ fuel
    → lba < 2 ^ 28
    → total < 2 ^ 8
    → (state' : ports.State) × (disk_read_sector ports fuel state lba total
        ≡ some (sectors_from contents lba total, state'))
unfolding disk_read_sector send_command
disk_read_sector-sectors ports contents patience fuel lba total state ata enough small few =
    let a = lba % 2 ^ 8 in
    let b = lba / 2 ^ 8 % 2 ^ 8 in
    let c = lba / 2 ^ 16 % 2 ^ 8 in
    let d = lba / 2 ^ 24 in
    let high : bit_or (lba / 2 ^ 24) 0xe0 % 2 ^ 8 ≡ 0xe0 + d =
      omega (arith, bit_or-drive d (omega arith)) in
    let low : bit_and lba 0xff ≡ a = bit_and-mask 8 lba 0xff refl in
    let count : total % 2 ^ 8 ≡ total = omega arith in
    let whole : a + b * 2 ^ 8 + c * 2 ^ 16 + d * 2 ^ 24 ≡ lba = omega arith in
    let serving =
      ata.command state a b c d total (omega arith) (omega arith) (omega arith) (omega arith) few in
    let sent : ata.Serving lba total 0 (send_command ports state lba total) =
      subst (λ l. ata.Serving l total 0 (send_command ports state lba total)) whole
        (rw (send_command, high, low, count) serving) in
    let (state', looped, done) =
      sectors_loop-sectors ports contents patience ata total fuel lba
        (send_command ports state lba total) enough sent in
    (state', looped)
