-- ===== src/Disk/Ata/Sectors/Tests.antt =====
-- A controller that keeps what is written to its registers, and always has its sector ready.
use ra_os.Base.{
  ℕ, suc, ◌+◌, ◌-◌, ◌*◌, ◌%◌, ◌^◌, ◌<◌, ◌≡◌, refl, ap, ◌==◌, false, if◌then◌else◌, some, arith,
  ==_of_ne,
}
use ra_os.Disk.Ata.{Ports, disk_read_sector}
use ra_os.Disk.Ata.Sectors.{IsAta, there, sectors_from, disk_read_sector-sectors}

-- The registers, and the word that is next: `index` of `sector`, with `left` sectors to go.
record Controller : Type 0 where
  drive : ℕ
  count : ℕ
  low : ℕ
  mid : ℕ
  high : ℕ
  sector : ℕ
  left : ℕ
  index : ℕ

unfoldable write_port : Controller → ℕ → ℕ → Controller
write_port c port value =
    if port == 0x1f6
    then record c { drive = value }
    else if port == 0x1f2
    then record c { count = value }
    else if port == 0x1f3
    then record c { low = value }
    else if port == 0x1f4
    then record c { mid = value }
    else if port == 0x1f5
    then record c { high = value }
    else record c {
      sector = c.low + c.mid * 2 ^ 8 + c.high * 2 ^ 16 + (c.drive - 0xe0) * 2 ^ 24;
      left = c.count;
      index = 0;
    }

abbrev test_contents : ℕ → ℕ → ℕ
test_contents lba i = (lba + i) % 2 ^ 16

unfoldable next_word : Controller → Controller
next_word c =
    if c.index == 255
    then record c { sector = c.sector + 1; left = c.left - 1; index = 0 }
    else record c { index = c.index + 1 }

abbrev test_ports : Ports
test_ports = record {
  State = Controller;
  outb = write_port;
  insb = λ c port. (0x08, c);
  insw = λ c port. (test_contents c.sector c.index, next_word c);
}

abbrev TestServing : ℕ → ℕ → ℕ → Controller → Type 0
TestServing lba left i c = (c.sector ≡ lba) × (c.left ≡ left) × (c.index ≡ i)

next_word-inside :
    (c : Controller) (lba left i : ℕ)
    → i < 255
    → TestServing lba left i c
    → TestServing lba left (i + 1) (next_word c)
unfolding next_word
next_word-inside c lba left i h (s, l, e) =
    let not_last : (c.index == 255) ≡ false = ==_of_ne c.index 255 (omega (arith, h, e)) in
    rw (next_word, not_last) (s, l, ap (λ (n : ℕ). n + 1) e)

next_word-last :
    (c : Controller) (lba left : ℕ)
    → TestServing lba (suc left) 255 c
    → TestServing (lba + 1) left 0 (next_word c)
unfolding next_word
next_word-last c lba left (s, l, e) = rw (next_word, e) (ap (λ (n : ℕ). n + 1) s, omega arith, refl)

word-served :
    (c : Controller) (left lba i : ℕ)
    → TestServing lba left i c
    → test_ports.insw c 0x1f0 ≡ (test_contents lba i, next_word c)
word-served c left lba i (s, l, e) = rw (s, e) refl

test_ports-IsAta : IsAta test_ports test_contents 1
unfolding write_port
test_ports-IsAta = record {
  Serving = TestServing;
  command = λ c a b m d total _ _ _ _ _. (omega arith, refl, refl);
  ready = λ c lba left serving.
      (0, c, omega arith, there 0x08 c c refl (λ e. omega (arith, e)), serving);
  word = λ c lba left i h serving. (
    next_word c,
    word-served c (suc left) lba i serving,
    next_word-inside c lba (suc left) i h serving,
  );
  last_word = λ c lba left serving.
      (next_word c, word-served c (suc left) lba 255 serving, next_word-last c lba left serving);
}

fresh : Controller
fresh = record { drive = 0; count = 0; low = 0; mid = 0; high = 0; sector = 0; left = 0; index = 0 }

disk_read_sector-sectors_example :
    (state' : Controller) × (disk_read_sector test_ports 1 fresh 513 2
      ≡ some (sectors_from test_contents 513 2, state'))
disk_read_sector-sectors_example =
    disk_read_sector-sectors test_ports test_contents 1 1 513 2 fresh test_ports-IsAta (omega arith)
      (omega arith) (omega arith)
