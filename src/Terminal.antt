-- ===== src/Terminal.antt =====
-- src/kernel.c: the text terminal. The video memory is a function from the index of a cell to its
-- 16 bits; `none` is a cell outside of the screen, which does not scroll.
pub mod Print
pub mod Blank
mod Tests
use ra_os.Base.{
  ℕ, ◌+◌, ◌-◌, ◌*◌, ◌%◌, ◌^◌, ◌==◌, if◌then◌else◌, ltb, leb, List, [], ◌∷◌, ◌>>=◌, Option, none,
  some, bit_or, zero, suc,
}

pub record Terminal : Type 0 where
  pub video_mem : ℕ → ℕ
  pub row : ℕ
  pub col : ℕ

-- VGA_WIDTH and VGA_HEIGHT
abbrev pub vga_width : ℕ
vga_width = 80

abbrev pub vga_height : ℕ
vga_height = 20

-- `char` is signed: a byte from 128 on fills the upper half of the cell with ones.
abbrev pub char16 : ℕ → ℕ
char16 ch = if ltb ch 128 then ch else 0xff00 + ch

unfoldable pub make_char : ℕ → ℕ → ℕ
make_char ch color = bit_or (color * 2 ^ 8) (char16 ch) % 2 ^ 16

unfoldable pub putchar : Terminal → ℕ → ℕ → ℕ → ℕ → Option Terminal
unfolding make_char
putchar t x y c color =
    if ltb (y * vga_width + x) (vga_height * vga_width)
    then some (record t {
      video_mem = λ i. if i == y * vga_width + x then make_char c color else t.video_mem i;
    })
    else none

-- The counters are 16 bits wide.
abbrev pub next16 : ℕ → ℕ
next16 n = (n + 1) % 2 ^ 16

unfoldable pub writechar : Terminal → ℕ → ℕ → Option Terminal
unfolding putchar
writechar t c color = if c == b'\n' then some (record t { row = next16 t.row; col = 0 }) else (do
  written ← putchar t t.col t.row c color
  some (
      if leb vga_width (next16 t.col)
      then record written { row = next16 t.row; col = 0 }
      else record written { col = next16 t.col }))

-- The string is given without its zero byte.
unfoldable pub print : Terminal → List ℕ → Option Terminal
unfolding writechar
print t [] = some t
print t (c ∷ str) = do written ← writechar t c 15; print written str

-- A row of `terminal_initialize`: `rounds` cells are left, from column `x` on.
unfoldable pub blank_row : ℕ → (ℕ → ℕ) → ℕ → ℕ → ℕ → ℕ
unfolding make_char
blank_row zero mem y x = mem
blank_row (suc rounds) mem y x =
    blank_row rounds (λ i. if i == y * vga_width + x then make_char 0x20 0 else mem i) y (x + 1)

-- `rounds` rows are left, from row `y` on.
unfoldable pub blank_rows : ℕ → (ℕ → ℕ) → ℕ → ℕ → ℕ
unfolding blank_row
blank_rows zero mem y = mem
blank_rows (suc rounds) mem y = blank_rows rounds (blank_row vga_width mem y 0) (y + 1)

-- The memory is the one at 0xb8000.
unfoldable pub terminal_initialize : (ℕ → ℕ) → Terminal
terminal_initialize mem = record { video_mem = blank_rows vga_height mem 0; row = 0; col = 0 }
