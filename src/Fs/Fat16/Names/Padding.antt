-- ===== src/Fs/Fat16/Names/Padding.antt =====
-- The full name of an item whose name and extension are padded.
use ra_os.Base.{
  ℕ, zero, suc, ◌-◌, ◌≡◌, refl, ap, ◌∙◌, true, false, some, List, [], ◌∷◌, ◌++◌, All, drop, length,
  replicate, arith,
}
use ra_os.Fs.PathParser.{max_path}
use ra_os.Fs.Fat16.{byte}
use ra_os.Fs.Fat16.Names.{ends, to_proper_string, get_full_relative_filename}

-- A byte of a name.
abbrev pub IsNameByte : ℕ → Type 0
IsNameByte c = ends c ≡ false

to_proper_string-append :
    (name : List ℕ) (stop : ℕ) (rest : List ℕ)
    → All IsNameByte name
    → ends stop ≡ true
    → to_proper_string (name ++ (stop ∷ rest)) ≡ some name
unfolding to_proper_string
to_proper_string-append [] stop rest bytes e = rw e refl
to_proper_string-append (c ∷ name) stop rest (b, bytes) e =
    rw (b, to_proper_string-append name stop rest bytes e) refl

drop-append : (front rest : List ℕ) (n : ℕ) → length front ≡ n → drop n (front ++ rest) ≡ rest
drop-append [] rest zero e = refl
drop-append [] rest (suc n) e = absurd (omega arith)
drop-append (c ∷ front) rest zero e = absurd (omega arith)
drop-append (c ∷ front) rest (suc n) e = drop-append front rest n (omega arith)

byte-append :
    (front : List ℕ) (c : ℕ) (rest : List ℕ) (n : ℕ)
    → length front ≡ n
    → byte (front ++ (c ∷ rest)) n ≡ c
byte-append [] c rest zero e = refl
byte-append [] c rest (suc n) e = absurd (omega arith)
byte-append (d ∷ front) c rest zero e = absurd (omega arith)
byte-append (d ∷ front) c rest (suc n) e = byte-append front c rest n (omega arith)

append-append : (a b c : List ℕ) → (a ++ b) ++ c ≡ a ++ (b ++ c)
append-append [] b c = refl
append-append (x ∷ a) b c = ap (λ l. x ∷ l) (append-append a b c)

-- An item whose 8 bytes of name are `name`, a byte `stop` that is 0 or a space, and any `padding`,
-- and whose extension `e ∷ ext` is followed by a byte `end` that is 0 or a space, be it of the
-- extension or the attributes, has the full name `name`, a dot, the extension, and zeros up to 128
-- bytes.
pub get_full_relative_filename-Padded :
    (name padding ext rest : List ℕ) (stop e end : ℕ)
    → All IsNameByte name
    → ends stop ≡ true
    → length (name ++ (stop ∷ padding)) ≡ 8
    → All IsNameByte (e ∷ ext)
    → ends end ≡ true
    → let full = name ++ (b'.' ∷ e ∷ ext) in
      get_full_relative_filename ((name ++ (stop ∷ padding)) ++ (e ∷ ext ++ (end ∷ rest)))
      ≡ some (full ++ replicate (max_path - length full) 0x00)
unfolding get_full_relative_filename
get_full_relative_filename-Padded name padding ext rest stop e end names stops eight exts ends_ =
    let front = name ++ (stop ∷ padding) in
    let tail = e ∷ ext ++ (end ∷ rest) in
    let item = front ++ tail in
    let whole : item ≡ name ++ (stop ∷ (padding ++ tail)) =
      append-append name (stop ∷ padding) tail in
    let base : to_proper_string item ≡ some name =
      ap to_proper_string whole ∙ to_proper_string-append name stop (padding ++ tail) names stops in
    let extension : to_proper_string (drop 8 item) ≡ some (e ∷ ext) =
      ap to_proper_string (drop-append front tail 8 eight)
      ∙ to_proper_string-append (e ∷ ext) end rest exts ends_ in
    let dotted : ends (byte item 8) ≡ false =
      ap ends (byte-append front e (ext ++ (end ∷ rest)) 8 eight) ∙ exts.0 in
    rw (base, dotted, extension) refl
