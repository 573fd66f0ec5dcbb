-- ===== src/Fat32/LongNames.antt =====
-- The pieces of long names in src/kernel/fat32.cpp.
use continuum_os.Common.{
  ℕ, suc, ◌+◌, ◌-◌, ◌<◌, ◌≡◌, refl, ◌∙◌, Bool, true, false, ◌&&◌, ◌||◌, not, List, [], ◌∷◌, arith,
  ltb, leb, ◌==◌, if◌then◌else◌, length, get_or, Bool-cases, inl, inr,
}
use continuum_os.Fat32.Names.{write_char, fat32_utf16le_chunk_to_ascii}

-- Units of which none ends a name.
unfoldable pub is_plain : List ℕ → Bool
is_plain [] = true
is_plain (c ∷ cs) = not (c == 65535 || c == 0) && is_plain cs

abbrev pub ascii : ℕ → ℕ
ascii ch = if leb ch 127 then ch else 63

-- The buffer with a piece and the end of the string behind it.
abbrev pub with_piece : List ℕ → ℕ → (ℕ → ℕ) → ℕ → ℕ
with_piece src written dest i =
    if leb written i && ltb i (written + length src)
    then ascii (get_or src (i - written) 0)
    else (if i == written + length src then 0 else dest i)

-- A piece that does not end the name and that fits the buffer with the end of the string is written
-- from its offset on, and the byte behind it becomes 0, which is the first byte of the next piece; no
-- other byte changes.
pub fat32_utf16le_chunk_to_ascii-with_piece :
    (src : List ℕ) (dest_size written : ℕ) (dest : ℕ → ℕ)
    → is_plain src ≡ true
    → written + length src < dest_size
    → (i : ℕ)
    → fat32_utf16le_chunk_to_ascii src dest_size written dest i ≡ with_piece src written dest i
unfolding fat32_utf16le_chunk_to_ascii is_plain
fat32_utf16le_chunk_to_ascii-with_piece [] dest_size written dest p h i =
    let some_room : ltb 0 dest_size ≡ true = ground arith in
    let here : ltb written dest_size ≡ true = ground arith in rw (some_room, here) (ground arith)
fat32_utf16le_chunk_to_ascii-with_piece (ch ∷ src) dest_size written dest p h i =
    let goes_on : (ch == 65535 || ch == 0) ≡ false = ground arith in
    let rest : is_plain src ≡ true = ground arith in
    let fits : ltb (written + 1) dest_size ≡ true = ground arith in
    rw (fits, goes_on) refl
    ∙ fat32_utf16le_chunk_to_ascii-with_piece src dest_size (written + 1)
        (write_char written (ascii ch) dest) rest (omega arith) i
    ∙ place
  where
    place :
        with_piece src (written + 1) (write_char written (ascii ch) dest) i
        ≡ with_piece (ch ∷ src) written dest i
    place = elim (Bool-cases (leb i written)) [
      | inl low ↦ elim (Bool-cases (i == written)) [
        | inl e ↦
            let here : i ≡ written = ground arith in
            let first : i - written ≡ 0 = omega arith in
            let out : (leb (written + 1) i && ltb i (written + 1 + length src)) ≡ false =
              ground arith in
            let in_ : (leb written i && ltb i (written + length (ch ∷ src))) ≡ true =
              ground arith in
            let end : (i == written + 1 + length src) ≡ false = ground arith in
            rw (out, in_, end, e, first) refl
        | inr e ↦
            let out : (leb (written + 1) i && ltb i (written + 1 + length src)) ≡ false =
              ground arith in
            let out' : (leb written i && ltb i (written + length (ch ∷ src))) ≡ false =
              ground arith in
            let end : (i == written + 1 + length src) ≡ false = ground arith in
            let end' : (i == written + length (ch ∷ src)) ≡ false = ground arith in
            rw (out, out', end, end', e) refl
      ]
      | inr high ↦
          let e : (i == written) ≡ false = ground arith in
          let next : i - written ≡ suc (i - (written + 1)) = ground arith in
          let total : written + length (ch ∷ src) ≡ written + 1 + length src = omega arith in
          let low : leb written i ≡ leb (written + 1) i = ground arith in
          rw (next, total, low, e) refl
    ]
