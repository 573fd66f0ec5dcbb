-- ===== src/Fat32/Names.antt =====
-- The names of src/kernel/fat32.cpp: short names of eleven bytes, and the comparison of names without
-- regard to case. Bytes above 127 are no letters; a text ends at its end.
use continuum_os.Common.{
  ℕ, zero, suc, ◌+◌, ◌-◌, ◌/◌, ◌%◌, ◌&&◌, ◌||◌, Option, none, some, List, [], ◌∷◌, ◌++◌, ltb, leb,
  ◌==◌, if◌then◌else◌, length, take, drop, replicate,
}
use continuum_os.Common.Int.{ℤ, pos}
use continuum_os.Strings.{Text, difference, strchr, strrchr}

unfoldable pub fat32_to_upper : ℕ → ℕ
fat32_to_upper ch = if leb 97 ch && leb ch 122 then ch - 32 else ch

unfoldable pub fat32_to_lower : ℕ → ℕ
fat32_to_lower ch = if leb 65 ch && leb ch 90 then ch + 32 else ch

unfoldable pub fat32_casecmp : Text → Text → ℤ
fat32_casecmp [] [] = pos 0
fat32_casecmp [] (y ∷ ys) = difference 0 (fat32_to_lower y)
fat32_casecmp (x ∷ xs) [] = difference (fat32_to_lower x) 0
fat32_casecmp (x ∷ xs) (y ∷ ys) =
    let rest = fat32_casecmp xs ys in
    if fat32_to_lower x == fat32_to_lower y
    then rest
    else difference (fat32_to_lower x) (fat32_to_lower y)

-- From the sum so far.
unfoldable pub fat32_lfn_checksum : ℕ → List ℕ → ℕ
fat32_lfn_checksum sum [] = sum
fat32_lfn_checksum sum (c ∷ cs) =
    fat32_lfn_checksum (((if sum % 2 == 1 then 128 else 0) + sum / 2 + c) % 256) cs

-- The characters behind which the short name is padded.
unfoldable pub until_space : List ℕ → List ℕ
until_space [] = []
until_space (c ∷ cs) = let rest = until_space cs in if c == 32 then [] else c ∷ rest

-- The byte that stands for the mark of a deleted entry.
unfoldable pub name_bytes : List ℕ → List ℕ
name_bytes [] = []
name_bytes (c ∷ cs) = (if c == 5 then 229 else c) ∷ cs

abbrev pub with_ext : ℕ → Text → Text → Text
with_ext out_size base ext =
    if ltb 0 (length ext) && ltb (length base + length ext + 1) out_size
    then base ++ 46 ∷ ext
    else base

unfoldable pub fat32_short_name_to_string : List ℕ → ℕ → Text
fat32_short_name_to_string short_name out_size =
    with_ext out_size (take (out_size - 1) (until_space (take 8 (name_bytes short_name))))
      (until_space (drop 8 (name_bytes short_name)))

unfoldable pub fat32_sanitize_short_char : ℕ → ℕ
fat32_sanitize_short_char ch =
    let upper = fat32_to_upper ch in
    if (leb 65 upper && leb upper 90)
      || (leb 48 upper && leb upper 57)
      || upper == 33
      || (leb 35 upper && leb upper 41)
      || upper == 45
      || upper == 64
      || (leb 94 upper && leb upper 96)
      || upper == 123
      || upper == 125
      || upper == 126
    then upper
    else 95

-- The base and the extension, each cut to its buffer.
unfoldable pub fat32_extract_base_ext : Text → ℕ → ℕ → Text × Text
fat32_extract_base_ext name base_size ext_size = elim (strrchr name 46) [
  | none ↦ (take (base_size - 1) name, [])
  | some [] ↦ (take (base_size - 1) name, [])
  | some (c ∷ base) ↦
      (take (base_size - 1) (c ∷ base), take (ext_size - 1) (drop (length (c ∷ base) + 1) name))
]

unfoldable pub fat32_sanitize_component : Text → ℕ → Text
fat32_sanitize_component [] max_len = []
fat32_sanitize_component (c ∷ cs) zero = []
fat32_sanitize_component (c ∷ cs) (suc max_len) =
    let here = fat32_sanitize_component cs (suc max_len) in
    let further = fat32_sanitize_component cs max_len in
    if c == 32 then here else fat32_sanitize_short_char c ∷ further

-- The characters of a part, in upper case, or none where one may not stand in a short name.
unfoldable pub short_part : Text → Option (List ℕ)
short_part [] = some []
short_part (c ∷ cs) =
    let ch = fat32_to_upper c in
    let rest = short_part cs in
    if ch == 32 || ch == 46 || ch == 47 || ch == 92
    then none
    else elim rest [ none ↦ none | some r ↦ some (ch ∷ r) ]

abbrev pub padded : ℕ → List ℕ → List ℕ
padded n cs = cs ++ replicate (n - length cs) 32

abbrev pub joined_parts : Option (List ℕ) → Option (List ℕ) → Option (List ℕ)
joined_parts none e = none
joined_parts (some b) none = none
joined_parts (some b) (some e) = some (padded 8 b ++ padded 3 e)

unfoldable pub build_parts : Text → Text → Option (List ℕ)
build_parts base ext =
    if length base == 0 || ltb 8 (length base) || ltb 3 (length ext)
    then none
    else joined_parts (short_part base) (short_part ext)

unfoldable pub fat32_build_short_name : Text → Option (List ℕ)
fat32_build_short_name name = elim (strchr name 46) [
  | none ↦ build_parts name []
  | some rest ↦ build_parts (take (length name - length rest) name) (drop 1 rest)
]

-- `len > 1 && temp[len - 1] == '/'`: the path without the slashes at its end.
unfoldable pub trim_slashes : Text → Text
trim_slashes [] = []
trim_slashes (c ∷ cs) = elim (trim_slashes cs) [
  | [] ↦ c ∷ []
  | d ∷ ds ↦ if d == 47 && length ds == 0 then c ∷ [] else c ∷ d ∷ ds
]

-- The parent's path and the name.
unfoldable pub fat32_split_path : Text → Option (Text × Text)
fat32_split_path path =
    let temp = trim_slashes (take 255 path) in
    elim (strrchr temp 47) [
      | none ↦ some (47 ∷ [], temp)
      | some [] ↦ if length temp == 1 then none else some (47 ∷ [], drop 1 temp)
      | some (c ∷ parent) ↦ some (c ∷ parent, drop (length (c ∷ parent) + 1) temp)
    ]

abbrev pub write_char : ℕ → ℕ → (ℕ → ℕ) → ℕ → ℕ
write_char at ch dest i = if i == at then ch else dest i

-- `fat32_utf16le_chunk_to_ascii` on the buffer of a long name, from `written` on.
unfoldable pub fat32_utf16le_chunk_to_ascii : List ℕ → ℕ → ℕ → (ℕ → ℕ) → ℕ → ℕ
fat32_utf16le_chunk_to_ascii [] dest_size written dest =
    let end = if ltb written dest_size then written else dest_size - 1 in
    if ltb 0 dest_size then write_char end 0 dest else dest
fat32_utf16le_chunk_to_ascii (ch ∷ src) dest_size written dest =
    let out = if leb ch 127 then ch else 63 in
    let rest =
      fat32_utf16le_chunk_to_ascii src dest_size (written + 1) (write_char written out dest) in
    let end = if ltb written dest_size then written else dest_size - 1 in
    if ltb (written + 1) dest_size
    then (if ch == 65535 || ch == 0 then write_char written 0 dest else rest)
    else (if ltb 0 dest_size then write_char end 0 dest else dest)
