-- ===== src/Strings/Tests.antt =====
-- Runs and instances of the theorems on strings and memory.
use continuum_os.Common.{◌*◌, ◌≡◌, ◌↔◌, refl, true, [], ◌∷◌, some}
use continuum_os.Common.Int.{pos}
use continuum_os.Strings.{Text, Memory, same, strtok, skip, token, memmove, strcmp, difference}
use continuum_os.Strings.Memory.{moved, memmove-moved}
use continuum_os.Strings.Compare.{nul_free, same_iff}

abbrev bytes : Memory
bytes a = a * 3

strcmp_run : strcmp (97 ∷ 98 ∷ []) (97 ∷ []) ≡ pos 98
unfolding strcmp difference
strcmp_run = refl

strtok_run : strtok 47 (47 ∷ 47 ∷ 97 ∷ 47 ∷ 98 ∷ []) ≡ some (97 ∷ [], 98 ∷ [])
unfolding strtok skip token
strtok_run = refl

memmove-moved_example : memmove 11 10 4 bytes 12 ≡ moved 11 10 4 bytes 12
memmove-moved_example = memmove-moved 11 10 4 bytes 12

same_iff_example : (same (97 ∷ []) (97 ∷ []) ≡ true) ↔ (Path Text (97 ∷ []) (97 ∷ []))
unfolding nul_free
same_iff_example = same_iff (97 ∷ []) (97 ∷ []) refl refl
