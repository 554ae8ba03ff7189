-- ===== src/Wire.antt =====
-- Bytes on the wire: little-endian words as `memcpy` lays them out, and C strings in a buffer.
-- A string is the list of its bytes.
pub mod Words
pub mod Request
pub mod Response
use cachetron.Prelude.{ℕ, zero, suc, ◌+◌, ◌*◌, ◌/◌, ◌%◌, ◌^◌, ◌<◌, ◌≢◌, List, [], ◌∷◌, All, ◌==◌}
use cachetron.Prelude.{if◌then◌else◌}
use cachetron.Prelude.Memory.{read_range}
use cachetron.Prelude.Result.{Result, ok, fault, out_of_bounds, ◌>>=◌}

-- The low `n` bytes of a word, lowest first.
abbrev pub bytes_of : ℕ → ℕ → List ℕ
bytes_of zero x = []
bytes_of (suc n) x = (x % 256) ∷ bytes_of n (x / 256)

-- The word that some bytes stand for.
abbrev pub word_of : List ℕ → ℕ
word_of [] = 0
word_of (b ∷ bs) = b + 256 * word_of bs

-- `memcpy(&w, &data[pos], n)` into a word of `n` bytes
unfoldable pub read_word : ℕ → List ℕ → ℕ → Result ℕ
read_word n cells pos = do bs ← read_range cells pos n; ok (word_of bs)

-- A buffer with no terminator is read past its end.
unfoldable pub strlen : List ℕ → Result ℕ
strlen [] = fault out_of_bounds
strlen (zero ∷ cs) = ok 0
strlen (suc c ∷ cs) = do n ← strlen cs; ok (suc n)
