-- ===== src/Client/Transfer.antt =====
-- Transfers of many bytes by short reads and writes.
use cachetron.Prelude.{
  ℕ, zero, suc, ◌+◌, ◌-◌, ◌≤◌, ◌<◌, ◌≡◌, refl, sym, ap, List, [], ◌∷◌, ◌++◌, arith,
}
use cachetron.Prelude.{
  Bool, true, false, ◌==◌, leb, le→leb, Option, some, length, length-append, map, All, take, drop,
}
use cachetron.Prelude.Memory.{length-drop}
use cachetron.Prelude.Result.{Result, ok}
use cachetron.Client.{read_full, write_all}

-- The bytes of some chunks, one chunk behind the other.
abbrev pub joined : List (List ℕ) → List ℕ
joined [] = []
joined (chunk ∷ chunks) = chunk ++ joined chunks

read_step :
    (reads after : List (Option (List ℕ))) (b : ℕ) (chunk rest : List ℕ) (n : ℕ)
    → length chunk + length rest ≡ n
    → read_full reads (length rest) ≡ ok (some rest, after)
    → read_full (some (b ∷ chunk) ∷ reads) (suc n) ≡ ok (some ((b ∷ chunk) ++ rest), after)
unfolding read_full
read_step reads after b chunk rest n e run =
    let not_empty : (suc (length chunk) == 0) ≡ false = ground arith in
    let fits : leb (suc (length chunk)) (suc n) ≡ true = ground arith in
    let left : suc n - suc (length chunk) ≡ length rest = omega arith in
    rw (read_full, not_empty, fits, left, run) refl

-- `read_full` of as many bytes as some chunks have, none of them empty, reads the chunks and no more,
-- however they are cut.
pub read_full-joined :
    (chunks : List (List ℕ)) (more : List (Option (List ℕ)))
    → All (λ chunk. 0 < length chunk) chunks
    → read_full (map some chunks ++ more) (length (joined chunks)) ≡ ok (some (joined chunks), more)
unfolding read_full
read_full-joined [] more v = refl
read_full-joined ([] ∷ chunks) more v = absurd (omega (arith, v.0))
read_full-joined ((b ∷ chunk) ∷ chunks) more v =
    read_step (map some chunks ++ more) more b chunk (joined chunks)
      (length (chunk ++ joined chunks)) (sym (length-append chunk (joined chunks)))
      (read_full-joined chunks more v.1)

-- What the calls of `write` return, together.
abbrev pub total : List ℕ → ℕ
total [] = 0
total (k ∷ ks) = k + total ks

take-drop : (n : ℕ) (xs : List ℕ) → take n xs ++ drop n xs ≡ xs
take-drop zero xs = refl
take-drop (suc n) [] = refl
take-drop (suc n) (x ∷ xs) = ap (λ l. x ∷ l) (take-drop n xs)

write_step :
    (writes : List ℕ) (k b : ℕ) (bytes : List ℕ)
    → k ≤ length bytes
    → write_all writes (drop k bytes) ≡ ok (drop k bytes, true)
    → write_all (suc k ∷ writes) (b ∷ bytes) ≡ ok (b ∷ bytes, true)
unfolding write_all
write_step writes k b bytes small run =
    let fits : leb (suc k) (length (b ∷ bytes)) ≡ true = le→leb _ _ (omega arith) in
    let whole : ok (b ∷ (take k bytes ++ drop k bytes), true) ≡ ok (b ∷ bytes, true) =
      ap {B = Result (List ℕ × Bool)} (λ l. ok (b ∷ l, true)) (take-drop k bytes) in
    rw (write_all, fits, run) whole

-- Where every `write` takes at least one byte, and together they take as many as there are, `write_all`
-- writes all bytes in order.
pub write_all-total :
    (writes bytes : List ℕ)
    → All (λ k. 0 < k) writes
    → total writes ≡ length bytes
    → write_all writes bytes ≡ ok (bytes, true)
unfolding write_all
write_all-total writes [] v e = none_left writes
  where
    none_left : (writes : List ℕ) → write_all writes [] ≡ ok ([], true)
    none_left [] = refl
    none_left (k ∷ writes) = refl
write_all-total [] (b ∷ bytes) v e = absurd (omega arith)
write_all-total (zero ∷ writes) (b ∷ bytes) v e = absurd (omega (arith, v.0))
write_all-total (suc k ∷ writes) (b ∷ bytes) v e =
    write_step writes k b bytes (omega arith)
      (write_all-total writes (drop k bytes) v.1 (omega (arith, length-drop k bytes)))
