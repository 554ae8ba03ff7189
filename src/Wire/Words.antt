-- ===== src/Wire/Words.antt =====
-- Words and strings are read back as they were written.
use cachetron.Prelude.{ℕ, zero, suc, ◌+◌, ◌/◌, ◌^◌, ◌<◌, ◌≡◌, ◌≢◌, refl, sym, ap}
use cachetron.Prelude.{
  true, List, [], ◌∷◌, ◌++◌, arith, length, drop, All, leb, le→leb, length-append,
}
use cachetron.Prelude.Memory.{read_range, take-append}
use cachetron.Prelude.Result.{ok}
use cachetron.Wire.{bytes_of, word_of, read_word, strlen}
use native.Mathlib.Nat.{pow-suc}

pub length-bytes_of : (n x : ℕ) → length (bytes_of n x) ≡ n
length-bytes_of zero x = refl
length-bytes_of (suc n) x = ap suc (length-bytes_of n (x / 256))

pub word_of-bytes_of : (n x : ℕ) → x < 256 ^ n → word_of (bytes_of n x) ≡ x
word_of-bytes_of zero x h = omega arith
word_of-bytes_of (suc n) x h =
    let less : x / 256 < 256 ^ n = omega (arith, pow-suc 256 n) in
    omega (arith, word_of-bytes_of n (x / 256) less)

pub drop-length {ℓ} : {A : Type ℓ} (xs ys : List A) → drop (length xs) (xs ++ ys) ≡ ys
drop-length [] ys = refl
drop-length (x ∷ xs) ys = drop-length xs ys

-- What stands at a place is read there.
pub read_range_lem {ℓ} :
    {A : Type ℓ} (pre mid post : List A) (pos n : ℕ)
    → pos ≡ length pre
    → n ≡ length mid
    → read_range (pre ++ (mid ++ post)) pos n ≡ ok mid
read_range_lem pre mid post pos n e k =
    let there : leb (length pre + length mid) (length (pre ++ (mid ++ post))) ≡ true =
      le→leb _ _ (omega (arith, length-append pre (mid ++ post), length-append mid post)) in
    rw (e, k, there, drop-length pre (mid ++ post), take-append mid post)

pub read_word_lem :
    (n x : ℕ) (pre post : List ℕ) (pos : ℕ)
    → pos ≡ length pre
    → x < 256 ^ n
    → read_word n (pre ++ (bytes_of n x ++ post)) pos ≡ ok x
unfolding read_word
read_word_lem n x pre post pos e h =
    rw (read_range_lem pre (bytes_of n x) post pos n e (sym (length-bytes_of n x)))
      (ap ok (word_of-bytes_of n x h))

-- A buffer that holds a terminator somewhere.
abbrev pub HasNul : List ℕ → Type 0
HasNul cs = (k : ℕ) × (strlen cs ≡ ok k)

pub HasNul-append : (xs ys : List ℕ) → HasNul ys → HasNul (xs ++ ys)
unfolding strlen
HasNul-append [] ys h = h
HasNul-append (zero ∷ xs) ys h = (0, refl)
HasNul-append (suc x ∷ xs) ys h = let (k, e) = HasNul-append xs ys h in (suc k, rw e)

-- Bytes that are not zero are passed over.
pub strlen-append :
    (xs ys : List ℕ) (k : ℕ)
    → All (λ c. c ≢ 0) xs
    → strlen ys ≡ ok k
    → strlen (xs ++ ys) ≡ ok (length xs + k)
unfolding strlen
strlen-append [] ys k h e = rw e (ap ok (omega arith))
strlen-append (zero ∷ xs) ys k h e = absurd (h.0 refl)
strlen-append (suc x ∷ xs) ys k h e = rw (strlen-append xs ys k h.1 e) (ap ok (omega arith))
