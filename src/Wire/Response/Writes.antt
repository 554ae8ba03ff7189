-- ===== src/Wire/Response/Writes.antt =====
-- As long as allocations succeed, each `out_` function puts the bytes of its answer behind what
-- the string holds.
use cachetron.Prelude.{ℕ, ◌+◌, ◌*◌, ◌%◌, ◌^◌, ◌<◌, ◌≤◌, ◌≡◌, refl, sym, ap, ◌∙◌, inl, inr}
use mathlib.Core.Path.{subst}
use cachetron.Prelude.{Bool, true, false, some, List, [], ◌∷◌, ◌++◌, arith, length, take}
use cachetron.Prelude.{◌==◌, add_size, size_mod, append_assoc, append-nil, length-append}
use cachetron.Prelude.{leb, le→leb, eqb→eq, eqb-false, Bool-cases}
use cachetron.Prelude.Memory.{take-splice, splice, length-splice, length-take}
use cachetron.Prelude.Result.{Result, ok, ◌>>=◌}
use cachetron.LiteString.{LiteString, Handle, contents, string_reserve}
use cachetron.LiteString.Append.{IsValid, Reserved, string_reserve-Reserved, copy_behind-added}
use cachetron.Wire.{bytes_of}
use cachetron.Wire.Words.{length-bytes_of}
use cachetron.Wire.Response.{
  string_append_cstr_range_bin, string_push_back_bin, store_last, push, append, out_nil, out_str,
  out_int,
}
use cachetron.Wire.Response.Encode.{Reply, encode}

-- On every well-formed string with room below 2^62 `f` succeeds and adds the bytes.
abbrev pub Writes : (Handle → Result Handle) → List ℕ → Type 0
Writes f bytes =
    (s : LiteString)
    → IsValid s
    → s.size + length bytes ≤ 2 ^ 62
    → (s' : LiteString) × (f (some s) ≡ ok (some s'))
      × IsValid s'
      × (contents s' ≡ contents s ++ bytes)

pub length-contents : (s : LiteString) → IsValid s → length (contents s) ≡ s.size
length-contents s w = length-take s.size s.cells (omega (arith, w.width, w.fits))

-- Two writes, one after the other.
pub Writes-then :
    (f g : Handle → Result Handle) (a b : List ℕ)
    → Writes f a
    → Writes g b
    → Writes (λ s. f s >>= g) (a ++ b)
Writes-then f g a b wf wg s v small =
    let all = length-append a b in
    let (s₁, run₁, v₁, e₁) = wf s v (omega arith) in
    let grown : s₁.size ≡ s.size + length a =
      sym (length-contents s₁ v₁)
      ∙ ap length e₁
      ∙ length-append (contents s) a
      ∙ omega (arith, length-contents s v) in
    let (s₂, run₂, v₂, e₂) = wg s₁ v₁ (omega arith) in
    (s₂, rw (run₁, run₂), v₂, e₂ ∙ ap (λ l. l ++ b) e₁ ∙ append_assoc (contents s) a b)

take-whole : (xs : List ℕ) → take (length xs) xs ≡ xs
take-whole [] = refl
take-whole (x ∷ xs) = ap (λ l. x ∷ l) (take-whole xs)

module _ (alloc : ℕ → Bool) (given : (n : ℕ) → alloc n ≡ true) where
  pub reserved :
      (s : LiteString) (need : ℕ)
      → IsValid s
      → need ≤ 2 ^ 63
      → (s' : LiteString) × (string_reserve alloc (some s) need ≡ (true, some s'))
        × Reserved alloc s need true s'
  reserved s need v small =
      let (b, s', run, r) = string_reserve-Reserved alloc s need v small in always b s' run r
    where
      always :
          (b : Bool) (s' : LiteString)
          → string_reserve alloc (some s) need ≡ (b, some s')
          → Reserved alloc s need b s'
          → (s' : LiteString) × (string_reserve alloc (some s) need ≡ (true, some s'))
            × Reserved alloc s need true s'
      always true s' run r = (s', run, r)
      always false s' run r = absurd (cc (r.total given))

  pub append-Writes :
      (bytes : List ℕ) (count : ℕ)
      → count ≤ length bytes
      → Writes (append alloc bytes count) (take count bytes)
  unfolding string_append_cstr_range_bin
  append-Writes bytes count long s v small = elim (Bool-cases (count == 0)) [
    | inl none_new ↦
        let zero_new = eqb→eq count 0 none_new in
        (s, rw none_new, v, rw zero_new (sym (append-nil (contents s))))
    | inr some_new ↦
        let width = length-take count bytes long in
        let (s₁, run, r) = reserved s (add_size s.size count) v (omega arith) in
        let (s₂, copied, v₂, e) = copy_behind-added alloc s s₁ bytes count v long (omega arith) r in
        (s₂, rw (some_new, run, copied), v₂, e)
  ]

  store_last-added :
      (s : LiteString) (c : ℕ)
      → IsValid s
      → s.size < s.capacity
      → s.size < 2 ^ 62
      → (s' : LiteString) × (store_last (true, some s) c ≡ ok (true, some s'))
        × IsValid s'
        × (contents s' ≡ contents s ++ c ∷ [])
  unfolding store_last
  store_last-added s c v room small =
      let cells = splice s.cells s.size (c ∷ []) in
      let inside : s.size + 1 ≤ length s.cells = omega (arith, v.width) in
      let next : add_size s.size 1 ≡ s.size + 1 = omega arith in
      let test : leb (s.size + 1) (length s.cells) ≡ true = le→leb _ _ inside in
      (
        record s { cells = cells; size = add_size s.size 1 },
        rw test,
        record {
          width = length-splice s.cells s.size (c ∷ []) inside ∙ v.width;
          fits = omega arith;
          least = v.least;
        },
        take-splice s.cells s.size (add_size s.size 1) (c ∷ []) (omega arith) next,
      )

  push_grown :
      (s s₁ s₂ : LiteString) (c : ℕ)
      → (s.size == s.capacity) ≡ true
      → s.capacity ≤ 2 ^ 62
      → string_reserve alloc (some s) (s.capacity * 2) ≡ (true, some s₁)
      → store_last (true, some s₁) c ≡ ok (true, some s₂)
      → push alloc c (some s) ≡ ok (some s₂)
  unfolding string_push_back_bin
  push_grown s s₁ s₂ c full small run put =
      let plain : (s.capacity * 2) % size_mod ≡ s.capacity * 2 = omega arith in
      rw (full, plain, run, put)

  pub push-Writes : (c : ℕ) → Writes (push alloc c) (c ∷ [])
  unfolding string_push_back_bin
  push-Writes c s v small = elim (Bool-cases (s.size == s.capacity)) [
    | inr room ↦
        let (s₁, run, v₁, e) =
          store_last-added s c v (omega (arith, v.fits, eqb-false s.size s.capacity room))
            (omega arith) in
        (s₁, rw (room, run), v₁, e)
    | inl full ↦
        let same = eqb→eq s.size s.capacity full in
        let (s₁, run, r) = reserved s (s.capacity * 2) v (omega arith) in
        let (s₂, put, v₂, e) =
          store_last-added s₁ c r.valid (omega (arith, r.enough refl, r.size, v.least))
            (omega (arith, r.size)) in
        (s₂, push_grown s s₁ s₂ c full (omega arith) run put, v₂, e ∙ ap (λ l. l ++ c ∷ []) r.same)
  ]

  -- A word of `n` bytes.
  pub word-Writes : (n x : ℕ) → Writes (append alloc (bytes_of n x) n) (bytes_of n x)
  word-Writes n x =
      let w = length-bytes_of n x in
      let all : take n (bytes_of n x) ≡ bytes_of n x =
        ap (λ k. take k (bytes_of n x)) (sym w) ∙ take-whole (bytes_of n x) in
      subst (λ l. Writes (append alloc (bytes_of n x) n) l) all
        (append-Writes (bytes_of n x) n (omega arith))

  pub out_nil-Writes : Writes (out_nil alloc) (encode Reply.nil)
  unfolding out_nil encode
  out_nil-Writes = push-Writes 0

  pub out_int-Writes : (v : ℕ) → Writes (λ out. out_int alloc out v) (encode (Reply.int v))
  unfolding out_int encode
  out_int-Writes v =
      Writes-then (push alloc 3) (append alloc (bytes_of 8 v) 8) (3 ∷ []) (bytes_of 8 v)
        (push-Writes 3) (word-Writes 8 v)

  pub out_str-Writes :
      (val : List ℕ) (size : ℕ)
      → size ≤ length val
      → Writes (λ out. out_str alloc out val size) (encode (Reply.str (take size val)))
  unfolding out_str encode
  out_str-Writes val size h =
      subst (λ k. Writes (λ out. out_str alloc out val size) (2 ∷ (bytes_of 4 k ++ take size val)))
        (sym (length-take size val h))
        (Writes-then (push alloc 2)
          (λ s. append alloc (bytes_of 4 size) 4 s >>= append alloc val size) (2 ∷ []) _
          (push-Writes 2)
          (Writes-then (append alloc (bytes_of 4 size) 4) (append alloc val size) (bytes_of 4 size)
            (take size val) (word-Writes 4 size) (append-Writes val size h)))

  -- A whole string.
  pub out_str-Writes_all :
      (val : List ℕ) → Writes (λ out. out_str alloc out val (length val)) (encode (Reply.str val))
  out_str-Writes_all val =
      subst (λ l. Writes (λ out. out_str alloc out val (length val)) (encode (Reply.str l)))
        (take-whole val) (out_str-Writes val (length val) (omega arith))
