-- ===== src/LiteString/Append.antt =====
-- `string_reserve` makes room or says that it could not, and `string_append_range` adds at the end.
use cachetron.Prelude.{
  ℕ, ◌+◌, ◌-◌, ◌^◌, ◌<◌, ◌≤◌, ◌≡◌, refl, sym, ap, ◌∙◌, Bool, true, false, inl, inr,
}
use cachetron.Prelude.{some, List, ◌++◌, arith, length, take, replicate, append-nil}
use cachetron.Prelude.{Bool-cases, leb, leb→le, le→leb, ◌==◌, if◌then◌else◌, eqb→eq, add_size}
use cachetron.Prelude.{length-append, length-replicate}
use cachetron.Prelude.Clp2.{clp2, clp2_bounds}
use cachetron.Prelude.Memory.{
  splice, length-take, length-splice, take-take, take-splice, take-append,
}
use cachetron.Prelude.Result.{ok}
use cachetron.LiteString.{LiteString, contents, string_reserve, copy_behind, string_append_range}

-- The array has as many bytes as `capacity` says, 16 or more, and the string is within.
pub record IsValid (s : LiteString) : Type 0 where
  pub width : length s.cells ≡ s.capacity
  pub fits : s.size ≤ s.capacity
  pub least : 16 ≤ s.capacity

module _ (alloc : ℕ → Bool) where
  -- What making room for `need` bytes may leave.
  pub record Reserved (s : LiteString) (need : ℕ) (b : Bool) (s' : LiteString) : Type 0 where
    pub valid : IsValid s'
    pub same : contents s' ≡ contents s
    pub size : s'.size ≡ s.size
    pub enough : b ≡ true → need ≤ s'.capacity
    pub total : ((n : ℕ) → alloc n ≡ true) → b ≡ true

  abbrev resized : LiteString → ℕ → LiteString
  resized s n = record s { cells = take s.size s.cells ++ replicate (n - s.size) 0; capacity = n }

  length-resized :
      (s : LiteString) (n : ℕ) → IsValid s → s.size ≤ n → length (resized s n).cells ≡ n
  length-resized s n w h = omega (
    arith,
    length-append (take s.size s.cells) (replicate (n - s.size) 0),
    length-replicate {A = ℕ} (n - s.size) 0,
    length-take s.size s.cells (omega (arith, w.width, w.fits)),
  )

  take-resized : (s : LiteString) (n : ℕ) → IsValid s → contents (resized s n) ≡ contents s
  take-resized s n w =
      let e : s.size ≡ length (take s.size s.cells) =
        sym (length-take s.size s.cells (omega (arith, w.width, w.fits))) in
      ap (λ k. take k (take s.size s.cells ++ replicate (n - s.size) 0)) e
      ∙ take-append (take s.size s.cells) (replicate (n - s.size) 0)

  pub string_reserve-Reserved :
      (s : LiteString) (need : ℕ)
      → IsValid s
      → need ≤ 2 ^ 63
      → (b : Bool) × (s' : LiteString) × (string_reserve alloc (some s) need ≡ (b, some s'))
        × Reserved s need b s'
  unfolding string_reserve
  string_reserve-Reserved s need w small = elim (Bool-cases (leb need 16)) [
    | inl few ↦ (
      true,
      s,
      rw few,
      record {
        valid = w;
        same = refl;
        size = refl;
        enough = λ _. omega (arith, leb→le need 16 few, w.least);
        total = λ h. refl;
      },
    )
    | inr many ↦
        let least : 16 < need = ground arith in
        let (up, top) = clp2_bounds need (omega arith) small in
        elim (Bool-cases (leb s.capacity (clp2 need))) [
          | inr roomy ↦ (
            true,
            s,
            rw (many, roomy),
            record {
              valid = w;
              same = refl;
              size = refl;
              enough = λ _. ground arith;
              total = λ h. refl;
            },
          )
          | inl grows ↦
              let more = leb→le s.capacity (clp2 need) grows in
              elim (Bool-cases (alloc (clp2 need))) [
                | inr refused ↦ (
                  false,
                  s,
                  rw (many, grows, refused),
                  record {
                    valid = w;
                    same = refl;
                    size = refl;
                    enough = λ h. cc;
                    total = λ h. cc (h (clp2 need), refused);
                  },
                )
                | inl given ↦ (
                  true,
                  resized s (clp2 need),
                  rw (many, grows, given),
                  record {
                    valid = record {
                      width = length-resized s (clp2 need) w (omega (arith, w.fits));
                      fits = omega (arith, w.fits);
                      least = omega (arith, w.least);
                    };
                    same = take-resized s (clp2 need) w;
                    size = refl;
                    enough = λ _. up;
                    total = λ h. refl;
                  },
                )
              ]
        ]
  ]

  copy_behind_lem :
      (s : LiteString) (bytes : List ℕ) (count : ℕ)
      → count ≤ length bytes
      → s.size + count ≤ length s.cells
      → copy_behind (true, some s) bytes count
        ≡ ok (
          true,
          some (record s {
            cells = splice s.cells s.size (take count bytes);
            size = add_size s.size count;
          }),
        )
  unfolding copy_behind
  copy_behind_lem s bytes count enough room =
      let there : leb (0 + count) (length bytes) ≡ true = le→leb _ _ (omega arith) in
      let inside : leb (s.size + length (take count bytes)) (length s.cells) ≡ true =
        le→leb _ _ (omega (arith, length-take count bytes enough)) in
      rw (there, inside)

  copy_behind_refused :
      (s : LiteString) (bytes : List ℕ) (count : ℕ)
      → copy_behind (false, some s) bytes count ≡ ok (false, some s)
  unfolding copy_behind
  copy_behind_refused s bytes count = refl

  -- With the room made, the bytes stand behind those of the string.
  pub copy_behind-added :
      (s s' : LiteString) (bytes : List ℕ) (count : ℕ)
      → IsValid s
      → count ≤ length bytes
      → s.size + count ≤ 2 ^ 63
      → Reserved s (add_size s.size count) true s'
      → (d : LiteString) × (copy_behind (true, some s') bytes count ≡ ok (true, some d))
        × IsValid d
        × (contents d ≡ contents s ++ take count bytes)
  copy_behind-added s s' bytes count w long small r =
      let new = take count bytes in
      let room : s'.size + count ≤ length s'.cells =
        omega (arith, r.enough refl, r.size, r.valid.width) in
      let width : length new ≡ count = length-take count bytes long in
      let sized : add_size s'.size count ≡ s'.size + count = omega (arith, r.size) in
      (
        record s' { cells = splice s'.cells s'.size new; size = add_size s'.size count },
        copy_behind_lem s' bytes count long room,
        record {
          width = length-splice s'.cells s'.size new (omega arith) ∙ r.valid.width;
          fits = omega (arith, r.valid.width);
          least = r.valid.least;
        },
        take-splice s'.cells s'.size (add_size s'.size count) new (omega arith) (omega arith)
            ∙ ap (λ l. l ++ new) r.same,
      )

  -- Appending the first `count` bytes of a string to a well-formed string stays in the array. It
  -- succeeds whenever the allocator does, and the string then holds the old bytes and behind them
  -- the new; where it answers false the string holds what it held.
  pub string_append_range_lem :
      (s t : LiteString) (count : ℕ)
      → IsValid s
      → IsValid t
      → count ≤ t.size
      → s.size + count ≤ 2 ^ 63
      → (b : Bool) × (s' : LiteString) × (string_append_range alloc (some s) (some t) count
          ≡ ok (b, some s'))
        × IsValid s'
        × (contents s' ≡ (if b then contents s ++ take count (contents t) else contents s))
        × (((n : ℕ) → alloc n ≡ true) → b ≡ true)
  unfolding string_append_range
  string_append_range_lem s t count w u enough small = elim (Bool-cases (count == 0)) [
    | inl none_new ↦
        let zero_new = eqb→eq count 0 none_new in
        (true, s, rw none_new, w, rw zero_new (sym (append-nil (contents s))), λ h. refl)
    | inr some_new ↦
        let need = add_size s.size count in
        let exact : need ≡ s.size + count = omega arith in
        let within : leb count t.size ≡ true = le→leb count t.size enough in
        let (b, s', run, r) = string_reserve-Reserved s need w (omega arith) in
        finish b s' run r within some_new
  ]
    where
      finish :
          (b : Bool) (s' : LiteString)
          → string_reserve alloc (some s) (add_size s.size count) ≡ (b, some s')
          → Reserved s (add_size s.size count) b s'
          → leb count t.size ≡ true
          → (count == 0) ≡ false
          → (b : Bool) × (s' : LiteString) × (string_append_range alloc (some s) (some t) count
              ≡ ok (b, some s'))
            × IsValid s'
            × (contents s' ≡ (if b then contents s ++ take count (contents t) else contents s))
            × (((n : ℕ) → alloc n ≡ true) → b ≡ true)
      finish false s' run r within some_new = (
        false,
        s',
        rw (some_new, within, run, copy_behind_refused s' t.cells count),
        r.valid,
        r.same,
        r.total,
      )
      finish true s' run r within some_new =
          let (s2, copied, valid, all) =
            copy_behind-added s s' t.cells count w (omega (arith, u.width, u.fits)) small r in
          (
            true,
            s2,
            rw (some_new, within, run, copied),
            valid,
            all ∙ ap (λ l. contents s ++ l) (sym (take-take count t.size t.cells enough)),
            λ h. refl,
          )
