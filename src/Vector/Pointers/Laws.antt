-- ===== src/Vector/Pointers/Laws.antt =====
-- `ptr_vector_push_back` and `ptr_vector_expand` against the list of pointers that a vector holds.
use cachetron.Prelude.{ℕ, ◌+◌, ◌*◌, ◌%◌, ◌^◌, ◌≤◌, ◌≡◌, refl, ap, ◌∙◌}
use cachetron.Prelude.{Bool, true, false, Option, some, [], ◌∷◌, ◌++◌, arith, length}
use cachetron.Prelude.{inl, inr, Bool-cases, leb, le→leb, ◌==◌, eqb→eq, eqb-false}
use cachetron.Prelude.{if◌then◌else◌, add_size}
use cachetron.Prelude.Memory.{splice, length-splice, take-splice}
use cachetron.Prelude.Result.{ok}
use cachetron.Vector.{Vector, contents, vector_resize}
use cachetron.Vector.Append.{IsValid, Resized, vector_resize-Resized}
use cachetron.Vector.Pointers.{ptr_vector_resize, double, ptr_vector_push_back}

module _ {ℓ} {A : Type ℓ} (alloc : ℕ → Bool) where
  -- The two resizing functions are one function.
  ptr_vector_resize_lem :
      (v : Vector A) (n : ℕ) → ptr_vector_resize alloc v n ≡ vector_resize alloc v n
  unfolding ptr_vector_resize vector_resize
  ptr_vector_resize_lem v n = refl

  double-Resized :
      (v : Vector A)
      → IsValid v
      → v.capacity ≤ 2 ^ 62
      → Resized alloc v (v.size + 1) (double alloc v).0 (double alloc v).1
  unfolding double
  double-Resized v w small = elim (Bool-cases (v.size == v.capacity)) [
    | inr spare ↦ rw spare (record {
      valid = w;
      same = refl;
      size = refl;
      enough = λ _. omega (arith, w.fits, eqb-false v.size v.capacity spare);
      kept = λ h. refl;
      total = λ h. refl;
    })
    | inl full ↦
        let twice = (v.capacity * 2) % 2 ^ 64 in
        let r = vector_resize-Resized alloc v twice w (omega arith) in
        rw (full, ptr_vector_resize_lem v twice)
          (record {
            valid = r.valid;
            same = r.same;
            size = r.size;
            enough = λ h. omega (arith, r.enough h, eqb→eq v.size v.capacity full, w.least);
            kept = r.kept;
            total = r.total;
          })
  ]

  push_back_true :
      (v : Vector A) (elem : Option A)
      → (double alloc v).0 ≡ true
      → let v' = (double alloc v).1 in
        v'.size + 1 ≤ length v'.cells
        → ptr_vector_push_back alloc (some v) elem
          ≡ ok (
            true,
            some (record v' {
              cells = splice v'.cells v'.size (elem ∷ []);
              size = add_size v'.size 1;
            }),
          )
  unfolding ptr_vector_push_back
  push_back_true v elem given room =
      let v' = (double alloc v).1 in
      let inside : leb (v'.size + 1) (length v'.cells) ≡ true = le→leb _ _ room in
      rw (given, inside)

  push_back_false :
      (v : Vector A) (elem : Option A)
      → (double alloc v).0 ≡ false
      → ptr_vector_push_back alloc (some v) elem ≡ ok (false, some (double alloc v).1)
  unfolding ptr_vector_push_back
  push_back_false v elem refused = rw refused

  -- A push to a well-formed vector stays in the array, also when the vector is full. Where it answers
  -- true, as it does whenever the allocator succeeds, the vector holds the new pointer behind the
  -- old ones; where it answers false the vector holds what it held.
  pub ptr_vector_push_back_lem :
      (v : Vector A) (elem : Option A)
      → IsValid v
      → v.capacity ≤ 2 ^ 62
      → (b : Bool) × (v' : Vector A) × (ptr_vector_push_back alloc (some v) elem ≡ ok (b, some v'))
        × IsValid v'
        × (contents v' ≡ (if b then contents v ++ elem ∷ [] else contents v))
        × (((n : ℕ) → alloc n ≡ true) → b ≡ true)
  ptr_vector_push_back_lem v elem w small =
      let r = double-Resized v w small in
      let v' = (double alloc v).1 in
      elim (Bool-cases (double alloc v).0) [
        | inr refused ↦ (
          false,
          v',
          push_back_false v elem refused,
          r.valid,
          r.same,
          λ h. cc (r.total h, refused),
        )
        | inl given ↦
            let room : v'.size + 1 ≤ length v'.cells =
              omega (arith, r.enough given, r.size, r.valid.width) in
            let next : add_size v'.size 1 ≡ v'.size + 1 = omega (arith, r.size, w.fits) in
            (
              true,
              record v' { cells = splice v'.cells v'.size (elem ∷ []); size = add_size v'.size 1 },
              push_back_true v elem given room,
              record {
                width = length-splice v'.cells v'.size (elem ∷ []) (omega arith) ∙ r.valid.width;
                fits = omega (arith, r.valid.width);
                least = r.valid.least;
              },
              take-splice v'.cells v'.size (add_size v'.size 1) (elem ∷ []) (omega arith)
                    (omega arith)
                  ∙ ap (λ l. l ++ elem ∷ []) r.same,
              λ h. refl,
            )
      ]
