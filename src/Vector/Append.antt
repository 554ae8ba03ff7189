-- ===== src/Vector/Append.antt =====
-- Growing a vector: `vector_resize` makes room or says that it could not, and `vector_append` adds
-- at the end.
use cachetron.Prelude.{ℕ, ◌+◌, ◌^◌, ◌<◌, ◌≤◌, ◌≡◌, refl, sym, ap, ◌∙◌, Bool, true, false}
use cachetron.Prelude.{Option, none, some, List, ◌++◌, map, arith, length, take, inl, inr}
use cachetron.Prelude.{Bool-cases, leb, leb→le, le→leb, ◌==◌, if◌then◌else◌, eqb→eq}
use cachetron.Prelude.{length-map, add_size, append-nil}
use cachetron.Prelude.Clp2.{clp2, clp2_bounds}
use cachetron.Prelude.Memory.{
  splice, length-take, length-splice, length-realloc, take-realloc, take-splice,
}
use cachetron.Prelude.Result.{ok}
use cachetron.Vector.{Vector, contents, vector_resize, reserve, vector_append}

module _ {ℓ} {A : Type ℓ} where
  -- The array has as many cells as `capacity` says, 16 or more, and the elements are within.
  pub record IsValid (v : Vector A) : Type ℓ where
    pub width : length v.cells ≡ v.capacity
    pub fits : v.size ≤ v.capacity
    pub least : 16 ≤ v.capacity

  module _ (alloc : ℕ → Bool) where
    -- What making room for `need` cells may leave.
    pub record Resized (v : Vector A) (need : ℕ) (fits : Bool) (v' : Vector A) : Type ℓ where
      pub valid : IsValid v'
      pub same : contents v' ≡ contents v
      pub size : v'.size ≡ v.size
      pub enough : fits ≡ true → need ≤ v'.capacity
      pub kept : fits ≡ false → v' ≡ v
      pub total : ((n : ℕ) → alloc n ≡ true) → fits ≡ true

    pub vector_resize-Resized :
        (v : Vector A) (need : ℕ)
        → IsValid v
        → need ≤ 2 ^ 63
        → Resized v need (vector_resize alloc v need).0 (vector_resize alloc v need).1
    unfolding vector_resize
    vector_resize-Resized v need w small = elim (Bool-cases (leb need 16)) [
      | inl few ↦ rw few (record {
        valid = w;
        same = refl;
        size = refl;
        enough = λ _. omega (arith, leb→le need 16 few, w.least);
        kept = λ h. refl;
        total = λ h. refl;
      })
      | inr many ↦
          let least : 16 < need = ground arith in
          let (up, top) = clp2_bounds need (omega arith) small in
          elim (Bool-cases (leb v.capacity (clp2 need))) [
            | inr roomy ↦
                rw (many, roomy)
                  (record {
                    valid = w;
                    same = refl;
                    size = refl;
                    enough = λ _. ground arith;
                    kept = λ h. refl;
                    total = λ h. refl;
                  })
            | inl grows ↦
                let more = leb→le v.capacity (clp2 need) grows in
                elim (Bool-cases (alloc (clp2 need))) [
                  | inr refused ↦
                      rw (many, grows, refused)
                        (record {
                          valid = w;
                          same = refl;
                          size = refl;
                          enough = λ h. cc;
                          kept = λ h. refl;
                          total = λ h. cc (h (clp2 need), refused);
                        })
                  | inl given ↦
                      rw (many, grows, given)
                        (record {
                          valid = record {
                            width =
                                length-realloc none v.cells (clp2 need) (omega (arith, w.width));
                            fits = omega (arith, w.fits);
                            least = omega (arith, w.least);
                          };
                          same =
                              take-realloc none v.cells (clp2 need) v.size (omega (arith, w.fits))
                                (omega (arith, w.width, w.fits));
                          size = refl;
                          enough = λ _. up;
                          kept = λ h. cc;
                          total = λ h. refl;
                        })
                ]
          ]
    ]

    pub reserve-Resized :
        (v : Vector A) (need : ℕ)
        → IsValid v
        → need ≤ 2 ^ 63
        → Resized v need (reserve alloc v need).0 (reserve alloc v need).1
    unfolding reserve
    reserve-Resized v need w small = elim (Bool-cases (leb v.capacity need)) [
      | inl full ↦ rw full (vector_resize-Resized v need w small)
      | inr roomy ↦ rw roomy (record {
        valid = w;
        same = refl;
        size = refl;
        enough = λ _. ground arith;
        kept = λ h. refl;
        total = λ h. refl;
      })
    ]

    vector_append_nothing :
        (v : Vector A) (elems : List A) (count : ℕ)
        → (count == 0) ≡ true
        → vector_append alloc (some v) (some elems) count ≡ ok (true, some v)
    unfolding vector_append
    vector_append_nothing v elems count none_new = rw none_new

    vector_append-false :
        (v : Vector A) (elems : List A) (count : ℕ)
        → (count == 0) ≡ false
        → (reserve alloc v (add_size v.size count)).0 ≡ false
        → vector_append alloc (some v) (some elems) count
          ≡ ok (false, some (reserve alloc v (add_size v.size count)).1)
    unfolding vector_append
    vector_append-false v elems count some_new refused = rw (some_new, refused)

    vector_append-true :
        (v : Vector A) (elems : List A) (count : ℕ)
        → (count == 0) ≡ false
        → (reserve alloc v (add_size v.size count)).0 ≡ true
        → count ≤ length elems
        → let v' = (reserve alloc v (add_size v.size count)).1 in
          v'.size + count ≤ length v'.cells
          → vector_append alloc (some v) (some elems) count
            ≡ ok (
              true,
              some (record v' {
                cells = splice v'.cells v'.size (map some (take count elems));
                size = add_size v.size count;
              }),
            )
    unfolding vector_append
    vector_append-true v elems count some_new given enough room =
        let there : leb (0 + count) (length elems) ≡ true =
          le→leb (0 + count) (length elems) (omega arith) in
        let v' = (reserve alloc v (add_size v.size count)).1 in
        let new = map some (take count elems) in
        let inside : leb (v'.size + length new) (length v'.cells) ≡ true =
          le→leb (v'.size + length new) (length v'.cells) (
            omega (
              arith,
              length-map {B = Option A} some (take count elems),
              length-take count elems enough,
            )) in
        rw (some_new, given, there, inside)

    -- Appending the first `count` of some elements to a well-formed vector stays in the array. It
    -- succeeds whenever the allocator does, and the vector then holds the old elements and behind
    -- them the new; where it answers false the vector holds what it held.
    pub vector_append_lem :
        (v : Vector A) (elems : List A) (count : ℕ)
        → IsValid v
        → count ≤ length elems
        → v.size + count ≤ 2 ^ 63
        → (b : Bool) × (v' : Vector A) × (vector_append alloc (some v) (some elems) count
            ≡ ok (b, some v'))
          × IsValid v'
          × (contents v' ≡ (if b then contents v ++ map some (take count elems) else contents v))
          × (((n : ℕ) → alloc n ≡ true) → b ≡ true)
    vector_append_lem v elems count w enough small = elim (Bool-cases (count == 0)) [
      | inl none_new ↦
          let zero_new = eqb→eq count 0 none_new in
          (
            true,
            v,
            vector_append_nothing v elems count none_new,
            w,
            rw zero_new (sym (append-nil (contents v))),
            λ h. refl,
          )
      | inr some_new ↦
          let need = add_size v.size count in
          let exact : need ≡ v.size + count = omega arith in
          let r = reserve-Resized v need w (omega arith) in
          let v' = (reserve alloc v need).1 in
          elim (Bool-cases (reserve alloc v need).0) [
            | inr refused ↦ (
              false,
              v',
              vector_append-false v elems count some_new refused,
              r.valid,
              r.same,
              λ h. cc (r.total h, refused),
            )
            | inl given ↦
                let new = map some (take count elems) in
                let added : length new ≡ count =
                  length-map some (take count elems) ∙ length-take count elems enough in
                let room : v'.size + count ≤ length v'.cells =
                  omega (arith, r.enough given, r.size, r.valid.width) in
                (
                  true,
                  record v' { cells = splice v'.cells v'.size new; size = need },
                  vector_append-true v elems count some_new given enough room,
                  record {
                    width = length-splice v'.cells v'.size new (omega arith) ∙ r.valid.width;
                    fits = omega (arith, r.enough given);
                    least = r.valid.least;
                  },
                  take-splice v'.cells v'.size need new (omega arith) (omega (arith, r.size))
                      ∙ ap (λ l. l ++ new) r.same,
                  λ h. refl,
                )
          ]
    ]
