-- ===== src/Deque/Ends.antt =====
-- Pushes and pops at both ends of a deque that is not full, against the list that it holds.
use native.Mathlib.Nat.{mod-eq_of_lt, mod_self}
use native.Mathlib.Decide.{dec_lt}
use cachetron.Prelude.{ℕ, zero, suc, ◌+◌, ◌-◌, ◌%◌, ◌^◌, ◌<◌, ◌≤◌, ◌≡◌, ◌≢◌, refl, ap, ◌∙◌}
use cachetron.Prelude.{true, false, Option, none, List, [], ◌∷◌, ◌++◌, arith, length, get_or}
use cachetron.Prelude.{inl, inr, Bool-cases, ltb, ◌==◌, eqb→eq, eqb-false, if◌then◌else◌}
use cachetron.Prelude.{add_size, set, length-set, get_or-set_ne, get_or-set_self, lt→ltb}
use cachetron.Prelude.Memory.{store, store-set}
use cachetron.Prelude.Result.{ok}
use cachetron.Deque.{Deque, deque_empty, put_front, put_back}

-- The index `i` places on from `front`, round the end of the array.
abbrev pub slot : ℕ → ℕ → ℕ → ℕ
slot capacity front i = if ltb (front + i) capacity then front + i else front + i - capacity

-- The list of the values at 0, 1, …, `n - 1`.
abbrev pub tabulate {ℓ} : {A : Type ℓ} → ℕ → (ℕ → A) → List A
tabulate zero f = []
tabulate (suc n) f = f 0 ∷ tabulate n (λ i. f (suc i))

pub tabulate_congr {ℓ} :
    {A : Type ℓ} (n : ℕ) (f g : ℕ → A) → ((i : ℕ) → i < n → f i ≡ g i) → tabulate n f ≡ tabulate n g
tabulate_congr zero f g h = refl
tabulate_congr (suc n) f g h = cc (
  h 0 (omega arith),
  tabulate_congr n (λ i. f (suc i)) (λ i. g (suc i)) (λ i k. h (suc i) (omega arith)),
)

pub tabulate_last {ℓ} :
    {A : Type ℓ} (n : ℕ) (f : ℕ → A) → tabulate (suc n) f ≡ tabulate n f ++ f n ∷ []
tabulate_last zero f = refl
tabulate_last (suc n) f = ap (λ l. f 0 ∷ l) (tabulate_last n (λ i. f (suc i)))

-- The next index round the array, as the code computes it.
pub next_mod :
    (capacity b : ℕ)
    → b < capacity
    → capacity < 2 ^ 63
    → add_size b 1 % capacity ≡ slot capacity b 1
next_mod capacity b h small =
    let plain : add_size b 1 ≡ b + 1 = omega arith in
    rw plain (elim (dec_lt (b + 1) capacity) [
      | yes lt ↦ rw (lt→ltb (b + 1) capacity lt, mod-eq_of_lt lt) refl
      | no ge ↦
          let e : b + 1 ≡ capacity = omega arith in
          let over : ltb capacity capacity ≡ false = ground arith in
          rw (e, over, mod_self capacity) (omega arith)
    ])

module _ {ℓ} {A : Type ℓ} where
  -- The elements of a deque, front first.
  abbrev pub contents : Deque A → List (Option A)
  contents d = tabulate d.size (λ i. get_or d.cells (slot d.capacity d.front i) none)

  -- The array is as long as `capacity` says, and `front` and `back` are the ends of `size` cells.
  pub record IsValid (d : Deque A) : Type ℓ where
    pub width : length d.cells ≡ d.capacity
    pub fits : d.size ≤ d.capacity
    pub some_room : 0 < d.capacity
    pub small : d.capacity < 2 ^ 63
    pub front_in : 0 < d.size → d.front < d.capacity
    pub back_at : 0 < d.size → d.back ≡ slot d.capacity d.front (d.size - 1)

  module _ (d : Deque A) (v : IsValid d) where
    -- An element put in a cell outside those in use leaves those as they are.
    kept :
        (j front n : ℕ) (x : Option A)
        → ((i : ℕ) → i < n → j ≢ slot d.capacity front i)
        → tabulate n (λ i. get_or (set d.cells j x) (slot d.capacity front i) none)
          ≡ tabulate n (λ i. get_or d.cells (slot d.capacity front i) none)
    kept j front n x apart =
        tabulate_congr n _ _ λ i h. get_or-set_ne d.cells j _ x none (apart i h)

    -- With room left, `deque_push_back` puts the element behind the others.
    pub put_back_lem :
        (x : Option A)
        → d.size < d.capacity
        → (d' : Deque A) × (put_back d x ≡ ok (true, d'))
          × IsValid d'
          × (contents d' ≡ contents d ++ x ∷ [])
    unfolding put_back deque_empty
    put_back_lem x room = elim (Bool-cases (d.size == 0)) [
      | inl empty ↦
          let none_in = eqb→eq d.size 0 empty in
          let cells = set d.cells 0 x in
          let there : store d.cells 0 x ≡ ok cells =
            store-set d.cells 0 x (omega (arith, v.width)) in
          let one : add_size d.size 1 ≡ 1 = omega arith in
          (
            record d { size = 1; front = 0; back = 0; cells = cells },
            rw (empty, there, one),
            record {
              width = length-set d.cells 0 x ∙ v.width;
              fits = v.some_room;
              some_room = v.some_room;
              small = v.small;
              front_in = λ h. v.some_room;
              back_at = λ h. ground (arith, v.some_room);
            },
            first_only (get_or-set_self d.cells 0 x none (omega arith)) none_in,
          )
      | inr some_in ↦
          let left : 0 < d.size = omega (arith, eqb-false d.size 0 some_in) in
          let j = slot d.capacity d.front d.size in
          let at_end : add_size d.back 1 % d.capacity ≡ j =
            next_mod d.capacity d.back (ground (arith, v.back_at left, v.front_in left)) v.small
            ∙ ground (arith, v.back_at left, v.front_in left) in
          let inside : j < d.capacity = ground (arith, v.front_in left) in
          let cells = set d.cells j x in
          let there : store d.cells j x ≡ ok cells =
            store-set d.cells j x (omega (arith, v.width)) in
          let more : add_size d.size 1 ≡ suc d.size = omega (arith, v.small) in
          (
            record d { size = suc d.size; back = j; cells = cells },
            rw (some_in, at_end, there, more),
            record {
              width = length-set d.cells j x ∙ v.width;
              fits = room;
              some_room = v.some_room;
              small = v.small;
              front_in = λ h. v.front_in left;
              back_at =
                  λ h. ap (slot d.capacity d.front) {x = d.size} {y = suc d.size - 1} (omega arith);
            },
            tabulate_last d.size _
                ∙ ap (λ l. l ++ get_or cells j none ∷ [])
                    (kept j d.front d.size x λ i h. ground (arith, v.front_in left))
                ∙ ap (λ y. contents d ++ y ∷ [])
                    (get_or-set_self d.cells j x none (omega (arith, v.width))),
          )
    ]
      where
        first_only :
            get_or (set d.cells 0 x) 0 none ≡ x
            → d.size ≡ 0
            → contents (record d { size = 1; front = 0; back = 0; cells = set d.cells 0 x })
              ≡ contents d ++ x ∷ []
        first_only e none_in =
            let at_zero : slot d.capacity 0 0 ≡ 0 = ground (arith, v.some_room) in
            rw (none_in, at_zero, e)

    -- With room left, `deque_push_front` puts the element before the others.
    pub put_front_lem :
        (x : Option A)
        → d.size < d.capacity
        → (d' : Deque A) × (put_front d x ≡ ok (true, d'))
          × IsValid d'
          × (contents d' ≡ x ∷ contents d)
    unfolding put_front deque_empty
    put_front_lem x room = elim (Bool-cases (d.size == 0)) [
      | inl empty ↦
          let none_in = eqb→eq d.size 0 empty in
          let cells = set d.cells 0 x in
          let there : store d.cells 0 x ≡ ok cells =
            store-set d.cells 0 x (omega (arith, v.width)) in
          let one : add_size d.size 1 ≡ 1 = omega arith in
          (
            record d { size = 1; front = 0; back = 0; cells = cells },
            rw (empty, there, one),
            record {
              width = length-set d.cells 0 x ∙ v.width;
              fits = v.some_room;
              some_room = v.some_room;
              small = v.small;
              front_in = λ h. v.some_room;
              back_at = λ h. ground (arith, v.some_room);
            },
            first_only (get_or-set_self d.cells 0 x none (omega arith)) none_in,
          )
      | inr some_in ↦
          let left : 0 < d.size = omega (arith, eqb-false d.size 0 some_in) in
          let j = if d.front == 0 then d.capacity - 1 else d.front - 1 in
          let inside : j < d.capacity = ground (arith, v.front_in left, v.some_room) in
          let cells = set d.cells j x in
          let there : store d.cells j x ≡ ok cells =
            store-set d.cells j x (omega (arith, v.width)) in
          let more : add_size d.size 1 ≡ suc d.size = omega (arith, v.small) in
          let here : slot d.capacity j 0 ≡ j = ground (arith, inside) in
          let on : (i : ℕ) → i < d.size → slot d.capacity j (suc i) ≡ slot d.capacity d.front i =
            λ i h. ground (arith, v.front_in left) in
          (
            record d { size = suc d.size; front = j; cells = cells },
            rw (some_in, there, more),
            record {
              width = length-set d.cells j x ∙ v.width;
              fits = room;
              some_room = v.some_room;
              small = v.small;
              front_in = λ h. inside;
              back_at = λ h. ground (arith, v.back_at left, v.front_in left);
            },
            cc (
              ap (λ k. get_or cells k none) here,
              get_or-set_self d.cells j x none (omega (arith, v.width)),
              tabulate_congr d.size (λ i. get_or cells (slot d.capacity j (suc i)) none)
                  (λ i. get_or cells (slot d.capacity d.front i) none)
                  (λ i h. ap (λ k. get_or cells k none) (on i h)),
              kept j d.front d.size x λ i h. ground (arith, v.front_in left),
            ),
          )
    ]
      where
        first_only :
            get_or (set d.cells 0 x) 0 none ≡ x
            → d.size ≡ 0
            → contents (record d { size = 1; front = 0; back = 0; cells = set d.cells 0 x })
              ≡ x ∷ contents d
        first_only e none_in =
            let at_zero : slot d.capacity 0 0 ≡ 0 = ground (arith, v.some_room) in
            rw (none_in, at_zero, e)
