-- ===== src/Deque/Pop.antt =====
-- `deque_pop_front` and `deque_pop_back` take the first and the last element of the list.
use cachetron.Prelude.{ℕ, zero, suc, ◌-◌, ◌%◌, ◌<◌, ◌≡◌, sym, ap, ◌∙◌}
use cachetron.Prelude.{true, false, Option, none, [], ◌∷◌, ◌++◌, arith, get_or}
use cachetron.Prelude.{inl, inr, Bool-cases, ◌==◌, if◌then◌else◌, if_false}
use cachetron.Prelude.{size_max, add_size}
use cachetron.Prelude.Result.{ok, at, at-get_or, ok_inj, bind-ok}
use cachetron.Deque.{Deque, deque_empty, deque_front, deque_pop_front, deque_pop_back}
use cachetron.Deque.Ends.{
  slot, tabulate, tabulate_congr, tabulate_last, contents, IsValid, next_mod,
}

tabulate_first {ℓ} :
    {A : Type ℓ} (n : ℕ) (f : ℕ → A)
    → 0 < n
    → tabulate n f ≡ f 0 ∷ tabulate (n - 1) (λ i. f (suc i))
tabulate_first zero f h = absurd (omega arith)
tabulate_first (suc n) f h =
    ap (λ k. f 0 ∷ tabulate k (λ i. f (suc i))) {x = n} {y = suc n - 1} (omega arith)

tabulate_end {ℓ} :
    {A : Type ℓ} (n : ℕ) (f : ℕ → A) → 0 < n → tabulate n f ≡ tabulate (n - 1) f ++ f (n - 1) ∷ []
tabulate_end zero f h = absurd (omega arith)
tabulate_end (suc n) f h = let e : suc n - 1 ≡ n = omega arith in rw e (tabulate_last n f)

module _ {ℓ} {A : Type ℓ} (d : Deque A) (v : IsValid d) (left : 0 < d.size) where
  some_in : (d.size == 0) ≡ false
  some_in = ground arith

  front_in : d.front < d.capacity
  front_in = v.front_in left

  -- `front` meets `back` when one element is left.
  last_one : (d.front == d.back) ≡ true → d.size ≡ 1
  last_one e = ground (arith, v.back_at left, v.front_in left, v.fits)

  not_last : (d.front == d.back) ≡ false → 1 < d.size
  not_last e = ground (arith, v.back_at left, v.front_in left, v.fits)

  emptied : Deque A
  emptied = record d { size = d.size - 1; front = size_max; back = size_max }

  emptied-IsValid : d.size ≡ 1 → IsValid emptied
  unfolding emptied
  emptied-IsValid one = record {
    width = v.width;
    fits = omega (arith, v.fits);
    some_room = v.some_room;
    small = v.small;
    front_in = λ h. absurd (omega arith);
    back_at = λ h. absurd (omega arith);
  }

  -- From a deque with an element `deque_pop_front` takes the first, and leaves the others.
  pub deque_pop_front_lem :
      (x : Option A) × (d' : Deque A) × (deque_pop_front d ≡ ok (x, d'))
      × IsValid d'
      × (contents d ≡ x ∷ contents d')
  unfolding deque_pop_front deque_empty emptied
  deque_pop_front_lem =
      let x = get_or d.cells d.front none in
      let f = λ (i : ℕ). get_or d.cells (slot d.capacity d.front i) none in
      let read : at d.cells d.front ≡ ok x =
        at-get_or d.cells d.front none (omega (arith, front_in, v.width)) in
      let here : slot d.capacity d.front 0 ≡ d.front = ground (arith, front_in) in
      let split = tabulate_first d.size f left in
      elim (Bool-cases (d.front == d.back)) [
        | inl met ↦
            let one = last_one met in
            let none_left : d.size - 1 ≡ 0 = omega arith in
            (x, emptied, rw (some_in, read, met), emptied-IsValid one, split ∙ rw (none_left, here))
        | inr apart ↦
            let many = not_last apart in
            let next = slot d.capacity d.front 1 in
            let step : add_size d.front 1 % d.capacity ≡ next =
              next_mod d.capacity d.front front_in v.small in
            (
              x,
              record d { size = d.size - 1; front = next },
              rw (some_in, read, apart, step),
              record {
                width = v.width;
                fits = omega (arith, v.fits);
                some_room = v.some_room;
                small = v.small;
                front_in = λ h. ground (arith, front_in, v.fits);
                back_at = λ h. ground (arith, v.back_at left, front_in, v.fits);
              },
              split
                  ∙ cc (
                    ap (λ k. get_or d.cells k none) here,
                    tabulate_congr (d.size - 1) (λ i. f (suc i))
                        (λ i. get_or d.cells (slot d.capacity next i) none)
                        (λ i h.
                          ap (λ k. get_or d.cells k none) {x = slot d.capacity d.front (suc i)}
                            {y = slot d.capacity next i} (ground (arith, front_in, v.fits))),
                  ),
            )
      ]

  -- From a deque with an element `deque_pop_back` takes the last, and leaves the others.
  pub deque_pop_back_lem :
      (x : Option A) × (d' : Deque A) × (deque_pop_back d ≡ ok (x, d'))
      × IsValid d'
      × (contents d ≡ contents d' ++ x ∷ [])
  unfolding deque_pop_back deque_empty emptied
  deque_pop_back_lem =
      let x = get_or d.cells d.back none in
      let f = λ (i : ℕ). get_or d.cells (slot d.capacity d.front i) none in
      let back_in : d.back < d.capacity = ground (arith, v.back_at left, front_in, v.fits) in
      let read : at d.cells d.back ≡ ok x =
        at-get_or d.cells d.back none (omega (arith, v.width)) in
      let split : contents d ≡ tabulate (d.size - 1) f ++ x ∷ [] =
        tabulate_end d.size f left
        ∙ ap (λ k. tabulate (d.size - 1) f ++ get_or d.cells k none ∷ []) (sym (v.back_at left)) in
      elim (Bool-cases (d.front == d.back)) [
        | inl met ↦
            let one = last_one met in
            let none_left : d.size - 1 ≡ 0 = omega arith in
            (x, emptied, rw (some_in, read, met), emptied-IsValid one, split ∙ rw none_left)
        | inr apart ↦
            let many = not_last apart in
            (
              x,
              record d {
                size = d.size - 1;
                back = if d.back == 0 then d.capacity - 1 else d.back - 1;
              },
              rw (some_in, read, apart),
              record {
                width = v.width;
                fits = omega (arith, v.fits);
                some_room = v.some_room;
                small = v.small;
                front_in = λ h. front_in;
                back_at = λ h. ground (arith, v.back_at left, front_in, v.fits);
              },
              split,
            )
      ]

-- What `deque_pop_front` takes is what `deque_front` answers.
pub deque_front-pop {ℓ} :
    {A : Type ℓ} (d : Deque A) (x : Option A) (d' : Deque A)
    → deque_empty d ≡ false
    → deque_pop_front d ≡ ok (x, d')
    → deque_front d ≡ ok x
unfolding deque_front deque_pop_front
deque_front-pop d x d' some_in run =
    let (y, read, done) =
      bind-ok (at d.cells d.front) _ (x, d')
        (if_false (deque_empty d) _ _ (ok (x, d')) some_in run) in
    rw some_in (read ∙ ap ok (ap (λ r. r.0) (ok_inj done)))
