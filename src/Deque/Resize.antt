-- ===== src/Deque/Resize.antt =====
-- `deque_push_back` and `deque_push_front` when the deque may be full, with `deque_resize`.
use cachetron.Prelude.{ℕ, zero, suc, ◌-◌, ◌*◌, ◌%◌, ◌^◌, ◌<◌, ◌≤◌, ◌≡◌, refl, sym, ap, ◌∙◌, ◌⊎◌}
use cachetron.Prelude.{Bool, true, false, Option, none, List, [], ◌∷◌, ◌++◌, arith, length, get_or}
use cachetron.Prelude.{Bool-cases, if_true, ◌+◌, inl, inr, ltb, lt→ltb, ◌==◌, take, replicate}
use cachetron.Prelude.Memory.{store, realloc, length-realloc}
use cachetron.Prelude.Result.{Result, ok, fault, use_after_free, ok_inj, bind-ok, ◌>>=◌}
use cachetron.Deque.{Deque, copy_down, deque_full, deque_resize, make_room, put_back}
use cachetron.Deque.{deque_push_front, deque_push_back}
use cachetron.Deque.Ends.{slot, tabulate_congr, contents, IsValid, put_back_lem, put_front_lem}

get_or-append {ℓ} :
    {A : Type ℓ} (xs ys : List A) (i : ℕ) (d : A)
    → i < length xs
    → get_or (xs ++ ys) i d ≡ get_or xs i d
get_or-append [] ys i d h = absurd (omega arith)
get_or-append (x ∷ xs) ys zero d h = refl
get_or-append (x ∷ xs) ys (suc i) d h = get_or-append xs ys i d (omega arith)

get_or-take {ℓ} :
    {A : Type ℓ} (n i : ℕ) (xs : List A) (d : A) → i < n → get_or (take n xs) i d ≡ get_or xs i d
get_or-take zero i xs d h = absurd (omega arith)
get_or-take (suc n) i [] d h = refl
get_or-take (suc n) zero (x ∷ xs) d h = refl
get_or-take (suc n) (suc i) (x ∷ xs) d h = get_or-take n i xs d (omega arith)

take_all {ℓ} : {A : Type ℓ} (n : ℕ) (xs : List A) → length xs ≤ n → take n xs ≡ xs
take_all zero [] h = refl
take_all zero (x ∷ xs) h = absurd (omega arith)
take_all (suc n) [] h = refl
take_all (suc n) (x ∷ xs) h = ap (λ l. x ∷ l) (take_all n xs (omega arith))

get_or-realloc {ℓ} :
    {A : Type ℓ} (x : A) (xs : List A) (n i : ℕ) (d : A)
    → length xs ≤ n
    → i < length xs
    → get_or (realloc x xs n) i d ≡ get_or xs i d
get_or-realloc x xs n i d h k =
    ap (λ l. get_or (l ++ replicate (n - length xs) x) i d) (take_all n xs h)
    ∙ get_or-append xs (replicate (n - length xs) x) i d k

module _ {ℓ} {A : Type ℓ} (alloc : ℕ → Bool) (in_place : Bool) (d : Deque A) (v : IsValid d) where
  -- There is room, or the elements lie in order from cell 0 on and the array can be doubled.
  abbrev pub Growable : Type 0
  Growable =
      (d.size < d.capacity)
      ⊎ ((d.size ≡ d.capacity)
          × (d.front ≤ d.back)
          × (alloc (d.capacity * 2) ≡ true)
          × (d.capacity * 2 < 2 ^ 63))

  module _ (full : d.size ≡ d.capacity) where
    is_full : (d.size == d.capacity) ≡ true
    is_full = ground arith

    doubled : d.capacity * 2 < 2 ^ 64 → (d.capacity * 2) % 2 ^ 64 ≡ d.capacity * 2
    doubled h = omega arith

    in_order : d.front ≤ d.back → d.front ≡ 0
    in_order h = ground (
      arith,
      v.some_room,
      v.front_in (omega (arith, v.some_room)),
      v.back_at (omega (arith, v.some_room)),
    )

    grown : Deque A
    grown = record d { capacity = d.capacity * 2; cells = realloc none d.cells (d.capacity * 2) }

    -- A full deque that does not wrap keeps its elements in the doubled array.
    deque_resize-grown :
        d.front ≤ d.back
        → alloc (d.capacity * 2) ≡ true
        → d.capacity * 2 < 2 ^ 63
        → (make_room alloc in_place d ≡ ok (true, grown))
          × IsValid grown
          × (contents grown ≡ contents d)
    unfolding make_room deque_resize deque_full grown
    deque_resize-grown order given small =
        let plain = doubled (omega arith) in
        let unwrapped : ltb d.back d.front ≡ false = ground arith in
        let zero_front = in_order order in
        let wide : length d.cells ≤ d.capacity * 2 = omega (arith, v.width) in
        let place : (c i : ℕ) → i < c → slot c d.front i ≡ i = λ c i h. ground arith in
        (
          rw (is_full, plain, given, unwrapped),
          record {
            width = length-realloc none d.cells (d.capacity * 2) wide;
            fits = omega arith;
            some_room = omega (arith, v.some_room);
            small = small;
            front_in = λ h. omega (arith, v.some_room);
            back_at = λ h. ground (arith, v.back_at h, v.some_room);
          },
          tabulate_congr d.size _ _ λ i h.
              ap (λ k. get_or (realloc none d.cells (d.capacity * 2)) k none)
                (place (d.capacity * 2) i (omega arith))
              ∙ get_or-realloc none d.cells (d.capacity * 2) i none wide (omega (arith, v.width))
              ∙ ap (λ k. get_or d.cells k none) (sym (place d.capacity i (omega arith))),
        )

    -- On a full deque whose elements wrap, where `realloc` answers a new array that is elsewhere,
    -- `deque_push_back` reads the freed array in the first round of the copying.
    pub deque_push_back-moved :
        d.back < d.front
        → alloc ((d.capacity * 2) % 2 ^ 64) ≡ true
        → in_place ≡ false
        → (x : Option A) → deque_push_back alloc in_place d x ≡ fault use_after_free
    unfolding deque_push_back make_room deque_resize deque_full copy_down
    deque_push_back-moved wraps given moved x =
        let wrapped : ltb d.back d.front ≡ true = lt→ltb _ _ wraps in
        let rounds : d.capacity - d.front ≡ suc (d.capacity - d.front - 1) =
          omega (arith, v.front_in (omega (arith, v.some_room))) in
        rw (is_full, given, wrapped, moved, rounds)

    -- Without memory for the larger array the deque stays as it was.
    pub deque_push_back-refused :
        alloc ((d.capacity * 2) % 2 ^ 64) ≡ false
        → (x : Option A) → deque_push_back alloc in_place d x ≡ ok (false, d)
    unfolding deque_push_back make_room deque_resize deque_full
    deque_push_back-refused refused x = rw (is_full, refused)

  -- A deque with room, once `make_room` is done.
  abbrev Roomy : Deque A → Type ℓ
  Roomy d' =
      (make_room alloc in_place d ≡ ok (true, d'))
      × IsValid d'
      × (contents d' ≡ contents d)
      × (d'.size < d'.capacity)

  room_made : Growable → (d' : Deque A) × Roomy d'
  unfolding make_room deque_full grown
  room_made (inl room) =
      let not_full : (d.size == d.capacity) ≡ false = ground arith in
      (d, (rw not_full, v, refl, room))
  room_made (inr (full, order, given, small)) =
      let (made, valid, same) = deque_resize-grown full order given small in
      (grown full, (made, valid, same, omega (arith, v.some_room)))

  -- `deque_push_back` puts the element behind the others.
  pub deque_push_back_lem :
      Growable
      → (x : Option A)
      → (d' : Deque A) × (deque_push_back alloc in_place d x ≡ ok (true, d'))
        × IsValid d'
        × (contents d' ≡ contents d ++ x ∷ [])
  unfolding deque_push_back
  deque_push_back_lem g x =
      let (d1, (made, valid, same, room)) = room_made g in
      let (d2, put, valid', more) = put_back_lem d1 valid x room in
      (d2, rw (made, put), valid', more ∙ ap (λ l. l ++ x ∷ []) same)

  -- `deque_push_front` puts the element before the others.
  pub deque_push_front_lem :
      Growable
      → (x : Option A)
      → (d' : Deque A) × (deque_push_front alloc in_place d x ≡ ok (true, d'))
        × IsValid d'
        × (contents d' ≡ x ∷ contents d)
  unfolding deque_push_front
  deque_push_front_lem g x =
      let (d1, (made, valid, same, room)) = room_made g in
      let (d2, put, valid', more) = put_front_lem d1 valid x room in
      (d2, rw (made, put), valid', more ∙ ap (λ l. x ∷ l) same)

module _ {ℓ} {A : Type ℓ} (alloc : ℕ → Bool) (in_place : Bool) where
  answer_inj :
      {b c : Bool} {d d' : Deque A}
      → ◌≡◌ {A = Result (Bool × Deque A)} (ok (b, d)) (ok (c, d'))
      → (b ≡ c) × (d ≡ d')
  answer_inj e = let p = ok_inj e in (ap (λ r. r.0) p, ap (λ r. r.1) p)

  put_back-true :
      (d : Deque A) (x : Option A) (b : Bool) (d' : Deque A) → put_back d x ≡ ok (b, d') → b ≡ true
  unfolding put_back
  put_back-true d x b d' run =
      let (cells, _, done) = bind-ok (store d.cells _ x) _ (b, d') run in sym (answer_inj done).0

  -- Where the array can not be doubled, the deque is as it was.
  deque_resize-false :
      (d : Deque A) (b : Bool) (d' : Deque A)
      → deque_resize alloc in_place d ≡ ok (b, d')
      → (b ≡ true) ⊎ (d' ≡ d)
  unfolding deque_resize
  deque_resize-false d b d' run =
      let n = (d.capacity * 2) % 2 ^ 64 in
      elim (Bool-cases (alloc n)) [
        | inr refused ↦ inr (sym (answer_inj (rw refused at run)).1)
        | inl given ↦
            let grown = if_true (alloc n) _ _ (ok (b, d')) given run in
            elim (Bool-cases (ltb d.back d.front)) [
              | inr order ↦ inl (sym (answer_inj (rw order at grown)).0)
              | inl wraps ↦
                  let finish : List (Option A) → Result (Bool × Deque A) = λ lower. ok (
                    true,
                    record d { capacity = n; front = 0; back = d.capacity - 1; cells = lower },
                  ) in
                  let again = λ (upper : List (Option A)).
                    copy_down in_place (d.back + 1) (d.capacity - d.front) 0 upper >>= finish in
                  let copied = if_true (ltb d.back d.front) _ _ (ok (b, d')) wraps grown in
                  let (upper, _, rest) =
                    bind-ok
                      (copy_down in_place (d.capacity - d.front) 0 d.front (realloc none d.cells n))
                      again (b, d') copied in
                  let (lower, _, done) =
                    bind-ok (copy_down in_place (d.back + 1) (d.capacity - d.front) 0 upper) finish
                      (b, d') rest in
                  inl (sym (answer_inj done).0)
            ]
      ]

  -- Where there is no room and the array can not be doubled, the deque is as it was.
  make_room-false :
      (d : Deque A) (b : Bool) (d' : Deque A)
      → make_room alloc in_place d ≡ ok (b, d')
      → (b ≡ true) ⊎ (d' ≡ d)
  unfolding make_room deque_full
  make_room-false d b d' run = elim (Bool-cases (d.size == d.capacity)) [
    | inr room ↦ inl (sym (answer_inj (rw room at run)).0)
    | inl full ↦ deque_resize-false d b d' (rw full at run)
  ]

  -- Where `deque_push_back` answers false, the deque is as it was.
  pub deque_push_back-false :
      (d : Deque A) (x : Option A) (d' : Deque A)
      → deque_push_back alloc in_place d x ≡ ok (false, d')
      → d' ≡ d
  unfolding deque_push_back
  deque_push_back-false d x d' run =
      let ((fits, d1), made, rest) = bind-ok (make_room alloc in_place d) _ (false, d') run in
      elim (Bool-cases fits) [
        | inl roomy ↦ absurd (cc (put_back-true d1 x false d' (rw roomy at rest)))
        | inr full ↦
            let same = (answer_inj (rw full at rest)).1 in
            elim (make_room-false d fits d1 made) [
              | inl e ↦ absurd (cc (e, full))
              | inr kept ↦ sym same ∙ kept
            ]
      ]
