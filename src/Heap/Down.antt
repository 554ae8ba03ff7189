-- ===== src/Heap/Down.antt =====
-- `heap_down` lets an item that is too high sink to its place.
use cachetron.Prelude.{ℕ, zero, suc, ◌+◌, ◌-◌, ◌*◌, ◌^◌, ◌<◌, ◌≤◌, ◌≡◌, ◌≢◌, refl, ap, ◌∙◌}
use cachetron.Prelude.{inl, inr, ◌⊎◌, Option, none, some}
use cachetron.Prelude.{false, List, arith, length, length-set, Bool-cases}
use cachetron.Prelude.{ltb, ltb→lt, ◌==◌}
use cachetron.Prelude.Result.{ok, at, at-get_or}
use cachetron.Heap.{HeapItem, Heap, heap_left, heap_right, down_loop, min_left, min_right}
use cachetron.Heap.Order.{
  item, key, parent, IsHeap, Refs, item-set, place_lem, filled, Sifted, moved, length-moved,
  item-moved, Refs-moved, count-moved, has_ref, others-moved,
}

-- Only the edges below `i` may be out of order.
pub record DownInv (a : List HeapItem) (i : ℕ) : Type 0 where
  pub edges : (c : ℕ) → 0 < c → c < length a → parent c ≢ i → key a (parent c) ≤ key a c
  pub past : (c : ℕ) → 0 < c → c < length a → parent c ≡ i → 0 < i → key a (parent i) ≤ key a c

-- The answer of the two comparisons: no child of `i` is below `least`, or `m` is the lowest child.
data Lowest (a : List HeapItem) (i least : ℕ) : Option ℕ → Type 0 where
  settled :
      ((c : ℕ) → 0 < c → c < length a → parent c ≡ i → least ≤ key a c) → Lowest a i least none
  child :
      (m : ℕ)
      → m < length a
      → (m ≡ 2 * i + 1) ⊎ (m ≡ 2 * i + 2)
      → key a m < least
      → ((c : ℕ) → 0 < c → c < length a → parent c ≡ i → key a m ≤ key a c)
      → Lowest a i least (some m)

-- The two answers, to split on.
Lowest-cases :
    (a : List HeapItem) (i least : ℕ) (r : Option ℕ)
    → Lowest a i least r
    → ((r ≡ none) × ((c : ℕ) → 0 < c → c < length a → parent c ≡ i → least ≤ key a c))
      ⊎ ((m : ℕ) × (r ≡ some m)
          × (m < length a)
          × ((m ≡ 2 * i + 1) ⊎ (m ≡ 2 * i + 2))
          × (key a m < least)
          × ((c : ℕ) → 0 < c → c < length a → parent c ≡ i → key a m ≤ key a c))
Lowest-cases a i least _ (settled low) = inl (refl, low)
Lowest-cases a i least _ (child m inside kid below low) = inr (m, refl, inside, kid, below, low)

module _ (h : Heap) (i : ℕ) (least : ℕ) (small : i < 2 ^ 62) where
  left : ℕ
  left = 2 * i + 1

  right : ℕ
  right = 2 * i + 2

  read : (j : ℕ) → j < length h.items → at h.items j ≡ ok (item h.items j)
  read j p = at-get_or h.items j (record { val = 0; ref = 0 }) p

  abbrev KidsLowest : Type 0
  KidsLowest =
      (o : Option ℕ × ℕ) × (r : Option ℕ) × (min_left h (heap_left i) (length h.items) least ≡ ok o)
      × (min_right h (heap_right i) (length h.items) o ≡ ok r)
      × Lowest h.items i least r

  min_kids : KidsLowest
  unfolding min_left min_right left right
  min_kids =
      let el : heap_left i ≡ left = omega arith in
      let er : heap_right i ≡ right = omega arith in
      elim (Bool-cases (ltb left (length h.items))) [
        | inr none_left ↦
            let none_right : ltb right (length h.items) ≡ false = ground arith in
            (
              (none, least),
              none,
              rw (el, none_left),
              rw (er, none_right),
              settled (λ c p q e. absurd (ground arith)),
            )
        | inl has_left ↦
            let rl = read left (ltb→lt _ _ has_left) in
            elim (Bool-cases (ltb (key h.items left) least)) [
              | inl lower ↦ elim (Bool-cases (ltb right (length h.items))) [
                | inr none_right ↦ (
                  (some left, key h.items left),
                  some left,
                  rw (el, has_left, rl, lower),
                  rw (er, none_right),
                  child left (ltb→lt _ _ has_left) (inl refl) (ltb→lt _ _ lower)
                      (λ c p q e. only none_right c p q e),
                )
                | inl has_right ↦
                    let rr = read right (ltb→lt _ _ has_right) in
                    elim (Bool-cases (ltb (key h.items right) (key h.items left))) [
                      | inl lower' ↦ (
                        (some left, key h.items left),
                        some right,
                        rw (el, has_left, rl, lower),
                        rw (er, has_right, rr, lower'),
                        child right (ltb→lt _ _ has_right) (inr refl) (ground arith)
                            (λ c p q e. ground (arith, either c p e)),
                      )
                      | inr over ↦ (
                        (some left, key h.items left),
                        some left,
                        rw (el, has_left, rl, lower),
                        rw (er, has_right, rr, over),
                        child left (ltb→lt _ _ has_left) (inl refl) (ltb→lt _ _ lower)
                            (λ c p q e. ground (arith, either c p e)),
                      )
                    ]
              ]
              | inr higher ↦ elim (Bool-cases (ltb right (length h.items))) [
                | inr none_right ↦ (
                  (none, least),
                  none,
                  rw (el, has_left, rl, higher),
                  rw (er, none_right),
                  settled (λ c p q e. ground (arith, either c p e)),
                )
                | inl has_right ↦
                    let rr = read right (ltb→lt _ _ has_right) in
                    elim (Bool-cases (ltb (key h.items right) least)) [
                      | inl lower' ↦ (
                        (none, least),
                        some right,
                        rw (el, has_left, rl, higher),
                        rw (er, has_right, rr, lower'),
                        child right (ltb→lt _ _ has_right) (inr refl) (ground arith)
                            (λ c p q e. ground (arith, either c p e)),
                      )
                      | inr over ↦ (
                        (none, least),
                        none,
                        rw (el, has_left, rl, higher),
                        rw (er, has_right, rr, over),
                        settled (λ c p q e. ground (arith, either c p e)),
                      )
                    ]
              ]
            ]
      ]
    where
      either : (c : ℕ) → 0 < c → parent c ≡ i → (c ≡ left) ⊎ (c ≡ right)
      either c p e = omega arith

      only :
          ltb right (length h.items) ≡ false
          → (c : ℕ) → 0 < c
          → c < length h.items
          → parent c ≡ i
          → key h.items left ≤ key h.items c
      only none_right c p q e = ground (arith, either c p e)

settled-IsHeap :
    (h : Heap) (i : ℕ) (t : HeapItem)
    → i < length h.items
    → DownInv (filled h i t) i
    → ((c : ℕ) → 0 < c → c < length h.items → parent c ≡ i → t.val ≤ key h.items c)
    → IsHeap (filled h i t)
settled-IsHeap h i t hi v low c p q =
    let width : length (filled h i t) ≡ length h.items = length-set h.items i t in
    elim (Bool-cases (parent c == i)) [
      | inl e ↦ ground (arith, item-set h.items i c t hi, item-set h.items i (parent c) t hi, low c)
      | inr e ↦ v.edges c p q (ground arith)
    ]

module _ (h : Heap) (i m : ℕ) (t : HeapItem) (hi : i < length h.items) (hm : m < length h.items)
    (kid : (m ≡ 2 * i + 1) ⊎ (m ≡ 2 * i + 2)) where
  apart : i ≢ m
  apart e = omega arith

  moved-DownInv :
      DownInv (filled h i t) i
      → key h.items m < t.val
      → ((c : ℕ) → 0 < c → c < length h.items → parent c ≡ i → key h.items m ≤ key h.items c)
      → DownInv (filled (moved h i m t hi hm apart) m t) m
  moved-DownInv v below least =
      let d = moved h i m t hi hm apart in
      let width = length-moved h i m t hi hm apart in
      let width' : length (filled d m t) ≡ length h.items = length-set d.items m t ∙ width in
      let width'' : length (filled h i t) ≡ length h.items = length-set h.items i t in
      let at = item-moved h i m t hi hm apart in
      let was = λ (c : ℕ). item-set h.items i c t hi in
      record {
        edges = λ c p q r. ground (
          arith,
          at c,
          at (parent c),
          was c,
          was (parent c),
          was m,
          v.edges c,
          v.past m,
          least c,
        );
        past = λ c p q r s. ground (arith, at c, at (parent m), was c, was (parent c), v.edges c);
      }

  -- A round in which the child moves up.
  down_step :
      (len : ℕ)
      → len ≡ length h.items
      → (fuel : ℕ) (o : Option ℕ × ℕ) → min_left h (heap_left i) (length h.items) t.val ≡ ok o
      → min_right h (heap_right i) (length h.items) o ≡ ok (some m)
      → (out : Heap × ℕ) → down_loop fuel (moved h i m t hi hm apart) m len t ≡ ok out
      → down_loop (suc fuel) h i len t ≡ ok out
  unfolding down_loop
  down_step len e fuel o el er out run =
      let read : at h.items m ≡ ok (item h.items m) =
        at-get_or h.items m (record { val = 0; ref = 0 }) hm in
      let el' : min_left h (heap_left i) len t.val ≡ ok o =
        ap (λ n. min_left h (heap_left i) n t.val) e ∙ el in
      let er' : min_right h (heap_right i) len o ≡ ok (some m) =
        ap (λ n. min_right h (heap_right i) n o) e ∙ er in
      rw (el', er', read, place_lem h i (item h.items m) hi) run

down_stop :
    (h : Heap) (len pos : ℕ) (t : HeapItem)
    → len ≡ length h.items
    → (fuel : ℕ) (o : Option ℕ × ℕ) → min_left h (heap_left pos) (length h.items) t.val ≡ ok o
    → min_right h (heap_right pos) (length h.items) o ≡ ok none
    → down_loop (suc fuel) h pos len t ≡ ok (h, pos)
unfolding down_loop
down_stop h len pos t e fuel o el er =
    let el' : min_left h (heap_left pos) len t.val ≡ ok o =
      ap (λ n. min_left h (heap_left pos) n t.val) e ∙ el in
    let er' : min_right h (heap_right pos) len o ≡ ok none =
      ap (λ n. min_right h (heap_right pos) n o) e ∙ er in
    rw (el', er')

-- From a place at which only the edges below are wrong, the loop ends within as many rounds as
-- there are places behind, and leaves a heap of the same items.
pub down_loop-Sifted :
    (fuel : ℕ) (h : Heap) (len pos : ℕ) (t : HeapItem)
    → len ≡ length h.items
    → len - pos < fuel
    → pos < length h.items
    → length h.items < 2 ^ 62
    → DownInv (filled h pos t) pos
    → Refs h pos t
    → (h' : Heap) × (pos' : ℕ) × (down_loop fuel h pos len t ≡ ok (h', pos'))
      × Sifted h pos t h' pos'
down_loop-Sifted zero h len pos t e f inside small v r = absurd (omega arith)
down_loop-Sifted (suc fuel) h len pos t e f inside small v r =
    let (o, r', el, er, low) = min_kids h pos t.val (omega arith) in
    elim (Lowest-cases h.items pos t.val r' low) [
      | inl (none_left, over) ↦ (
        h,
        pos,
        down_stop h len pos t e fuel o el (er ∙ ap ok none_left),
        record {
          width = refl;
          inside = inside;
          ordered = settled-IsHeap h pos t inside v over;
          refs = r;
          same = λ p. refl;
          others = λ r none_has. refl;
        },
      )
      | inr (m, found, hm, kid, below, least) ↦
          let d = moved h pos m t inside hm (apart h pos m t inside hm kid) in
          let width = length-moved h pos m t inside hm (apart h pos m t inside hm kid) in
          let (h', pos', run, s) =
            down_loop-Sifted fuel d len m t (omega arith) (omega arith) (omega arith) (omega arith)
              (moved-DownInv h pos m t inside hm kid v below least)
              (Refs-moved h pos m t inside hm (apart h pos m t inside hm kid) r) in
          (
            h',
            pos',
            down_step h pos m t inside hm kid len e fuel o el (er ∙ ap ok found) (h', pos') run,
            record {
              width = s.width ∙ width;
              inside = omega (arith, s.inside);
              ordered = s.ordered;
              refs = s.refs;
              same =
                  λ p. s.same p ∙ count-moved h pos m t inside hm (apart h pos m t inside hm kid) p;
              others = λ r none_has.
                  s.others r (
                    count-moved h pos m t inside hm (apart h pos m t inside hm kid) (has_ref r)
                    ∙ none_has)
                  ∙ others-moved h pos m t inside hm (apart h pos m t inside hm kid) r none_has;
            },
          )
    ]
