-- ===== src/Avl/Climb.antt =====
-- The search of `avl_offset`: up to the first subtree that has the position.
use cachetron.Prelude.{
  ℕ, zero, suc, ◌+◌, ◌^◌, ◌≤◌, ◌<◌, ◌≡◌, refl, ap, ◌∙◌, List, [], ◌∷◌, length, arith,
}
use cachetron.Prelude.{
  Bool, true, false, ◌==◌, ltb, eqb→eq, ltb→lt, ltb-false, Bool-cases, inl, inr,
}
use cachetron.Prelude.{Option, none, some, ◌⊎◌}
use cachetron.Prelude.Result.{ok}
use cachetron.Avl.{
  Frame, Place, is_left, is_right, avl_count, plus, minus, parent_step, offset_step, avl_offset,
}
use cachetron.Avl.Order.{before, after}
use cachetron.Avl.Delete.{all_nodes}
use cachetron.Avl.Offset.{At, Counts, Target, rank, total_lem}
use cachetron.Avl.Offset.{next_run, stop_run, to_right, to_left, up_run}
use cachetron.Avl.Search.{both_lem, Below, search_down}
use cachetron.Avl.Parent.{Rises, Rises-left, Rises-right}

-- What the search answers: the place at the offset, or none where the offset leads out of the tree.
abbrev pub Answer : ℕ → Place → ℕ → Option Place → Type 0
Answer origin n offset (some w) = Target origin n offset w
Answer origin n offset none =
    (offset + origin < 2 ^ 63) ⊎ (2 ^ 63 + length (all_nodes n) ≤ offset + origin)

abbrev Ends : ℕ → ℕ → Place → ℕ → ℕ → Type 0
Ends fuel origin n pos offset =
    (found : Option Place) × (avl_offset fuel n pos offset ≡ ok found)
    × Answer origin n offset found

same-Answer :
    (origin : ℕ) (n m : Place) (offset : ℕ) (found : Option Place)
    → all_nodes m ≡ all_nodes n
    → Answer origin m offset found
    → Answer origin n offset found
same-Answer origin n m offset (some w) same target = (target.0 ∙ same, target.1)
same-Answer origin n m offset none same (inl low) = inl low
same-Answer origin n m offset none same (inr high) = inr (omega (arith, ap length same))

-- The position of the target is not the node's own, and it is not below the node.
record Beside (origin : ℕ) (n : Place) (pos offset : ℕ) : Type 0 where
  pub other : (pos == offset) ≡ false
  pub run :
      offset_step n pos offset ≡ ok (parent_step n.path n.addr n.height n.count n.left n.right pos)
  pub out :
      (offset + origin < 2 ^ 63 + length (before n.path))
      ⊎ (2 ^ 63 + length (before n.path) + n.count ≤ offset + origin)

if_not : (b : Bool) → (b ≡ true → ⊥) → b ≡ false
if_not true h = absurd (h refl)
if_not false h = refl

beside :
    (origin : ℕ) (n : Place) (pos offset : ℕ)
    → At origin n pos
    → (offset + origin < 2 ^ 63 + length (before n.path))
      ⊎ (2 ^ 63 + length (before n.path) + n.count ≤ offset + origin)
    → Beside origin n pos offset
beside origin n pos offset k out =
    let v = k.counts.tree in
    let total = total_lem n k.counts in
    let on_right = both_lem pos offset offset (plus pos (avl_count n.right)) in
    let on_left = both_lem offset pos (minus pos (avl_count n.left)) offset in
    record {
      other = if_not (pos == offset) (λ e.
          by_side (omega (arith, k.here, v.2, eqb→eq _ _ e))
            (omega (arith, k.here, v.2, eqb→eq _ _ e)));
      run =
          up_run n pos offset
            (if_not (to_right n pos offset) (λ e.
              by_side (omega (arith, k.here, v.2, on_right e))
                (omega (arith, k.here, k.near, k.small, total, v.2, on_right e))))
            (if_not (to_left n pos offset) (λ e.
              by_side (omega (arith, k.here, k.near, k.small, total, v.2, on_left e))
                (omega (arith, k.here, v.2, on_left e))));
      out = out;
    }
  where
    by_side :
        ¬ (offset + origin < 2 ^ 63 + length (before n.path))
        → ¬ (2 ^ 63 + length (before n.path) + n.count ≤ offset + origin)
        → ⊥
    by_side p q = elim out [ inl low ↦ p low | inr high ↦ q high ]

Below-Beside :
    (origin : ℕ) (n : Place) (pos offset : ℕ)
    → At origin n pos
    → Below origin n offset ⊎ Beside origin n pos offset
Below-Beside origin n pos offset k =
    let start = 2 ^ 63 + length (before n.path) in
    elim (Bool-cases (ltb (offset + origin) start)) [
      | inl e ↦ inr (beside origin n pos offset k (inl (ltb→lt _ _ e)))
      | inr e ↦ elim (Bool-cases (ltb (offset + origin) (start + n.count))) [
        | inl e' ↦ inl (record { low = ltb-false _ _ e; high = ltb→lt _ _ e' })
        | inr e' ↦ inr (beside origin n pos offset k (inr (ltb-false _ _ e')))
      ]
    ]

ends_below :
    (fuel origin : ℕ) (n : Place) (pos offset : ℕ)
    → At origin n pos
    → Below origin n offset
    → length (all_nodes n) ≤ fuel
    → Ends fuel origin n pos offset
ends_below fuel origin n pos offset k b enough =
    let (w, run, target) =
      search_down fuel origin n pos offset k b (omega (arith, total_lem n k.counts)) in
    (some w, run, target)

ends_root :
    (fuel origin : ℕ) (n : Place) (pos offset : ℕ)
    → n.path ≡ []
    → At origin n pos
    → Beside origin n pos offset
    → Ends (suc fuel) origin n pos offset
unfolding before after parent_step
ends_root fuel origin n pos offset e k b =
    let none_left = ap (λ q. length (after q)) e in
    (
      none,
      stop_run fuel n pos offset b.other
          (b.run ∙ ap (λ q. ok (parent_step q n.addr n.height n.count n.left n.right pos)) e),
      elim b.out [
        | inl low ↦ inl (omega (arith, ap (λ q. length (before q)) e))
        | inr high ↦ inr (omega (arith, total_lem n k.counts))
      ],
    )

ends_parent :
    (fuel origin : ℕ) (n : Place) (pos offset : ℕ) (path : List Frame)
    → Beside origin n pos offset
    → Rises origin n pos path
    → length path + length (all_nodes n) ≤ fuel
    → ((m : Place) (p : ℕ)
        → m.path ≡ path
        → At origin m p
        → length path + length (all_nodes m) ≤ fuel
        → Ends fuel origin m p offset)
    → Ends (suc fuel) origin n pos offset
unfolding Rises
ends_parent fuel origin n pos offset path b (m, p, up, at_path, moved) enough next =
    let (found, run, answer) = next m p at_path moved.at (omega (arith, ap length moved.same)) in
    (
      found,
      next_run fuel n m pos p offset b.other (b.run ∙ ap ok up) ∙ run,
      same-Answer origin n m offset found moved.same answer,
    )

-- Up from a node, the search ends.
search_up :
    (path : List Frame) (fuel origin : ℕ) (n : Place) (pos offset : ℕ)
    → n.path ≡ path
    → At origin n pos
    → length path + length (all_nodes n) ≤ fuel
    → Ends fuel origin n pos offset
search_up path zero origin n pos offset e k enough =
    absurd (omega (arith, total_lem n k.counts, k.counts.tree.2))
search_up [] (suc fuel) origin n pos offset e k enough = elim (Below-Beside origin n pos offset k) [
  | inl b ↦ ends_below (suc fuel) origin n pos offset k b (omega arith)
  | inr b ↦ ends_root fuel origin n pos offset e k b
]
search_up (is_left a h c r ∷ path) (suc fuel) origin n pos offset e k enough =
    elim (Below-Beside origin n pos offset k) [
      | inl b ↦ ends_below (suc fuel) origin n pos offset k b (omega arith)
      | inr b ↦
          ends_parent fuel origin n pos offset path b (Rises-left origin n pos a h c r path e k)
            (omega arith) (λ m p e' k'. search_up path fuel origin m p offset e' k')
    ]
search_up (is_right a h c l ∷ path) (suc fuel) origin n pos offset e k enough =
    elim (Below-Beside origin n pos offset k) [
      | inl b ↦ ends_below (suc fuel) origin n pos offset k b (omega arith)
      | inr b ↦
          ends_parent fuel origin n pos offset path b (Rises-right origin n pos a h c l path e k)
            (omega arith) (λ m p e' k'. search_up path fuel origin m p offset e' k')
    ]

-- `avl_offset` from a place in a tree of fewer than 2^32 nodes whose counts are right ends within as
-- many rounds as the path is long and the tree has nodes, and reads no null pointer. Where the rank of
-- the place and the offset add up to the rank of a node of the tree, it finds the node of that rank;
-- otherwise it finds none. The position 0 stands as 2^63, and the offset with it.
pub avl_offset_lem :
    (fuel : ℕ) (n : Place) (offset : ℕ)
    → Counts n
    → length (all_nodes n) < 2 ^ 32
    → length n.path + length (all_nodes n) ≤ fuel
    → (found : Option Place) × (avl_offset fuel n (2 ^ 63) offset ≡ ok found)
      × Answer (rank n) n offset found
avl_offset_lem fuel n offset k small enough =
    search_up n.path fuel (rank n) n (2 ^ 63) offset refl
      (record {
        counts = k;
        here = refl;
        near = omega (arith, total_lem n k, k.tree.2);
        small = small;
      })
      enough
