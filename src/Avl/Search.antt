-- ===== src/Avl/Search.antt =====
-- The search of `avl_offset`: down in a subtree that has the position.
use cachetron.Prelude.{ℕ, zero, suc, ◌+◌, ◌^◌, ◌≤◌, ◌<◌, ◌≡◌, refl, ap, ◌∙◌, length, arith}
use cachetron.Prelude.{
  true, false, ◌==◌, ltb, leb, ◌&&◌, eqb→eq, eqb-false, ltb→lt, ltb-false, Bool-cases, inl, inr,
}
use cachetron.Prelude.{some}
use cachetron.Prelude.Result.{ok}
use cachetron.Avl.{
  AvlNode, Place, leaf, node, avl_count, plus, minus, jump, offset_step, avl_offset,
}
use cachetron.Avl.Order.{before}
use cachetron.Avl.Delete.{all_nodes}
use cachetron.Avl.Offset.{At, Target, total_lem, before_left, before_right}
use cachetron.Avl.Offset.{
  here_run, next_run, to_right, to_left, right_place, left_place, right_run, left_run,
}
use cachetron.Avl.Offset.{right_child, left_child}

both : (a b c d : ℕ) → a < b → c ≤ d → (ltb a b && leb c d) ≡ true
both a b c d p q = ground arith

not_less : (a b c d : ℕ) → b ≤ a → (ltb a b && leb c d) ≡ false
not_less a b c d p = ground arith

pub both_lem : (a b c d : ℕ) → (ltb a b && leb c d) ≡ true → (a < b) × (c ≤ d)
both_lem a b c d e = (ground arith, ground arith)

-- The target is at a node of the subtree that the place leads to.
pub record Below (origin : ℕ) (n : Place) (offset : ℕ) : Type 0 where
  pub low : 2 ^ 63 + length (before n.path) ≤ offset + origin
  pub high : offset + origin < 2 ^ 63 + length (before n.path) + n.count

-- The search ends at the target.
abbrev pub Finds : ℕ → ℕ → Place → ℕ → ℕ → Type 0
Finds fuel origin n pos offset =
    (w : Place) × (avl_offset fuel n pos offset ≡ ok (some w)) × Target origin n offset w

-- A round that moves to another place of the tree.
finds_next :
    (fuel origin : ℕ) (n m : Place) (pos p offset : ℕ)
    → (pos == offset) ≡ false
    → offset_step n pos offset ≡ ok (some (m, p))
    → all_nodes m ≡ all_nodes n
    → Finds fuel origin m p offset
    → Finds (suc fuel) origin n pos offset
finds_next fuel origin n m pos p offset e run same found =
    let (w, run', target) = found in
    (w, next_run fuel n m pos p offset e run ∙ run', (target.0 ∙ same, target.1))

finds_right :
    (fuel origin : ℕ) (n : Place) (pos offset : ℕ) (t : AvlNode)
    → n.right ≡ t
    → At origin n pos
    → Below origin n offset
    → pos < offset
    → ((m : Place) (p : ℕ)
        → At origin m p
        → Below origin m offset
        → m.count < n.count
        → Finds fuel origin m p offset)
    → Finds (suc fuel) origin n pos offset
finds_right fuel origin n pos offset leaf e k b less next =
    absurd (omega (arith, k.here, k.counts.tree.2, ap avl_count e, b.high))
finds_right fuel origin n pos offset (node x h c l r) e k b less next =
    let m = right_place n x h c l r in
    let v = k.counts.tree in
    let moved = right_child origin n pos x h c l r e k in
    let first = before_right n.addr n.height n.count n.left n.path v.0 in
    let total = total_lem n k.counts in
    let test : to_right n pos offset ≡ true =
      both pos offset offset (plus pos (avl_count n.right)) less
        (omega (arith, k.here, k.near, k.small, total, v.2, b.high)) in
    finds_next fuel origin n m pos (plus pos (jump l)) offset (ground arith)
      (right_run n pos offset x h c l r e test) moved.same
      (next m (plus pos (jump l)) moved.at
        (record {
          low = omega (arith, k.here, first);
          high = omega (arith, b.high, first, v.2, ap avl_count e);
        })
        (omega (arith, v.2, ap avl_count e)))

finds_left :
    (fuel origin : ℕ) (n : Place) (pos offset : ℕ) (t : AvlNode)
    → n.left ≡ t
    → At origin n pos
    → Below origin n offset
    → offset < pos
    → ((m : Place) (p : ℕ)
        → At origin m p
        → Below origin m offset
        → m.count < n.count
        → Finds fuel origin m p offset)
    → Finds (suc fuel) origin n pos offset
finds_left fuel origin n pos offset leaf e k b less next =
    absurd (omega (arith, k.here, k.counts.tree.2, ap avl_count e, b.low))
finds_left fuel origin n pos offset (node x h c l r) e k b less next =
    let m = left_place n x h c l r in
    let v = k.counts.tree in
    let moved = left_child origin n pos x h c l r e k in
    let first = before_left n.addr n.height n.count n.right n.path in
    let total = total_lem n k.counts in
    let test : to_left n pos offset ≡ true =
      both offset pos (minus pos (avl_count n.left)) offset less
        (omega (arith, k.here, k.near, k.small, total, v.2, b.low)) in
    finds_next fuel origin n m pos (minus pos (jump r)) offset (ground arith)
      (left_run n pos offset x h c l r e
        (not_less pos offset offset (plus pos (avl_count n.right)) (omega arith)) test)
      moved.same
      (next m (minus pos (jump r)) moved.at
        (record {
          low = omega (arith, b.low, first);
          high = omega (arith, k.here, first, ap avl_count e);
        })
        (omega (arith, v.2, ap avl_count e)))

-- Where the target is below a node, the search ends at it.
pub search_down :
    (fuel origin : ℕ) (n : Place) (pos offset : ℕ)
    → At origin n pos
    → Below origin n offset
    → n.count ≤ fuel
    → Finds fuel origin n pos offset
search_down zero origin n pos offset k b enough = absurd (omega (arith, k.counts.tree.2))
search_down (suc fuel) origin n pos offset k b enough =
    let next : (m : Place) (p : ℕ)
        → At origin m p
        → Below origin m offset
        → m.count < n.count
        → Finds fuel origin m p offset =
      λ m p k' b' less. search_down fuel origin m p offset k' b' (omega arith) in
    elim (Bool-cases (pos == offset)) [
      | inl e ↦ (n, here_run fuel n pos offset e, (refl, omega (arith, k.here, eqb→eq _ _ e)))
      | inr e ↦ elim (Bool-cases (ltb pos offset)) [
        | inl less ↦ finds_right fuel origin n pos offset n.right refl k b (ltb→lt _ _ less) next
        | inr more ↦
            finds_left fuel origin n pos offset n.left refl k b
              (omega (arith, eqb-false _ _ e, ltb-false _ _ more)) next
      ]
    ]
