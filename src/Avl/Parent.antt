-- ===== src/Avl/Parent.antt =====
-- The step of `avl_offset` from a node to its parent.
use mathlib.Core.Path.{subst}
use cachetron.Prelude.{ℕ, ◌≡◌, refl, sym, ap, ◌∙◌, List, ◌∷◌, length, arith}
use cachetron.Prelude.{some}
use cachetron.Avl.{AvlNode, Frame, Place, node, is_left, is_right, plus, minus, jump, parent_step}
use cachetron.Avl.Order.{inorder, before, around, around-left, around-right}
use cachetron.Avl.Offset.{At, Moves, Sized, total_lem, before_left, before_right, Moves-to}

-- The parent is a place of the same tree.
unfoldable pub Rises : (origin : ℕ) (n : Place) (pos : ℕ) (path : List Frame) → Type 0
Rises origin n pos path =
    (m : Place) × (p : ℕ) × (parent_step n.path n.addr n.height n.count n.left n.right pos
      ≡ some (m, p))
    × (m.path ≡ path)
    × Moves origin n m p

pub Rises-left :
    (origin : ℕ) (n : Place) (pos a h c : ℕ) (r : AvlNode) (path : List Frame)
    → n.path ≡ is_left a h c r ∷ path
    → At origin n pos
    → Rises origin n pos path
unfolding parent_step inorder Rises
Rises-left origin n pos a h c r path e k =
    let t = node n.addr n.height n.count n.left n.right in
    let m : Place = record { path = path; addr = a; height = h; count = c; left = t; right = r } in
    let v = k.counts.tree in
    let s = subst (λ q. Sized q n.count) e k.counts.path in
    let first = before_left a h c r path in
    (
      m,
      plus pos (jump n.right),
      rw e refl,
      refl,
      Moves-to origin n m pos (plus pos (jump n.right)) k
          (record { tree = (v, s.0, s.1); path = s.2 })
          (sym (around-left a h c r path (inorder t)) ∙ ap (λ q. around q (inorder t)) (sym e))
          (λ low. omega (arith, k.here, k.near, first, ap (λ q. length (before q)) e, v.2)),
    )

pub Rises-right :
    (origin : ℕ) (n : Place) (pos a h c : ℕ) (l : AvlNode) (path : List Frame)
    → n.path ≡ is_right a h c l ∷ path
    → At origin n pos
    → Rises origin n pos path
unfolding parent_step inorder Rises
Rises-right origin n pos a h c l path e k =
    let t = node n.addr n.height n.count n.left n.right in
    let m : Place = record { path = path; addr = a; height = h; count = c; left = l; right = t } in
    let v = k.counts.tree in
    let s = subst (λ q. Sized q n.count) e k.counts.path in
    let first = before_right a h c l path s.0 in
    let total = total_lem n k.counts in
    (
      m,
      minus pos (jump n.left),
      rw e refl,
      refl,
      Moves-to origin n m pos (minus pos (jump n.left)) k
          (record { tree = (s.0, v, s.1); path = s.2 })
          (sym (around-right a h c l path (inorder t)) ∙ ap (λ q. around q (inorder t)) (sym e))
          (λ low.
            omega
              (arith, k.here, k.near, k.small, total, first, ap (λ q. length (before q)) e, v.2)),
    )
