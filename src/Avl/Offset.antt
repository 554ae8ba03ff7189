-- ===== src/Avl/Offset.antt =====
-- `avl_offset` finds the node at a distance from another in the order of the tree.
use mathlib.Core.Path.{subst}
use cachetron.Prelude.{
  ℕ, suc, ◌+◌, ◌^◌, ◌<◌, ◌≡◌, refl, sym, ap, ◌∙◌, List, [], ◌∷◌, ◌++◌, length, length-append, arith,
}
use cachetron.Prelude.{Bool, true, false, ◌==◌, ltb, leb, ◌&&◌}
use cachetron.Prelude.{none, some}
use cachetron.Prelude.Result.{ok}
use cachetron.Avl.{
  AvlNode, Frame, Place, leaf, node, is_left, is_right, avl_count, plus, minus, jump, enter,
  parent_step, offset_step, avl_offset,
}
use cachetron.Avl.Order.{inorder, before, after, around, around-left, around-right}
use cachetron.Avl.Delete.{all_nodes}

-- The count of each node is the number of nodes of its subtree.
abbrev pub Counted : AvlNode → Type 0
Counted leaf = Unit
Counted (node a h c l r) = Counted l × Counted r × (c ≡ 1 + avl_count l + avl_count r)

-- The same of the nodes on the path and beside it, where the subtree at its end has `k` nodes.
abbrev pub Sized : List Frame → ℕ → Type 0
Sized [] k = Unit
Sized (is_left a h c r ∷ path) k = Counted r × (c ≡ 1 + k + avl_count r) × Sized path c
Sized (is_right a h c l ∷ path) k = Counted l × (c ≡ 1 + avl_count l + k) × Sized path c

pub length-inorder : (t : AvlNode) → Counted t → length (inorder t) ≡ avl_count t
unfolding inorder
length-inorder leaf v = refl
length-inorder (node a h c l r) v = omega (
  arith,
  length-append (inorder l) (a ∷ inorder r),
  length-inorder l v.0,
  length-inorder r v.1,
  v.2,
)

-- The number of nodes before a place.
abbrev pub rank : Place → ℕ
rank n = length (before n.path) + avl_count n.left

pub record Counts (n : Place) : Type 0 where
  pub tree : Counted (node n.addr n.height n.count n.left n.right)
  pub path : Sized n.path n.count

-- The numbers of nodes before a place, and of all nodes.
pub before_left :
    (a h c : ℕ) (r : AvlNode) (path : List Frame)
    → length (before (is_left a h c r ∷ path)) ≡ length (before path)
unfolding before
before_left a h c r path = refl

pub before_right :
    (a h c : ℕ) (l : AvlNode) (path : List Frame)
    → Counted l
    → length (before (is_right a h c l ∷ path)) ≡ length (before path) + avl_count l + 1
unfolding before
before_right a h c l path v = omega (
  arith,
  length-append (before path) (inorder l ++ a ∷ []),
  length-append (inorder l) (a ∷ []),
  length-inorder l v,
)

pub total_lem :
    (n : Place)
    → Counts n
    → length (all_nodes n) ≡ length (before n.path) + n.count + length (after n.path)
total_lem n k = omega (
  arith,
  length-append (before n.path) ((inorder n.left ++ n.addr ∷ inorder n.right) ++ after n.path),
  length-append (inorder n.left ++ n.addr ∷ inorder n.right) (after n.path),
  length-append (inorder n.left) (n.addr ∷ inorder n.right),
  length-inorder n.left k.tree.0,
  length-inorder n.right k.tree.1,
  k.tree.2,
)

-- The rounds, once the position is compared.
pub here_run :
    (fuel : ℕ) (n : Place) (pos offset : ℕ)
    → (pos == offset) ≡ true
    → avl_offset (suc fuel) n pos offset ≡ ok (some n)
unfolding avl_offset
here_run fuel n pos offset e = rw e

pub next_run :
    (fuel : ℕ) (n m : Place) (pos p offset : ℕ)
    → (pos == offset) ≡ false
    → offset_step n pos offset ≡ ok (some (m, p))
    → avl_offset (suc fuel) n pos offset ≡ avl_offset fuel m p offset
unfolding avl_offset
next_run fuel n m pos p offset e run = rw (e, run)

pub stop_run :
    (fuel : ℕ) (n : Place) (pos offset : ℕ)
    → (pos == offset) ≡ false
    → offset_step n pos offset ≡ ok none
    → avl_offset (suc fuel) n pos offset ≡ ok none
unfolding avl_offset
stop_run fuel n pos offset e run = rw (e, run)

abbrev pub to_right : Place → ℕ → ℕ → Bool
to_right n pos offset = ltb pos offset && leb offset (plus pos (avl_count n.right))

abbrev pub to_left : Place → ℕ → ℕ → Bool
to_left n pos offset = ltb offset pos && leb (minus pos (avl_count n.left)) offset

-- The places of the children of a node.
abbrev pub right_place : Place → ℕ → ℕ → ℕ → AvlNode → AvlNode → Place
right_place n b h c l r = record {
  path = is_right n.addr n.height n.count n.left ∷ n.path;
  addr = b;
  height = h;
  count = c;
  left = l;
  right = r;
}

abbrev pub left_place : Place → ℕ → ℕ → ℕ → AvlNode → AvlNode → Place
left_place n b h c l r = record {
  path = is_left n.addr n.height n.count n.right ∷ n.path;
  addr = b;
  height = h;
  count = c;
  left = l;
  right = r;
}

pub right_run :
    (n : Place) (pos offset b h c : ℕ) (l r : AvlNode)
    → n.right ≡ node b h c l r
    → to_right n pos offset ≡ true
    → offset_step n pos offset ≡ ok (some (right_place n b h c l r, plus pos (jump l)))
unfolding offset_step enter
right_run n pos offset b h c l r e test = rw (test, e)

pub left_run :
    (n : Place) (pos offset b h c : ℕ) (l r : AvlNode)
    → n.left ≡ node b h c l r
    → to_right n pos offset ≡ false
    → to_left n pos offset ≡ true
    → offset_step n pos offset ≡ ok (some (left_place n b h c l r, minus pos (jump r)))
unfolding offset_step enter
left_run n pos offset b h c l r e other test = rw (other, test, e)

pub up_run :
    (n : Place) (pos offset : ℕ)
    → to_right n pos offset ≡ false
    → to_left n pos offset ≡ false
    → offset_step n pos offset ≡ ok (parent_step n.path n.addr n.height n.count n.left n.right pos)
unfolding offset_step
up_run n pos offset e e' = rw (e, e')

-- A place `n` at the position `pos`, counted from a node with the rank `origin`.
pub record At (origin : ℕ) (n : Place) (pos : ℕ) : Type 0 where
  pub counts : Counts n
  pub here : pos + origin ≡ 2 ^ 63 + rank n
  pub near : origin < 2 ^ 32
  pub small : length (all_nodes n) < 2 ^ 32

-- The place that the search looks for.
abbrev pub Target : ℕ → Place → ℕ → Place → Type 0
Target origin n offset w = (all_nodes w ≡ all_nodes n) × (offset + origin ≡ 2 ^ 63 + rank w)

-- Another place of the same tree.
pub record Moves (origin : ℕ) (n m : Place) (pos : ℕ) : Type 0 where
  pub at : At origin m pos
  pub same : all_nodes m ≡ all_nodes n

pub Moves-to :
    (origin : ℕ) (n m : Place) (pos p : ℕ)
    → At origin n pos
    → Counts m
    → all_nodes m ≡ all_nodes n
    → (rank m < 2 ^ 32 → p + origin ≡ 2 ^ 63 + rank m)
    → Moves origin n m p
Moves-to origin n m pos p k counts same here =
    let total = total_lem m counts in
    record {
      at = record {
        counts = counts;
        here = here (omega (arith, k.small, total, ap length same, counts.tree.2));
        near = k.near;
        small = omega (arith, k.small, ap length same);
      };
      same = same;
    }

pub right_child :
    (origin : ℕ) (n : Place) (pos b h c : ℕ) (l r : AvlNode)
    → n.right ≡ node b h c l r
    → At origin n pos
    → Moves origin n (right_place n b h c l r) (plus pos (jump l))
unfolding inorder
right_child origin n pos b h c l r e k =
    let v = k.counts.tree in
    let w = subst Counted e v.1 in
    let first = before_right n.addr n.height n.count n.left n.path v.0 in
    Moves-to origin n (right_place n b h c l r) pos (plus pos (jump l)) k
      (record { tree = w; path = (v.0, omega (arith, v.2, ap avl_count e), k.counts.path) })
      (around-right n.addr n.height n.count n.left n.path (inorder l ++ b ∷ inorder r)
        ∙ ap (λ t. around n.path (inorder n.left ++ n.addr ∷ inorder t)) (sym e))
      (λ low. omega (arith, k.here, k.near, first))

pub left_child :
    (origin : ℕ) (n : Place) (pos b h c : ℕ) (l r : AvlNode)
    → n.left ≡ node b h c l r
    → At origin n pos
    → Moves origin n (left_place n b h c l r) (minus pos (jump r))
unfolding inorder
left_child origin n pos b h c l r e k =
    let v = k.counts.tree in
    let w = subst Counted e v.0 in
    let first = before_left n.addr n.height n.count n.right n.path in
    let total = total_lem n k.counts in
    Moves-to origin n (left_place n b h c l r) pos (minus pos (jump r)) k
      (record { tree = w; path = (v.1, omega (arith, v.2, ap avl_count e), k.counts.path) })
      (around-left n.addr n.height n.count n.right n.path (inorder l ++ b ∷ inorder r)
        ∙ ap (λ t. around n.path (inorder t ++ n.addr ∷ inorder n.right)) (sym e))
      (λ low. omega (arith, k.here, k.near, k.small, total, v.2, first, ap avl_count e, w.2))
