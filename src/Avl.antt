-- ===== src/Avl.antt =====
-- data_structures/trees/avl.{h,c}. A node is known by its address. The pointers between nodes form a
-- tree: a subtree holds its nodes, and the `parent` pointers of a node are the path from it to the
-- root. What the source does to a node in place is done to the tree that holds it.
pub mod Order
pub mod Balance
pub mod Heavy
pub mod Fix
pub mod Replace
pub mod Delete
pub mod Offset
pub mod Search
pub mod Parent
pub mod Climb
use cachetron.Prelude.{
  ℕ, zero, suc, ◌+◌, ◌%◌, ◌^◌, Bool, true, false, Option, none, some, List, [], ◌∷◌,
}
use cachetron.Prelude.{ltb, leb, ◌==◌, if◌then◌else◌, ◌&&◌, ◌-◌}
use cachetron.Prelude.Result.{Result, ok, fault, null_deref, diverged, ◌>>=◌}
use cachetron.Branchless.{max_size}

-- The address, the height, the count, and the two subtrees; `leaf` is the null pointer.
pub data AvlNode : Type 0 where
  leaf : AvlNode
  node : ℕ → ℕ → ℕ → AvlNode → AvlNode → AvlNode

-- A step from a node to its parent: the fields of the parent and its other subtree.
pub data Frame : Type 0 where
  is_left : ℕ → ℕ → ℕ → AvlNode → Frame
  is_right : ℕ → ℕ → ℕ → AvlNode → Frame

abbrev pub avl_init : ℕ → AvlNode
avl_init a = node a 1 1 leaf leaf

abbrev pub avl_height : AvlNode → ℕ
avl_height leaf = 0
avl_height (node a h c l r) = h

abbrev pub avl_count : AvlNode → ℕ
avl_count leaf = 0
avl_count (node a h c l r) = c

-- `avl_update` on a node with the address `a` and the subtrees `l` and `r`.
pub avl_update : ℕ → AvlNode → AvlNode → AvlNode
avl_update a l r =
    node a ((1 + max_size (avl_height l) (avl_height r)) % 2 ^ 32)
      ((1 + avl_count l + avl_count r) % 2 ^ 32) l r

pub rot_left : AvlNode → Result AvlNode
unfolding avl_update
rot_left leaf = fault null_deref
rot_left (node a h c l leaf) = fault null_deref
rot_left (node a h c l (node b h' c' m r)) = ok (avl_update b (avl_update a l m) r)

pub rot_right : AvlNode → Result AvlNode
unfolding avl_update
rot_right leaf = fault null_deref
rot_right (node a h c leaf r) = fault null_deref
rot_right (node a h c (node b h' c' l m) r) = ok (avl_update b l (avl_update a m r))

pub avl_fix_left : AvlNode → Result AvlNode
unfolding rot_left rot_right
avl_fix_left leaf = fault null_deref
avl_fix_left (node a h c leaf r) = fault null_deref
avl_fix_left (node a h c (node b h' c' ll lr) r) = do
  l ←
      (if ltb (avl_height ll) (avl_height lr)
        then rot_left (node b h' c' ll lr)
        else ok (node b h' c' ll lr))
  rot_right (node a h c l r)

pub avl_fix_right : AvlNode → Result AvlNode
unfolding rot_left rot_right
avl_fix_right leaf = fault null_deref
avl_fix_right (node a h c l leaf) = fault null_deref
avl_fix_right (node a h c l (node b h' c' rl rr)) = do
  r ←
      (if ltb (avl_height rr) (avl_height rl)
        then rot_right (node b h' c' rl rr)
        else ok (node b h' c' rl rr))
  rot_left (node a h c l r)

-- A round of `avl_fix` at one node, whose heights are `uint32_t`.
pub fix_node : ℕ → AvlNode → AvlNode → Result AvlNode
unfolding avl_update avl_fix_left avl_fix_right
fix_node a l r =
    if avl_height l == (avl_height r + 2) % 2 ^ 32
    then avl_fix_left (avl_update a l r)
    else if (avl_height l + 2) % 2 ^ 32 == avl_height r
    then avl_fix_right (avl_update a l r)
    else ok (avl_update a l r)

-- The parent with `t` in the place that the path comes from, and the loop of `avl_fix` from there.
pub fix_from : List Frame → AvlNode → Result AvlNode
unfolding fix_node
fix_from [] t = ok t
fix_from (is_left a h c r ∷ path) t = fix_node a t r >>= fix_from path
fix_from (is_right a h c l ∷ path) t = fix_node a l t >>= fix_from path

-- `avl_fix` of the node at the end of the path.
unfoldable pub avl_fix : List Frame → AvlNode → Result AvlNode
unfolding fix_node fix_from
avl_fix path leaf = fault null_deref
avl_fix path (node a h c l r) = fix_node a l r >>= fix_from path

-- A node on its own, with the path to it.
pub record Place : Type 0 where
  pub path : List Frame
  pub addr : ℕ
  pub height : ℕ
  pub count : ℕ
  pub left : AvlNode
  pub right : AvlNode

-- `while (victim->left) victim = victim->left;`
pub leftmost : List Frame → ℕ → ℕ → ℕ → AvlNode → AvlNode → Place
leftmost path a h c leaf r = record {
  path = path;
  addr = a;
  height = h;
  count = c;
  left = leaf;
  right = r;
}
leftmost path a h c (node b h' c' ll lr) r = leftmost (is_left a h c r ∷ path) b h' c' ll lr

-- The node at `v` takes the place and the fields of the node at `a`.
pub replace : ℕ → ℕ → AvlNode → AvlNode
replace a v leaf = leaf
replace a v (node b h c l r) = node (if b == a then v else b) h c (replace a v l) (replace a v r)

-- `avl_del`, with the calls that it may still make.
unfoldable pub avl_del : ℕ → Place → Result AvlNode
unfolding fix_from leftmost replace
avl_del zero n = fault diverged
avl_del (suc fuel) n = elim n.right [
  | leaf ↦ fix_from n.path n.left
  | node b h c rl rr ↦ do
    let victim = leftmost (is_right n.addr n.height n.count n.left ∷ n.path) b h c rl rr
    root ← avl_del fuel victim
    ok (replace n.addr victim.addr root)
]

-- The node at the end of a path, whose fields are read.
pub enter : List Frame → AvlNode → Result Place
enter path leaf = fault null_deref
enter path (node a h c l r) =
    ok (record { path = path; addr = a; height = h; count = c; left = l; right = r })

-- Positions are `int64_t`; the number here is 2^63 more than the position.
abbrev pub plus : ℕ → ℕ → ℕ
plus pos k = (pos + k) % 2 ^ 64

abbrev pub minus : ℕ → ℕ → ℕ
minus pos k = (pos + 2 ^ 64 - k) % 2 ^ 64

abbrev pub jump : AvlNode → ℕ
jump t = (avl_count t + 1) % 2 ^ 32

-- Where the node is to the right of its parent, the parent is at a lower position.
pub parent_step : List Frame → ℕ → ℕ → ℕ → AvlNode → AvlNode → ℕ → Option (Place × ℕ)
parent_step [] b k d l r pos = none
parent_step (is_left a h c other ∷ path) b k d l r pos = some (
  record { path = path; addr = a; height = h; count = c; left = node b k d l r; right = other },
  plus pos (jump r),
)
parent_step (is_right a h c other ∷ path) b k d l r pos = some (
  record { path = path; addr = a; height = h; count = c; left = other; right = node b k d l r },
  minus pos (jump l),
)

-- A round of `avl_offset`: the next node and its position, or the end of the search.
pub offset_step : Place → ℕ → ℕ → Result (Option (Place × ℕ))
unfolding enter parent_step
offset_step n pos offset =
    if ltb pos offset && leb offset (plus pos (avl_count n.right))
    then enter (is_right n.addr n.height n.count n.left ∷ n.path) n.right
      >>= (λ m. ok (some (m, plus pos (jump m.left))))
    else if ltb offset pos && leb (minus pos (avl_count n.left)) offset
    then enter (is_left n.addr n.height n.count n.right ∷ n.path) n.left
      >>= (λ m. ok (some (m, minus pos (jump m.right))))
    else ok (parent_step n.path n.addr n.height n.count n.left n.right pos)

-- `avl_offset`, with the rounds that it may still make.
unfoldable pub avl_offset : ℕ → Place → ℕ → ℕ → Result (Option Place)
unfolding offset_step
avl_offset zero n pos offset = fault diverged
avl_offset (suc fuel) n pos offset = if pos == offset then ok (some n) else do
  next ← offset_step n pos offset
  elim next [ none ↦ ok none | some moved ↦ avl_offset fuel moved.0 moved.1 offset ]
