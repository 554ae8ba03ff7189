-- ===== src/Avl/Fix.antt =====
-- `avl_fix` from a node whose subtrees are balanced, up to the root.
use cachetron.Prelude.{ℕ, ◌+◌, ◌%◌, ◌^◌, ◌<◌, ◌≤◌, ◌≡◌, refl, sym, ap, ◌∙◌, List, [], ◌∷◌, ◌++◌}
use cachetron.Prelude.{
  true, false, ◌==◌, eqb→eq, eqb-false, Bool-cases, inl, inr, leb, leb→le, max, arith, append-nil,
}
use cachetron.Prelude.Result.{ok}
use cachetron.Avl.{AvlNode, Frame, leaf, node, is_left, is_right, avl_height, avl_count, avl_update}
use cachetron.Avl.{avl_init, fix_node, fix_from, avl_fix}
use cachetron.Avl.Order.{inorder, before, after, around, around-left, around-right}
use cachetron.Avl.Balance.{IsAvl, height_bound, avl_update-Made, Fixed}
use cachetron.Avl.Heavy.{left_heavy, right_heavy}

-- A round ends, and leaves a balanced tree of the same nodes.
pub fix_node-Fixed :
    (a : ℕ) (l r : AvlNode)
    → IsAvl l
    → IsAvl r
    → 1 + avl_count l + avl_count r < 2 ^ 32
    → avl_height l ≤ avl_height r + 2
    → avl_height r ≤ avl_height l + 2
    → (t : AvlNode) × (fix_node a l r ≡ ok t) × Fixed a l r t
unfolding fix_node
fix_node-Fixed a l r u v small p q =
    let hl = height_bound l u in
    let hr = height_bound r v in
    elim (Bool-cases (avl_height l == (avl_height r + 2) % 2 ^ 32)) [
      | inl e ↦ left l u small e (omega (arith, eqb→eq _ _ e))
      | inr e ↦ elim (Bool-cases ((avl_height l + 2) % 2 ^ 32 == avl_height r)) [
        | inl e' ↦ right r v small e e' (omega (arith, eqb→eq _ _ e'))
        | inr e' ↦
            let k = avl_update-Made a l r u v small in
            let low : avl_height l ≤ avl_height r + 1 = omega (arith, eqb-false _ _ e) in
            let high : avl_height r ≤ avl_height l + 1 = omega (arith, eqb-false _ _ e') in
            (
              avl_update a l r,
              rw (e, e'),
              record {
                nodes = k.nodes;
                avl = k.avl low high;
                count = k.count;
                low = omega (arith, k.height);
                high = omega (arith, k.height);
                even = λ _ _. k.height;
              },
            )
      ]
    ]
  where
    left :
        (l : AvlNode)
        → IsAvl l
        → 1 + avl_count l + avl_count r < 2 ^ 32
        → (avl_height l == (avl_height r + 2) % 2 ^ 32) ≡ true
        → avl_height l ≡ avl_height r + 2
        → (t : AvlNode) × (fix_node a l r ≡ ok t) × Fixed a l r t
    left leaf u small e deep = absurd (omega arith)
    left (node b h c ll lr) u small e deep =
        let (t, run, f) = left_heavy a b h c ll lr r u v small deep in (t, rw e run, f)

    right :
        (r : AvlNode)
        → IsAvl r
        → 1 + avl_count l + avl_count r < 2 ^ 32
        → (avl_height l == (avl_height r + 2) % 2 ^ 32) ≡ false
        → ((avl_height l + 2) % 2 ^ 32 == avl_height r) ≡ true
        → avl_height r ≡ avl_height l + 2
        → (t : AvlNode) × (fix_node a l r ≡ ok t) × Fixed a l r t
    right leaf v small e e' deep = absurd (omega arith)
    right (node b h c rl rr) v small e e' deep =
        let (t, run, f) = right_heavy a b h c l rl rr u v small deep in (t, rw (e, e') run, f)

-- The number of nodes that the path has beside the subtree at its end.
unfoldable pub path_count : List Frame → ℕ
path_count [] = 0
path_count (is_left a h c r ∷ path) = 1 + avl_count r + path_count path
path_count (is_right a h c l ∷ path) = 1 + avl_count l + path_count path

-- The trees beside the path are balanced, and so is the whole tree with a subtree of height `deep` at
-- the end of the path.
pub data Holds : List Frame → ℕ → Type 0 where
  root : (deep : ℕ) → Holds [] deep
  left :
      (a h c : ℕ) (r : AvlNode) (path : List Frame) (deep : ℕ)
      → IsAvl r
      → deep ≤ avl_height r + 1
      → avl_height r ≤ deep + 1
      → Holds path (1 + max deep (avl_height r))
      → Holds (is_left a h c r ∷ path) deep
  right :
      (a h c : ℕ) (l : AvlNode) (path : List Frame) (deep : ℕ)
      → IsAvl l
      → deep ≤ avl_height l + 1
      → avl_height l ≤ deep + 1
      → Holds path (1 + max deep (avl_height l))
      → Holds (is_right a h c l ∷ path) deep

-- A balanced tree of the given nodes, and of their number.
pub record Tree (all : List ℕ) (total : ℕ) (t : AvlNode) : Type 0 where
  pub nodes : inorder t ≡ all
  pub avl : IsAvl t
  pub count : avl_count t ≡ total

-- A subtree whose height `x` is near to `deep`, beside one of the height `s`: the height `t` of the
-- node above is near to what it was.
near :
    (x s deep t : ℕ)
    → deep ≤ s + 1
    → s ≤ deep + 1
    → x ≤ deep + 1
    → deep ≤ x + 1
    → max x s ≤ t
    → t ≤ 1 + max x s
    → (x ≤ s + 1 → s ≤ x + 1 → t ≡ 1 + max x s)
    → (t ≤ 1 + max deep s + 1) × (1 + max deep s ≤ t + 1)
near x s deep t a b c d low high even = elim (Bool-cases (leb x (s + 1))) [
  | inr e ↦ (omega (arith, gt e), omega (arith, gt e))
  | inl e ↦ elim (Bool-cases (leb s (x + 1))) [
    | inr e' ↦ (omega (arith, gt e'), omega (arith, gt e'))
    | inl e' ↦ let same = even (leb→le _ _ e) (leb→le _ _ e') in (omega arith, omega arith)
  ]
]
  where
    gt : {m n : ℕ} → leb m n ≡ false → n < m
    gt e = ground arith

-- Where a subtree has become one level deeper or less deep, the loop ends with a balanced tree.
pub fix_from-Tree :
    (path : List Frame) (deep : ℕ) (t : AvlNode)
    → Holds path deep
    → IsAvl t
    → avl_height t ≤ deep + 1
    → deep ≤ avl_height t + 1
    → avl_count t + path_count path < 2 ^ 32
    → (u : AvlNode) × (fix_from path t ≡ ok u)
      × Tree (around path (inorder t)) (avl_count t + path_count path) u
unfolding fix_from path_count before after
fix_from-Tree _ deep t (root _) v p q small =
    (t, refl, record { nodes = sym (append-nil (inorder t)); avl = v; count = omega arith })
fix_from-Tree _ deep t (left a h c r path _ w x y holds) v p q small =
    let (s, run, f) = fix_node-Fixed a t r v w (omega arith) (omega arith) (omega arith) in
    let (low, high) =
      near (avl_height t) (avl_height r) deep (avl_height s) x y p q f.low f.high f.even in
    let (u, run', k) =
      fix_from-Tree path (1 + max deep (avl_height r)) s holds f.avl low high
        (omega (arith, f.count)) in
    (
      u,
      rw run run',
      record {
        nodes = k.nodes ∙ ap (around path) f.nodes ∙ sym (around-left a h c r path (inorder t));
        avl = k.avl;
        count = omega (arith, k.count, f.count);
      },
    )
fix_from-Tree _ deep t (right a h c l path _ w x y holds) v p q small =
    let (s, run, f) = fix_node-Fixed a l t w v (omega arith) (omega arith) (omega arith) in
    let (low, high) =
      near (avl_height t) (avl_height l) deep (avl_height s) x y p q (omega (arith, f.low))
        (omega (arith, f.high)) (λ b c. omega (arith, f.even c b)) in
    let (u, run', k) =
      fix_from-Tree path (1 + max deep (avl_height l)) s holds f.avl low high
        (omega (arith, f.count)) in
    (
      u,
      rw run run',
      record {
        nodes = k.nodes ∙ ap (around path) f.nodes ∙ sym (around-right a h c l path (inorder t));
        avl = k.avl;
        count = omega (arith, k.count, f.count);
      },
    )

fix_step :
    (path : List Frame) (a h c : ℕ) (l r s u : AvlNode)
    → fix_node a l r ≡ ok s
    → fix_from path s ≡ ok u
    → avl_fix path (node a h c l r) ≡ ok u
unfolding avl_fix
fix_step path a h c l r s u run run' = rw run run'

-- A new node is put where a path leads to no node, in a balanced tree of fewer than 2^32 - 1 nodes.
-- Then `avl_fix` ends, and no null pointer is read. The tree that it leaves is balanced, its heights
-- and counts are right, and it has the nodes of the tree in their order, with the new one in its place.
pub avl_fix-Tree :
    (path : List Frame) (a : ℕ)
    → Holds path 0
    → 1 + path_count path < 2 ^ 32
    → (u : AvlNode) × (avl_fix path (avl_init a) ≡ ok u)
      × Tree (before path ++ (a ∷ after path)) (1 + path_count path) u
unfolding inorder
avl_fix-Tree path a holds small =
    let (s, run, f) = fix_node-Fixed a leaf leaf tt tt (omega arith) (omega arith) (omega arith) in
    let height = f.even (omega arith) (omega arith) in
    let (u, run', k) =
      fix_from-Tree path 0 s holds f.avl (omega arith) (omega arith) (omega (arith, f.count)) in
    (
      u,
      fix_step path a 1 1 leaf leaf s u run run',
      record {
        nodes = k.nodes ∙ ap (around path) f.nodes;
        avl = k.avl;
        count = omega (arith, k.count, f.count);
      },
    )
