-- ===== src/Avl/Balance.antt =====
-- One round of `avl_fix`: the rotations make a node balanced whose subtrees are.
use cachetron.Prelude.{ℕ, ◌+◌, ◌%◌, ◌^◌, ◌<◌, ◌≤◌, ◌≡◌, refl, sym, List, ◌∷◌, ◌++◌, append_assoc}
use cachetron.Prelude.{true, false, ltb, max, arith}
use cachetron.Prelude.Result.{ok}
use cachetron.Branchless.{max_size, max_size_lem}
use cachetron.Avl.{AvlNode, leaf, node, avl_height, avl_count, avl_update, rot_left, rot_right}
use cachetron.Avl.{avl_fix_left, avl_fix_right}
use cachetron.Avl.Order.{inorder}

-- The heights and counts are right, and the subtrees of each node differ by one level at most.
abbrev pub IsAvl : AvlNode → Type 0
IsAvl leaf = Unit
IsAvl (node a h c l r) =
    IsAvl l
    × IsAvl r
    × (h ≡ 1 + max (avl_height l) (avl_height r))
    × (c ≡ 1 + avl_count l + avl_count r)
    × (avl_height l ≤ avl_height r + 1)
    × (avl_height r ≤ avl_height l + 1)

pub height_bound : (t : AvlNode) → IsAvl t → avl_height t ≤ avl_count t
height_bound leaf v = omega arith
height_bound (node a h c l r) v = omega (arith, v.2, v.3, height_bound l v.0, height_bound r v.1)

-- What a node with new subtrees is.
pub record Made (a : ℕ) (l r t : AvlNode) : Type 0 where
  pub nodes : inorder t ≡ inorder l ++ a ∷ inorder r
  pub height : avl_height t ≡ 1 + max (avl_height l) (avl_height r)
  pub count : avl_count t ≡ 1 + avl_count l + avl_count r
  pub avl : avl_height l ≤ avl_height r + 1 → avl_height r ≤ avl_height l + 1 → IsAvl t

pub avl_update-Made :
    (a : ℕ) (l r : AvlNode)
    → IsAvl l
    → IsAvl r
    → 1 + avl_count l + avl_count r < 2 ^ 32
    → Made a l r (avl_update a l r)
unfolding avl_update inorder
avl_update-Made a l r u v small =
    let low = height_bound l u in
    let high = height_bound r v in
    let top : max_size (avl_height l) (avl_height r) ≡ max (avl_height l) (avl_height r) =
      max_size_lem (avl_height l) (avl_height r) (omega arith) (omega arith) in
    let h : (1 + max_size (avl_height l) (avl_height r)) % 2 ^ 32
        ≡ 1 + max (avl_height l) (avl_height r) =
      omega arith in
    let c : (1 + avl_count l + avl_count r) % 2 ^ 32 ≡ 1 + avl_count l + avl_count r =
      omega arith in
    record { nodes = refl; height = h; count = c; avl = λ p q. (u, v, h, c, p, q) }

-- What a round leaves of a node whose subtrees may differ by two levels.
pub record Fixed (a : ℕ) (l r t : AvlNode) : Type 0 where
  pub nodes : inorder t ≡ inorder l ++ a ∷ inorder r
  pub avl : IsAvl t
  pub count : avl_count t ≡ 1 + avl_count l + avl_count r
  pub low : max (avl_height l) (avl_height r) ≤ avl_height t
  pub high : avl_height t ≤ 1 + max (avl_height l) (avl_height r)
  pub even :
      avl_height l ≤ avl_height r + 1
      → avl_height r ≤ avl_height l + 1
      → avl_height t ≡ 1 + max (avl_height l) (avl_height r)

-- The runs of the two fixes, once the heights are compared.
pub fix_left_single :
    (a b h c : ℕ) (ll lr r : AvlNode)
    → ltb (avl_height ll) (avl_height lr) ≡ false
    → avl_fix_left (avl_update a (node b h c ll lr) r) ≡ ok (avl_update b ll (avl_update a lr r))
unfolding avl_fix_left avl_update rot_right
fix_left_single a b h c ll lr r e = rw e

pub fix_left_double :
    (a b h c x hx cx : ℕ) (ll m n r : AvlNode)
    → ltb (avl_height ll) hx ≡ true
    → avl_fix_left (avl_update a (node b h c ll (node x hx cx m n)) r)
      ≡ ok (avl_update x (avl_update b ll m) (avl_update a n r))
unfolding avl_fix_left avl_update rot_left rot_right
fix_left_double a b h c x hx cx ll m n r e = rw e

pub fix_right_single :
    (a b h c : ℕ) (l rl rr : AvlNode)
    → ltb (avl_height rr) (avl_height rl) ≡ false
    → avl_fix_right (avl_update a l (node b h c rl rr)) ≡ ok (avl_update b (avl_update a l rl) rr)
unfolding avl_fix_right avl_update rot_left
fix_right_single a b h c l rl rr e = rw e

pub fix_right_double :
    (a b h c x hx cx : ℕ) (l m n rr : AvlNode)
    → ltb (avl_height rr) hx ≡ true
    → avl_fix_right (avl_update a l (node b h c (node x hx cx m n) rr))
      ≡ ok (avl_update x (avl_update a l m) (avl_update b n rr))
unfolding avl_fix_right avl_update rot_left rot_right
fix_right_double a b h c x hx cx l m n rr e = rw e

-- Lists that a rotation does not change.
pub turned : (xs ys zs : List ℕ) (a b : ℕ) → xs ++ a ∷ (ys ++ b ∷ zs) ≡ (xs ++ a ∷ ys) ++ b ∷ zs
turned xs ys zs a b = sym (append_assoc xs (a ∷ ys) (b ∷ zs))
