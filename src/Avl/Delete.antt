-- ===== src/Avl/Delete.antt =====
-- `avl_del` takes one node out of a balanced tree.
use mathlib.Core.Path.{subst}
use cachetron.Prelude.{
  ℕ, zero, suc, ◌+◌, ◌^◌, ◌≤◌, ◌<◌, ◌≡◌, refl, sym, ap, ◌∙◌, List, ◌∷◌, ◌++◌, append_assoc,
  append-nil, arith,
}
use cachetron.Prelude.{◌==◌, count-append, to_nat, map}
use cachetron.Prelude.Result.{ok}
use cachetron.Avl.{
  AvlNode, Place, leaf, node, is_right, avl_height, avl_count, leftmost, replace, fix_from, avl_del,
}
use cachetron.Avl.Order.{inorder, before, after, around, around-right}
use cachetron.Avl.Balance.{IsAvl}
use cachetron.Avl.Fix.{path_count, Holds, right, Tree, fix_from-Tree}
use cachetron.Avl.Replace.{
  inorder-replace, replace_count, replace-IsAvl, occurs, swap, swap_one, Least, leftmost-Least,
}

del_last :
    (fuel : ℕ) (n : Place) (u : AvlNode)
    → n.right ≡ leaf
    → fix_from n.path n.left ≡ ok u
    → avl_del (suc fuel) n ≡ ok u
unfolding avl_del
del_last fuel n u e run = rw e run

del_next :
    (fuel : ℕ) (n : Place) (b h c : ℕ) (rl rr root : AvlNode) (w : Place)
    → n.right ≡ node b h c rl rr
    → leftmost (is_right n.addr n.height n.count n.left ∷ n.path) b h c rl rr ≡ w
    → avl_del fuel w ≡ ok root
    → avl_del (suc fuel) n ≡ ok (replace n.addr w.addr root)
unfolding avl_del
del_next fuel n b h c rl rr root w e found run = rw (e, found, run) refl

-- The nodes of the tree that a place is in.
abbrev pub all_nodes : Place → List ℕ
all_nodes n = around n.path (inorder n.left ++ n.addr ∷ inorder n.right)

-- A place in a balanced tree of distinct nodes.
pub record Rooted (n : Place) : Type 0 where
  pub node_avl : IsAvl (node n.addr n.height n.count n.left n.right)
  pub holds : Holds n.path n.height
  pub distinct : (x : ℕ) → occurs x (all_nodes n) ≤ 1
  pub small : path_count n.path + n.count < 2 ^ 32

-- A node in the middle of a list.
pub parted :
    (xs ys mid zs : List ℕ) (a : ℕ) → xs ++ ((ys ++ a ∷ mid) ++ zs) ≡ (xs ++ ys) ++ a ∷ (mid ++ zs)
parted xs ys mid zs a =
    ap (λ l. xs ++ l) (append_assoc ys (a ∷ mid) zs) ∙ sym (append_assoc xs ys (a ∷ (mid ++ zs)))

pub occurs_parted :
    (a : ℕ) (xs ys : List ℕ) → occurs a (xs ++ a ∷ ys) ≤ 1 → (occurs a xs ≡ 0) × (occurs a ys ≡ 0)
occurs_parted a xs ys h =
    let self : to_nat (a == a) ≡ 1 = ground arith in
    let sum : occurs a (xs ++ a ∷ ys) ≡ occurs a xs + (to_nat (a == a) + occurs a ys) =
      count-append (λ x. x == a) xs (a ∷ ys) in
    (omega arith, omega arith)

-- A place of the subtree on the right, without a left subtree, is a place of the same tree.
module _ (n : Place) (t : AvlNode) (w : Place) (right_is : n.right ≡ t) (k : Rooted n)
    (m : Least (is_right n.addr n.height n.count n.left ∷ n.path) t w) where
  -- The tree of the victim, whatever stands in its place.
  same_tree :
      (mid : List ℕ)
      → around w.path mid ≡ around n.path (inorder n.left ++ n.addr ∷ (mid ++ m.tail))
  same_tree mid = m.around mid ∙ around-right n.addr n.height n.count n.left n.path (mid ++ m.tail)

  victim_nodes : inorder n.right ≡ w.addr ∷ (inorder w.right ++ m.tail)
  victim_nodes = ap inorder right_is ∙ m.first

  all_nodes_victim : all_nodes w ≡ all_nodes n
  unfolding inorder
  all_nodes_victim =
      ap (λ l. around w.path (inorder l ++ w.addr ∷ inorder w.right)) m.no_left
      ∙ same_tree (w.addr ∷ inorder w.right)
      ∙ ap (λ l. around n.path (inorder n.left ++ n.addr ∷ l)) (sym victim_nodes)

  victim-Rooted : Rooted w
  unfolding path_count
  victim-Rooted = record {
    node_avl = m.avl;
    holds = m.holds;
    distinct = λ x. subst (λ l. occurs x l ≤ 1) (sym all_nodes_victim) (k.distinct x);
    small = omega (arith, m.total, k.small, k.node_avl.3, ap avl_count right_is);
  }

  -- The victim, that is gone from its place, in the place of the node.
  moved :
      map (swap n.addr w.addr) (around w.path (inorder w.left ++ inorder w.right))
      ≡ around n.path (inorder n.left ++ inorder n.right)
  unfolding inorder
  moved =
      let rest = inorder w.right ++ m.tail in
      let start = before n.path ++ inorder n.left in
      let (p, q) = occurs_parted n.addr start (inorder n.right ++ after n.path) (
        subst (λ l. occurs n.addr l ≤ 1)
          (parted (before n.path) (inorder n.left) (inorder n.right) (after n.path) n.addr)
          (k.distinct n.addr)) in
      let q' : occurs n.addr ((w.addr ∷ rest) ++ after n.path) ≡ 0 =
        subst (λ l. occurs n.addr (l ++ after n.path) ≡ 0) victim_nodes q in
      ap (λ l. map (swap n.addr w.addr) (around w.path (inorder l ++ inorder w.right))) m.no_left
      ∙ ap (map (swap n.addr w.addr)) (
          same_tree (inorder w.right)
          ∙ parted (before n.path) (inorder n.left) rest (after n.path) n.addr)
      ∙ swap_one n.addr w.addr start (rest ++ after n.path) p (omega (arith, q'))
      ∙ sym (parted (before n.path) (inorder n.left) rest (after n.path) w.addr)
      ∙ ap (λ l. around n.path (inorder n.left ++ l)) (sym victim_nodes)

no_right : (n : Place) → n.right ≡ leaf → inorder n.left ≡ inorder n.left ++ inorder n.right
unfolding inorder
no_right n e = sym (append-nil (inorder n.left)) ∙ ap (λ t. inorder n.left ++ inorder t) (sym e)

victim-Least :
    (n : Place) (b h c : ℕ) (rl rr : AvlNode)
    → n.right ≡ node b h c rl rr
    → Rooted n
    → Least
        (is_right n.addr n.height n.count n.left ∷ n.path)
        (node b h c rl rr)
        (leftmost (is_right n.addr n.height n.count n.left ∷ n.path) b h c rl rr)
victim-Least n b h c rl rr e k =
    let v = k.node_avl in
    let deep = ap avl_height e in
    leftmost-Least (is_right n.addr n.height n.count n.left ∷ n.path) b h c rl rr
      (subst IsAvl e v.1)
      (right n.addr n.height n.count n.left n.path h v.0 (omega (arith, v.5)) (omega (arith, v.4))
        (subst (Holds n.path) (omega (arith, v.2)) k.holds))

-- The run of `avl_del` at a place, and what it leaves.
abbrev Deletes : ℕ → Place → Type 0
Deletes fuel n =
    (u : AvlNode) × (avl_del fuel n ≡ ok u)
    × Tree (around n.path (inorder n.left ++ inorder n.right))
        (path_count n.path + avl_count n.left + avl_count n.right) u

Deletes-last : (fuel : ℕ) (n : Place) → n.right ≡ leaf → Rooted n → Deletes (suc fuel) n
Deletes-last fuel n e k =
    let v = k.node_avl in
    let (u, run, t) =
      fix_from-Tree n.path n.height n.left k.holds v.0 (omega (arith, v.2))
        (omega (arith, v.2, v.4, ap avl_height e)) (omega (arith, v.3, k.small)) in
    (
      u,
      del_last fuel n u e run,
      record {
        nodes = t.nodes ∙ ap (around n.path) (no_right n e);
        avl = t.avl;
        count = omega (arith, t.count, ap avl_count e);
      },
    )

Deletes-next :
    (fuel : ℕ) (n : Place) (b h c : ℕ) (rl rr : AvlNode)
    → n.right ≡ node b h c rl rr
    → Rooted n
    → ((w : Place) → avl_count w.right < c → Rooted w → Deletes fuel w)
    → Deletes (suc fuel) n
unfolding path_count
Deletes-next fuel n b h c rl rr e k next =
    let w = leftmost (is_right n.addr n.height n.count n.left ∷ n.path) b h c rl rr in
    let m = victim-Least n b h c rl rr e k in
    let (root, run, t) = next w m.smaller (victim-Rooted n (node b h c rl rr) w e k m) in
    (
      replace n.addr w.addr root,
      del_next fuel n b h c rl rr root w e refl run,
      record {
        nodes =
            inorder-replace n.addr w.addr root
            ∙ ap (map (swap n.addr w.addr)) t.nodes
            ∙ moved n (node b h c rl rr) w e k m;
        avl = replace-IsAvl n.addr w.addr root t.avl;
        count =
            omega
              (arith, replace_count n.addr w.addr root, t.count, m.total, m.avl.3, ap avl_count e);
      },
    )

-- `avl_del` ends at every node of a balanced tree of fewer than 2^32 nodes that are all distinct, and
-- reads no null pointer; one call more than the node's right subtree has nodes is enough. The tree
-- that is left is balanced, its heights and counts are right, and it has the other nodes of the tree
-- in their order.
pub avl_del-Tree :
    (fuel : ℕ) (n : Place)
    → avl_count n.right < fuel
    → Rooted n
    → (u : AvlNode) × (avl_del fuel n ≡ ok u)
      × Tree
          (around n.path (inorder n.left ++ inorder n.right))
          (path_count n.path + avl_count n.left + avl_count n.right)
          u
avl_del-Tree zero n enough k = absurd (omega arith)
avl_del-Tree (suc fuel) n enough k =
    let next : (w : Place) → avl_count w.right < avl_count n.right → Rooted w → Deletes fuel w =
      λ w less. avl_del-Tree fuel w (omega arith) in
    by_right n.right refl next
  where
    by_right :
        (r : AvlNode)
        → n.right ≡ r
        → ((w : Place) → avl_count w.right < avl_count r → Rooted w → Deletes fuel w)
        → Deletes (suc fuel) n
    by_right leaf e next = Deletes-last fuel n e k
    by_right (node b h c rl rr) e next = Deletes-next fuel n b h c rl rr e k next
