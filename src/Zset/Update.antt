-- ===== src/Zset/Update.antt =====
-- `zset_update` takes a node out of the tree and puts it back with another score.
use mathlib.Core.Path.{subst}
use cachetron.Prelude.{
  ℕ, ◌+◌, ◌^◌, ◌≤◌, ◌<◌, ◌≡◌, refl, sym, ap, ◌∙◌, List, [], ◌∷◌, ◌++◌, append_assoc, append-nil,
  arith,
}
use cachetron.Prelude.{Bool, true, false, ◌==◌, Bool-cases, inl, inr, some, to_nat, count-append}
use cachetron.Prelude.Result.{ok}
use cachetron.Avl.{AvlNode, Place, avl_count, avl_height, avl_del}
use cachetron.Avl.Order.{inorder, before, after}
use cachetron.Avl.Balance.{IsAvl}
use cachetron.Avl.Fix.{path_count, root, Tree}
use cachetron.Avl.Replace.{occurs}
use cachetron.Avl.Delete.{all_nodes, avl_del-Tree, parted, occurs_parted}
use cachetron.Zset.{ZSet, Memory, seek, set_score, zless2, tree_add, zset_update, del_fuel}
use cachetron.Zset.Order.{Comparison}
use cachetron.Zset.Query.{Every, Sorted, Short}
use cachetron.Zset.Add.{Added, tree_add-Added}
use cachetron.Zset.Seek.{Found, seek-Found}

-- A sorted list without one of its nodes.
Every-drop :
    (p : ℕ → Bool) (xs : List ℕ) (a : ℕ) (ys : List ℕ)
    → Every false p (xs ++ a ∷ ys)
    → Every false p (xs ++ ys)
Every-drop p [] a ys v = v.1
Every-drop p (x ∷ xs) a ys v = (v.0, Every-drop p xs a ys v.1)

Sorted-drop :
    (lt : ℕ → ℕ → Bool) (xs : List ℕ) (a : ℕ) (ys : List ℕ)
    → Sorted lt (xs ++ a ∷ ys)
    → Sorted lt (xs ++ ys)
Sorted-drop lt [] a ys v = v.1
Sorted-drop lt (x ∷ xs) a ys v = (Every-drop (λ y. lt y x) xs a ys v.0, Sorted-drop lt xs a ys v.1)

-- Two orders that agree on all nodes but `a`.
module _ (lt lt' : ℕ → ℕ → Bool) (a : ℕ)
    (agree : (x y : ℕ) → (x == a) ≡ false → (y == a) ≡ false → lt x y ≡ lt' x y) where
  not_head : (x : ℕ) (xs : List ℕ) → occurs a (x ∷ xs) ≡ 0 → ((x == a) ≡ false) × (occurs a xs ≡ 0)
  not_head x xs h = elim (Bool-cases (x == a)) [
    | inl e ↦ absurd (omega (arith, ap to_nat e))
    | inr e ↦ (e, omega arith)
  ]

  Every-agree :
      (x : ℕ) (ys : List ℕ)
      → (x == a) ≡ false
      → occurs a ys ≡ 0
      → Every false (λ y. lt y x) ys
      → Every false (λ y. lt' y x) ys
  Every-agree x [] e h v = tt
  Every-agree x (y ∷ ys) e h v =
      let (e', h') = not_head y ys h in (sym (agree y x e' e) ∙ v.0, Every-agree x ys e h' v.1)

  Sorted-agree : (xs : List ℕ) → occurs a xs ≡ 0 → Sorted lt xs → Sorted lt' xs
  Sorted-agree [] h v = tt
  Sorted-agree (x ∷ xs) h v =
      let (e, h') = not_head x xs h in (Every-agree x xs e h' v.0, Sorted-agree xs h' v.1)

module _ {ℓ} {D : Type ℓ} (ne less : D → D → Bool) (mem : Memory D) (a : ℕ) (score : D) where
  agrees :
      (x y : ℕ)
      → (x == a) ≡ false
      → (y == a) ≡ false
      → zless2 ne less mem x y ≡ zless2 ne less (set_score mem a score) x y
  unfolding zless2
  agrees x y e e' = rw (e, e') refl

  Short-set : Short mem → Short (set_score mem a score)
  Short-set short x = elim (Bool-cases (x == a)) [ inl e ↦ rw e (short x) | inr e ↦ rw e (short x) ]

  update_run :
      (zset : ZSet) (n : Place) (t : AvlNode) (after : ZSet)
      → ne (mem a).score score ≡ true
      → seek a [] zset.tree ≡ some n
      → avl_del (del_fuel zset.tree) n ≡ ok t
      → tree_add ne less (set_score mem a score) (record zset { tree = t }) a ≡ ok after
      → zset_update ne less mem zset a score ≡ ok (set_score mem a score, after)
  unfolding zset_update
  update_run zset n t after differs found del add = rw (differs, found, del, add) refl

-- What is left of the tree when the node at a place is gone.
record Removed (a : ℕ) (zset : ZSet) (t : AvlNode) : Type 0 where
  pub xs : List ℕ
  pub ys : List ℕ
  pub old : inorder zset.tree ≡ xs ++ a ∷ ys
  pub tree : Tree (xs ++ ys) (avl_count t) t
  pub total : 1 + avl_count t ≡ avl_count zset.tree

removed :
    (a : ℕ) (zset : ZSet) (n : Place)
    → ((x : ℕ) → occurs x (inorder zset.tree) ≤ 1)
    → avl_count zset.tree < 2 ^ 32
    → Found a [] zset.tree n
    → (t : AvlNode) × (avl_del (del_fuel zset.tree) n ≡ ok t) × Removed a zset t
unfolding before after path_count
removed a zset n distinct small k =
    let same : all_nodes n ≡ inorder zset.tree = k.nodes ∙ append-nil (inorder zset.tree) in
    let v = k.node_avl in
    let (t, run, tree) = avl_del-Tree (del_fuel zset.tree) n (omega (arith, k.total, v.3)) (record {
      node_avl = v;
      holds = k.holds;
      distinct = λ x. subst (λ l. occurs x l ≤ 1) (sym same) (distinct x);
      small = omega (arith, k.total);
    }) in
    let xs = before n.path ++ inorder n.left in
    let ys = inorder n.right ++ after n.path in
    (
      t,
      run,
      record {
        xs = xs;
        ys = ys;
        old =
            sym same
            ∙ parted (before n.path) (inorder n.left) (inorder n.right) (after n.path) n.addr
            ∙ ap (λ x. xs ++ x ∷ ys) k.addr;
        tree = record {
          nodes =
              tree.nodes
              ∙ ap (λ x. before n.path ++ x)
                  (append_assoc (inorder n.left) (inorder n.right) (after n.path))
              ∙ sym (append_assoc (before n.path) (inorder n.left) ys);
          avl = tree.avl;
          count = refl;
        };
        total = omega (arith, tree.count, k.total, v.3);
      },
    )

-- The tree after an update: the old nodes in order but for `a`, which stands where its score puts it.
pub record Moved (lt : ℕ → ℕ → Bool) (a : ℕ) (old u : AvlNode) : Type 0 where
  pub xs : List ℕ
  pub ys : List ℕ
  pub total : ℕ
  pub old_nodes : inorder old ≡ xs ++ a ∷ ys
  pub old_count : avl_count old ≡ 1 + total
  pub added : Added lt (xs ++ ys) total a u

module _ {ℓ} {D : Type ℓ} (ne less : D → D → Bool) (c : Comparison ne less) (mem : Memory D)
    (zset : ZSet) (a : ℕ) (score : D) (short : Short mem)
    (v : Sorted (zless2 ne less mem) (inorder zset.tree)) where
  -- Without `a` the tree is sorted in the new memory too.
  rest-Sorted :
      (t : AvlNode)
      → ((x : ℕ) → occurs x (inorder zset.tree) ≤ 1)
      → Removed a zset t
      → Sorted (zless2 ne less (set_score mem a score)) (inorder t)
  rest-Sorted t distinct k =
      let (p, q) = occurs_parted a k.xs k.ys (subst (λ l. occurs a l ≤ 1) k.old (distinct a)) in
      subst (Sorted (zless2 ne less (set_score mem a score))) (sym k.tree.nodes) (
        Sorted-agree (zless2 ne less mem) (zless2 ne less (set_score mem a score)) a
          (agrees ne less mem a score) (k.xs ++ k.ys)
          (omega (arith, p, q, count-append (λ x. x == a) k.xs k.ys))
          (Sorted-drop (zless2 ne less mem) k.xs a k.ys
            (subst (Sorted (zless2 ne less mem)) k.old v)))

-- `zset_update` with another score of a node of a balanced and sorted tree of fewer than 2^32 nodes,
-- all distinct, with scores that are no NaN and names of fewer than 2^64 bytes: it ends, reads no null
-- pointer, gives the node the score, and leaves a balanced tree that is sorted by the scores after the
-- update. The other nodes keep their order.
pub zset_update-Moved {ℓ} :
    {D : Type ℓ} (ne less : D → D → Bool) (c : Comparison ne less) (mem : Memory D) (zset : ZSet)
    (a : ℕ) (score : D)
    → Short mem
    → IsAvl zset.tree
    → Sorted (zless2 ne less mem) (inorder zset.tree)
    → ((x : ℕ) → occurs x (inorder zset.tree) ≤ 1)
    → avl_count zset.tree < 2 ^ 32
    → 1 ≤ occurs a (inorder zset.tree)
    → ne (mem a).score score ≡ true
    → (u : AvlNode) × (zset_update ne less mem zset a score
        ≡ ok (set_score mem a score, record zset { tree = u }))
      × Moved (zless2 ne less (set_score mem a score)) a zset.tree u
zset_update-Moved ne less c mem zset a score short avl v distinct small here differs =
    elim (seek-Found a [] zset.tree avl (root (avl_height zset.tree))) [
      | inl (_, gone) ↦ absurd (omega arith)
      | inr (n, found, k) ↦
          let (t, del, gone) = removed a zset n distinct small k in
          let mem' = set_score mem a score in
          let (u, add, added) =
            tree_add-Added ne less c mem' (record zset { tree = t }) a
              (Short-set ne less mem a score short) gone.tree.avl
              (rest-Sorted ne less c mem zset a score short v t distinct gone)
              (omega (arith, gone.total)) in
          (
            u,
            update_run ne less mem a score zset n t (record zset { tree = u }) differs found del
                add,
            record {
              xs = gone.xs;
              ys = gone.ys;
              total = avl_count t;
              old_nodes = gone.old;
              old_count = omega (arith, gone.total);
              added =
                  subst (λ l. Added (zless2 ne less mem') l (avl_count t) a u) gone.tree.nodes
                    added;
            },
          )
    ]
