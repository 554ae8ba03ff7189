-- ===== src/Zset/Seek.antt =====
-- A pointer to a node of a tree leads to its place.
use mathlib.Core.Path.{subst}
use cachetron.Prelude.{ℕ, ◌+◌, ◌≡◌, refl, ap, ◌∙◌, List, ◌∷◌, arith}
use cachetron.Prelude.{
  ◌==◌, eqb→eq, Bool-cases, inl, inr, ◌⊎◌, max, none, some, to_nat, count-append,
}
use cachetron.Avl.{AvlNode, Frame, Place, leaf, node, is_left, is_right, avl_height, avl_count}
use cachetron.Avl.Order.{inorder, around, around-left, around-right}
use cachetron.Avl.Balance.{IsAvl}
use cachetron.Avl.Fix.{path_count, Holds, left, right}
use cachetron.Avl.Replace.{occurs}
use cachetron.Avl.Delete.{all_nodes}
use cachetron.Zset.{seek}

-- The place of the node at `a` in the subtree `t` at the end of the path.
pub record Found (a : ℕ) (path : List Frame) (t : AvlNode) (n : Place) : Type 0 where
  pub addr : n.addr ≡ a
  pub node_avl : IsAvl (node n.addr n.height n.count n.left n.right)
  pub holds : Holds n.path n.height
  pub nodes : all_nodes n ≡ around path (inorder t)
  pub total : path_count n.path + n.count ≡ path_count path + avl_count t

pub seek-Found :
    (a : ℕ) (path : List Frame) (t : AvlNode)
    → IsAvl t
    → Holds path (avl_height t)
    → (seek a path t ≡ none × occurs a (inorder t) ≡ 0)
      ⊎ ((n : Place) × (seek a path t ≡ some n) × Found a path t n)
unfolding seek inorder path_count
seek-Found a path leaf v holds = inl (refl, refl)
seek-Found a path (node b h c l r) v holds =
    let deep = subst (Holds path) v.2 holds in
    let swapped : 1 + max (avl_height l) (avl_height r) ≡ 1 + max (avl_height r) (avl_height l) =
      omega arith in
    let on_left =
      seek-Found a (is_left b h c r ∷ path) l v.0
        (left b h c r path (avl_height l) v.1 v.4 v.5 deep) in
    let on_right =
      seek-Found a (is_right b h c l ∷ path) r v.1
        (right b h c l path (avl_height r) v.0 v.5 v.4 (subst (Holds path) swapped deep)) in
    let n : Place = record { path = path; addr = b; height = h; count = c; left = l; right = r } in
    elim (Bool-cases (b == a)) [
      | inl e ↦ inr (
        n,
        rw e refl,
        record { addr = eqb→eq _ _ e; node_avl = v; holds = holds; nodes = refl; total = refl },
      )
      | inr e ↦ elim on_left [
        | inr (m, run, k) ↦ inr (
          m,
          rw (e, run) refl,
          record {
            addr = k.addr;
            node_avl = k.node_avl;
            holds = k.holds;
            nodes = k.nodes ∙ around-left b h c r path (inorder l);
            total = omega (arith, k.total, v.3);
          },
        )
        | inl (run, gone) ↦ elim on_right [
          | inr (m, run', k) ↦ inr (
            m,
            rw (e, run, run') refl,
            record {
              addr = k.addr;
              node_avl = k.node_avl;
              holds = k.holds;
              nodes = k.nodes ∙ around-right b h c l path (inorder r);
              total = omega (arith, k.total, v.3);
            },
          )
          | inl (run', gone') ↦ inl (
            rw (e, run, run') refl,
            omega (
              arith,
              count-append (λ x. x == a) (inorder l) (b ∷ inorder r),
              gone,
              gone',
              ap to_nat e,
            ),
          )
        ]
      ]
    ]
