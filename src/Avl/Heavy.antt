-- ===== src/Avl/Heavy.antt =====
-- A node that is too deep on one side.
use cachetron.Prelude.{ℕ, ◌+◌, ◌^◌, ◌<◌, ◌≡◌, sym, ap, ◌∙◌, ◌∷◌, ◌++◌, append_assoc}
use cachetron.Prelude.{true, ltb, ltb→lt, ltb-false, Bool-cases, inl, inr, arith}
use cachetron.Prelude.Result.{ok}
use cachetron.Avl.{AvlNode, leaf, node, avl_height, avl_count, avl_update}
use cachetron.Avl.{avl_fix_left, avl_fix_right}
use cachetron.Avl.Order.{inorder}
use cachetron.Avl.Balance.{
  IsAvl, avl_update-Made, Fixed, fix_left_single, fix_left_double, fix_right_single,
  fix_right_double, turned,
}

pub left_heavy :
    (a b h c : ℕ) (ll lr r : AvlNode)
    → IsAvl (node b h c ll lr)
    → IsAvl r
    → 1 + c + avl_count r < 2 ^ 32
    → h ≡ avl_height r + 2
    → (t : AvlNode) × (avl_fix_left (avl_update a (node b h c ll lr) r) ≡ ok t)
      × Fixed a (node b h c ll lr) r t
unfolding inorder
left_heavy a b h c ll lr r v w small deep =
    elim (Bool-cases (ltb (avl_height ll) (avl_height lr))) [
      | inr outer ↦
          let e = ltb-false _ _ outer in
          let k = avl_update-Made a lr r v.1 w (omega (arith, v.3)) in
          let u = avl_update a lr r in
          let u_avl = k.avl (omega (arith, v.2)) (omega (arith, v.2, v.4)) in
          let t = avl_update-Made b ll u v.0 u_avl (omega (arith, v.3, k.count)) in
          (
            avl_update b ll u,
            fix_left_single a b h c ll lr r outer,
            record {
              nodes =
                  t.nodes
                  ∙ ap (λ x. inorder ll ++ b ∷ x) k.nodes
                  ∙ turned (inorder ll) (inorder lr) (inorder r) b a;
              avl = t.avl (omega (arith, v.2, k.height)) (omega (arith, v.2, v.4, k.height));
              count = omega (arith, t.count, k.count, v.3);
              low = omega (arith, t.height, k.height, v.2);
              high = omega (arith, t.height, k.height, v.2, v.4);
              even = λ p q. absurd (omega arith);
            },
          )
      | inl inner ↦ double lr v small inner
    ]
  where
    double :
        (lr : AvlNode)
        → IsAvl (node b h c ll lr)
        → 1 + c + avl_count r < 2 ^ 32
        → ltb (avl_height ll) (avl_height lr) ≡ true
        → (t : AvlNode) × (avl_fix_left (avl_update a (node b h c ll lr) r) ≡ ok t)
          × Fixed a (node b h c ll lr) r t
    double leaf v small inner = absurd (omega (arith, ltb→lt _ _ inner))
    double (node x hx cx m n) v small inner =
        let e = ltb→lt _ _ inner in
        let k = v.1 in
        let p = avl_update-Made b ll m v.0 k.0 (omega (arith, v.3, k.3)) in
        let q = avl_update-Made a n r k.1 w (omega (arith, v.3, k.3)) in
        let p_avl =
          p.avl (omega (arith, v.2, k.2, v.4, k.4, k.5)) (omega (arith, v.2, k.2, v.4, k.4, k.5)) in
        let q_avl =
          q.avl (omega (arith, v.2, k.2, v.4, k.4, k.5)) (omega (arith, v.2, k.2, v.4, k.4, k.5)) in
        let t =
          avl_update-Made x (avl_update b ll m) (avl_update a n r) p_avl q_avl
            (omega (arith, v.3, k.3, p.count, q.count)) in
        (
          avl_update x (avl_update b ll m) (avl_update a n r),
          fix_left_double a b h c x hx cx ll m n r inner,
          record {
            nodes =
                t.nodes
                ∙ ap (λ l. l ++ x ∷ inorder (avl_update a n r)) p.nodes
                ∙ ap (λ l. (inorder ll ++ b ∷ inorder m) ++ x ∷ l) q.nodes
                ∙ turned (inorder ll ++ b ∷ inorder m) (inorder n) (inorder r) x a
                ∙ ap (λ l. l ++ a ∷ inorder r)
                    (sym (turned (inorder ll) (inorder m) (inorder n) b x));
            avl =
                t.avl (omega (arith, p.height, q.height, v.2, k.2, v.4, v.5, k.4, k.5))
                  (omega (arith, p.height, q.height, v.2, k.2, v.4, v.5, k.4, k.5));
            count = omega (arith, t.count, p.count, q.count, v.3, k.3);
            low = omega (arith, t.height, p.height, q.height, v.2, k.2, v.4, v.5, k.4, k.5);
            high = omega (arith, t.height, p.height, q.height, v.2, k.2, v.4, v.5, k.4, k.5);
            even = λ p q. absurd (omega arith);
          },
        )

pub right_heavy :
    (a b h c : ℕ) (l rl rr : AvlNode)
    → IsAvl l
    → IsAvl (node b h c rl rr)
    → 1 + avl_count l + c < 2 ^ 32
    → h ≡ avl_height l + 2
    → (t : AvlNode) × (avl_fix_right (avl_update a l (node b h c rl rr)) ≡ ok t)
      × Fixed a l (node b h c rl rr) t
unfolding inorder
right_heavy a b h c l rl rr w v small deep =
    elim (Bool-cases (ltb (avl_height rr) (avl_height rl))) [
      | inr outer ↦
          let e = ltb-false _ _ outer in
          let k = avl_update-Made a l rl w v.0 (omega (arith, v.3)) in
          let u = avl_update a l rl in
          let u_avl = k.avl (omega (arith, v.2, v.5)) (omega (arith, v.2)) in
          let t = avl_update-Made b u rr u_avl v.1 (omega (arith, v.3, k.count)) in
          (
            avl_update b u rr,
            fix_right_single a b h c l rl rr outer,
            record {
              nodes =
                  t.nodes
                  ∙ ap (λ x. x ++ b ∷ inorder rr) k.nodes
                  ∙ sym (turned (inorder l) (inorder rl) (inorder rr) a b);
              avl = t.avl (omega (arith, v.2, v.5, k.height)) (omega (arith, v.2, v.5, k.height));
              count = omega (arith, t.count, k.count, v.3);
              low = omega (arith, t.height, k.height, v.2);
              high = omega (arith, t.height, k.height, v.2, v.5);
              even = λ p q. absurd (omega arith);
            },
          )
      | inl inner ↦ double rl v small inner
    ]
  where
    double :
        (rl : AvlNode)
        → IsAvl (node b h c rl rr)
        → 1 + avl_count l + c < 2 ^ 32
        → ltb (avl_height rr) (avl_height rl) ≡ true
        → (t : AvlNode) × (avl_fix_right (avl_update a l (node b h c rl rr)) ≡ ok t)
          × Fixed a l (node b h c rl rr) t
    double leaf v small inner = absurd (omega (arith, ltb→lt _ _ inner))
    double (node x hx cx m n) v small inner =
        let e = ltb→lt _ _ inner in
        let k = v.0 in
        let p = avl_update-Made a l m w k.0 (omega (arith, v.3, k.3)) in
        let q = avl_update-Made b n rr k.1 v.1 (omega (arith, v.3, k.3)) in
        let p_avl =
          p.avl (omega (arith, v.2, k.2, v.5, k.4, k.5)) (omega (arith, v.2, k.2, v.5, k.4, k.5)) in
        let q_avl =
          q.avl (omega (arith, v.2, k.2, v.5, k.4, k.5)) (omega (arith, v.2, k.2, v.5, k.4, k.5)) in
        let t =
          avl_update-Made x (avl_update a l m) (avl_update b n rr) p_avl q_avl
            (omega (arith, v.3, k.3, p.count, q.count)) in
        (
          avl_update x (avl_update a l m) (avl_update b n rr),
          fix_right_double a b h c x hx cx l m n rr inner,
          record {
            nodes =
                t.nodes
                ∙ ap (λ y. y ++ x ∷ inorder (avl_update b n rr)) p.nodes
                ∙ ap (λ y. (inorder l ++ a ∷ inorder m) ++ x ∷ y) q.nodes
                ∙ append_assoc (inorder l) (a ∷ inorder m) (x ∷ (inorder n ++ b ∷ inorder rr))
                ∙ ap (λ y. inorder l ++ a ∷ y) (turned (inorder m) (inorder n) (inorder rr) x b);
            avl =
                t.avl (omega (arith, p.height, q.height, v.2, k.2, v.4, v.5, k.4, k.5))
                  (omega (arith, p.height, q.height, v.2, k.2, v.4, v.5, k.4, k.5));
            count = omega (arith, t.count, p.count, q.count, v.3, k.3);
            low = omega (arith, t.height, p.height, q.height, v.2, k.2, v.4, v.5, k.4, k.5);
            high = omega (arith, t.height, p.height, q.height, v.2, k.2, v.4, v.5, k.4, k.5);
            even = λ p q. absurd (omega arith);
          },
        )
