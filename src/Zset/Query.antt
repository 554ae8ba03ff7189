-- ===== src/Zset/Query.antt =====
-- Trees whose nodes are sorted, and the query for the first node that is not less than a tuple.
use cachetron.Prelude.{
  ℕ, ◌≡◌, refl, sym, ap, ◌∙◌, List, [], ◌∷◌, ◌++◌, Option, none, some, Bool, true, false,
  Bool-cases, inl, inr, ◌⊎◌,
}
use cachetron.Prelude.{if◌then◌else◌, ◌^◌, ◌<◌, length}
use cachetron.Avl.{AvlNode, leaf, node}
use cachetron.Avl.Order.{inorder}
use cachetron.Zset.{ZSet, Memory, query_loop, zless, zless2, zset_query}
use cachetron.Zset.Order.{Comparison, tuple_less, zless_lem, tuple_less_trans, tuple_less_split}

-- The test has the answer `b` for every node of the list.
abbrev pub Every : Bool → (ℕ → Bool) → List ℕ → Type 0
Every b p [] = Unit
Every b p (x ∷ xs) = (p x ≡ b) × Every b p xs

-- No node is less than one that stands before it.
abbrev pub Sorted : (ℕ → ℕ → Bool) → List ℕ → Type 0
Sorted lt [] = Unit
Sorted lt (x ∷ xs) = Every false (λ y. lt y x) xs × Sorted lt xs

pub Every-append :
    (b : Bool) (p : ℕ → Bool) (xs ys : List ℕ) → Every b p xs → Every b p ys → Every b p (xs ++ ys)
Every-append b p [] ys v w = w
Every-append b p (x ∷ xs) ys v w = (v.0, Every-append b p xs ys v.1 w)

pub Every-left : (b : Bool) (p : ℕ → Bool) (xs ys : List ℕ) → Every b p (xs ++ ys) → Every b p xs
Every-left b p [] ys v = tt
Every-left b p (x ∷ xs) ys v = (v.0, Every-left b p xs ys v.1)

pub Every-right : (b : Bool) (p : ℕ → Bool) (xs ys : List ℕ) → Every b p (xs ++ ys) → Every b p ys
Every-right b p [] ys v = v
Every-right b p (x ∷ xs) ys v = Every-right b p xs ys v.1

pub Every-map :
    (b b' : Bool) (p q : ℕ → Bool) (xs : List ℕ)
    → ((x : ℕ) → p x ≡ b → q x ≡ b')
    → Every b p xs
    → Every b' q xs
Every-map b b' p q [] f v = tt
Every-map b b' p q (x ∷ xs) f v = (f x v.0, Every-map b b' p q xs f v.1)

-- A sorted list and a node in the middle of it.
pub record Middle (lt : ℕ → ℕ → Bool) (xs : List ℕ) (a : ℕ) (ys : List ℕ) : Type 0 where
  pub earlier : Every false (λ x. lt a x) xs
  pub later : Every false (λ y. lt y a) ys
  pub sorted_left : Sorted lt xs
  pub sorted_right : Sorted lt ys

pub Sorted-Middle :
    (lt : ℕ → ℕ → Bool) (xs : List ℕ) (a : ℕ) (ys : List ℕ)
    → Sorted lt (xs ++ a ∷ ys)
    → Middle lt xs a ys
Sorted-Middle lt [] a ys v = record {
  earlier = tt;
  later = v.0;
  sorted_left = tt;
  sorted_right = v.1;
}
Sorted-Middle lt (x ∷ xs) a ys v =
    let m = Sorted-Middle lt xs a ys v.1 in
    record {
      earlier = ((Every-right false (λ y. lt y x) xs (a ∷ ys) v.0).0, m.earlier);
      later = m.later;
      sorted_left = (Every-left false (λ y. lt y x) xs (a ∷ ys) v.0, m.sorted_left);
      sorted_right = m.sorted_right;
    }

-- The first node of a list that fails the test, or the given one.
pub first_not : (ℕ → Bool) → List ℕ → Option ℕ → Option ℕ
first_not p [] last = last
first_not p (x ∷ xs) last = let rest = first_not p xs last in if p x then rest else some x

first_not-append :
    (p : ℕ → Bool) (xs : List ℕ) (a : ℕ) (ys : List ℕ) (last : Option ℕ)
    → p a ≡ false
    → first_not p (xs ++ a ∷ ys) last ≡ first_not p xs (some a)
unfolding first_not
first_not-append p [] a ys last e = rw e refl
first_not-append p (x ∷ xs) a ys last e =
    ap (λ r. if p x then r else some x) (first_not-append p xs a ys last e)

first_not_pass :
    (p : ℕ → Bool) (xs ys : List ℕ) (last : Option ℕ)
    → Every true p xs
    → first_not p (xs ++ ys) last ≡ first_not p ys last
unfolding first_not
first_not_pass p [] ys last v = refl
first_not_pass p (x ∷ xs) ys last v = rw v.0 (first_not_pass p xs ys last v.1)

first_not_step :
    (p : ℕ → Bool) (a : ℕ) (ys : List ℕ) (last : Option ℕ)
    → p a ≡ true
    → first_not p (a ∷ ys) last ≡ first_not p ys last
unfolding first_not
first_not_step p a ys last e = rw e refl

query_loop_lem :
    (lt : ℕ → ℕ → Bool) (p : ℕ → Bool) (t : AvlNode) (found : Option ℕ)
    → ((a x : ℕ) → p a ≡ true → lt a x ≡ false → p x ≡ true)
    → Sorted lt (inorder t)
    → query_loop p found t ≡ first_not p (inorder t) found
unfolding query_loop inorder first_not
query_loop_lem lt p leaf found down v = refl
query_loop_lem lt p (node a h c l r) found down v =
    let m = Sorted-Middle lt (inorder l) a (inorder r) v in
    elim (Bool-cases (p a)) [
      | inl e ↦ rw e (
          query_loop_lem lt p r found down m.sorted_right
          ∙ sym (first_not_step p a (inorder r) found e)
          ∙ sym (
              first_not_pass p (inorder l) (a ∷ inorder r) found
                (Every-map false true (λ x. lt a x) p (inorder l) (λ x. down a x e) m.earlier)))
      | inr e ↦ rw e (
          query_loop_lem lt p l (some a) down m.sorted_left
          ∙ sym (first_not-append p (inorder l) a (inorder r) found e))
    ]

-- The names of all nodes are shorter than 2^64 bytes.
abbrev pub Short {ℓ} : {D : Type ℓ} → Memory D → Type 0
Short mem = (a : ℕ) → length (mem a).name < 2 ^ 64

module _ {ℓ} {D : Type ℓ} (ne less : D → D → Bool) (c : Comparison ne less) (mem : Memory D)
    (short : Short mem) where
  pub zless2_lem :
      (a b : ℕ)
      → zless2 ne less mem a b
        ≡ tuple_less (c.rank (mem a).score) (mem a).name (c.rank (mem b).score) (mem b).name
  unfolding zless2
  zless2_lem a b = zless_lem ne less c (mem a) (mem b).score (mem b).name (short a) (short b)

  pub zless2_trans :
      (a b d : ℕ)
      → zless2 ne less mem a b ≡ true
      → zless2 ne less mem b d ≡ true
      → zless2 ne less mem a d ≡ true
  zless2_trans a b d p q =
      zless2_lem a d
      ∙ tuple_less_trans (c.rank (mem a).score) (c.rank (mem b).score) (c.rank (mem d).score)
          (mem a).name (mem b).name (mem d).name (sym (zless2_lem a b) ∙ p)
          (sym (zless2_lem b d) ∙ q)

  pub zless2_split :
      (a b d : ℕ)
      → zless2 ne less mem a d ≡ true
      → (zless2 ne less mem a b ≡ true) ⊎ (zless2 ne less mem b d ≡ true)
  zless2_split a b d p =
      elim (tuple_less_split (c.rank (mem a).score) (c.rank (mem b).score) (c.rank (mem d).score)
        (mem a).name (mem b).name (mem d).name (sym (zless2_lem a d) ∙ p)) [
          | inl q ↦ inl (zless2_lem a b ∙ q)
          | inr q ↦ inr (zless2_lem b d ∙ q)
        ]

-- What is less than a tuple, and not less than another node, leaves that node less than the tuple.
less_down {ℓ} :
    {D : Type ℓ} (ne less : D → D → Bool) (c : Comparison ne less) (mem : Memory D) (score : D)
    (name : List ℕ)
    → Short mem
    → length name < 2 ^ 64
    → (a x : ℕ) → zless ne less (mem a) score name ≡ true
    → zless2 ne less mem a x ≡ false
    → zless ne less (mem x) score name ≡ true
less_down ne less c mem score name short low a x p q =
    elim (tuple_less_split (c.rank (mem a).score) (c.rank (mem x).score) (c.rank score) (mem a).name
      (mem x).name name (sym (zless_lem ne less c (mem a) score name (short a) low) ∙ p)) [
        | inl r ↦ absurd (cc (zless2_lem ne less c mem short a x, r, q))
        | inr r ↦ zless_lem ne less c (mem x) score name (short x) low ∙ r
      ]

-- In a set whose tree is sorted by score and name, with scores that are no NaN and names of fewer
-- than 2^64 bytes, `zset_query` finds the first node in the order of the tree that is not less than
-- the given tuple, and none where all are less.
pub zset_query_lem {ℓ} :
    {D : Type ℓ} (ne less : D → D → Bool) (c : Comparison ne less) (mem : Memory D) (zset : ZSet)
    (score : D) (name : List ℕ)
    → Short mem
    → length name < 2 ^ 64
    → Sorted (zless2 ne less mem) (inorder zset.tree)
    → zset_query ne less mem zset score name
      ≡ first_not (λ a. zless ne less (mem a) score name) (inorder zset.tree) none
unfolding zset_query
zset_query_lem ne less c mem zset score name short low v =
    query_loop_lem (zless2 ne less mem) (λ a. zless ne less (mem a) score name) zset.tree none
      (less_down ne less c mem score name short low) v
