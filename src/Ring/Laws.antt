-- ===== src/Ring/Laws.antt =====
-- `dlist_detach` undoes an insertion.
use cachetron.Prelude.{ℕ, ◌≡◌, ◌≢◌, refl, true, false, some, ◌==◌, arith}
use cachetron.Ring.{Store, upd, dlist_detach, dlist_insert_before, dlist_push_back}

-- A node that is not its own neighbour is put before another and detached again: every other node
-- has the pointers that it had.
pub dlist_insert_before-detach :
    (σ : Store) (node next : ℕ)
    → node ≢ next
    → σ.prev node ≢ next
    → σ.next (σ.prev node) ≡ node
    → let σ' = dlist_detach (dlist_insert_before σ (some node) (some next)) (some next) in
      (j : ℕ) → j ≢ next → (σ'.prev j ≡ σ.prev j) × (σ'.next j ≡ σ.next j)
unfolding dlist_detach dlist_insert_before
dlist_insert_before-detach σ node next apart far linked j other =
    let e : (node == next) ≡ false = ground arith in
    let e' : (next == node) ≡ false = ground arith in
    let here : (next == next) ≡ true = ground arith in
    rw (e, e', here) (pair σ.prev σ.next (σ.prev node) refl linked)
  where
    pair :
        (f g : ℕ → ℕ) (p : ℕ)
        → f node ≡ p
        → g p ≡ node
        → (upd (upd (upd f next p) node next) node p j ≡ f j)
          × (upd (upd (upd g p next) next node) p node j ≡ g j)
    pair f g p a b = (ground arith, ground arith)

-- `dlist_push_back` of a node that is linked to itself leaves a ring of that node and the head
-- alone, whatever stood in the ring of the head.
pub dlist_push_back-dropped :
    (σ : Store) (node head : ℕ)
    → node ≢ head
    → σ.prev node ≡ node
    → let σ' = dlist_push_back σ (some node) (some head) in
      (σ'.next head ≡ node) × (σ'.prev head ≡ node) × (σ'.next node ≡ head) × (σ'.prev node ≡ head)
unfolding dlist_push_back dlist_insert_before
dlist_push_back-dropped σ node head apart alone =
    let e : (node == head) ≡ false = ground arith in
    let e' : (head == node) ≡ false = ground arith in
    let here : (node == node) ≡ true = ground arith in
    let there : (head == head) ≡ true = ground arith in
    rw (e, alone, e', here, there, e) (refl, refl, refl, refl)
