-- ===== src/Ring.antt =====
-- data_structures/list/list.{h,c}: nodes of a doubly linked ring. A node is an address, and the
-- store holds the two pointers of each node; a pointer argument may be null.
pub mod Laws
use cachetron.Prelude.{ℕ, Bool, true, false, Option, none, some, ◌==◌, if◌then◌else◌}

-- `prev` and `next` of the node at each address.
pub record Store : Type 0 where
  pub prev : ℕ → ℕ
  pub next : ℕ → ℕ

-- A write through a pointer.
abbrev pub upd : (ℕ → ℕ) → ℕ → ℕ → ℕ → ℕ
upd f i x j = if j == i then x else f j

abbrev pub set_prev : Store → ℕ → ℕ → Store
set_prev σ i x = record σ { prev = upd σ.prev i x }

abbrev pub set_next : Store → ℕ → ℕ → Store
set_next σ i x = record σ { next = upd σ.next i x }

pub dlist_init : Store → Option ℕ → Store
dlist_init σ none = σ
dlist_init σ (some node) = set_prev (set_next σ node node) node node

pub dlist_empty : Store → Option ℕ → Bool
dlist_empty σ none = true
dlist_empty σ (some node) = σ.next node == node

pub dlist_detach : Store → Option ℕ → Store
dlist_detach σ none = σ
dlist_detach σ (some node) =
    let prev = σ.prev node in let next = σ.next node in set_prev (set_next σ prev next) next prev

pub dlist_insert_before : Store → Option ℕ → Option ℕ → Store
dlist_insert_before σ none next = σ
dlist_insert_before σ (some node) none = σ
dlist_insert_before σ (some node) (some next) =
    if node == next
    then σ
    else (let prev = σ.prev node in
        set_prev (set_next (set_prev (set_next σ prev next) next prev) next node) node next)

pub dlist_insert_after : Store → Option ℕ → Option ℕ → Store
dlist_insert_after σ none prev = σ
dlist_insert_after σ (some node) none = σ
dlist_insert_after σ (some node) (some prev) =
    if node == prev
    then σ
    else (let next = σ.next prev in
        set_prev (set_next (set_prev (set_next σ prev node) node prev) node next) next node)

pub dlist_push_front : Store → Option ℕ → Option ℕ → Store
unfolding dlist_insert_after
dlist_push_front σ node head = dlist_insert_after σ node head

-- As written, the head is the second argument, the node that `dlist_insert_before` puts in front.
pub dlist_push_back : Store → Option ℕ → Option ℕ → Store
unfolding dlist_insert_before
dlist_push_back σ node head = dlist_insert_before σ node head

pub dlist_pop_front : Store → Option ℕ → Option ℕ × Store
unfolding dlist_detach
dlist_pop_front σ none = (none, σ)
dlist_pop_front σ (some head) =
    let node = σ.next head in
    if node == head then (none, σ) else (some node, dlist_detach σ (some node))

pub dlist_pop_back : Store → Option ℕ → Option ℕ × Store
unfolding dlist_detach
dlist_pop_back σ none = (none, σ)
dlist_pop_back σ (some head) =
    let node = σ.prev head in
    if node == head then (none, σ) else (some node, dlist_detach σ (some node))
