-- ===== src/Tests/Ring.antt =====
-- The ring of the nodes 0, 1 and 2, with node 3 linked to itself.
use cachetron.Prelude.{◌≡◌, refl, arith, some, ◌==◌, if◌then◌else◌}
use cachetron.Ring.{Store, dlist_push_back}
use cachetron.Ring.Laws.{dlist_push_back-dropped}

abbrev ring : Store
ring = record {
  prev = λ i. if i == 3 then 3 else if i == 0 then 2 else if i == 1 then 0 else 1;
  next = λ i. if i == 3 then 3 else if i == 2 then 0 else if i == 1 then 2 else 1;
}

dlist_push_back-dropped_example :
    let σ' = dlist_push_back ring (some 3) (some 0) in
    (σ'.next 0 ≡ 3) × (σ'.prev 0 ≡ 3) × (σ'.next 3 ≡ 0) × (σ'.prev 3 ≡ 0)
dlist_push_back-dropped_example = dlist_push_back-dropped ring 3 0 (λ e. omega arith) refl
