-- ===== src/Tests/Heap.antt =====
-- The heap of expiry times with two items, and with one.
use cachetron.Prelude.{zero, suc, ◌≡◌, refl, [], ◌∷◌, arith}
use cachetron.Prelude.{◌==◌, if◌then◌else◌, size_max}
use cachetron.Prelude.Result.{ok}
use cachetron.Heap.{Heap, heap_update}
use cachetron.Heap.Order.{item, IsHeapBut, Refs}
use cachetron.Heap.Update.{Mended, heap_update-Mended}
use cachetron.Expiry.{entry_set_ttl}
use cachetron.Expiry.Clear.{IsTimed}
use cachetron.Expiry.Arm.{HasTtl, entry_set_ttl-IsTimed}

-- The second item is before its parent.
abbrev two_items : Heap
two_items = record {
  items = record { val = 5; ref = 0 } ∷ record { val = 2; ref = 1 } ∷ [];
  cells = λ r. r;
}

two_items-IsHeapBut : IsHeapBut two_items.items 1
two_items-IsHeapBut = record {
  edges = λ c p q r s. absurd (r (omega arith));
  past = λ c p q r s. absurd (omega arith);
}

two_items-Refs : Refs two_items 1 (item two_items.items 1)
two_items-Refs = record {
  own = elim [ zero ↦ λ p q. refl | suc i ↦ λ p q. absurd (q (omega arith)) ];
  apart = elim [ zero ↦ λ p q e. omega arith | suc i ↦ λ p q. absurd (q (omega arith)) ];
}

heap_update-Mended_example : (h' : Heap) × (heap_update two_items 1 2 ≡ ok h') × Mended two_items h'
heap_update-Mended_example =
    heap_update-Mended two_items 1 (omega arith) (omega arith) two_items-IsHeapBut two_items-Refs

-- The entry at 3 expires at 100.
abbrev one_timer : Heap
one_timer = record {
  items = record { val = 100; ref = 3 } ∷ [];
  cells = λ r. if r == 3 then 0 else size_max;
}

one_timer-IsTimed : IsTimed one_timer
one_timer-IsTimed = record {
  ordered = λ c p q. absurd (omega arith);
  refs = elim [ zero ↦ λ p. refl | suc i ↦ λ p. absurd (omega arith) ];
  idle = λ a none_has. ground arith;
  small = omega arith;
}

-- The entry at 5 gets 20 milliseconds, at 1 microsecond: it expires after the other.
entry_set_ttl-IsTimed_example :
    (h' : Heap) × (entry_set_ttl 1 one_timer 5 20 ≡ ok h') × IsTimed h' × HasTtl 1 one_timer 5 20 h'
entry_set_ttl-IsTimed_example =
    entry_set_ttl-IsTimed 1 one_timer 5 20 one_timer-IsTimed (omega arith)
