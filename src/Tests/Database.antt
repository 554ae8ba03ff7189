-- ===== src/Tests/Database.antt =====
-- The empty database, and one with a key.
use mathlib.Core.Path.{subst}
use cachetron.Prelude.{
  ℕ, ◌+◌, ◌≤◌, ◌≡◌, refl, sym, ap, Bool, true, Option, none, some, List, [], ◌∷◌, arith,
}
use cachetron.Prelude.{flatten, replicate, size_max}
use cachetron.Prelude.Result.{Result, ok, fault}
use cachetron.HashMap.{HNode, init_hmap, init_htab}
use cachetron.HashMap.Resize.{IsValid, init_htab-TabIsValid}
use cachetron.LiteString.{LiteString, Handle}
use cachetron.LiteString.Append
use cachetron.LiteString.Compare.{same_bytes}
use cachetron.Wire.Response.Encode.{Reply, encode}
use cachetron.Database.{Db, Entry, do_get, do_set, key_hash, key_is}
use cachetron.Database.Maps.{IsDb, Represents, Option_inj}
use cachetron.Database.Set.{override}
use cachetron.Database.Commands.{reply_get, Served, do_get-Served, do_set-Served}
use cachetron.Database.Timers.{do_del, do_expire}
use cachetron.Database.Timers.Expire.{ServedAt, do_expire-Served}
use cachetron.Database.Exists.{do_exists, is_there, do_exists-first}
use cachetron.Database.Timers.Delete.{reply_del, do_del-Served}
use cachetron.LiteString.Compare.Equal.{same_bytes-eq, same_bytes_refl}
use cachetron.Prelude.{zero, suc, inl, inr, ◌∙◌, to_nat, ◌==◌, Bool-cases, false}
use cachetron.Prelude.Bits.{bit_and_mask}
use cachetron.Tests.HashMap.{empty-IsValid}

abbrev alloc : ℕ → Bool
alloc n = true

abbrev empty_db : Db
empty_db = record {
  db = init_hmap;
  heap = record { items = []; cells = λ r. size_max };
  entries = λ a. none;
  next = 0;
}

empty_db-IsDb : IsDb empty_db
unfolding flatten
empty_db-IsDb = record {
  map = empty-IsValid;
  sound = refl;
  unique = λ k. omega arith;
  timed = record {
    ordered = λ c p q. absurd (omega arith);
    refs = λ i p. absurd (omega arith);
    idle = λ a p. refl;
    small = omega arith;
  };
  owned = λ a p. absurd (omega arith);
}

abbrev no_keys : List ℕ → Option (List ℕ)
no_keys k = none

empty_db-Represents : Represents empty_db no_keys
unfolding flatten
empty_db-Represents k e (a, here, has, same) = absurd (omega arith)

abbrev out : LiteString
out = record { cells = replicate 16 0; size = 0; capacity = 16 }

out-IsValid : Append.IsValid out
out-IsValid = record { width = refl; fits = omega arith; least = omega arith }

-- "ab" is the key, and "c" the value.
abbrev key : List ℕ
key = 97 ∷ 98 ∷ []

abbrev value : List ℕ
value = 99 ∷ []

do_set-Served_example :
    Served
      (do_set alloc empty_db key value (some out))
      out
      Reply.nil
      (override no_keys key (some value))
unfolding encode flatten
do_set-Served_example =
    do_set-Served alloc (λ n. refl) empty_db key value no_keys out empty_db-IsDb empty_db-Represents
      (omega arith) out-IsValid (omega arith)

abbrev db_of : Result (Handle × Db) → Db
db_of (ok (h, d)) = d
db_of (fault e) = empty_db

abbrev stored : Db
stored = db_of (do_set alloc empty_db key value (some out))

stored_lem : IsDb stored × Represents stored (override no_keys key (some value))
unfolding encode flatten
stored_lem =
    let (out', d', run, valid, all, v, r) =
      do_set-Served alloc (λ n. refl) empty_db key value no_keys out empty_db-IsDb
        empty_db-Represents (omega arith) out-IsValid (omega arith) in
    let same : d' ≡ stored = ap db_of (sym run) in
    (subst IsDb same v, subst (λ d. Represents d (override no_keys key (some value))) same r)

do_get-Served_example :
    Served
      (do_get alloc stored key (some out))
      out
      (reply_get (override no_keys key (some value) key))
      (override no_keys key (some value))
unfolding encode same_bytes
do_get-Served_example =
    do_get-Served alloc (λ n. refl) stored key (override no_keys key (some value)) out stored_lem.0
      stored_lem.1 out-IsValid (omega arith)

abbrev key_entry : Entry
key_entry = record { key = key; value = value; type = 0 }

abbrev entry_if : Bool → Option Entry
entry_if true = some key_entry
entry_if false = none

abbrev key_node : HNode ℕ
key_node = record { hcode = key_hash key; item = 0 }

-- The key in the only bucket of a table.
abbrev one_key : Db
one_key = record {
  db = record {
    ht1 = record { tab = (key_node ∷ []) ∷ []; mask = 0; size = 1 };
    ht2 = init_htab;
    resizing_pos = 0;
  };
  heap = record { items = []; cells = λ r. size_max };
  entries = λ a. entry_if (a == 0);
  next = 1;
}

one_key-IsValid : IsValid one_key.db
unfolding flatten
one_key-IsValid = record {
  newer = record {
    masked = (0, refl);
    width = λ h. refl;
    counted = refl;
    small = omega arith;
    addressable = omega arith;
    placed = elim [ zero ↦ (bit_and_mask 0 (key_hash key) ∙ omega arith, tt) | suc i ↦ tt ];
  };
  older = init_htab-TabIsValid;
  swept = λ i h. elim h [ ];
  room = λ h. omega arith;
  small = omega arith;
}

one_key-IsDb : IsDb one_key
unfolding flatten
one_key-IsDb = record {
  map = one_key-IsValid;
  sound = let self : (key_hash key == key_hash key) ≡ true = ground arith in rw self;
  unique = λ k. one (key_is k (some key_entry));
  timed = empty_db-IsDb.timed;
  owned = λ a p. absurd (omega arith);
}
  where
    one : (b : Bool) → to_nat b + 0 + 0 ≤ 1
    one true = omega arith
    one false = omega arith

one_key-Represents : Represents one_key (override no_keys key (some value))
unfolding flatten same_bytes
one_key-Represents k = elim (Bool-cases (same_bytes key k)) [
  | inl same ↦ rw same (key_entry, (0, omega arith, refl, same_bytes-eq key k same), refl, refl)
  | inr other ↦ rw other λ e (a, at_a, has, same). elim (Bool-cases (a == 0)) [
    | inr apart ↦ absurd (cc (has, ap entry_if apart))
    | inl here ↦
        absurd (cc (other, same, Option_inj (sym (ap entry_if here) ∙ has), same_bytes_refl key))
  ]
]

do_del-Served_example :
    Served
      (do_del alloc 7 one_key key (some out))
      out
      (reply_del (override no_keys key (some value) key))
      (override (override no_keys key (some value)) key none)
do_del-Served_example =
    do_del-Served alloc (λ n. refl) 7 one_key key (override no_keys key (some value)) out
      one_key-IsDb one_key-Represents (omega arith) out-IsValid (omega arith)

do_expire-Served_example :
    ServedAt 7 one_key key 20
      (do_expire alloc 7 one_key key (some 20) (some out))
      out
      (override no_keys key (some value))
do_expire-Served_example =
    do_expire-Served alloc (λ n. refl) 7 one_key key 20 (override no_keys key (some value)) out
      one_key-IsDb one_key-Represents (omega arith) out-IsValid (omega arith)

other_differs : same_bytes (9 ∷ []) key ≡ false
unfolding same_bytes
other_differs = refl

do_exists-first_example :
    Served
      (do_exists alloc one_key (key ∷ (9 ∷ []) ∷ []) (some out))
      out
      (Reply.int (is_there (override no_keys key (some value) key)))
      (override no_keys key (some value))
unfolding encode
do_exists-first_example =
    do_exists-first alloc (λ n. refl) one_key key ((9 ∷ []) ∷ [])
      (override no_keys key (some value)) out one_key-IsDb one_key-Represents (other_differs, tt)
      out-IsValid (omega arith)
