-- ===== src/Database/Exists.antt =====
-- `do_exists` and `exists` of server.c, on the keys behind the command's name.
use cachetron.Prelude.{
  ℕ, ◌+◌, ◌%◌, ◌^◌, ◌≤◌, ◌≡◌, refl, ap, ◌∙◌, Bool, true, false, not, Option, none, some, List, [],
  ◌∷◌, ◌++◌,
}
use cachetron.Prelude.{All, length, if◌then◌else◌}
use cachetron.Prelude.Result.{Result, ok, ◌>>=◌}
use cachetron.HashMap.{HNode}
use cachetron.LiteString.{LiteString, Handle}
use cachetron.LiteString.Append
use cachetron.LiteString.Compare.{same_bytes}
use cachetron.Wire.Response.{out_int}
use cachetron.Wire.Response.Encode.{Reply, encode}
use cachetron.Wire.Response.Writes.{out_int-Writes}
use cachetron.Database.{Db, lookup_entry, answers}
use cachetron.Database.Maps.{IsDb, Agrees, Represents}
use cachetron.Database.Lookup.{Looked, lookup_entry-Looked, IsDb-kept, Represents-kept}
use cachetron.Database.Commands.{Served, answered}

-- The inner loop, with the test `string_compare(...) == 0` as it stands.
pub found_in : List ℕ → List (List ℕ) → Bool
found_in key [] = false
found_in key (t ∷ tmp) =
    let rest = found_in key tmp in if not (same_bytes key t) then true else rest

-- The outer loop: the keys in `tmp` at its end.
pub unique_keys : List (List ℕ) → List (List ℕ) → List (List ℕ)
unfolding found_in
unique_keys tmp [] = tmp
unique_keys tmp (key ∷ keys) =
    let dropped = unique_keys tmp keys in
    let kept = unique_keys (tmp ++ key ∷ []) keys in if found_in key tmp then dropped else kept

abbrev pub is_there {ℓ} : {A : Type ℓ} → Option A → ℕ
is_there none = 0
is_there (some a) = 1

pub exists_key : Db → List ℕ → Result (ℕ × Db)
unfolding lookup_entry
exists_key d k = do (node, d') ← lookup_entry d k; ok (is_there node, d')

pub count_existing : Db → List (List ℕ) → Result (ℕ × Db)
unfolding exists_key
count_existing d [] = ok (0, d)
count_existing d (k ∷ keys) = do
  (one, d') ← exists_key d k
  (n, d'') ← count_existing d' keys
  ok ((one + n) % 2 ^ 32, d'')

unfoldable pub do_exists : (ℕ → Bool) → Db → List (List ℕ) → Handle → Result (Handle × Db)
unfolding unique_keys count_existing
do_exists alloc d keys out = do
  (n, d') ← count_existing d (unique_keys [] keys)
  answers alloc d' (out_int alloc out n)

-- Behind a first key, all keys that are different from it are dropped.
unique_keys-first :
    (k : List ℕ) (keys : List (List ℕ))
    → All (λ x. same_bytes x k ≡ false) keys
    → unique_keys (k ∷ []) keys ≡ k ∷ []
unfolding unique_keys found_in
unique_keys-first k [] v = refl
unique_keys-first k (x ∷ keys) v = rw v.0 (unique_keys-first k keys v.1)

found-Agrees :
    (d : Db) (k : List ℕ) (o : Option (HNode ℕ)) (x : Option (List ℕ))
    → Looked d k o
    → Agrees d k x
    → is_there o ≡ is_there x
found-Agrees d k _ none (Looked.absent no_entry) agrees = refl
found-Agrees d k _ (some w) (Looked.absent no_entry) (e, maps, _, _) = absurd (no_entry e maps)
found-Agrees d k _ none (Looked.there n e here has same) agrees =
    absurd (agrees e (n.item, here, has, same))
found-Agrees d k _ (some w) (Looked.there n e here has same) agrees = refl

count_one :
    (d d' : Db) (k : List ℕ) (o : Option (HNode ℕ))
    → lookup_entry d k ≡ ok (o, d')
    → count_existing d (k ∷ []) ≡ ok (is_there o, d')
unfolding count_existing exists_key
count_one d d' k none run = cc
count_one d d' k (some n) run = cc

exists_run :
    (alloc : ℕ → Bool) (d d' : Db) (k : List ℕ) (keys : List (List ℕ)) (n : ℕ) (out : Handle)
    → All (λ x. same_bytes x k ≡ false) keys
    → count_existing d (k ∷ []) ≡ ok (n, d')
    → do_exists alloc d (k ∷ keys) out ≡ answers alloc d' (out_int alloc out n)
unfolding do_exists unique_keys found_in
exists_run alloc d d' k keys n out v run = rw (unique_keys-first k keys v, run) refl

module _ (alloc : ℕ → Bool) (given : (n : ℕ) → alloc n ≡ true) where
  -- On a well-formed database that stands for `σ`, and as long as allocations succeed, `do_exists` of a
  -- key and of others that are all different from it answers 1 where the map has the first key and 0
  -- where it does not: the other keys are not counted. It leaves a well-formed database that stands
  -- for `σ`.
  pub do_exists-first :
      (d : Db) (k : List ℕ) (keys : List (List ℕ)) (σ : List ℕ → Option (List ℕ)) (out : LiteString)
      → IsDb d
      → Represents d σ
      → All (λ x. same_bytes x k ≡ false) keys
      → Append.IsValid out
      → out.size + length (encode (Reply.int (is_there (σ k)))) ≤ 2 ^ 62
      → Served (do_exists alloc d (k ∷ keys) (some out)) out (Reply.int (is_there (σ k))) σ
  do_exists-first d k keys σ out v r others valid room =
      let (o, m, run, kept, looked) = lookup_entry-Looked d k v in
      let d' : Db = record d { db = m } in
      let n = found-Agrees d k o (σ k) looked (r k) in
      let (out', d'', run', valid', all, v', r') =
        answered alloc given d' σ (λ s. out_int alloc s (is_there (σ k))) out
          (Reply.int (is_there (σ k))) (out_int-Writes alloc given (is_there (σ k))) valid room
          (IsDb-kept d m kept v) (Represents-kept d m kept σ r) in
      let counted = count_one d d' k o run in
      (
        out',
        d'',
        exists_run alloc d d' k keys (is_there o) (some out) others counted
            ∙ ap (λ j. answers alloc d' (out_int alloc (some out) j)) n
            ∙ run',
        valid',
        all,
        v',
        r',
      )
