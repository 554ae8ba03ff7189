-- ===== src/Connection/Flush.antt =====
-- The states of a connection that sends a response.
use cachetron.Prelude.{ℕ, ◌+◌, ◌-◌, ◌≤◌, ◌≡◌, refl, sym, ap, ◌∙◌, inl, inr}
use cachetron.Prelude.{true, false, List, [], ◌∷◌, ◌++◌, arith, leb, ◌==◌, if◌then◌else◌, eqb→eq}
use cachetron.Prelude.{add_size, sub_size, length, take, drop, Bool-cases, le→leb, leb→le}
use cachetron.Prelude.{append_assoc, append-nil}
use cachetron.Prelude.Memory.{length-take, length-drop}
use cachetron.Prelude.Result.{ok}
use cachetron.Connection.Buffers.{take_add, drop_add}
use cachetron.Connection.{
  Conn, state_req, state_end, buf_size, WriteEvent, at_most, flushed, try_flush_buffer, flush_all,
}
use cachetron.Connection.{wrote, write_again, write_failed, write_interrupted}

-- The buffers have their sizes, and the last four bytes of `wbuf` are zero.
pub record IsConn (c : Conn) : Type 0 where
  pub read_width : length c.rbuf ≡ buf_size
  pub width : length c.wbuf ≡ buf_size
  pub read : c.rbuf_size ≤ buf_size
  pub sent : c.wbuf_sent ≤ c.wbuf_size
  pub fits : c.wbuf_size ≤ 4096
  pub ending : drop 4096 c.wbuf ≡ 0 ∷ 0 ∷ 0 ∷ 0 ∷ []

-- The bytes of the response that are still to go out.
abbrev pub pending : Conn → List ℕ
pending c = take (c.wbuf_size - c.wbuf_sent) (drop c.wbuf_sent c.wbuf)

abbrev pub at_rest : Conn → Conn
at_rest c = record c { state = state_req; wbuf_sent = 0; wbuf_size = 0 }

-- What the loop may leave: all is sent, the call would block, or the connection has failed.
pub data Flushed (c : Conn) (sent : List ℕ) : Conn → Type 0 where
  complete : sent ≡ pending c → Flushed c sent (at_rest c)
  waits :
      (n : ℕ)
      → c.wbuf_sent ≤ n
      → n ≤ c.wbuf_size
      → sent ++ pending (record c { wbuf_sent = n }) ≡ pending c
      → Flushed c sent (record c { wbuf_sent = n })
  broken :
      (n : ℕ) (lost : List ℕ)
      → c.wbuf_sent ≤ n
      → n ≤ c.wbuf_size
      → sent ++ lost ≡ pending c
      → Flushed c sent (record c { state = state_end; wbuf_sent = n })

-- What was sent, and what is left, are what was pending.
pending_add :
    (c : Conn) (n : ℕ)
    → c.wbuf_sent + n ≤ c.wbuf_size
    → take n (drop c.wbuf_sent c.wbuf) ++ pending (record c { wbuf_sent = c.wbuf_sent + n })
      ≡ pending c
pending_add c n inside =
    let all : c.wbuf_size - c.wbuf_sent ≡ n + (c.wbuf_size - (c.wbuf_sent + n)) = omega arith in
    sym (
      ap (λ k. take k (drop c.wbuf_sent c.wbuf)) all
      ∙ take_add n (c.wbuf_size - (c.wbuf_sent + n)) (drop c.wbuf_sent c.wbuf)
      ∙ ap (λ l. take n (drop c.wbuf_sent c.wbuf) ++ take (c.wbuf_size - (c.wbuf_sent + n)) l)
          (sym (drop_add c.wbuf_sent n c.wbuf)))

-- Nothing is pending where all was sent.
pending_none :
    (c : Conn) (n : ℕ)
    → c.wbuf_sent + n ≡ c.wbuf_size
    → take n (drop c.wbuf_sent c.wbuf) ≡ pending c
pending_none c n e =
    let none_left : c.wbuf_size - (c.wbuf_sent + n) ≡ 0 = omega arith in
    sym (append-nil (take n (drop c.wbuf_sent c.wbuf)))
    ∙ sym (
        ap (λ k. take n (drop c.wbuf_sent c.wbuf) ++ take k (drop (c.wbuf_sent + n) c.wbuf))
          none_left)
    ∙ pending_add c n (omega arith)

at_most-le : (a b : ℕ) → at_most a b ≤ b
at_most-le a b = elim (Bool-cases (leb a b)) [
  | inl e ↦ rw e (leb→le _ _ e)
  | inr e ↦ rw e (omega arith)
]

-- A call that takes `n` bytes.
took :
    (c : Conn) (n : ℕ)
    → IsConn c
    → (r : ℕ) × (c.wbuf_sent + r ≤ c.wbuf_size)
      × (try_flush_buffer (wrote n) c ≡ (
          if c.wbuf_sent + r == c.wbuf_size
          then ok (false, at_rest c, take r (drop c.wbuf_sent c.wbuf))
          else ok
              (true, record c { wbuf_sent = c.wbuf_sent + r }, take r (drop c.wbuf_sent c.wbuf))))
unfolding try_flush_buffer flushed
took c n v =
    let r = at_most n (sub_size c.wbuf_size c.wbuf_sent) in
    let few : r ≤ c.wbuf_size - c.wbuf_sent =
      omega (arith, at_most-le n (sub_size c.wbuf_size c.wbuf_sent), v.sent, v.fits) in
    let inside : leb (c.wbuf_sent + r) (length c.wbuf) ≡ true =
      le→leb _ _ (omega (arith, v.width, v.fits, v.sent)) in
    let width : length (take r (drop c.wbuf_sent c.wbuf)) ≡ r =
      length-take r (drop c.wbuf_sent c.wbuf)
        (omega (arith, length-drop c.wbuf_sent c.wbuf, v.width, v.fits, v.sent)) in
    let plain : add_size c.wbuf_sent (length (take r (drop c.wbuf_sent c.wbuf))) ≡ c.wbuf_sent + r =
      omega (arith, v.fits, v.sent) in
    let held : leb (c.wbuf_sent + r) c.wbuf_size ≡ true = le→leb _ _ (omega (arith, v.sent)) in
    (r, omega (arith, v.sent), rw (inside, plain, held))

-- What a call took goes out before what the next calls take.
Flushed-after :
    (c : Conn) (r : ℕ) (sent : List ℕ) (c' : Conn)
    → c.wbuf_sent + r ≤ c.wbuf_size
    → Flushed (record c { wbuf_sent = c.wbuf_sent + r }) sent c'
    → Flushed c (take r (drop c.wbuf_sent c.wbuf) ++ sent) c'
Flushed-after c r sent _ inside (complete all) =
    complete (ap (λ l. take r (drop c.wbuf_sent c.wbuf) ++ l) all ∙ pending_add c r inside)
Flushed-after c r sent _ inside (waits n low high all) = waits n (omega arith) high (
    append_assoc (take r (drop c.wbuf_sent c.wbuf)) sent (pending (record c { wbuf_sent = n }))
    ∙ ap (λ l. take r (drop c.wbuf_sent c.wbuf) ++ l) all
    ∙ pending_add c r inside)
Flushed-after c r sent _ inside (broken n lost low high all) = broken n lost (omega arith) high (
    append_assoc (take r (drop c.wbuf_sent c.wbuf)) sent lost
    ∙ ap (λ l. take r (drop c.wbuf_sent c.wbuf) ++ l) all
    ∙ pending_add c r inside)

-- Whatever `write` answers, the function `state_res` ends, its assert does not fail, and it reads
-- within `wbuf`. The bytes that it sends are those that were pending, in order: all of them, and then
-- the connection waits for a request with nothing pending; or the rest is pending still, or the
-- connection has failed.
pub flush_all-Flushed :
    (evs : List WriteEvent) (c : Conn)
    → IsConn c
    → (c' : Conn) × (sent : List ℕ) × (left : List WriteEvent) × (flush_all evs c
        ≡ ok (c', sent, left))
      × Flushed c sent c'
unfolding flush_all
flush_all-Flushed [] c v = (c, [], [], refl, waits c.wbuf_sent (omega arith) v.sent refl)
flush_all-Flushed (write_interrupted ∷ evs) c v =
    let (c', sent, left, run, f) = flush_all-Flushed evs c v in (c', sent, left, rw run, f)
flush_all-Flushed (write_again ∷ evs) c v =
    (c, [], evs, refl, waits c.wbuf_sent (omega arith) v.sent refl)
flush_all-Flushed (write_failed ∷ evs) c v = (
  record c { state = state_end },
  [],
  evs,
  refl,
  broken c.wbuf_sent (pending c) (omega arith) v.sent refl,
)
flush_all-Flushed (wrote n ∷ evs) c v =
    let (r, inside, run) = took c n v in
    elim (Bool-cases (c.wbuf_sent + r == c.wbuf_size)) [
      | inl all ↦ (
        at_rest c,
        take r (drop c.wbuf_sent c.wbuf),
        evs,
        rw (run, all),
        complete (pending_none c r (eqb→eq _ _ all)),
      )
      | inr more ↦
          let c₁ : Conn = record c { wbuf_sent = c.wbuf_sent + r } in
          let v₁ : IsConn c₁ = record {
            read_width = v.read_width;
            width = v.width;
            read = v.read;
            sent = inside;
            fits = v.fits;
            ending = v.ending;
          } in
          let (c', sent, left, run', f) = flush_all-Flushed evs c₁ v₁ in
          (
            c',
            take r (drop c.wbuf_sent c.wbuf) ++ sent,
            left,
            rw (run, more, run'),
            Flushed-after c r sent c' inside f,
          )
    ]
