-- ===== src/Connection/Overrun.antt =====
-- A request that fills `rbuf` and has no zero byte at its end.
use cachetron.Prelude.{ℕ, ◌+◌, ◌≡◌, refl, sym, ap, ◌∙◌, Bool, List, [], ◌++◌, arith, length}
use cachetron.Prelude.Result.{Result, ok, fault, out_of_bounds}
use cachetron.LiteString.{Handle}
use cachetron.Wire.{bytes_of, read_word}
use cachetron.Wire.Words.{read_word_lem}
use cachetron.Wire.Request.{parse_req}
use cachetron.Wire.Request.RoundTrip.{IsText}
use cachetron.Wire.Request.Overrun.{parse_req-overrun}
use cachetron.Connection.{World, try_one_request}

-- Where the buffer of a connection is full with one request of one argument, of 4088 bytes of which
-- none is zero, `try_one_request` reads behind the end of the buffer, whatever handles requests.
pub try_one_request-overrun :
    {D : Type 0} (alloc : ℕ → Bool) (do_request : D → List (List ℕ) → Handle → Result (Handle × D))
    (w : World D) (s : List ℕ)
    → IsText s
    → length s ≡ 4088
    → w.conn.rbuf_size ≡ 4100
    → w.conn.rbuf ≡ bytes_of 4 4096 ++ (bytes_of 4 1 ++ (bytes_of 4 4088 ++ s))
    → try_one_request alloc do_request w ≡ fault out_of_bounds
unfolding try_one_request
try_one_request-overrun alloc do_request w s text size full held =
    let body = bytes_of 4 1 ++ (bytes_of 4 4088 ++ s) in
    let word : read_word 4 (bytes_of 4 4096 ++ body) 0 ≡ ok 4096 =
      read_word_lem 4 4096 [] body 0 refl (omega arith) in
    let read =
      ap (λ n. parse_req (bytes_of 4 1 ++ (bytes_of 4 n ++ s)) (8 + n)) (sym size)
      ∙ parse_req-overrun s text (omega arith) (omega arith) in
    rw (held, full, word, read) refl
