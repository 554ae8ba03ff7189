-- ===== src/Tests/Connection.antt =====
-- A connection that sends a response, and one whose buffer is full.
use cachetron.Prelude.{
  ℕ, zero, suc, ◌≡◌, refl, List, [], ◌∷◌, ◌++◌, arith, replicate, length-replicate, Bool, true,
}
use cachetron.Prelude.Result.{Result, ok, fault, out_of_bounds}
use cachetron.LiteString.{Handle}
use cachetron.Wire.{bytes_of}
use cachetron.Wire.Request.RoundTrip.{IsText}
use cachetron.Connection.{Conn, State, WriteEvent, World, conn_init, flush_all, try_one_request}
use cachetron.Connection.Overrun.{try_one_request-overrun}
use cachetron.Connection.Flush.{IsConn, Flushed, flush_all-Flushed}

abbrev alloc : ℕ → Bool
alloc n = true

-- A connection that has six bytes to send, of which one went out.
abbrev sending : Conn
sending = record conn_init {
  state = State.state_res;
  wbuf = 2 ∷ 0 ∷ 0 ∷ 0 ∷ 7 ∷ 8 ∷ replicate 4094 0;
  wbuf_size = 6;
  wbuf_sent = 1;
}

sending-IsConn : IsConn sending
sending-IsConn = record {
  read_width = refl;
  width = refl;
  read = omega arith;
  sent = omega arith;
  fits = omega arith;
  ending = refl;
}

abbrev writes : List WriteEvent
writes = WriteEvent.wrote 3 ∷ WriteEvent.write_interrupted ∷ WriteEvent.wrote 9 ∷ []

flush_all-Flushed_example :
    (c' : Conn) × (sent : List ℕ) × (left : List WriteEvent) × (flush_all writes sending
      ≡ ok (c', sent, left))
    × Flushed sending sent c'
flush_all-Flushed_example = flush_all-Flushed writes sending sending-IsConn

abbrev long_text : List ℕ
long_text = replicate 4088 97

replicate-IsText : (n : ℕ) → IsText (replicate n 97)
replicate-IsText zero = tt
replicate-IsText (suc n) = ((λ e. omega arith), replicate-IsText n)

abbrev no_request : ℕ → List (List ℕ) → Handle → Result (Handle × ℕ)
no_request d cmd out = ok (out, d)

-- The buffer of `full_world`.
abbrev full_buffer : List ℕ
full_buffer = bytes_of 4 4096 ++ (bytes_of 4 1 ++ (bytes_of 4 4088 ++ long_text))

abbrev full_world : World ℕ
full_world = record {
  conn = record conn_init { state = State.state_req; rbuf_size = 4100; rbuf = full_buffer };
  db = 0;
  writes = [];
  out = [];
}

try_one_request-overrun_example : try_one_request alloc no_request full_world ≡ fault out_of_bounds
try_one_request-overrun_example =
    try_one_request-overrun alloc no_request full_world long_text (replicate-IsText 4088)
      (length-replicate {A = ℕ} 4088 97) refl refl
