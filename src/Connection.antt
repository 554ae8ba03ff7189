-- ===== src/Connection.antt =====
-- A connection of server.c: `try_one_request` to `connection_io`. What the calls of `read` and
-- `write` answer is a list of events that is taken from the front; where it is used up, a call would
-- block. `read` gives at most the bytes that it is asked for, and `write` takes at most the bytes
-- that it is given. `do_request` is the handler of a command on a database of any type `D`.
-- A read of `parse_req` that leaves `rbuf` is a fault.
pub mod Buffers
pub mod Flush
pub mod Overrun
use cachetron.Prelude.{
  ℕ, zero, suc, ◌+◌, ◌-◌, ◌*◌, ◌%◌, ◌^◌, Bool, true, false, Option, none, some, List, [], ◌∷◌, ◌++◌,
}
use cachetron.Prelude.{
  ltb, leb, ◌==◌, if◌then◌else◌, add_size, sub_size, length, take, drop, replicate,
}
use cachetron.Prelude.Memory.{read_range, write_range, memmove}
use cachetron.Prelude.Result.{Result, ok, fault, assertion, diverged, ◌>>=◌, deref}
use cachetron.LiteString.{Handle, string_new, string_length, string_clear}
use cachetron.Wire.{bytes_of, read_word}
use cachetron.Wire.Request.{k_max_msg, parse_req}
use cachetron.Wire.Response.{out_err}

pub data State : Type 0 where
  state_req state_res state_end : State

pub record Conn : Type 0 where
  pub fd : ℕ
  pub state : State
  pub idle_start : ℕ
  pub rbuf_size : ℕ
  pub wbuf_size : ℕ
  pub wbuf_sent : ℕ
  pub rbuf : List ℕ
  pub wbuf : List ℕ

-- The size of each buffer, `4 + k_max_msg`.
abbrev pub buf_size : ℕ
buf_size = 4100

-- The `fd` is the word of -1.
abbrev pub conn_init : Conn
conn_init = record {
  fd = 2 ^ 32 - 1;
  state = state_end;
  idle_start = 0;
  rbuf_size = 0;
  wbuf_size = 0;
  wbuf_sent = 0;
  rbuf = replicate buf_size 0;
  wbuf = replicate buf_size 0;
}

abbrev pub is_req : State → Bool
is_req state_req = true
is_req state_res = false
is_req state_end = false

-- What a call of `write` answers: a number of bytes, EAGAIN, another error, or EINTR.
pub data WriteEvent : Type 0 where
  wrote : ℕ → WriteEvent
  write_again write_failed write_interrupted : WriteEvent

-- What a call of `read` answers: bytes, none at the end of the stream.
pub data ReadEvent : Type 0 where
  got : List ℕ → ReadEvent
  read_again read_failed read_interrupted : ReadEvent

abbrev pub at_most : ℕ → ℕ → ℕ
at_most a b = if leb a b then a else b

-- The end of `try_flush_buffer`, with the bytes that `write` took.
pub flushed : Conn → List ℕ → Result (Bool × Conn × List ℕ)
flushed c bytes =
    let sent = add_size c.wbuf_sent (length bytes) in
    if leb sent c.wbuf_size
    then (if sent == c.wbuf_size
        then ok (false, record c { state = state_req; wbuf_sent = 0; wbuf_size = 0 }, bytes)
        else ok (true, record c { wbuf_sent = sent }, bytes))
    else fault assertion

-- A call that was interrupted is made again.
pub try_flush_buffer : WriteEvent → Conn → Result (Bool × Conn × List ℕ)
unfolding flushed
try_flush_buffer write_interrupted c = ok (true, c, [])
try_flush_buffer write_again c = ok (false, c, [])
try_flush_buffer write_failed c = ok (false, record c { state = state_end }, [])
try_flush_buffer (wrote n) c = do
  bytes ← read_range c.wbuf c.wbuf_sent (at_most n (sub_size c.wbuf_size c.wbuf_sent))
  flushed c bytes

-- The function `state_res`: the connection, the bytes that went out, and the events left.
unfoldable pub flush_all : List WriteEvent → Conn → Result (Conn × List ℕ × List WriteEvent)
unfolding try_flush_buffer
flush_all [] c = ok (c, [], [])
flush_all (ev ∷ evs) c = do
  (more, c', bytes) ← try_flush_buffer ev c
  let rest = flush_all evs c' >>= λ (c'', after, left). ok (c'', bytes ++ after, left)
  if more then rest else ok (c', bytes, evs)

-- "Response is too big", with its terminator
abbrev pub too_big : List ℕ
too_big =
    82 ∷ 101 ∷ 115 ∷ 112 ∷ 111 ∷ 110 ∷ 115 ∷ 101 ∷ 32 ∷ 105 ∷ 115 ∷ 32 ∷ 116 ∷ 111 ∷ 111 ∷ 32 ∷ 98
    ∷ 105 ∷ 103 ∷ 0 ∷ []

abbrev pub err_2big : ℕ
err_2big = 2

-- The connection, the database, the answers of `write` to come, and the bytes that went out.
pub record World (D : Type 0) : Type 0 where
  pub conn : Conn
  pub db : D
  pub writes : List WriteEvent
  pub out : List ℕ

-- A response that does not fit the buffer becomes an error.
pub fit_response : (ℕ → Bool) → Handle → Result Handle
fit_response alloc out =
    if ltb k_max_msg (4 + string_length out)
    then (string_clear out >>= λ s. out_err alloc s err_2big too_big)
    else ok out

-- The response is packed into `wbuf`, and the request leaves `rbuf`.
pub pack : Conn → ℕ → List ℕ → Result Conn
pack c len bytes = do
  sized ← write_range c.wbuf 0 (bytes_of 4 (length bytes))
  wbuf ← write_range sized 4 bytes
  let remain = c.rbuf_size - 4 - len
  rbuf ← (if remain == 0 then ok c.rbuf else memmove c.rbuf 0 (4 + len) remain)
  ok (record c {
    wbuf = wbuf;
    wbuf_size = 4 + length bytes;
    rbuf = rbuf;
    rbuf_size = remain;
    state = state_res;
  })

module _ {D : Type 0} (alloc : ℕ → Bool)
    (do_request : D → List (List ℕ) → Handle → Result (Handle × D)) where
  -- The bytes of the response to a request.
  pub respond : D → List (List ℕ) → Result (List ℕ × D)
  unfolding fit_response
  respond d cmd = do
    (out, d') ← do_request d cmd (string_new alloc)
    out' ← fit_response alloc out
    s ← deref out'
    bytes ← read_range s.cells 0 s.size
    ok (bytes, d')

  abbrev pub ended : World D → Bool × World D
  ended w = (false, record w { conn = record w.conn { state = state_end } })

  -- The part of `try_one_request` behind `parse_req`.
  pub answer_request : World D → ℕ → Option (List (List ℕ)) → Result (Bool × World D)
  unfolding respond pack
  answer_request w len none = ok (ended w)
  answer_request w len (some cmd) = do
    (bytes, d') ← respond w.db cmd
    packed ← pack w.conn len bytes
    (c', sent, left) ← flush_all w.writes packed
    ok (is_req c'.state, record w { conn = c'; db = d'; writes = left; out = w.out ++ sent })

  unfoldable pub try_one_request : World D → Result (Bool × World D)
  unfolding answer_request
  try_one_request w =
      let c = w.conn in
      if ltb c.rbuf_size 4 then ok (false, w) else (do
        len ← read_word 4 c.rbuf 0
        let answered = parse_req (drop 4 c.rbuf) len >>= answer_request w len
        if ltb k_max_msg len
            then ok (ended w)
            else if ltb c.rbuf_size (4 + len)
            then ok (false, w)
            else answered)

  -- `while (try_one_request(conn))`, with the rounds that it may still take.
  unfoldable pub serve_all : ℕ → World D → Result (World D)
  unfolding try_one_request
  serve_all zero w = fault diverged
  serve_all (suc fuel) w = do
    (more, w') ← try_one_request w
    let rest = serve_all fuel w'
    if more then rest else ok w'

  -- The part of `try_fill_buffer` behind `read`.
  pub read_bytes : World D → List ℕ → Result (Bool × World D)
  unfolding serve_all
  read_bytes w [] = ok (ended w)
  read_bytes w (b ∷ bytes) = do
    let c = w.conn
    rbuf ← write_range c.rbuf c.rbuf_size (b ∷ bytes)
    let size = c.rbuf_size + length (b ∷ bytes)
    w' ←
        (if leb size buf_size
          then serve_all (size + 1) (record w { conn = record c { rbuf = rbuf; rbuf_size = size } })
          else fault assertion)
    ok (is_req w'.conn.state, w')

  unfoldable pub try_fill_buffer : ReadEvent → World D → Result (Bool × World D)
  unfolding read_bytes
  try_fill_buffer ev w =
      if ltb w.conn.rbuf_size buf_size
      then (elim ev [
        | read_interrupted ↦ ok (true, w)
        | read_again ↦ ok (false, w)
        | read_failed ↦ ok (ended w)
        | got bytes ↦ read_bytes w (take (buf_size - w.conn.rbuf_size) bytes)
      ])
      else fault assertion

  -- The function `state_req`, with the events that it leaves.
  unfoldable pub read_all : List ReadEvent → World D → Result (World D × List ReadEvent)
  unfolding try_fill_buffer
  read_all [] w = ok (w, [])
  read_all (ev ∷ evs) w = do
    (more, w') ← try_fill_buffer ev w
    let rest = read_all evs w'
    if more then rest else ok (w', evs)

  abbrev pub touched : ℕ → World D → World D
  touched now w = record w { conn = record w.conn { idle_start = now } }

  -- The function `state_res` on the world.
  pub send_all : World D → Result (World D)
  send_all w = do
    (c', sent, left) ← flush_all w.writes w.conn
    ok (record w { conn = c'; writes = left; out = w.out ++ sent })

  -- The branches of `connection_io`. `none` stands for the exit of `die`.
  pub io_in : State → List ReadEvent → World D → Result (Option (World D × List ReadEvent))
  unfolding read_all send_all
  io_in state_req evs w = read_all evs w >>= λ r. ok (some r)
  io_in state_res evs w = send_all w >>= λ w'. ok (some (w', evs))
  io_in state_end evs w = ok none

  -- `connection_io` at the time `now`, without the ring of idle connections.
  unfoldable pub connection_io :
      ℕ → List ReadEvent → World D → Result (Option (World D × List ReadEvent))
  unfolding io_in
  connection_io now evs w = io_in w.conn.state evs (touched now w)
