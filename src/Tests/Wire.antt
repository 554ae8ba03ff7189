-- ===== src/Tests/Wire.antt =====
-- The wire protocol at `get k`, and at bytes that are no request.
use cachetron.Prelude.{ℕ, ◌+◌, ◌≤◌, ◌≡◌, refl, arith, List, [], ◌∷◌, ◌++◌, some}
use cachetron.Prelude.{length}
use cachetron.Prelude.Result.{ok}
use cachetron.Wire.{bytes_of, strlen}
use cachetron.Wire.Words.{HasNul}
use cachetron.Wire.Request.{parse_req, send_req, write_args, k_max_msg}
use cachetron.Wire.Request.RoundTrip.{IsText, send_req-parse_req}
use cachetron.Wire.Request.Safety.{Ends, parse_req-Ends}

-- "get"
abbrev get_text : List ℕ
get_text = 103 ∷ 101 ∷ 116 ∷ []

get_text-IsText : IsText get_text
get_text-IsText = ((λ e. omega arith), ((λ e. omega arith), ((λ e. omega arith), tt)))

zero-HasNul : HasNul (0 ∷ [])
unfolding strlen
zero-HasNul = (0, refl)

few : 4 + length (write_args (get_text ∷ get_text ∷ [])) ≤ k_max_msg
unfolding write_args
few = omega arith

send_req-parse_req_example :
    (body : List ℕ) × (send_req (get_text ∷ get_text ∷ [])
      ≡ ok (some (bytes_of 4 (length body) ++ body)))
    × (parse_req (body ++ 0 ∷ []) (length body) ≡ ok (some (get_text ∷ get_text ∷ [])))
send_req-parse_req_example =
    send_req-parse_req (get_text ∷ get_text ∷ []) (0 ∷ []) (get_text-IsText, (get_text-IsText, tt))
      zero-HasNul few

parse_req-Ends_example : Ends (parse_req ((1 ∷ 0 ∷ 0 ∷ 0 ∷ 9 ∷ []) ++ 0 ∷ []) 5)
parse_req-Ends_example = parse_req-Ends (1 ∷ 0 ∷ 0 ∷ 0 ∷ 9 ∷ []) (0 ∷ []) zero-HasNul
