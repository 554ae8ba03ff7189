-- ===== src/Tests/Client.antt =====
-- An array of one nil, read in two pieces.
use cachetron.Prelude.{ℕ, ◌<◌, ◌≤◌, ◌≡◌, refl, List, [], ◌∷◌, ◌++◌, arith, map, some, length}
use cachetron.Prelude.Result.{ok}
use cachetron.Wire.{bytes_of}
use cachetron.Wire.Response.Encode.{Reply, nil, arr, end, more, encode}
use cachetron.Wire.Request.{k_max_msg}
use cachetron.Client.{read_res}
use cachetron.Client.Transfer.{joined}
use cachetron.Client.Items.{printed, levels, Fits}
use cachetron.Client.RoundTrip.{read_res-encode}

abbrev reply : Reply
reply = arr (more nil end)

abbrev header : List (List ℕ)
header = (6 ∷ 0 ∷ []) ∷ (0 ∷ 0 ∷ []) ∷ []

abbrev body : List (List ℕ)
body = (5 ∷ 1 ∷ []) ∷ (0 ∷ 0 ∷ 0 ∷ 0 ∷ []) ∷ []

header_bytes : joined header ≡ bytes_of 4 (length (encode reply))
unfolding encode
header_bytes = refl

body_bytes : joined body ≡ encode reply
unfolding encode
body_bytes = refl

short : length (encode reply) ≤ k_max_msg
unfolding encode
short = omega arith

flat : levels reply < 2
unfolding levels
flat = omega arith

reply-Fits : Fits reply
unfolding Fits
reply-Fits = (tt, tt)

read_res-encode_example :
    read_res 2 (map some header ++ (map some body ++ [])) []
    ≡ ok (printed reply, length (encode reply))
read_res-encode_example =
    read_res-encode reply 2 header body [] [] (omega arith, (omega arith, tt))
      (omega arith, (omega arith, tt)) header_bytes body_bytes short flat reply-Fits
