-- ===== src/Client/RoundTrip.antt =====
-- What the server encodes, the client prints.
use cachetron.Prelude.{
  ℕ, zero, suc, ◌+◌, ◌-◌, ◌^◌, ◌≤◌, ◌<◌, ◌≡◌, refl, ◌∙◌, List, [], ◌∷◌, ◌++◌, arith,
}
use cachetron.Prelude.{true, false, length, length-append, Option, some, map, All, ltb, ◌==◌}
use cachetron.Prelude.Result.{ok}
use cachetron.Wire.{bytes_of, word_of}
use cachetron.Wire.Words.{word_of-bytes_of}
use cachetron.Wire.Request.{k_max_msg}
use cachetron.Wire.Response.Encode.{
  Reply, Replies, nil, err, str, int, dbl, arr, end, more, count_replies, encode, encode_all,
}
use cachetron.Client.{
  Printed, p_arr_end, process_flat, process_tag, process_response, process_items, read_full,
  read_res, is_below_zero,
}
use cachetron.Client.Transfer.{joined, read_full-joined}
use cachetron.Client.Process.{
  process_str_run, process_err_run, process_int_run, process_dbl_run, process_tag_run,
  process_arr_run,
}
use cachetron.Client.Items.{
  printed, printed_all, Fits, FitAll, levels, levels_all, encode-not_empty, length-more,
  count-encode_all, sized, items_more, items_end,
}

mutual
  unfolding encode encode_all printed printed_all Fits FitAll levels levels_all count_replies
      process_flat process_tag

  print_reply :
      (r : Reply) (depth : ℕ) (rest : List ℕ) (size : ℕ)
      → levels r < depth
      → Fits r
      → length (encode r) ≤ size
      → length (encode r) < 2 ^ 31
      → size < 2 ^ 64
      → process_response depth (encode r ++ rest) size ≡ ok (printed r, length (encode r))
  print_reply r zero rest size deep fits there small word = absurd (omega arith)
  print_reply nil (suc depth) rest size deep fits there small word =
      process_tag_run depth 0 rest size there
  print_reply (err code text) (suc depth) rest size deep fits there small word =
      process_tag_run depth 1 (bytes_of 4 code ++ (bytes_of 4 (length text) ++ (text ++ rest))) size
        (omega arith)
      ∙ sized
          (process_flat 1 (1 ∷ (bytes_of 4 code ++ (bytes_of 4 (length text) ++ (text ++ rest))))
            size)
          (printed (err code text)) (9 + length text) (length (encode (err code text)))
          (process_err_run code text rest size fits (omega arith) (omega arith)) (omega arith)
  print_reply (str text) (suc depth) rest size deep fits there small word =
      process_tag_run depth 2 (bytes_of 4 (length text) ++ (text ++ rest)) size (omega arith)
      ∙ sized (process_flat 2 (2 ∷ (bytes_of 4 (length text) ++ (text ++ rest))) size)
          (printed (str text)) (5 + length text) (length (encode (str text)))
          (process_str_run text rest size (omega arith) (omega arith)) (omega arith)
  print_reply (int n) (suc depth) rest size deep fits there small word =
      process_tag_run depth 3 (bytes_of 8 n ++ rest) size (omega arith)
      ∙ process_int_run n rest size fits there
  print_reply (dbl n) (suc depth) rest size deep fits there small word =
      process_tag_run depth 4 (bytes_of 8 n ++ rest) size (omega arith)
      ∙ process_dbl_run n rest size fits there
  print_reply (arr rs) (suc depth) rest size deep fits there small word =
      let count = count-encode_all rs in
      let run =
        print_items rs depth (5 ∷ bytes_of 4 (count_replies rs)) rest size (omega arith) fits
          (omega arith) (omega arith) word in
      process_tag_run depth 5 (bytes_of 4 (count_replies rs) ++ (encode_all rs ++ rest)) size
        (omega arith)
      ∙ process_arr_run (process_response depth) (count_replies rs) (encode_all rs ++ rest) size
          (length (encode (arr rs))) (printed_all rs) (omega arith) (omega arith)
          (sized _ (printed_all rs) _ (length (encode (arr rs))) run (omega arith))

  print_items :
      (rs : Replies) (depth : ℕ) (pre rest : List ℕ) (size : ℕ)
      → levels_all rs < depth
      → FitAll rs
      → length pre + length (encode_all rs) ≤ size
      → length pre + length (encode_all rs) < 2 ^ 31
      → size < 2 ^ 64
      → process_items
          (process_response depth)
          (count_replies rs)
          (pre ++ (encode_all rs ++ rest))
          size
          (length pre)
        ≡ ok (printed_all rs, length pre + length (encode_all rs))
  print_items end depth pre rest size deep fits there small word =
      sized _ (p_arr_end ∷ []) (length pre) _
        (items_end (process_response depth) (pre ++ rest) size (length pre) (omega arith))
        (omega arith)
  print_items (more r rs) depth pre rest size deep fits there small word =
      let both = length-more r rs in
      let longer = length-append pre (encode r) in
      sized _ (printed r ++ printed_all rs) (length (pre ++ encode r) + length (encode_all rs)) _
        (items_more (process_response depth) (count_replies rs) size _ pre (encode r)
          (encode_all rs) rest (printed r) (printed_all rs) (omega arith) (omega arith) word
          (print_reply r depth (encode_all rs ++ rest) (size - length pre) (omega arith) fits.0
            (omega arith) (omega arith) (omega arith))
          (print_items rs depth (pre ++ encode r) rest size (omega arith) fits.1 (omega arith)
            (omega arith) word))
        (omega arith)

read_res_run :
    (depth : ℕ) (reads reads₁ reads₂ : List (Option (List ℕ))) (rest word bytes : List ℕ)
    (out : List Printed)
    → read_full reads 4 ≡ ok (some word, reads₁)
    → word_of word ≡ length bytes
    → 1 ≤ length bytes
    → length bytes ≤ k_max_msg
    → read_full reads₁ (length bytes) ≡ ok (some bytes, reads₂)
    → process_response depth (bytes ++ rest) (length bytes) ≡ ok (out, length bytes)
    → read_res depth reads rest ≡ ok (out, length bytes)
unfolding read_res
read_res_run depth reads reads₁ reads₂ rest word bytes out header len some_bytes fits body run =
    let short : ltb k_max_msg (length bytes) ≡ false = ground arith in
    let positive : is_below_zero (length bytes) ≡ false = ground arith in
    let same : (length bytes == length bytes) ≡ true = ground arith in
    let above : ltb 0 (length bytes) ≡ true = ground arith in cc

read_chunks :
    (chunks : List (List ℕ)) (later : List (Option (List ℕ))) (bytes : List ℕ) (n : ℕ)
    → All (λ chunk. 0 < length chunk) chunks
    → joined chunks ≡ bytes
    → length bytes ≡ n
    → read_full (map some chunks ++ later) n ≡ ok (some bytes, later)
read_chunks chunks later bytes n v e len = let run = read_full-joined chunks later v in cc

-- The server sends a reply of at most `k_max_msg` bytes with its length in front, and the reads of the
-- client cut what it sends in any way, none of them empty. Then `read_res` prints the reply, text up to
-- a zero byte, with its arrays to any depth, and returns the number of bytes of the reply, whatever
-- the buffer holds behind them. As many levels as the reply has and one more are enough.
pub read_res-encode :
    (r : Reply) (depth : ℕ) (header body : List (List ℕ)) (later : List (Option (List ℕ)))
    (rest : List ℕ)
    → All (λ chunk. 0 < length chunk) header
    → All (λ chunk. 0 < length chunk) body
    → joined header ≡ bytes_of 4 (length (encode r))
    → joined body ≡ encode r
    → length (encode r) ≤ k_max_msg
    → levels r < depth
    → Fits r
    → read_res depth (map some header ++ (map some body ++ later)) rest
      ≡ ok (printed r, length (encode r))
read_res-encode r depth header body later rest v w e e' small deep fits =
    read_res_run depth (map some header ++ (map some body ++ later)) (map some body ++ later) later
      rest (bytes_of 4 (length (encode r))) (encode r) (printed r)
      (read_chunks header (map some body ++ later) (bytes_of 4 (length (encode r))) 4 v e refl)
      (word_of-bytes_of 4 (length (encode r)) (omega arith)) (encode-not_empty r) small
      (read_chunks body later (encode r) (length (encode r)) w e' refl)
      (print_reply r depth rest (length (encode r)) deep fits (omega arith) (omega arith)
        (omega arith))
