-- ===== src/Wire/Response/Encode.antt =====
-- What an answer says, and the bytes that stand for it.
use cachetron.Prelude.{ℕ, ◌+◌, List, [], ◌∷◌, ◌++◌, length}
use cachetron.Wire.{bytes_of}

mutual
  pub data Reply : Type 0 where
    nil : Reply
    err : ℕ → List ℕ → Reply
    str : List ℕ → Reply
    int : ℕ → Reply
    dbl : ℕ → Reply
    arr : Replies → Reply

  pub data Replies : Type 0 where
    end : Replies
    more : Reply → Replies → Replies

unfoldable pub count_replies : Replies → ℕ
count_replies end = 0
count_replies (more r rs) = count_replies rs + 1

unfoldable mutual
  unfolding count_replies

  pub encode : Reply → List ℕ
  encode nil = 0 ∷ []
  encode (err code text) = 1 ∷ (bytes_of 4 code ++ (bytes_of 4 (length text) ++ text))
  encode (str text) = 2 ∷ (bytes_of 4 (length text) ++ text)
  encode (int n) = 3 ∷ bytes_of 8 n
  encode (dbl n) = 4 ∷ bytes_of 8 n
  encode (arr rs) = 5 ∷ (bytes_of 4 (count_replies rs) ++ encode_all rs)

  pub encode_all : Replies → List ℕ
  encode_all end = []
  encode_all (more r rs) = encode r ++ encode_all rs
