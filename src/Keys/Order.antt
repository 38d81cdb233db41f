-- ===== src/Keys/Order.antt =====
-- The order of the rows, which is what an eviction scan walks: bytewise, as RocksDB's default
-- comparator documents.
use native.Mathlib.Nat.{pow-suc}
use mathlib.Core.List.{append_assoc}
use ocache.Base.{
  Bool, Bool-cases, Bytes, [], arith, false, inl, inr, length, ltb, refl, suc, sym, true, zero, ℕ,
  ◌%◌, ◌&&◌, ◌++◌, ◌+◌, ◌/◌, ◌<◌, ◌==◌, ◌^◌, ◌||◌, ◌∙◌, ◌∷◌, ◌≡◌, ◌⊎◌,
}
use ocache.Keys.Format.{
  access_bucket_prefix, fifo_index_prefix, make_bucketed_access_key, make_fifo_index_key,
}
use ocache.Keys.Text.{int64_limit, pad_decimal}

-- Bytewise lexicographic `<`.
unfoldable pub lex_lt : Bytes → Bytes → Bool
lex_lt xs [] = false
lex_lt [] (y ∷ ys) = true
lex_lt (x ∷ xs) (y ∷ ys) = ltb x y || ((x == y) && lex_lt xs ys)

lex_lt-append : (p xs ys : Bytes) → lex_lt (p ++ xs) (p ++ ys) ≡ lex_lt xs ys
unfolding lex_lt
lex_lt-append [] xs ys = refl
lex_lt-append (c ∷ p) xs ys = ground (arith, lex_lt-append p xs ys)

lex_lt-head : {x y : ℕ} (xs ys : Bytes) → x < y → lex_lt (x ∷ xs) (y ∷ ys) ≡ true
unfolding lex_lt
lex_lt-head xs ys h = ground arith

-- A difference between words of one length decides, whatever follows them.
lex_lt-append_right :
    (p q xs ys : Bytes)
    → length p ≡ length q
    → lex_lt p q ≡ true
    → lex_lt (p ++ xs) (q ++ ys) ≡ true
unfolding lex_lt
lex_lt-append_right [] [] xs ys e h = cc
lex_lt-append_right [] (d ∷ q) xs ys e h = absurd (omega arith)
lex_lt-append_right (c ∷ p) [] xs ys e h = absurd (omega arith)
lex_lt-append_right (c ∷ p) (d ∷ q) xs ys e h =
    let shorter : length p ≡ length q = omega arith in
    ground (arith, lex_lt-append_right p q xs ys shorter)

-- Numbers of one width sort as their digits do, whatever follows them.
pub lex_lt-pad_decimal :
    (w a b : ℕ) (xs ys : Bytes)
    → a < b
    → b < 10 ^ w
    → lex_lt (pad_decimal w a ++ xs) (pad_decimal w b ++ ys) ≡ true
unfolding pad_decimal
lex_lt-pad_decimal zero a b xs ys h r = absurd (omega arith)
lex_lt-pad_decimal (suc w) a b xs ys h r =
    let da : ℕ = b'0' + a % 10 in
    let db : ℕ = b'0' + b % 10 in
    rw
      (
        append_assoc (pad_decimal w (a / 10)) (da ∷ []) xs,
        append_assoc (pad_decimal w (b / 10)) (db ∷ []) ys,
      )
      (elim (Bool-cases (ltb (a / 10) (b / 10))) [
        | inl less ↦
            lex_lt-pad_decimal w (a / 10) (b / 10) (da ∷ xs) (db ∷ ys) (ground arith)
              (omega (arith, pow-suc 10 w))
        | inr same ↦
            let e : a / 10 ≡ b / 10 = ground arith in
            rw e (
              lex_lt-append (pad_decimal w (b / 10)) (da ∷ xs) (db ∷ ys)
              ∙ lex_lt-head xs ys (omega arith))
      ])

-- The FIFO index is walked oldest written first, whatever the two user keys are.
pub make_fifo_index_key-lex_lt :
    (k l : Bytes) (t u : ℕ)
    → t < u
    → u < int64_limit
    → lex_lt (make_fifo_index_key k t) (make_fifo_index_key l u) ≡ true
unfolding make_fifo_index_key
make_fifo_index_key-lex_lt k l t u h r =
    lex_lt-append fifo_index_prefix _ _
    ∙ lex_lt-pad_decimal 19 t u (b'/' ∷ k) (b'/' ∷ l) h (omega arith)

module _ (format_hour : ℕ → Bytes) (hour_digits : (t : ℕ) → length (format_hour t) ≡ 10)
    (hours_in_order : (t u : ℕ)
      → t < u
      → (format_hour t ≡ format_hour u) ⊎ (lex_lt (format_hour t) (format_hour u) ≡ true)) where
  -- Where the hours' names sort as the hours do (a zone with no clock changes), the access index is
  -- walked from the least recently used key on.
  pub make_bucketed_access_key-lex_lt :
      (k l : Bytes) (t u : ℕ)
      → t < u
      → u < int64_limit
      → lex_lt (make_bucketed_access_key format_hour k t) (make_bucketed_access_key format_hour l u)
        ≡ true
  unfolding make_bucketed_access_key
  make_bucketed_access_key-lex_lt k l t u h r =
      let x : Bytes = pad_decimal 19 t ++ b'/' ∷ k in
      let y : Bytes = pad_decimal 19 u ++ b'/' ∷ l in
      let tail : lex_lt x y ≡ true =
        lex_lt-pad_decimal 19 t u (b'/' ∷ k) (b'/' ∷ l) h (omega arith) in
      let hour : ℕ → Bytes = λ n. format_hour n ++ b'/' ∷ [] in
      lex_lt-append access_bucket_prefix (hour t ++ x) (hour u ++ y) ∙ elim (hours_in_order t u h) [
        | inl e ↦ rw e (lex_lt-append (hour u) x y ∙ tail)
        | inr e ↦
            rw (append_assoc (format_hour t), append_assoc (format_hour u))
              (lex_lt-append_right (format_hour t) (format_hour u) _ _
                (hour_digits t ∙ sym (hour_digits u)) e)
      ]
