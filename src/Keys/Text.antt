-- ===== src/Keys/Text.antt =====
-- What keys.go takes from Go's strings, bytes and fmt packages, over bytes: prefixes, the split at a
-- separator, fixed-width decimal numbers and their scanner.

use native.Mathlib.Nat.{pow-suc}
use mathlib.Core.List.{append_assoc, append-nil}
use ocache.Base.{
  Bool, Bytes, Option, [], arith, false, if◌then◌else◌, leb, length, length-append, ltb, none, refl,
  some, suc, true, zero, ℕ, ◌%◌, ◌&&◌, ◌*◌, ◌++◌, ◌+◌, ◌-◌, ◌/◌, ◌<◌, ◌==◌, ◌^◌, ◌||◌, ◌∙◌, ◌∷◌,
  ◌≡◌, ◌≤◌,
}
use ocache.Base.Int.{negsuc, pos, ℤ}

unfoldable pub has_prefix : Bytes → Bytes → Bool
has_prefix [] s = true
has_prefix (p ∷ ps) [] = false
has_prefix (p ∷ ps) (c ∷ s) = (p == c) && has_prefix ps s

-- The parts before and behind the first byte `sep` (SplitN at 2 parts, IndexByte).
unfoldable pub split_first : ℕ → Bytes → Option (Bytes × Bytes)
split_first sep [] = none
split_first sep (c ∷ s) =
    let rest = split_first sep s in
    if c == sep then some ([], s) else elim rest [ none ↦ none | some (a, b) ↦ some (c ∷ a, b) ]

-- `%0wd` of a number below 10 ^ w: exactly w digits.
unfoldable pub pad_decimal : ℕ → ℕ → Bytes
pad_decimal zero n = []
pad_decimal (suc w) n = pad_decimal w (n / 10) ++ (b'0' + n % 10) ∷ []

abbrev pub is_digit : ℕ → Bool
is_digit c = leb b'0' c && leb c b'9'

abbrev is_space : ℕ → Bool
is_space c = (c == 32) || ((c == 9) || ((c == 11) || ((c == 12) || (c == 13))))

-- fmt's SkipSpace over ASCII; a newline is an error.
skip_space : Bytes → Option Bytes
skip_space [] = some []
skip_space (c ∷ s) =
    let rest = skip_space s in if c == 10 then none else if is_space c then rest else some (c ∷ s)

-- The value of the leading digits, at most `w` of them, behind `acc`.
unfoldable pub scan_digits : ℕ → ℕ → Bytes → ℕ
scan_digits zero acc s = acc
scan_digits (suc w) acc [] = acc
scan_digits (suc w) acc (c ∷ s) =
    let rest = scan_digits w (acc * 10 + (c - b'0')) s in if is_digit c then rest else acc

-- A number needs a first digit.
unfoldable pub scan_unsigned : ℕ → Bytes → Option ℕ
scan_unsigned zero s = none
scan_unsigned (suc w) [] = none
scan_unsigned (suc w) (c ∷ s) = if is_digit c then some (scan_digits (suc w) 0 (c ∷ s)) else none

abbrev pub int64_limit : ℕ
int64_limit = 2 ^ 63

to_int64 : Bool → Option ℕ → Option ℤ
to_int64 negative none = none
to_int64 false (some n) = if ltb n int64_limit then some (pos n) else none
to_int64 true (some zero) = some (pos 0)
to_int64 true (some (suc n)) = if ltb n int64_limit then some (negsuc n) else none

scan_signed : ℕ → Bytes → Option ℤ
unfolding scan_unsigned to_int64
scan_signed w [] = none
scan_signed w (c ∷ s) =
    if c == b'-'
    then to_int64 true (scan_unsigned (w - 1) s)
    else if c == b'+'
    then to_int64 false (scan_unsigned (w - 1) s)
    else to_int64 false (scan_unsigned w (c ∷ s))

-- Sscanf of one int64 with `%wd`: the error is `none`.
unfoldable pub scan_int : ℕ → Bytes → Option ℤ
unfolding skip_space scan_signed
scan_int w s = elim (skip_space s) [ none ↦ none | some t ↦ scan_signed w t ]

pub has_prefix-append : (p s : Bytes) → has_prefix p (p ++ s) ≡ true
unfolding has_prefix
has_prefix-append [] s = refl
has_prefix-append (c ∷ p) s = ground (arith, has_prefix-append p s)

pub length-pad_decimal : (w n : ℕ) → length (pad_decimal w n) ≡ w
unfolding pad_decimal
length-pad_decimal zero n = refl
length-pad_decimal (suc w) n = omega (
  arith,
  length-append (pad_decimal w (n / 10)) ((b'0' + n % 10) ∷ []),
  length-pad_decimal w (n / 10),
)

-- No digit is the separator, so the split finds the first separator behind the number.
pub split_first-pad_decimal :
    (sep : ℕ) (w n : ℕ) (s : Bytes) {a b : Bytes}
    → sep < b'0'
    → split_first sep s ≡ some (a, b)
    → split_first sep (pad_decimal w n ++ s) ≡ some (pad_decimal w n ++ a, b)
unfolding split_first pad_decimal
split_first-pad_decimal sep zero n s h e = e
split_first-pad_decimal sep (suc w) n s {a} {b} h e =
    let d : ℕ = b'0' + n % 10 in
    rw
      (
        append_assoc (pad_decimal w (n / 10)) (d ∷ []) s,
        append_assoc (pad_decimal w (n / 10)) (d ∷ []) a,
      )
      (split_first-pad_decimal sep w (n / 10) (d ∷ s) {a = d ∷ a} {b = b} h (ground arith))

-- Reading a padded number back leaves its value in the accumulator.
scan_digits-pad_decimal :
    (w k m n : ℕ) (s : Bytes)
    → m ≡ w + k
    → n < 10 ^ w
    → scan_digits m 0 (pad_decimal w n ++ s) ≡ scan_digits k n s
unfolding scan_digits pad_decimal
scan_digits-pad_decimal zero k m n s e h =
    let e' : m ≡ k = omega arith in let z : n ≡ 0 = omega arith in rw (e', z)
scan_digits-pad_decimal (suc w) k m n s e h =
    let d : ℕ = b'0' + n % 10 in
    let small : n / 10 < 10 ^ w = omega (arith, pow-suc 10 w) in
    let whole : n / 10 * 10 + (d - b'0') ≡ n = omega arith in
    rw (append_assoc (pad_decimal w (n / 10)) (d ∷ []) s) (
      scan_digits-pad_decimal w (suc k) m (n / 10) (d ∷ s) (omega arith) small
      ∙ ground (arith, whole))

value-pad_decimal : (w k m n : ℕ) → m ≡ w + k → n < 10 ^ w → scan_digits m 0 (pad_decimal w n) ≡ n
value-pad_decimal w k m n e h =
    rw (append-nil (pad_decimal w n)) at (scan_digits-pad_decimal w k m n [] e h) ∙ stop k
  where
    stop : (j : ℕ) → scan_digits j n [] ≡ n
    stop zero = unfold scan_digits in refl
    stop (suc j) = unfold scan_digits in refl

first_digit :
    (w n : ℕ) → (d : ℕ) × (t : Bytes) × (pad_decimal (suc w) n ≡ d ∷ t) × (is_digit d ≡ true)
unfolding pad_decimal
first_digit zero n = (b'0' + n % 10, [], refl, ground arith)
first_digit (suc w) n =
    let (d, t, e, h) = first_digit w (n / 10) in (d, t ++ (b'0' + n % 10) ∷ [], rw e, h)

scan_int_digit :
    (w d : ℕ) (t : Bytes)
    → is_digit d ≡ true
    → scan_digits (suc w) 0 (d ∷ t) < int64_limit
    → scan_int (suc w) (d ∷ t) ≡ some (pos (scan_digits (suc w) 0 (d ∷ t)))
unfolding scan_int
scan_int_digit w d t h r = ground arith

-- The scanner inverts the printer on every non-negative int64.
pub scan_int-pad_decimal :
    (w m n : ℕ)
    → w ≤ m
    → n < 10 ^ suc w
    → n < int64_limit
    → scan_int (suc m) (pad_decimal (suc w) n) ≡ some (pos n)
scan_int-pad_decimal w m n le h r =
    let (d, t, e, g) = first_digit w n in
    let v = value-pad_decimal (suc w) (m - w) (suc m) n (omega arith) h in
    let v' : scan_digits (suc m) 0 (d ∷ t) ≡ n = rw (← e) v in
    rw e (scan_int_digit m d t g (rw v' r) ∙ rw v')
