-- ===== src/Client/Decimals.antt =====
-- formatDecimal of postgre-setup/go/cmd/stress/verify.go: an amount in millionths, as text.
use playground_ledger.Prelude.{
  ℕ, zero, suc, ◌+◌, ◌-◌, ◌*◌, ◌/◌, ◌%◌, ◌==◌, ◌&&◌, ◌≤◌, ◌<◌, ◌≡◌, sym, ap, ◌∙◌, arith, true, refl,
  ltb, ◌^◌, false, Option, none, some, [], ◌∷◌, leb, ℤ, pos, negsuc, if◌then◌else◌,
}
use playground_ledger.Middleware.{Bytes}
use playground_ledger.Handlers.Paging.{show_from-starts}
use playground_ledger.Handlers.Input.{digits, show_from, negated}

abbrev pub decimal_scale : ℕ
decimal_scale = 1000000

abbrev digit : ℕ → ℕ
digit n = n % 10 + b'0'

-- `%06d` of a number below a million.
abbrev six_digits : ℕ → Bytes
six_digits n =
    digit (n / 100000)
    ∷ digit (n / 10000)
    ∷ digit (n / 1000)
    ∷ digit (n / 100)
    ∷ digit (n / 10)
    ∷ digit n
    ∷ []

-- `%d.%06d` of a quotient and a remainder that are not negative.
abbrev unsigned_text : ℕ → Bytes
unsigned_text n =
    let whole = n / decimal_scale in show_from whole whole (b'.' ∷ six_digits (n % decimal_scale))

abbrev least_int : ℕ
least_int = 2 ^ 63 - 1

-- The digits of a number, at least five.
abbrev five_digits : ℕ → Bytes
five_digits n =
    digit (n / 10000) ∷ digit (n / 1000) ∷ digit (n / 100) ∷ digit (n / 10) ∷ digit n ∷ []

-- `%06d` of a negative number above minus a million: the sign counts as one of the six.
abbrev signed_digits : ℕ → Bytes
signed_digits n = b'-' ∷ (if ltb n 100000 then five_digits n else six_digits n)

-- The negation of the least int64, negsuc least_int, is that number again, so that both its quotient
-- and its remainder have a sign; then the sign of the branch comes in front.
unfoldable pub format_decimal : ℤ → Bytes
format_decimal (pos n) = unsigned_text n
format_decimal (negsuc n) =
    if n == least_int
    then b'-'
      ∷ b'-'
      ∷ (let whole = suc n / decimal_scale in
          show_from whole whole (b'.' ∷ signed_digits (suc n % decimal_scale)))
    else b'-' ∷ unsigned_text (suc n)

-- A reader: digits, a point, and digits of the same number.
unfoldable pub read_fixed : ℕ → Bytes → Option ℕ
read_fixed acc [] = none
read_fixed acc (c ∷ cs) =
    let rest = read_fixed (acc * 10 + (c - b'0')) cs in
    if c == b'.' then digits acc cs else if leb b'0' c && leb c b'9' then rest else none

abbrev signed : (ℕ → ℤ) → Option ℕ → Option ℤ
signed f none = none
signed f (some n) = some (f n)

unfoldable pub read_decimal : Bytes → Option ℤ
unfolding read_fixed
read_decimal [] = none
read_decimal (c ∷ cs) =
    if c == b'-' then signed negated (read_fixed 0 cs) else signed pos (read_fixed 0 (c ∷ cs))

read_fixed-show :
    (fuel n : ℕ) (text : Bytes)
    → n ≤ fuel
    → read_fixed 0 (show_from fuel n text) ≡ read_fixed n text
unfolding read_fixed show_from
read_fixed-show zero n text h = ground arith
read_fixed-show (suc fuel) n text h =
    ground (arith, read_fixed-show fuel (n / 10) ((n % 10 + b'0') ∷ text))

is_digit : (n : ℕ) → (leb b'0' (digit n) && leb (digit n) b'9') ≡ true
is_digit n = ground arith

six :
    (whole n : ℕ)
    → n < decimal_scale
    → digits whole (six_digits n) ≡ some (whole * decimal_scale + n)
unfolding digits
six whole n h =
    rw
      (
        is_digit (n / 100000),
        is_digit (n / 10000),
        is_digit (n / 1000),
        is_digit (n / 100),
        is_digit (n / 10),
        is_digit n,
      )
      (ap some (omega arith))

unsigned : (n : ℕ) → read_fixed 0 (unsigned_text n) ≡ some n
unfolding read_fixed
unsigned n =
    read_fixed-show (n / decimal_scale) (n / decimal_scale) _ (omega arith)
    ∙ six (n / decimal_scale) (n % decimal_scale) (omega arith)
    ∙ ap some (omega arith)

-- A text that starts with a digit has no sign.
unsigned_text-starts :
    (n : ℕ) → (c : ℕ) × (cs : Bytes) × (unsigned_text n ≡ c ∷ cs) × ((c == b'-') ≡ false)
unsigned_text-starts n =
    let (c, cs, e, d) =
      show_from-starts (n / decimal_scale) (n / decimal_scale)
        (b'.' ∷ six_digits (n % decimal_scale)) in
    (c, cs, e, ground arith)

-- The int64 but the least.
abbrev pub IsNegatable : ℤ → Type 0
IsNegatable (pos n) = n < 2 ^ 63
IsNegatable (negsuc n) = n < 2 ^ 63 - 1

above : (n : ℕ) → n < 2 ^ 63 - 1 → (n == 2 ^ 63 - 1) ≡ false
above n h = ground arith

-- formatDecimal writes every int64 of millionths but the least so that it can be read back: digits,
-- a point and six digits, after a sign if it is negative.
pub read_decimal-format_decimal : (n : ℤ) → IsNegatable n → read_decimal (format_decimal n) ≡ some n
unfolding read_decimal format_decimal
read_decimal-format_decimal (pos n) h =
    let (c, cs, e, no_sign) = unsigned_text-starts n in
    rw (e, no_sign) (ap (signed pos) (ap (read_fixed 0) (sym e) ∙ unsigned n))
read_decimal-format_decimal (negsuc n) h = rw (above n h) (ap (signed negated) (unsigned (suc n)))

-- The text of the least int64, whose negation wraps, cannot be read back.
format_decimal-least : read_decimal (format_decimal (negsuc (2 ^ 63 - 1))) ≡ none
unfolding format_decimal read_decimal
format_decimal-least = refl
