-- ===== src/Handlers/Input.antt =====
-- The numbers in a query of postgre-setup/go/internal/api/handlers: strconv.Atoi, the limit and the
-- offset of a page, and the conversion to int32.
use playground_ledger.Prelude.{
  ℕ, zero, suc, ◌+◌, ◌-◌, ◌*◌, ◌/◌, ◌%◌, ◌^◌, ◌==◌, Bool, ◌&&◌, Option, none, some, [], ◌∷◌, ltb,
  leb, ℤ, pos, negsuc, if◌then◌else◌,
}
use playground_ledger.Middleware.{Bytes}

abbrev is_digit : ℕ → Bool
is_digit c = leb b'0' c && leb c b'9'

-- The number that digits write, after those that wrote `acc`.
unfoldable pub digits : ℕ → Bytes → Option ℕ
digits acc [] = some acc
digits acc (c ∷ cs) =
    let rest = digits (acc * 10 + (c - b'0')) cs in if is_digit c then rest else none

-- At least one digit.
abbrev pub natural : Bytes → Option ℕ
natural [] = none
natural (c ∷ cs) = digits 0 (c ∷ cs)

-- An int has 64 bits.
abbrev pub in_range : ℕ → ℕ → ℤ → Option ℤ
in_range bound n x = if ltb n bound then some x else none

abbrev pub negated : ℕ → ℤ
negated zero = pos 0
negated (suc n) = negsuc n

abbrev pub positive_int : Option ℕ → Option ℤ
positive_int none = none
positive_int (some n) = in_range (2 ^ 63) n (pos n)

abbrev pub negative_int : Option ℕ → Option ℤ
negative_int none = none
negative_int (some n) = in_range (2 ^ 63 + 1) n (negated n)

-- strconv.Atoi: an optional sign, then digits.
unfoldable pub atoi : Bytes → Option ℤ
unfolding digits
atoi [] = none
atoi (c ∷ cs) =
    if c == b'-'
    then negative_int (natural cs)
    else if c == b'+'
    then positive_int (natural cs)
    else positive_int (natural (c ∷ cs))

-- int32(parsed)
unfoldable pub to_int32 : ℕ → ℤ
to_int32 n = let m = n % 2 ^ 32 in if ltb m (2 ^ 31) then pos m else negsuc (2 ^ 32 - m - 1)

abbrev limit_of : ℕ → ℕ → Option ℤ → ℤ
limit_of default most none = pos default
limit_of default most (some (negsuc n)) = pos default
limit_of default most (some (pos n)) = if ltb 0 n && leb n most then pos n else pos default

abbrev offset_of : Option ℤ → ℤ
offset_of none = pos 0
offset_of (some (negsuc n)) = pos 0
offset_of (some (pos n)) = to_int32 n

-- A limit that is missing, no number or out of bounds is the default. (An empty text is no number.)
unfoldable pub page_limit : ℕ → ℕ → Bytes → ℤ
page_limit default most text = limit_of default most (atoi text)

unfoldable pub page_offset : Bytes → ℤ
unfolding to_int32
page_offset text = offset_of (atoi text)

-- `%d` of fmt.Sprintf, before the digits written so far; the fuel is at least the number.
unfoldable pub show_from : ℕ → ℕ → Bytes → Bytes
show_from zero n text = (n % 10 + b'0') ∷ text
show_from (suc fuel) n text =
    let rest = show_from fuel (n / 10) ((n % 10 + b'0') ∷ text) in
    if ltb n 10 then (n + b'0') ∷ text else rest

unfoldable pub show : ℕ → Bytes
unfolding show_from
show n = show_from n n []
