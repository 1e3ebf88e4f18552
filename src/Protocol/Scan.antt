-- ===== src/Protocol/Scan.antt =====
-- The regular expressions of protocol.py as tests on the characters of a text, and `int` and
-- `str.split` on what they matched.
use ha_aiper_ble.Prelude.{
  ℕ, ◌+◌, ◌-◌, ◌*◌, Bool, true, false, ◌&&◌, Option, none, some, List, [], ◌∷◌, length, all, ltb,
  leb, ◌==◌, if◌then◌else◌,
}
use ha_aiper_ble.Prelude.Int.{ℤ, pos, negsuc, neg}
use ha_aiper_ble.Prelude.Text.{Text, text_eq}
use ha_aiper_ble.Prelude.Optional
use ha_aiper_ble.Protocol.Query.{is_digit}

-- [+-]?, and what follows it
unfoldable pub sign_and_digits : Text → Bool × Text
sign_and_digits [] = (false, [])
sign_and_digits (c ∷ rest) =
    if c == b'-' then (true, rest) else if c == b'+' then (false, rest) else (false, c ∷ rest)

-- int(digits), for ASCII digits
unfoldable pub number_from : ℕ → Text → ℕ
number_from n [] = n
number_from n (c ∷ rest) = number_from (n * 10 + (c - b'0')) rest

-- [+-]?[0-9]{1,limit}
unfoldable pub int_match : ℕ → Text → Bool
unfolding sign_and_digits is_digit
int_match limit s =
    let digits = (sign_and_digits s).1 in
    leb 1 (length digits) && leb (length digits) limit && all is_digit digits

-- int(s), where `int_match` holds
unfoldable pub int_of : Text → ℤ
unfolding sign_and_digits number_from
int_of s =
    let (negative, digits) = sign_and_digits s in
    if negative then neg (number_from 0 digits) else pos (number_from 0 digits)

-- the text before the line break, if the text ends in it: the pattern's `\r\n` at the end
unfoldable pub before_crlf : Text → Option Text
before_crlf [] = none
before_crlf (c ∷ rest) =
    let more = before_crlf rest in
    if text_eq (c ∷ rest) (13 ∷ 10 ∷ []) then some [] else Optional.◌>>=◌ more λ s. some (c ∷ s)

-- s.split(",")
unfoldable pub prepend_char : ℕ → List Text → List Text
prepend_char c [] = (c ∷ []) ∷ []
prepend_char c (s ∷ rest) = (c ∷ s) ∷ rest

unfoldable pub split_commas : Text → List Text
unfolding prepend_char
split_commas [] = [] ∷ []
split_commas (c ∷ rest) =
    let others = split_commas rest in if c == b',' then [] ∷ others else prepend_char c others

-- low <= n < 2 ** (bits - 1), with the lower bound -(2 ** (bits - 1))
unfoldable pub fits_signed : ℕ → ℤ → Bool
fits_signed half (pos n) = ltb n half
fits_signed half (negsuc n) = ltb n half
