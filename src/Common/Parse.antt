-- ===== src/Common/Parse.antt =====
-- strconv.ParseInt with base 10 and 64 bits, which reads back what "%d" prints.
use ws_gateway.Common.{
  ℕ, zero, suc, ◌+◌, ◌/◌, ◌%◌, ◌≤◌, ◌<◌, ◌≡◌, refl, inl, inr, false, true, Option, none, some, [],
  ◌∷◌, ◌++◌, arith, if◌then◌else◌, ltb, leb, ◌==◌, Bool-cases,
}
use ws_gateway.Common.Int.{ℤ, pos, sub_ℕ, half64}
use ws_gateway.Common.Keys.{Text}
use ws_gateway.Common.Format.{digits, show_nat, parse, parse-show_nat_end}

-- All of a text that has digits alone.
abbrev whole : ℕ × Text → Option ℕ
whole (n, []) = some n
whole (n, c ∷ cs) = none

abbrev number : Text → Option ℕ
number [] = none
number (c ∷ cs) = whole (parse 0 (c ∷ cs))

abbrev positive : Option ℕ → Option ℤ
positive none = none
positive (some n) = if ltb n half64 then some (pos n) else none

abbrev negative : Option ℕ → Option ℤ
negative none = none
negative (some n) = if leb n half64 then some (sub_ℕ 0 n) else none

unfoldable pub parse_int : Text → Option ℤ
parse_int [] = none
parse_int (c ∷ cs) =
    if c == 45
    then negative (number cs)
    else if c == 43
    then positive (number cs)
    else positive (number (c ∷ cs))

digits_lead : (fuel n : ℕ) → (c : ℕ) × (cs : Text) × (digits fuel n ≡ c ∷ cs) × (48 ≤ c)
unfolding digits
digits_lead zero n = (48 + n % 10, [], refl, omega arith)
digits_lead (suc fuel) n =
    let (c, cs, e, h) = digits_lead fuel (n / 10) in
    elim (Bool-cases (ltb n 10)) [
      | inl low ↦ (48 + n, [], rw low refl, omega arith)
      | inr high ↦ (c, cs ++ (48 + n % 10) ∷ [], rw (high, e) refl, h)
    ]

parse_int_lead :
    (c : ℕ) (cs : Text) (n : ℕ)
    → 48 ≤ c
    → n < half64
    → parse 0 (c ∷ cs) ≡ (n, [])
    → parse_int (c ∷ cs) ≡ some (pos n)
unfolding parse_int
parse_int_lead c cs n h k e =
    let no_minus : (c == 45) ≡ false = ground arith in
    let no_plus : (c == 43) ≡ false = ground arith in
    let fits : ltb n half64 ≡ true = ground arith in rw (no_minus, no_plus, e, fits) refl

pub parse_int-show_nat : (n : ℕ) → n < half64 → parse_int (show_nat n) ≡ some (pos n)
parse_int-show_nat n k =
    let (c, cs, e, h) = digits_lead n n in
    rw e (parse_int_lead c cs n h k (rw⁻¹ e (parse-show_nat_end n)))
