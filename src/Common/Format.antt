-- ===== src/Common/Format.antt =====
-- The verbs of fmt.Sprintf that the source builds keys with: "%d" of an int64, and the formats
-- "%d-%d" and "%d-%s".
use ws_gateway.Common.{
  ℕ, zero, suc, ◌+◌, ◌-◌, ◌*◌, ◌/◌, ◌%◌, ◌≤◌, ◌<◌, ◌≡◌, refl, sym, ap, ◌∙◌, inl, inr, Bool, false,
  ◌&&◌, [], ◌∷◌, ◌++◌, arith, if◌then◌else◌, ltb, leb, Bool-cases, length, length-append,
}
use mathlib.Core.List.{append_assoc, append-nil}
use ws_gateway.Common.Int.{ℤ, pos, negsuc}
use ws_gateway.Common.Keys.{Text}

-- The decimal digits of a number, at most `fuel` of them and one more.
unfoldable pub digits : ℕ → ℕ → Text
digits zero n = (48 + n % 10) ∷ []
digits (suc fuel) n =
    let more = digits fuel (n / 10) ++ (48 + n % 10) ∷ [] in
    if ltb n 10 then (48 + n) ∷ [] else more

-- "%d"; 19 digits and one more are enough for an int64, and `n` digits always are.
abbrev pub show_nat : ℕ → Text
show_nat n = digits n n

unfoldable pub show_int : ℤ → Text
show_int (pos n) = show_nat n
show_int (negsuc n) = 45 ∷ show_nat (n + 1)

abbrev is_digit : ℕ → Bool
is_digit c = leb 48 c && ltb c 58

-- Reads digits on from `acc`, and gives the rest.
unfoldable pub parse : ℕ → Text → ℕ × Text
parse acc [] = (acc, [])
parse acc (c ∷ cs) =
    let more = parse (acc * 10 + (c - 48)) cs in if is_digit c then more else (acc, c ∷ cs)

parse-digit : (n : ℕ) (rest : Text) → parse (n / 10) ((48 + n % 10) ∷ rest) ≡ parse n rest
unfolding parse
parse-digit n rest =
    let here : (n / 10) * 10 + (48 + n % 10 - 48) ≡ n = omega arith in rw here (ground arith)

parse-digits :
    (fuel n : ℕ) (rest : Text) → n ≤ fuel → parse 0 (digits fuel n ++ rest) ≡ parse n rest
unfolding digits parse
parse-digits zero n rest h = ground arith
parse-digits (suc fuel) n rest h = elim (Bool-cases (ltb n 10)) [
  | inl low ↦ rw low (ground arith)
  | inr high ↦ rw high (
      ap (parse 0) (append_assoc (digits fuel (n / 10)) ((48 + n % 10) ∷ []) rest)
      ∙ (parse-digits fuel (n / 10) ((48 + n % 10) ∷ rest) (ground arith) ∙ parse-digit n rest))
]

-- A text that does not begin with a digit, such as the separator and what follows, ends the number.
parse-show_nat :
    (n c : ℕ) (rest : Text) → is_digit c ≡ false → parse 0 (show_nat n ++ c ∷ rest) ≡ (n, c ∷ rest)
unfolding parse
parse-show_nat n c rest h = parse-digits n n (c ∷ rest) (omega arith) ∙ rw h

pub parse-show_nat_end : (n : ℕ) → parse 0 (show_nat n) ≡ (n, [])
unfolding parse
parse-show_nat_end n =
    ap (parse 0) (sym (append-nil (show_nat n))) ∙ parse-digits n n [] (omega arith)

pub digits_nonempty : (fuel n : ℕ) → 0 < length (digits fuel n)
unfolding digits
digits_nonempty zero n = omega arith
digits_nonempty (suc fuel) n =
    ground (arith, length-append (digits fuel (n / 10)) ((48 + n % 10) ∷ []))

pair_inj : {m n : ℕ} {s t : Text} → ◌≡◌ {A = ℕ × Text} (m, s) (n, t) → (m ≡ n) × (s ≡ t)
pair_inj e = (ap (λ p. p.0) e, ap (λ p. p.1) e)

show_nat-injective :
    (c : ℕ) (m n : ℕ) (s t : Text)
    → is_digit c ≡ false
    → show_nat m ++ c ∷ s ≡ show_nat n ++ c ∷ t
    → (m ≡ n) × (s ≡ t)
show_nat-injective c m n s t h e =
    let (em, es) =
      pair_inj (sym (parse-show_nat m c s h) ∙ (ap (parse 0) e ∙ parse-show_nat n c t h)) in
    (em, ground arith)

-- No number begins with the sign.
unsigned : (c m : ℕ) (s t : Text) → is_digit c ≡ false → show_nat m ++ c ∷ s ≡ 45 ∷ t → ⊥
unfolding parse
unsigned c m s t h e =
    let both = pair_inj (sym (parse-show_nat m c s h) ∙ ap (parse 0) e) in
    omega (
      arith,
      ap length e,
      ap length both.1,
      length-append (show_nat m) (c ∷ s),
      digits_nonempty m m,
    )

-- Two texts that begin with an integer and the same separator are equal only if the integers and what
-- follows are.
pub show_int-injective :
    (c : ℕ) (a b : ℤ) (s t : Text)
    → is_digit c ≡ false
    → show_int a ++ c ∷ s ≡ show_int b ++ c ∷ t
    → (a ≡ b) × (s ≡ t)
unfolding show_int
show_int-injective c (pos m) (pos n) s t h e =
    let (p, q) = show_nat-injective c m n s t h e in (ap pos p, q)
show_int-injective c (negsuc m) (negsuc n) s t h e =
    let (p, q) = show_nat-injective c (m + 1) (n + 1) s t h (ground arith) in
    (ap negsuc (omega arith), q)
show_int-injective c (pos m) (negsuc n) s t h e =
    absurd (unsigned c m s (show_nat (n + 1) ++ c ∷ t) h e)
show_int-injective c (negsuc m) (pos n) s t h e =
    absurd (unsigned c n t (show_nat (m + 1) ++ c ∷ s) h (sym e))

-- "%d-%s" of an int64 and a string, as `cacheKey` and `retryKey` use it.
unfoldable pub format_key : ℤ → Text → Text
format_key biz key = show_int biz ++ 45 ∷ key

-- Two formatted keys are equal only if both parts are.
pub format_key-injective :
    (a b : ℤ) (s t : Text) → format_key a s ≡ format_key b t → (a ≡ b) × (s ≡ t)
unfolding format_key
format_key-injective a b s t e = show_int-injective 45 a b s t refl e
