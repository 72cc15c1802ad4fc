-- ===== src/Go/Trips.antt =====
-- Package strconv: ParseInt with base 0, and Atoi, read back every int that %d prints.
use Prim.Native.Char.{Char, code}
use Prim.Native.String
use Prim.Native.String.append
use linkspan.Base.{
  ℕ, zero, suc, ◌+◌, ◌-◌, ◌*◌, ◌/◌, ◌%◌, ◌<◌, ◌≤◌, String, ◌≡◌, ◌≢◌, refl, ap, ◌∙◌, inl, inr, ◌⊎◌,
  Bool, true, false, some, arith, ltb, leb, nat_eq, string_eq, nat_beq, Bool-cases, eq_iff, ◌==◌,
}
use linkspan.Base.Int.{ℤ, pos, negsuc}
use linkspan.Go.Strings.{contains_char}
use linkspan.Go.Strconv.{
  digits, number, max_int64, clamp_neg, parse_int, atoi, digit, itoa_fuel, itoa, format_int,
}
use linkspan.Go.Integers.{digit_value, digits_in, based, parse_uint, parse_any}
use linkspan.Go.RoundTrip.{itoa-digits, digits-first, digits-clean, itoa-ne, atoi-itoa}

-- An int of 64 bits.
abbrev pub IsInt : ℤ → Type 0
IsInt (pos n) = n ≤ max_int64
IsInt (negsuc n) = n ≤ max_int64

digit_value-digit : (c : Char) → 48 ≤ code c → code c ≤ 57 → digit_value c ≡ code c - 48
unfolding digit_value
digit_value-digit c low high = ground arith

-- In base ten the loop reads what `digits` reads.
digits_in-digits : (v : ℕ) (s : String) (n : ℕ) → digits v s ≡ some n → digits_in 10 v s ≡ some n
unfolding digits_in digits
digits_in-digits v String.[] n e = e
digits_in-digits v (String.◌∷◌ c s) n e =
    let (low, high, rest) = digits-first v c s n e in
    let value : digit_value c ≡ code c - 48 = digit_value-digit c low high in
    let plain : nat_beq (code c) 95 ≡ false = ground (arith, high) in
    let small : ltb (code c - 48) 10 ≡ true = ground (arith, low, high) in
    rw (digits_in, plain, value, small) (digits_in-digits (v * 10 + (code c - 48)) s n rest)

-- A number but zero does not print with a leading 0.
abbrev first_code : String → ℕ
first_code String.[] = 0
first_code (String.◌∷◌ c s) = code c

first_code-digit : (d : ℕ) → d < 10 → 0 < d → 48 < first_code (digit d)
unfolding digit
first_code-digit zero b p = absurd (omega (arith, p))
first_code-digit (suc zero) b p = omega arith
first_code-digit (suc (suc zero)) b p = omega arith
first_code-digit (suc (suc (suc zero))) b p = omega arith
first_code-digit (suc (suc (suc (suc zero)))) b p = omega arith
first_code-digit (suc (suc (suc (suc (suc zero))))) b p = omega arith
first_code-digit (suc (suc (suc (suc (suc (suc zero)))))) b p = omega arith
first_code-digit (suc (suc (suc (suc (suc (suc (suc zero))))))) b p = omega arith
first_code-digit (suc (suc (suc (suc (suc (suc (suc (suc zero)))))))) b p = omega arith
first_code-digit (suc (suc (suc (suc (suc (suc (suc (suc (suc zero))))))))) b p = omega arith
first_code-digit (suc (suc (suc (suc (suc (suc (suc (suc (suc (suc d)))))))))) b p =
    absurd (omega (arith, b))

first_code-append : (a b : String) → 48 < first_code a → 48 < first_code (String.◌++◌ a b)
first_code-append String.[] b h = absurd (omega (arith, h))
first_code-append (String.◌∷◌ c a) b h = rw (append.cons c a b) h

first_code-itoa_fuel : (f n : ℕ) → n < f → 0 < n → 48 < first_code (itoa_fuel f n)
unfolding itoa_fuel
first_code-itoa_fuel zero n b p = absurd (omega (arith, b))
first_code-itoa_fuel (suc f) n b p = elim (Bool-cases (ltb n 10)) [
  | inl q ↦ rw (itoa_fuel, q) (first_code-digit n (ground (arith, q)) p)
  | inr q ↦
      let tens : 0 < n / 10 = ground (arith, q) in
      rw (itoa_fuel, q)
        (first_code-append (itoa_fuel f (n / 10)) (digit (n % 10))
          (first_code-itoa_fuel f (n / 10) (omega (arith, b, p)) tens))
]

based-plain : (s : String) → 48 < first_code s → based s ≡ (10, s)
unfolding based
based-plain String.[] h = refl
based-plain (String.◌∷◌ z String.[]) h = ground arith
based-plain (String.◌∷◌ z (String.◌∷◌ c String.[])) h = ground arith
based-plain (String.◌∷◌ z (String.◌∷◌ c (String.◌∷◌ d s))) h = ground arith

far : (k : ℕ) → (k < 45) ⊎ (57 < k) → (k < 48) ⊎ (57 < k)
far k (inl h) = inl (omega (arith, h))
far k (inr h) = inr h

parse_uint-plain :
    (s : String) (n : ℕ) → s ≢ "" → digits 0 s ≡ some n → 48 < first_code s → parse_uint s ≡ some n
unfolding parse_uint
parse_uint-plain s n h e f =
    let full : (s == "") ≡ false = ground (arith, eq_iff s "") in
    rw (parse_uint, full, digits-clean 95 (inr (omega arith)) 0 s n e, based-plain s f)
      (digits_in-digits 0 s n e)

parse_uint-itoa : (n : ℕ) → parse_uint (itoa n) ≡ some n
unfolding parse_uint itoa itoa_fuel digit based digits_in contains_char
parse_uint-itoa zero = refl
parse_uint-itoa (suc n) =
    parse_uint-plain (itoa (suc n)) (suc n) (itoa-ne (suc n)) (itoa-digits (suc n))
      (first_code-itoa_fuel (suc n + 1) (suc n) (omega arith) (omega arith))

parse_any-plain :
    (s : String) (n : ℕ)
    → s ≢ ""
    → digits 0 s ≡ some n
    → parse_uint s ≡ some n
    → n ≤ max_int64
    → parse_any s ≡ some (pos n)
unfolding parse_any
parse_any-plain String.[] n h e u b = absurd (h refl)
parse_any-plain (String.◌∷◌ c s) n h e u b =
    let (low, high, rest) = digits-first 0 c s n e in
    let minus : nat_beq (code c) 45 ≡ false = ground (arith, low) in
    let plus : nat_beq (code c) 43 ≡ false = ground (arith, low) in
    let fits : leb n max_int64 ≡ true = ground (arith, b) in
    rw (parse_any, minus, plus, u, fits) refl

-- A flag reads back every int that is printed for it.
pub parse_any-format_int : (z : ℤ) → IsInt z → parse_any (format_int z) ≡ some z
unfolding format_int parse_any
parse_any-format_int (pos n) b =
    parse_any-plain (itoa n) n (itoa-ne n) (itoa-digits n) (parse_uint-itoa n) b
parse_any-format_int (negsuc n) b =
    let fits : leb (suc n) (max_int64 + 1) ≡ true = ground (arith, b) in
    rw (parse_uint-itoa (suc n), fits) refl

number-digits : (s : String) (n : ℕ) → s ≢ "" → digits 0 s ≡ some n → number s ≡ some n
unfolding number
number-digits String.[] n h e = absurd (h refl)
number-digits (String.◌∷◌ c s) n h e = e

-- So does Atoi.
pub atoi-format_int : (z : ℤ) → IsInt z → atoi (format_int z) ≡ z
unfolding format_int atoi parse_int clamp_neg
atoi-format_int (pos n) b = atoi-itoa n b
atoi-format_int (negsuc n) b =
    let fits : leb (suc n) (max_int64 + 1) ≡ true = ground (arith, b) in
    let clamped : clamp_neg (some (suc n)) ≡ (negsuc n, true) = rw (clamp_neg, fits) refl in
    ap (λ (r : ℤ × Bool). r.0)
      (ap clamp_neg (number-digits (itoa (suc n)) (suc n) (itoa-ne (suc n)) (itoa-digits (suc n)))
        ∙ clamped)

-- No character but a digit or a sign stands in a printed int.
pub format_int-clean :
    (k : ℕ) (z : ℤ) → (k < 45) ⊎ (57 < k) → contains_char k (format_int z) ≡ false
unfolding format_int contains_char
format_int-clean k (pos n) h = digits-clean k (far k h) 0 (itoa n) n (itoa-digits n)
format_int-clean k (negsuc n) h =
    ground (arith, h, digits-clean k (far k h) 0 (itoa (suc n)) (suc n) (itoa-digits (suc n)))
