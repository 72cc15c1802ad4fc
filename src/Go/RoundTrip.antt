-- ===== src/Go/RoundTrip.antt =====
-- Package strconv: Atoi reads back what Itoa prints.
use Prim.Native.Char.{Char, code}
use Prim.Native.String
use Prim.Native.String.append
use linkspan.Base.{
  ℕ, zero, suc, ◌+◌, ◌-◌, ◌*◌, ◌/◌, ◌%◌, ◌<◌, ◌≤◌, String, ◌≡◌, ◌≢◌, refl, sym, ap, ◌∙◌, inl, inr,
  ◌⊎◌, Bool, true, false, ◌&&◌, Option, none, some, arith, ltb, leb, nat_eq, string_eq, nat_beq,
  Bool-cases,
}
use linkspan.Base.Int.{ℤ, pos}
use linkspan.Go.Strings.{contains_char}
use linkspan.Go.Strconv.{
  digits, number, max_int64, clamp_pos, parse_int, atoi, digit, itoa_fuel, itoa,
}

digits-digit : (v d : ℕ) → d < 10 → digits v (digit d) ≡ some (v * 10 + d)
unfolding digits digit
digits-digit v zero b = refl
digits-digit v (suc zero) b = refl
digits-digit v (suc (suc zero)) b = refl
digits-digit v (suc (suc (suc zero))) b = refl
digits-digit v (suc (suc (suc (suc zero)))) b = refl
digits-digit v (suc (suc (suc (suc (suc zero))))) b = refl
digits-digit v (suc (suc (suc (suc (suc (suc zero)))))) b = refl
digits-digit v (suc (suc (suc (suc (suc (suc (suc zero))))))) b = refl
digits-digit v (suc (suc (suc (suc (suc (suc (suc (suc zero)))))))) b = refl
digits-digit v (suc (suc (suc (suc (suc (suc (suc (suc (suc zero))))))))) b = refl
digits-digit v (suc (suc (suc (suc (suc (suc (suc (suc (suc (suc d)))))))))) b =
    absurd (omega (arith, b))

-- Digits read behind others.
abbrev behind : Option ℕ → String → Option ℕ
behind none s = none
behind (some v) s = digits v s

digits-append : (v : ℕ) (a b : String) → digits v (String.◌++◌ a b) ≡ behind (digits v a) b
unfolding digits
digits-append v String.[] b = ap (digits v) (append.nil b)
digits-append v (String.◌∷◌ c a) b =
    ap (digits v) (append.cons c a b) ∙ elim (Bool-cases (leb 48 (code c) && leb (code c) 57)) [
      | inl q ↦ rw (digits, q) (digits-append (v * 10 + (code c - 48)) a b)
      | inr q ↦ rw (digits, q) refl
    ]

itoa_fuel-digits : (f n : ℕ) → n < f → digits 0 (itoa_fuel f n) ≡ some n
unfolding itoa_fuel
itoa_fuel-digits zero n b = absurd (omega (arith, b))
itoa_fuel-digits (suc f) n b = elim (Bool-cases (ltb n 10)) [
  | inl q ↦ rw (itoa_fuel, q) (digits-digit 0 n (ground (arith, q)) ∙ ap some (omega arith))
  | inr q ↦
      rw (itoa_fuel, q)
        (digits-append 0 (itoa_fuel f (n / 10)) (digit (n % 10))
          ∙ ap (λ o. behind o (digit (n % 10))) (itoa_fuel-digits f (n / 10) (ground (arith, q, b)))
          ∙ digits-digit (n / 10) (n % 10) (omega arith)
          ∙ ap some (omega arith))
]

pub itoa-digits : (n : ℕ) → digits 0 (itoa n) ≡ some n
unfolding itoa
itoa-digits n = itoa_fuel-digits (n + 1) n (omega arith)

-- What can be read begins with a digit.
pub digits-first :
    (v : ℕ) (c : Char) (s : String) (m : ℕ)
    → digits v (String.◌∷◌ c s) ≡ some m
    → (48 ≤ code c) × (code c ≤ 57) × (digits (v * 10 + (code c - 48)) s ≡ some m)
unfolding digits
digits-first v c s m e = elim (Bool-cases (leb 48 (code c) && leb (code c) 57)) [
  | inl q ↦ (ground (arith, q), ground (arith, q), rw (digits, q) at e)
  | inr q ↦ absurd (cc (rw (digits, q) at e))
]

-- No character but a digit stands in what can be read.
pub digits-clean :
    (k : ℕ)
    → (k < 48) ⊎ (57 < k)
    → (v : ℕ) (s : String) (m : ℕ) → digits v s ≡ some m
    → contains_char k s ≡ false
unfolding contains_char
digits-clean k h v String.[] m e = refl
digits-clean k h v (String.◌∷◌ c s) m e =
    let (low, high, rest) = digits-first v c s m e in
    ground (arith, low, high, h, digits-clean k h (v * 10 + (code c - 48)) s m rest)

parse_int-digits :
    (s : String) (n : ℕ)
    → s ≢ ""
    → digits 0 s ≡ some n
    → n ≤ max_int64
    → parse_int s ≡ (pos n, true)
unfolding parse_int number clamp_pos
parse_int-digits String.[] n h e b = absurd (h refl)
parse_int-digits (String.◌∷◌ c s) n h e b =
    let (low, high, rest) = digits-first 0 c s n e in
    let minus : nat_beq (code c) 45 ≡ false = ground (arith, low) in
    let plus : nat_beq (code c) 43 ≡ false = ground (arith, low) in
    let fits : leb n max_int64 ≡ true = ground (arith, b) in
    rw (parse_int, minus, plus, number, e, clamp_pos, fits) refl

pub itoa-ne : (n : ℕ) → itoa n ≢ ""
unfolding digits itoa itoa_fuel digit
itoa-ne zero e = cc e
itoa-ne (suc n) e = absurd (cc (ap (digits 0) (sym e) ∙ itoa-digits (suc n)))

-- Every number that fits an int is read back from its print.
pub parse_int-itoa : (n : ℕ) → n ≤ max_int64 → parse_int (itoa n) ≡ (pos n, true)
parse_int-itoa n b = parse_int-digits (itoa n) n (itoa-ne n) (itoa-digits n) b

pub atoi-itoa : (n : ℕ) → n ≤ max_int64 → atoi (itoa n) ≡ pos n
unfolding atoi
atoi-itoa n b = ap (λ (r : ℤ × Bool). r.0) (parse_int-itoa n b)
