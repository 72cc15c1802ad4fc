-- ===== src/Go/Cutting.antt =====
-- Package strings: what cutting a joined text gives back.
use Prim.Native.Char.{Char, code}
use Prim.Native.String
use Prim.Native.String.append
use linkspan.Base.{
  ℕ, String, ◌≡◌, refl, sym, ap, ◌∙◌, inl, inr, true, false, ◌||◌, Option, none, some, arith,
  nat_eq, nat_beq, Option-cases,
}
use linkspan.Go.Strings.{contains_char, cut, cut_last, cut_prefix, cut_text, trim_prefix, base_of}

nat_beq_refl : (n : ℕ) → nat_beq n n ≡ true
nat_beq_refl n = ground arith

pub cut_prefix-append : (p s : String) → cut_prefix p (String.◌++◌ p s) ≡ some s
unfolding cut_prefix
cut_prefix-append String.[] s = ap some (append.nil s)
cut_prefix-append (String.◌∷◌ c p) s =
    ap (cut_prefix (String.◌∷◌ c p)) (append.cons c p s)
    ∙ rw (cut_prefix, nat_beq_refl (code c)) (cut_prefix-append p s)

pub trim_prefix-append : (p s : String) → trim_prefix p (String.◌++◌ p s) ≡ s
unfolding trim_prefix
trim_prefix-append p s = rw (trim_prefix, cut_prefix-append p s) refl

pub contains_char-append :
    (k : ℕ) (a b : String)
    → contains_char k (String.◌++◌ a b) ≡ (contains_char k a || contains_char k b)
unfolding contains_char
contains_char-append k String.[] b = ap (contains_char k) (append.nil b)
contains_char-append k (String.◌∷◌ c a) b =
    ap (contains_char k) (append.cons c a b) ∙ ground (arith, contains_char-append k a b)

-- What stands behind the last separator, the whole text without one.
abbrev after : Option (String × String) → String → String
after none s = s
after (some (a, b)) s = b

after-clean : (k : ℕ) (s : String) → contains_char k (after (cut_last k s) s) ≡ false
unfolding contains_char cut_last
after-clean k String.[] = refl
after-clean k (String.◌∷◌ c s) = elim (Option-cases (cut_last k s)) [
  | inl n ↦ ground (arith, after-clean k s, n)
  | inr ((a, b), e) ↦ ground (arith, after-clean k s, e)
]

-- The last element of a path holds no separator.
pub base_of-clean : (path : String) → contains_char 47 (base_of path) ≡ false
unfolding base_of
base_of-clean path = elim (Option-cases (cut_last 47 path)) [
  | inl n ↦ rw (base_of, n) (rw n at (after-clean 47 path))
  | inr ((a, b), e) ↦ rw (base_of, e) (rw e at (after-clean 47 path))
]

-- A text without the first character of the separator is cut at the separator behind it.
pub cut_text-append :
    (c : Char) (sep d n : String)
    → contains_char (code c) d ≡ false
    → cut_text (String.◌∷◌ c sep) (String.◌++◌ d (String.◌++◌ (String.◌∷◌ c sep) n)) ≡ some (d, n)
unfolding cut_text cut_prefix contains_char
cut_text-append c sep String.[] n h =
    ap (cut_text (String.◌∷◌ c sep))
      (append.nil (String.◌++◌ (String.◌∷◌ c sep) n) ∙ append.cons c sep n)
    ∙ rw
        (
          cut_text,
          sym (ap (cut_prefix (String.◌∷◌ c sep)) (append.cons c sep n))
              ∙ cut_prefix-append (String.◌∷◌ c sep) n,
        )
        refl
cut_text-append c sep (String.◌∷◌ x d) n h =
    let differ : nat_beq (code c) (code x) ≡ false = ground (arith, h) in
    let rest : contains_char (code c) d ≡ false = ground (arith, h) in
    ap (cut_text (String.◌∷◌ c sep)) (append.cons x d (String.◌++◌ (String.◌∷◌ c sep) n))
    ∙ rw (cut_text, cut_prefix, differ, cut_text-append c sep d n rest) refl

cut_last-none : (k : ℕ) (s : String) → contains_char k s ≡ false → cut_last k s ≡ none
unfolding contains_char cut_last
cut_last-none k String.[] h = refl
cut_last-none k (String.◌∷◌ c s) h = ground (arith, h, cut_last-none k s)

-- A text is cut at its last separator.
pub cut_last-append :
    (c : Char) (a b : String)
    → contains_char (code c) b ≡ false
    → cut_last (code c) (String.◌++◌ a (String.◌∷◌ c b)) ≡ some (a, b)
unfolding cut_last
cut_last-append c String.[] b h =
    ap (cut_last (code c)) (append.nil (String.◌∷◌ c b))
    ∙ rw (cut_last, cut_last-none (code c) b h, nat_beq_refl (code c)) refl
cut_last-append c (String.◌∷◌ x a) b h =
    ap (cut_last (code c)) (append.cons x a (String.◌∷◌ c b))
    ∙ rw (cut_last, cut_last-append c a b h) refl

-- A text without the separator is cut at the first one behind it.
pub cut-append :
    (c : Char) (a b : String)
    → contains_char (code c) a ≡ false
    → cut (code c) (String.◌++◌ a (String.◌∷◌ c b)) ≡ some (a, b)
unfolding cut contains_char
cut-append c String.[] b h =
    ap (cut (code c)) (append.nil (String.◌∷◌ c b)) ∙ rw (cut, nat_beq_refl (code c)) refl
cut-append c (String.◌∷◌ x a) b h =
    let differ : nat_beq (code x) (code c) ≡ false = ground (arith, h) in
    let rest : contains_char (code c) a ≡ false = ground (arith, h) in
    ap (cut (code c)) (append.cons x a (String.◌∷◌ c b))
    ∙ rw (cut, differ, cut-append c a b rest) refl
