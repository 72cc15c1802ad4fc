-- ===== src/Tunnel/Accepting.antt =====
-- Which arguments the transports accept, and the output that a host process leaves.
use linkspan.Base.{
  ℕ, zero, suc, ◌+◌, ◌-◌, ◌≤◌, String, ◌≡◌, refl, ◌≢◌, sym, ap, ◌∙◌, inl, inr, true, Option, none,
  some, List, [], ◌∷◌, ◌++◌, lookup, insert, ok, arith, eq_iff, length, length-append, drop,
  length-drop, ◌==◌, string_eq, Bool-cases,
}
use mathlib.Core.List.{append_assoc, append-nil}
use linkspan.Go.Strings.{fields}
use linkspan.Go.Flags.{parse_flags, Parsed, argument, mentions}
use linkspan.Tunnel.Transports.{
  Url, Link, Tunnel, is_link_url, link_of, link_new, devtunnel_of, devtunnel_new, output_limit,
  write_output, write_all, held,
}

link_of-ok :
    (parse_url : String → Option Url) (token : String) (p : Parsed) (l : Link)
    → link_of parse_url token p ≡ ok l
    → is_link_url (parse_url l.url) ≡ true
unfolding link_of
link_of-ok parse_url token none l e = cc
link_of-ok parse_url token (some (values, a ∷ rest)) l e = cc
link_of-ok parse_url token (some (values, [])) l e = ground arith

-- A link that New accepts has a ws or wss URL with a host.
pub link_new-ok :
    (parse_url : String → Option Url) (args token : String) (l : Link)
    → link_new parse_url args token ≡ ok l
    → is_link_url (parse_url l.url) ≡ true
unfolding link_new
link_new-ok parse_url args token l e =
    link_of-ok parse_url token (parse_flags ("url" ∷ []) (fields args) []) l e

devtunnel_of-ok :
    (token : String) (p : Parsed) (t : Tunnel)
    → devtunnel_of token p ≡ ok t
    → (t.id ≢ "") × (t.cluster ≢ "") × (t.token ≡ token)
unfolding devtunnel_of
devtunnel_of-ok token none t e = cc
devtunnel_of-ok token (some (values, a ∷ rest)) t e = cc
devtunnel_of-ok token (some (values, [])) t e = elim (Bool-cases (held "id" values == "")) [
  | inl i ↦ cc (rw i at e)
  | inr i ↦ elim (Bool-cases (held "cluster" values == "")) [
    | inl c ↦ cc (rw (i, c) at e)
    | inr c ↦
        ground
          (arith, rw (i, c) at e, eq_iff (held "id" values) "", eq_iff (held "cluster" values) "")
  ]
]

-- A tunnel that New accepts has an id, a cluster and the token given.
pub devtunnel_new-ok :
    (args token : String) (t : Tunnel)
    → devtunnel_new args token ≡ ok t
    → (t.id ≢ "") × (t.cluster ≢ "") × (t.token ≡ token)
unfolding devtunnel_new
devtunnel_new-ok args token t e =
    devtunnel_of-ok token (parse_flags ("id" ∷ "cluster" ∷ []) (fields args) []) t e

-- New accepts the arguments "--id a --cluster b", in that order, for any a and b that are not empty.
pub devtunnel_new-accepts :
    (args token a b : String)
    → fields args ≡ "--id" ∷ a ∷ "--cluster" ∷ b ∷ []
    → a ≢ ""
    → b ≢ ""
    → devtunnel_new args token ≡ ok (record { id = a; cluster = b; token = token })
unfolding devtunnel_new devtunnel_of parse_flags argument mentions lookup insert
devtunnel_new-accepts args token a b e p q = ground (arith, e, eq_iff a "", eq_iff b "")

module _ {A : Type 0} where
  drop-nil : (n : ℕ) → drop {A = A} n [] ≡ []
  drop-nil zero = refl
  drop-nil (suc n) = refl

  drop-drop : (m n : ℕ) (xs : List A) → drop m (drop n xs) ≡ drop (n + m) xs
  drop-drop m zero xs = let same : 0 + m ≡ m = omega arith in rw same
  drop-drop m (suc n) [] = drop-nil m ∙ sym (drop-nil (suc n + m))
  drop-drop m (suc n) (x ∷ xs) =
      let same : suc n + m ≡ suc (n + m) = omega arith in rw same (drop-drop m n xs)

  drop-append : (n : ℕ) (xs ys : List A) → n ≤ length xs → drop n xs ++ ys ≡ drop n (xs ++ ys)
  drop-append zero xs ys b = refl
  drop-append (suc n) [] ys b = absurd (omega (arith, b))
  drop-append (suc n) (x ∷ xs) ys b = drop-append n xs ys (omega (arith, b))

-- The last 64 KiB.
abbrev pub tail : List ℕ → List ℕ
tail bytes = drop (length bytes - output_limit) bytes

abbrev pub joined : List (List ℕ) → List ℕ
joined [] = []
joined (bytes ∷ rest) = bytes ++ joined rest

tail-append : (xs ys : List ℕ) → tail (tail xs ++ ys) ≡ tail (xs ++ ys)
tail-append xs ys =
    let over = length xs - output_limit in
    let moved : drop over xs ++ ys ≡ drop over (xs ++ ys) = drop-append over xs ys (omega arith) in
    let whole = length-append xs ys in
    let shorter = length-drop over (xs ++ ys) in
    let same : over + (length (drop over (xs ++ ys)) - output_limit)
        ≡ length (xs ++ ys) - output_limit =
      omega (arith, whole, shorter) in
    rw moved (drop-drop (length (drop over (xs ++ ys)) - output_limit) over (xs ++ ys) ∙ rw same)

write_all-from :
    (writes : List (List ℕ)) (bytes : List ℕ)
    → write_all writes (tail bytes) ≡ tail (bytes ++ joined writes)
unfolding write_all write_output
write_all-from [] bytes = rw (append-nil bytes)
write_all-from (w ∷ ws) bytes =
    ap (write_all ws) (tail-append bytes w)
    ∙ write_all-from ws (bytes ++ w)
    ∙ ap tail (append_assoc bytes w (joined ws))

-- Whatever is written, in whatever parts, the captured output is the last 64 KiB of all of it.
pub write_all-tail : (writes : List (List ℕ)) → write_all writes [] ≡ tail (joined writes)
write_all-tail writes = write_all-from writes []
