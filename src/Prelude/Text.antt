-- ===== src/Prelude/Text.antt =====
-- The functions of Go's `fmt` and `strings` packages that the program uses.
use Prim.Native.Nat.{ℕ, zero, suc, ◌+◌, ◌/◌, ◌%◌}
use Prim.Native.Char.{code}
use Prim.Native.String.{String, ◌++◌ as text_append}
use mathlib.Core.Path.{◌≡◌, refl, ap, ◌∙◌}
use mathlib.Core.Logic.{◌↔◌, inl, inr}
use mathlib.Core.Bool.{Bool, ◌||◌, ◌&&◌}
use mathlib.Core.List.{List, [], ◌∷◌, ◌++◌}
use native.Mathlib.Omega.{arith}
use logic_operator.Prelude.Tests.{text_Eq, if◌then◌else◌, nat_eq, ltb, leb, Bool-cases}

-- `fmt.Sprintf` with `%s` and text between, and `a + b + …` on strings.
unfoldable pub sprintf : List String → String
sprintf [] = ""
sprintf (s ∷ parts) = text_append s (sprintf parts)

-- `strings.Join`, with the separator first
unfoldable pub join : String → List String → String
join separator [] = ""
join separator (s ∷ []) = s
join separator (s ∷ t ∷ parts) = text_append s (text_append separator (join separator (t ∷ parts)))

digit : ℕ → String
digit d =
    if nat_eq d 0
    then "0"
    else if nat_eq d 1
    then "1"
    else if nat_eq d 2
    then "2"
    else if nat_eq d 3
    then "3"
    else if nat_eq d 4
    then "4"
    else if nat_eq d 5
    then "5"
    else if nat_eq d 6
    then "6"
    else if nat_eq d 7
    then "7"
    else if nat_eq d 8
    then "8"
    else "9"

-- The digits of `n` before `tail`; `n < 10 ^ fuel` is fuel enough.
digits : ℕ → ℕ → String → String
digits zero n tail = tail
digits (suc fuel) n tail =
    let s = text_append (digit (n % 10)) tail in
    let rest = digits fuel (n / 10) s in if ltb n 10 then s else rest

-- `%q` of a text without characters that Go escapes
unfoldable pub quoted : String → String
unfolding sprintf
quoted s = sprintf ("\"" ∷ s ∷ "\"" ∷ [])

-- `%d` of a number below 2 ^ 64, which has at most 20 digits.
unfoldable pub show_number : ℕ → String
unfolding digits digit
show_number n = digits 20 n ""

-- The code points of a text, for the functions that look inside one.
abbrev pub codes : String → List ℕ
codes String.[] = []
codes (String.◌∷◌ c s) = code c ∷ codes s

unfoldable pub same_codes : List ℕ → List ℕ → Bool
same_codes [] [] = Bool.true
same_codes (x ∷ xs) (y ∷ ys) = nat_eq x y && same_codes xs ys
same_codes _ _ = Bool.false

-- `strings.HasSuffix`: some tail of `s` is `t`.
unfoldable pub ends_with : List ℕ → List ℕ → Bool
unfolding same_codes
ends_with [] t = same_codes [] t
ends_with (c ∷ s) t = same_codes (c ∷ s) t || ends_with s t

-- `strings.HasPrefix`
unfoldable pub begins_with : List ℕ → List ℕ → Bool
begins_with s [] = Bool.true
begins_with [] (d ∷ t) = Bool.false
begins_with (c ∷ s) (d ∷ t) = nat_eq c d && begins_with s t

-- `strings.Contains` for a text of one character
unfoldable pub contains_code : ℕ → List ℕ → Bool
contains_code d [] = Bool.false
contains_code d (c ∷ s) = nat_eq c d || contains_code d s

-- `strings.Contains(s, part)`
contains_codes : List ℕ → List ℕ → Bool
contains_codes part [] = begins_with [] part
contains_codes part (c ∷ s) = begins_with (c ∷ s) part || contains_codes part s

unfoldable pub contains_text : String → String → Bool
unfolding contains_codes begins_with
contains_text part s = contains_codes (codes part) (codes s)

-- `strings.ToLower` on ASCII; other characters are left as they are.
unfoldable pub lower_code : ℕ → ℕ
lower_code c = if leb b'A' c && leb c b'Z' then c + 32 else c

-- `strings.TrimSuffix(s, ".")`
unfoldable pub trim_dot : List ℕ → List ℕ
trim_dot [] = []
trim_dot (c ∷ []) = if nat_eq c b'.' then [] else c ∷ []
trim_dot (c ∷ d ∷ s) = c ∷ trim_dot (d ∷ s)

pub same_codes_iff : (s t : List ℕ) → (same_codes s t ≡ Bool.true) ↔ (s ≡ t)
unfolding same_codes
same_codes_iff [] [] = ground arith
same_codes_iff [] (y ∷ ys) = ground arith
same_codes_iff (x ∷ xs) [] = ground arith
same_codes_iff (x ∷ xs) (y ∷ ys) = ground (arith, same_codes_iff xs ys)

-- A text is one of its own tails.
pub ends_with-append : (p t : List ℕ) → ends_with (p ++ t) t ≡ Bool.true
unfolding ends_with
ends_with-append [] [] = refl
ends_with-append [] (x ∷ t) = ground (arith, (same_codes_iff (x ∷ t) (x ∷ t)).1 refl)
ends_with-append (c ∷ p) t = ground (arith, ends_with-append p t)

ends_with_found : (s t : List ℕ) → ends_with s t ≡ Bool.true → (p : List ℕ) × (s ≡ p ++ t)
unfolding ends_with
ends_with_found [] t h = ([], (same_codes_iff [] t).0 h)
ends_with_found (c ∷ s) t h = elim (Bool-cases (same_codes (c ∷ s) t)) [
  | inl e ↦ ([], (same_codes_iff (c ∷ s) t).0 e)
  | inr e ↦ let (p, q) = ends_with_found s t (ground (arith, e, h)) in (c ∷ p, ap (λ r. c ∷ r) q)
]

pub ends_with_iff : (s t : List ℕ) → (ends_with s t ≡ Bool.true) ↔ ((p : List ℕ) × (s ≡ p ++ t))
ends_with_iff s t =
    (ends_with_found s t, λ w. ap (λ (r : List ℕ). ends_with r t) w.1 ∙ ends_with-append w.0 t)
