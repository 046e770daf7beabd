-- ===== src/Gateway/Catalog/Urls/Host.antt =====
-- What `host_lower` keeps of a host: how its tests read on the letters of the host itself.
use mathlib.Core.List.{append-nil, append_assoc}
use mathlib.Core.Path.{subst}
use logic_operator.Prelude.{
  ℕ, ◌+◌, ◌≤◌, ◌≡◌, refl, sym, ap, ◌∙◌, ◌↔◌, ◌⊎◌, ◌≢◌, inl, inr, true, List, [], ◌∷◌, ◌++◌, map,
  arith, All, Bool-cases, nat_eq,
}
use logic_operator.Prelude.Text.{ends_with, ends_with_iff, contains_code, lower_code, trim_dot}

-- `s` reads `t`: each character of `s` is that of `t`, or its capital from A to Z.
abbrev pub Reads : List ℕ → List ℕ → Type 0
Reads [] [] = Unit
Reads [] (d ∷ t) = ⊥
Reads (c ∷ s) [] = ⊥
Reads (c ∷ s) (d ∷ t) = ((c ≡ d) ⊎ ((b'A' ≤ c) × (c ≤ b'Z') × (c + 32 ≡ d))) × Reads s t

-- The host ends in the text `t`, in any case of the letters, or in `t` and one more dot.
abbrev pub EndsIn : List ℕ → List ℕ → Type 0
EndsIn host t =
    (p : List ℕ) × (q : List ℕ) × Reads q t × ((host ≡ p ++ q) ⊎ (host ≡ p ++ (q ++ (b'.' ∷ []))))

-- A dot stands before the last character.
abbrev pub HasInnerDot : List ℕ → Type 0
HasInnerDot host = (p : List ℕ) × (c : ℕ) × (q : List ℕ) × (host ≡ p ++ (b'.' ∷ c ∷ q))

-- A text without capitals
abbrev pub IsLower : List ℕ → Type 0
IsLower t = All (λ d. lower_code d ≡ d) t

pub IsLower-fixed : (t : List ℕ) → map lower_code t ≡ t → IsLower t
IsLower-fixed [] h = tt
IsLower-fixed (d ∷ t) h = (ground (arith, h), IsLower-fixed t (ground (arith, h)))

lower_code-dot : (c : ℕ) → (lower_code c ≡ b'.') ↔ (c ≡ b'.')
unfolding lower_code
lower_code-dot c = ground arith

trim_dot-map : (s : List ℕ) → trim_dot (map lower_code s) ≡ map lower_code (trim_dot s)
unfolding trim_dot
trim_dot-map [] = refl
trim_dot-map (c ∷ []) = ground (arith, lower_code-dot c)
trim_dot-map (c ∷ d ∷ s) = ap (◌∷◌ (lower_code c)) (trim_dot-map (d ∷ s))

trim_dot-append :
    (p : List ℕ) (c : ℕ) (q : List ℕ) → trim_dot (p ++ (c ∷ q)) ≡ p ++ trim_dot (c ∷ q)
unfolding trim_dot
trim_dot-append [] c q = refl
trim_dot-append (a ∷ []) c q = refl
trim_dot-append (a ∷ b ∷ p) c q = ap (◌∷◌ a) (trim_dot-append (b ∷ p) c q)

trim_dot-dotted : (s : List ℕ) → trim_dot (s ++ (b'.' ∷ [])) ≡ s
unfolding trim_dot
trim_dot-dotted s = trim_dot-append s b'.' [] ∙ append-nil s

-- The final dot is there and is taken off, or nothing changes.
trim_dot-cases : (s : List ℕ) → (s ≡ trim_dot s ++ (b'.' ∷ [])) ⊎ (s ≡ trim_dot s)
unfolding trim_dot
trim_dot-cases [] = inr refl
trim_dot-cases (c ∷ []) = ground arith
trim_dot-cases (c ∷ d ∷ s) = elim (trim_dot-cases (d ∷ s)) [
  | inl e ↦ inl (ap (◌∷◌ c) e)
  | inr e ↦ inr (ap (◌∷◌ c) e)
]

-- The characters that lower_code brings to `t` read `t`.
Reads-map : (q : List ℕ) → Reads q (map lower_code q)
unfolding lower_code
Reads-map [] = tt
Reads-map (c ∷ q) = (ground arith, Reads-map q)

map-Reads : (q t : List ℕ) → IsLower t → Reads q t → map lower_code q ≡ t
map-Reads [] [] low h = refl
map-Reads [] (d ∷ t) low h = absurd h
map-Reads (c ∷ q) [] low h = absurd h
map-Reads (c ∷ q) (d ∷ t) low h =
    let same : lower_code c ≡ d = elim h.0 [
      | inl e ↦ ap lower_code e ∙ low.0
      | inr (from, to, e) ↦ unfold lower_code in ground (arith, from, to, e)
    ] in
    ground (arith, same, map-Reads q t low.1 h.1)

trim_dot-Reads : (q t : List ℕ) → Reads q t → trim_dot t ≡ t → trim_dot q ≡ q
unfolding trim_dot
trim_dot-Reads [] t h e = refl
trim_dot-Reads (c ∷ q) [] h e = absurd h
trim_dot-Reads (c ∷ []) (d ∷ []) h e = ground (arith, h.0, e)
trim_dot-Reads (c ∷ []) (d ∷ b ∷ t) h e = absurd h.1
trim_dot-Reads (c ∷ a ∷ q) (d ∷ []) h e = absurd h.1
trim_dot-Reads (c ∷ a ∷ q) (d ∷ b ∷ t) h e =
    ap (◌∷◌ c) (trim_dot-Reads (a ∷ q) (b ∷ t) h.1 (ground (arith, e)))

-- A list that a function is mapped over is cut where its image is.
map-split :
    (s p t : List ℕ)
    → map lower_code s ≡ p ++ t
    → (a : List ℕ) × (b : List ℕ) × (s ≡ a ++ b) × (map lower_code b ≡ t)
map-split s [] t h = ([], s, refl, h)
map-split [] (d ∷ p) t h = absurd (ground (arith, h))
map-split (c ∷ s) (d ∷ p) t h =
    let (a, b, e, f) = map-split s p t (ground (arith, h)) in (c ∷ a, b, ap (◌∷◌ c) e, f)

map-append : (a b : List ℕ) → map lower_code (a ++ b) ≡ map lower_code a ++ map lower_code b
map-append [] b = refl
map-append (c ∷ a) b = ap (◌∷◌ (lower_code c)) (map-append a b)

-- Without its final dot, a host that ends in `t` is what it is cut into.
trim_dot-whole :
    (host p q t : List ℕ)
    → Reads q t
    → trim_dot t ≡ t
    → t ≢ []
    → (host ≡ p ++ q) ⊎ (host ≡ p ++ (q ++ (b'.' ∷ [])))
    → trim_dot host ≡ p ++ q
trim_dot-whole host p [] [] reads undotted there shape = absurd (there refl)
trim_dot-whole host p [] (d ∷ t) reads undotted there shape = absurd reads
trim_dot-whole host p (c ∷ q) t reads undotted there (inl e) =
    ap trim_dot e
    ∙ (trim_dot-append p c q
        ∙ ap (λ (r : List ℕ). p ++ r) (trim_dot-Reads (c ∷ q) t reads undotted))
trim_dot-whole host p (c ∷ q) t reads undotted there (inr e) =
    ap trim_dot (e ∙ sym (append_assoc p (c ∷ q) (b'.' ∷ []))) ∙ trim_dot-dotted (p ++ (c ∷ q))

-- The lowered and trimmed host ends in `t` exactly when the host ends in it in any case of the
-- letters, with or without a final dot.
pub ends_with-EndsIn :
    (host t : List ℕ)
    → IsLower t
    → trim_dot t ≡ t
    → t ≢ []
    → (ends_with (trim_dot (map lower_code host)) t ≡ true) ↔ EndsIn host t
ends_with-EndsIn host t low undotted there = rw trim_dot-map (
  λ h.
      let (p, e) = (ends_with_iff (map lower_code (trim_dot host)) t).0 h in
      let (a, b, cut, image) = map-split (trim_dot host) p t e in
      (
        a,
        b,
        subst (Reads b) image (Reads-map b),
        elim (trim_dot-cases host) [
          | inl f ↦
              inr (f ∙ (ap (λ (r : List ℕ). r ++ (b'.' ∷ [])) cut ∙ append_assoc a b (b'.' ∷ [])))
          | inr f ↦ inl (f ∙ cut)
        ],
      ),
  λ (p, q, reads, shape).
      let whole : trim_dot host ≡ p ++ q = trim_dot-whole host p q t reads undotted there shape in
      (ends_with_iff (map lower_code (trim_dot host)) t).1 (
        map lower_code p,
        ap (map lower_code) whole
            ∙ (map-append p q
                ∙ ap (λ (r : List ℕ). map lower_code p ++ r) (map-Reads q t low reads)),
      ),
)

contains_code-map : (s : List ℕ) → contains_code b'.' (map lower_code s) ≡ contains_code b'.' s
unfolding contains_code lower_code
contains_code-map [] = refl
contains_code-map (c ∷ s) = ground (arith, contains_code-map s)

contains_code_found :
    (s : List ℕ) → contains_code b'.' s ≡ true → (p : List ℕ) × (q : List ℕ) × (s ≡ p ++ (b'.' ∷ q))
unfolding contains_code
contains_code_found [] h = cc
contains_code_found (c ∷ s) h = elim (Bool-cases (nat_eq c b'.')) [
  | inl e ↦ ([], s, ground (arith, e))
  | inr e ↦ let (p, q, f) = contains_code_found s (ground (arith, e, h)) in (c ∷ p, q, ap (◌∷◌ c) f)
]

contains_code-dot : (p q : List ℕ) → contains_code b'.' (p ++ (b'.' ∷ q)) ≡ true
unfolding contains_code
contains_code-dot [] q = refl
contains_code-dot (c ∷ p) q = ground (arith, contains_code-dot p q)

no_longer : (p : List ℕ) (c : ℕ) → p ≢ p ++ (c ∷ [])
no_longer [] c e = cc
no_longer (d ∷ p) c e = no_longer p c (ground (arith, e))

-- A dot of the trimmed host is one before the last character of the host.
inner : (host p q : List ℕ) → trim_dot host ≡ p ++ (b'.' ∷ q) → HasInnerDot host
inner host p [] e = elim (trim_dot-cases host) [
  | inl f ↦ (
    p,
    b'.',
    [],
    f ∙ (ap (λ (r : List ℕ). r ++ (b'.' ∷ [])) e ∙ append_assoc p (b'.' ∷ []) (b'.' ∷ [])),
  )
  | inr f ↦ absurd (no_longer p b'.' (sym (trim_dot-dotted p) ∙ (ap trim_dot (sym (f ∙ e)) ∙ e)))
]
inner host p (c ∷ q) e = elim (trim_dot-cases host) [
  | inl f ↦ (
    p,
    c,
    q ++ (b'.' ∷ []),
    f ∙ (ap (λ (r : List ℕ). r ++ (b'.' ∷ [])) e ∙ append_assoc p (b'.' ∷ c ∷ q) (b'.' ∷ [])),
  )
  | inr f ↦ (p, c, q, f ∙ e)
]

-- The lowered and trimmed host has a dot exactly when one stands before the last character of the
-- host.
pub contains_code-HasInnerDot :
    (host : List ℕ)
    → (contains_code b'.' (trim_dot (map lower_code host)) ≡ true) ↔ HasInnerDot host
contains_code-HasInnerDot host =
    rw (trim_dot-map, contains_code-map)
      (
        λ h. let (p, q, e) = contains_code_found (trim_dot host) h in inner host p q e,
        λ (p, c, q, e).
            ap (λ (r : List ℕ). contains_code b'.' r)
              (ap trim_dot e ∙ trim_dot-append p b'.' (c ∷ q))
            ∙ (unfold trim_dot in contains_code-dot p (trim_dot (c ∷ q))),
      )
