-- ===== src/Gateway/Catalog/Build/Extends.antt =====
-- A table that extends another, and a claim that a table accounts for.
use logic_operator.Prelude.{
  String, ◌≡◌, refl, ◌⊎◌, some, [], ◌∷◌, ◌++◌, arith, text_Eq, ◌==◌, In, inl, inr, Bool-cases,
  Option-cases, same_refl, In-append_left, In-append_right,
}
use logic_operator.Prelude.Assoc.{get, get-put}
use logic_operator.Gateway.Routing.{WorkflowKey, Url, key_Eq}
use logic_operator.Gateway.Catalog.Build.{Build, BuildError, duplicate_key, claim}

-- A later table: it keeps the endpoints that are set and the errors that are noted.
pub record Extends (b c : Build) : Type 0 where
  pub keeps : (k : WorkflowKey) (u : Url) → get k b.endpoints ≡ some u → get k c.endpoints ≡ some u
  pub remembers : (e : BuildError) → In e b.errors → In e c.errors

pub Extends-refl : (b : Build) → Extends b b
Extends-refl b = record { keeps = λ k u h. h; remembers = λ e i. i }

pub Extends-trans : {b c d : Build} → Extends b c → Extends c d → Extends b d
Extends-trans x y = record {
  keeps = λ k u h. y.keeps k u (x.keeps k u h);
  remembers = λ e i. y.remembers e (x.remembers e i);
}

pub note_Extends :
    (b : Build) (e : BuildError) → Extends b (record b { errors = b.errors ++ (e ∷ []) })
note_Extends b e = record {
  keeps = λ k u h. h;
  remembers = λ x i. In-append_left x b.errors (e ∷ []) i;
}

pub claim_keeps :
    (b : Build) (owner : String × String) (key k : WorkflowKey) (url u : Url)
    → get k b.endpoints ≡ some u
    → get k (claim b owner key url).endpoints ≡ some u
unfolding claim
claim_keeps b owner key k url u h =
    ground (arith, get-put key k url b.endpoints, key_Eq.same_iff key k, text_Eq.same_iff u url)

pub claim_remembers :
    (b : Build) (owner : String × String) (key : WorkflowKey) (url : Url) (e : BuildError)
    → In e b.errors
    → In e (claim b owner key url).errors
unfolding claim
claim_remembers b owner key url e i = elim (Option-cases (get key b.endpoints)) [
  | inl free ↦ rw (free, claim) i
  | inr (w, taken) ↦ elim (Bool-cases (w == url)) [
    | inl agrees ↦ rw (taken, claim) (rw agrees i)
    | inr differs ↦
        rw (taken, claim)
          (rw differs (In-append_left e b.errors (duplicate_key owner key w url ∷ []) i))
  ]
]

pub claim-Extends :
    (b : Build) (owner : String × String) (key : WorkflowKey) (url : Url)
    → Extends b (claim b owner key url)
claim-Extends b owner key url = record {
  keeps = λ k u. claim_keeps b owner key k url u;
  remembers = claim_remembers b owner key url;
}

-- The claim of `url` for `key` is settled: the table has an endpoint for the key, which is `url`
-- unless the errors say that `url` was refused for it.
pub record IsSettled (b : Build) (owner : String × String) (key : WorkflowKey) (url : Url)
    : Type 0 where
  pub endpoint : Url
  pub set : get key b.endpoints ≡ some endpoint
  pub accounted : (endpoint ≡ url) ⊎ In (duplicate_key owner key endpoint url) b.errors

pub IsSettled-Extends :
    {b c : Build} (owner : String × String) (key : WorkflowKey) (url : Url)
    → IsSettled b owner key url
    → Extends b c
    → IsSettled c owner key url
IsSettled-Extends owner key url s x = record {
  endpoint = s.endpoint;
  set = x.keeps key s.endpoint s.set;
  accounted = elim s.accounted [ inl p ↦ inl p | inr i ↦ inr (x.remembers _ i) ];
}

pub claim-IsSettled :
    (b : Build) (owner : String × String) (key : WorkflowKey) (url : Url)
    → IsSettled (claim b owner key url) owner key url
unfolding claim
claim-IsSettled b owner key url = elim (Option-cases (get key b.endpoints)) [
  | inl free ↦ record {
    endpoint = url;
    set = rw (free, claim) (rw (get-put key key url b.endpoints, same_refl key));
    accounted = inl refl;
  }
  | inr (w, taken) ↦ elim (Bool-cases (w == url)) [
    | inl agrees ↦ record {
      endpoint = url;
      set = rw (taken, claim) (rw agrees (rw (get-put key key url b.endpoints, same_refl key)));
      accounted = inl refl;
    }
    | inr differs ↦ record {
      endpoint = w;
      set = rw (taken, claim) (rw differs taken);
      accounted = inr (
          rw (taken, claim)
            (rw differs
              (In-append_right _ b.errors (duplicate_key owner key w url ∷ []) (inl refl))));
    }
  ]
]
