-- ===== src/Hardening/Proxied.antt =====
-- A client behind a proxy does not choose its key.
use sterun.Common.{
  Text, codes, true, false, not, List, [], ◌∷◌, ◌++◌, Option, none, ◌==◌, all, ◌≡◌, refl, ap, arith,
  Bool-cases, inl, inr,
}
use sterun.Results.Csv.{trim, is_blank}
use sterun.Hardening.{
  Header, comma, joined, on_first, split_hops, named_hops, last_or, edge_value, forwarded_key,
  key_or, client_key,
}

abbrev pub IsHop : Text → Type 0
IsHop s = all (λ c. not (c == comma)) s ≡ true

split_hops-IsHop : (s : Text) → IsHop s → split_hops s ≡ s ∷ []
unfolding split_hops on_first
split_hops-IsHop [] h = refl
split_hops-IsHop (c ∷ s) h = ground (arith, split_hops-IsHop s)

split_hops-concat :
    (claimed hop : Text)
    → IsHop hop
    → (x : Text) × (xs : List Text) × (split_hops (claimed ++ comma ∷ hop) ≡ x ∷ xs ++ hop ∷ [])
unfolding split_hops on_first
split_hops-concat [] hop h = ([], [], ap (λ l. [] ∷ l) (split_hops-IsHop hop h))
split_hops-concat (c ∷ claimed) hop h =
    let (x, xs, e) = split_hops-concat claimed hop h in
    elim (Bool-cases (c == comma)) [
      | inl same ↦ ([], x ∷ xs, rw (same, e) refl)
      | inr other ↦ (c ∷ x, xs, rw (other, e) refl)
    ]

last_or-named_hops :
    (ip hop : Text) (xs : List Text)
    → is_blank (trim hop) ≡ false
    → last_or ip (named_hops (xs ++ hop ∷ [])) ≡ trim hop
unfolding last_or named_hops
last_or-named_hops ip hop [] h = rw h refl
last_or-named_hops ip hop (x ∷ xs) h = elim (Bool-cases (is_blank (trim x))) [
  | inl blank ↦ rw blank (last_or-named_hops ip hop xs h)
  | inr full ↦ rw full (last_or-named_hops (trim x) hop xs h)
]

-- Where the deployment's own header gives no value, and the last hop that the proxy appended to what the
-- client had written has no comma and is not blank, the key is that hop without its outer white space,
-- whatever the client wrote and wherever the connection comes from.
pub client_key-forwarded :
    (headers : Text → Option Header) (ip : Text) (client_ip_header : Option Text)
    (claimed hop : Text)
    → edge_value headers client_ip_header ≡ none
    → joined (headers (codes "x-forwarded-for")) ≡ claimed ++ comma ∷ hop
    → IsHop hop
    → is_blank (trim hop) ≡ false
    → client_key headers ip client_ip_header ≡ trim hop
unfolding client_key key_or forwarded_key
client_key-forwarded headers ip header claimed hop none_named written no_comma full =
    let (x, xs, e) = split_hops-concat claimed hop no_comma in
    rw (none_named, written, e) (last_or-named_hops ip hop (x ∷ xs) full)
