-- ===== src/Hardening.antt =====
-- be/src/http/hardening.ts, `clientKey`: who a request is from, for rate limiting.
pub mod Proxied
mod Tests
use sterun.Common.{
  ℕ, Text, codes, Bool, not, List, [], ◌∷◌, ◌++◌, Option, none, some, ◌==◌, if◌then◌else◌, map,
  filter,
}
use sterun.Results.Csv.{trim, is_blank}

-- A header as Node gives it: one text or several.
pub data Header : Type 0 where
  one : Text → Header
  many : List Text → Header

abbrev pub comma : ℕ
comma = 0x2c

unfoldable pub first_of : Header → Option Text
first_of (one t) = some t
first_of (many []) = none
first_of (many (t ∷ ts)) = some t

-- `join(",")`.
unfoldable pub join_hops : List Text → Text
join_hops [] = []
join_hops (x ∷ []) = x
join_hops (x ∷ y ∷ rest) = x ++ comma ∷ join_hops (y ∷ rest)

unfoldable pub joined : Option Header → Text
joined none = []
joined (some (one t)) = t
joined (some (many ts)) = join_hops ts

-- `split(",")`.
unfoldable pub on_first : ℕ → List Text → List Text
on_first c [] = (c ∷ []) ∷ []
on_first c (x ∷ xs) = (c ∷ x) ∷ xs

unfoldable pub split_hops : Text → List Text
split_hops [] = [] ∷ []
split_hops (c ∷ s) = if c == comma then [] ∷ split_hops s else on_first c (split_hops s)

unfoldable pub named_hops : List Text → List Text
named_hops hops = filter (λ hop. not (is_blank hop)) (map trim hops)

-- `hops.at(-1) ?? ip`.
unfoldable pub last_or : Text → List Text → Text
last_or ip [] = ip
last_or ip (x ∷ xs) = last_or x xs

unfoldable pub non_blank : Option Text → Option Text
non_blank none = none
non_blank (some t) = if is_blank (trim t) then none else some (trim t)

module _ (headers : Text → Option Header) where
  -- The header that the deployment names, none where it names none or it is blank.
  unfoldable pub edge_value : Option Text → Option Text
  edge_value none = none
  edge_value (some name) = if is_blank name then none else non_blank (named_value (headers name))
    where
      named_value : Option Header → Option Text
      named_value none = none
      named_value (some h) = first_of h

module _ (headers : Text → Option Header) (ip : Text) where
  unfoldable pub forwarded_key : Text
  forwarded_key = last_or ip (named_hops (split_hops (joined (headers (codes "x-forwarded-for")))))

  unfoldable pub key_or : Option Text → Text
  key_or (some value) = value
  key_or none = forwarded_key

  unfoldable pub client_key : (client_ip_header : Option Text) → Text
  client_key client_ip_header = key_or (edge_value headers client_ip_header)
