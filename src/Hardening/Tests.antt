-- ===== src/Hardening/Tests.antt =====
-- Runs of `clientKey` at concrete inputs.
use sterun.Common.{Text, text_eq, codes, [], ◌∷◌, Option, none, some, if◌then◌else◌, ◌≡◌, refl}
use sterun.Results.Csv.{trim, trim_left, trim_right, is_js_space}
use sterun.Hardening.{
  Header, one, many, first_of, joined, on_first, split_hops, named_hops, last_or, non_blank,
  edge_value, forwarded_key, key_or, client_key,
}
use sterun.Hardening.Proxied.{client_key-forwarded}

-- A client that claims two addresses, and the hop of the proxy in front.
abbrev sample_headers : Text → Option Header
sample_headers name =
    if text_eq name (codes "x-forwarded-for")
    then some (one (codes "6.6.6.6, 7.7.7.7, 10.0.0.1"))
    else none

client_key-forwarded_example :
    client_key sample_headers (codes "127.0.0.1") none ≡ trim (codes " 10.0.0.1")
unfolding text_eq edge_value joined trim trim_left trim_right is_js_space
client_key-forwarded_example =
    client_key-forwarded sample_headers (codes "127.0.0.1") none (codes "6.6.6.6, 7.7.7.7")
      (codes " 10.0.0.1") refl refl refl refl

abbrev edge_headers : Text → Option Header
edge_headers name =
    if text_eq name (codes "cf-connecting-ip") then some (many (codes " 8.8.8.8" ∷ [])) else none

edge_wins :
    client_key edge_headers (codes "127.0.0.1") (some (codes "cf-connecting-ip")) ≡ codes "8.8.8.8"
unfolding text_eq client_key key_or edge_value first_of non_blank trim trim_left trim_right
    is_js_space
edge_wins = refl

direct : client_key (λ name. none) (codes "127.0.0.1") none ≡ codes "127.0.0.1"
unfolding client_key key_or edge_value forwarded_key last_or named_hops split_hops on_first joined
    trim trim_left trim_right is_js_space
direct = refl
