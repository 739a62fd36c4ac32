-- ===== src/Announcements/Injective.antt =====
-- Two announcements with one message are the same.
use sterun.Common.{
  ℕ, ◌+◌, ◌*◌, ◌-◌, ◌/◌, ◌%◌, ◌≤◌, zero, suc, Text, codes, Bool, true, not, List, [], ◌∷◌, ◌++◌,
  ◌==◌, ltb, all, All, length, ◌≡◌, refl, sym, ap, ◌∙◌, arith, Bool-cases, inl, inr,
}
use sterun.Announcements.{
  AnnouncementFields, line_feed, decimal_from, decimal, join_lines, message_lines,
  announcement_message,
}

abbrev pub IsLine : Text → Type 0
IsLine s = all (λ c. not (c == line_feed)) s ≡ true

append-cancel : (p s t : Text) → p ++ s ≡ p ++ t → s ≡ t
append-cancel [] s t e = e
append-cancel (c ∷ p) s t e = append-cancel p s t (ground arith)

split_lines :
    (a b s t : Text)
    → IsLine a
    → IsLine b
    → a ++ line_feed ∷ s ≡ b ++ line_feed ∷ t
    → (a ≡ b) × (s ≡ t)
split_lines [] [] s t ha hb e = (refl, ground arith)
split_lines [] (d ∷ b) s t ha hb e = ground arith
split_lines (c ∷ a) [] s t ha hb e = ground arith
split_lines (c ∷ a) (d ∷ b) s t ha hb e =
    let (same, rest) = split_lines a b s t (ground arith) (ground arith) (ground arith) in
    (ground arith, rest)

join_lines_once :
    (x y : Text) (xs ys : List Text)
    → All IsLine (x ∷ xs)
    → All IsLine (y ∷ ys)
    → length xs ≡ length ys
    → join_lines (x ∷ xs) ≡ join_lines (y ∷ ys)
    → x ∷ xs ≡ y ∷ ys
unfolding join_lines
join_lines_once x y [] [] hx hy n e = ap (λ z. z ∷ []) e
join_lines_once x y [] (b ∷ ys) hx hy n e = ground arith
join_lines_once x y (a ∷ xs) [] hx hy n e = ground arith
join_lines_once x y (a ∷ xs) (b ∷ ys) (hx, hxs) (hy, hys) n e =
    let (same, rest) = split_lines x y _ _ hx hy e in
    let later = join_lines_once a b xs ys hxs hys (ground arith) rest in ground arith

-- The number that a text of digits writes.
abbrev value : ℕ → Text → ℕ
value n [] = n
value n (c ∷ s) = value (10 * n + (c - 0x30)) s

value-concat : (n : ℕ) (s : Text) (c : ℕ) → value n (s ++ c ∷ []) ≡ 10 * value n s + (c - 0x30)
value-concat n [] c = refl
value-concat n (d ∷ s) c = value-concat (10 * n + (d - 0x30)) s c

value-decimal_from : (fuel n : ℕ) → n ≤ fuel → value 0 (decimal_from fuel n) ≡ n
unfolding decimal_from
value-decimal_from zero n h = ground arith
value-decimal_from (suc fuel) n h = elim (Bool-cases (ltb n 10)) [
  | inl small ↦ rw small (omega arith)
  | inr big ↦ rw big (
      value-concat 0 (decimal_from fuel (n / 10)) (0x30 + n % 10)
      ∙ ground (arith, value-decimal_from fuel (n / 10) (ground arith)))
]

all-concat :
    (p : ℕ → Bool) (s : Text) (c : ℕ) → all p s ≡ true → p c ≡ true → all p (s ++ c ∷ []) ≡ true
all-concat p [] c hs hc = ground arith
all-concat p (d ∷ s) c hs hc = ground (arith, all-concat p s c)

decimal_from-IsLine : (fuel n : ℕ) → IsLine (decimal_from fuel n)
unfolding decimal_from
decimal_from-IsLine zero n = ground arith
decimal_from-IsLine (suc fuel) n = elim (Bool-cases (ltb n 10)) [
  | inl small ↦ rw small (ground arith)
  | inr big ↦ rw big (
      all-concat _ (decimal_from fuel (n / 10)) _ (decimal_from-IsLine fuel (n / 10))
        (ground arith))
]

decimal-injective : (m n : ℕ) → decimal m ≡ decimal n → m ≡ n
unfolding decimal
decimal-injective m n e =
    sym (value-decimal_from m m (omega arith))
    ∙ ap (value 0) e
    ∙ value-decimal_from n n (omega arith)

module _ (body_sha256 : Text → Text) (digest_line : (body : Text) → IsLine (body_sha256 body)) where
  abbrev pub IsPlain : AnnouncementFields → Type 0
  IsPlain a = IsLine a.network_passphrase × (IsLine a.event_registry × IsLine a.published_at)

  message_lines-IsLine :
      (a : AnnouncementFields) → IsPlain a → All IsLine (message_lines body_sha256 a)
  unfolding message_lines decimal
  message_lines-IsLine a (network, (registry, time)) = (
    refl,
    (
      network,
      (registry, (decimal_from-IsLine a.event_id a.event_id, (time, (digest_line a.body, tt)))),
    ),
  )

  message_lines-injective :
      (a b : AnnouncementFields)
      → message_lines body_sha256 a ≡ message_lines body_sha256 b
      → ((a.network_passphrase ≡ b.network_passphrase) × (a.event_registry ≡ b.event_registry))
        × ((a.event_id ≡ b.event_id)
            × ((a.published_at ≡ b.published_at) × (body_sha256 a.body ≡ body_sha256 b.body)))
  unfolding message_lines
  message_lines-injective a b e =
      let network =
        append-cancel (codes "network: ") a.network_passphrase b.network_passphrase
          (ground arith) in
      let registry =
        append-cancel (codes "event_registry: ") a.event_registry b.event_registry (ground arith) in
      let event =
        append-cancel (codes "event_id: ") (decimal a.event_id) (decimal b.event_id)
          (ground arith) in
      let time =
        append-cancel (codes "published_at: ") a.published_at b.published_at (ground arith) in
      let digest =
        append-cancel (codes "body_sha256: ") (body_sha256 a.body) (body_sha256 b.body)
          (ground arith) in
      ((network, registry), (decimal-injective _ _ event, (time, digest)))

  -- Where the network, the registry and the time of publication have no line feed and no digest has one,
  -- two announcements with one message have the same network, registry, event, time and digest of the body.
  pub announcement_message-injective :
      (a b : AnnouncementFields)
      → IsPlain a
      → IsPlain b
      → announcement_message body_sha256 a ≡ announcement_message body_sha256 b
      → ((a.network_passphrase ≡ b.network_passphrase) × (a.event_registry ≡ b.event_registry))
        × ((a.event_id ≡ b.event_id)
            × ((a.published_at ≡ b.published_at) × (body_sha256 a.body ≡ body_sha256 b.body)))
  unfolding announcement_message message_lines
  announcement_message-injective a b ha hb e =
      message_lines-injective a b
        (join_lines_once _ _ _ _ (message_lines-IsLine a ha) (message_lines-IsLine b hb) refl e)
