-- ===== src/Auth/History.antt =====
-- What a nonce store answers, in terms of the calls that were made of it.
use sterun.Common.{
  ℕ, ◌+◌, ◌≤◌, ◌<◌, String, Bool, true, false, not, ◌&&◌, ◌||◌, List, [], ◌∷◌, Option, none, some,
  leb, str_eq, eq_iff, ==_iff, leb_iff, if◌then◌else◌, get, IsMap, put-IsMap, remove-IsMap,
  filter-IsMap, get-put, get-remove, get-filter, string-Eq, ◌≡◌, ◌↔◌, refl, arith, subst, sym, All,
  ◌++◌, ◌≢◌, put, remove, Bool-cases, Option-cases, inl, inr,
}
use sterun.Auth.{
  nonce_ttl_ms, Issued, MemoryNonces, take, sweep, returns, Request, Keys, absent, text_of, issue,
  signature_ok, check_taken, verify_given, verify, signature_bytes,
}

-- A call of the store; an `issue` has its address and the nonce that is drawn.
pub data Call : Type 0 where
  issues : (address random : String) → Call
  verifies : Request → Call

-- The calls made so far with the times at which they came, the latest first.
abbrev pub History : Type 0
History = List (ℕ × Call)

abbrev pub latest : History → ℕ
latest [] = 0
latest ((t, c) ∷ h) = t

abbrev pub IsChronological : History → Type 0
IsChronological [] = Unit
IsChronological ((t, c) ∷ h) = (latest h ≤ t) × IsChronological h

-- A request has all three of its parts.
abbrev pub IsComplete : Request → Type 0
IsComplete r = (absent r.address || (absent r.nonce || absent r.signature)) ≡ false

abbrev pub presents : Request → String → Bool
presents r nonce =
    not (absent r.address || (absent r.nonce || absent r.signature))
    && str_eq (text_of r.nonce) nonce

-- No challenge is issued with this nonce.
abbrev pub Unissued : History → String → Type 0
Unissued h nonce =
    All (λ (t, c). elim c [ issues address random ↦ random ≢ nonce | verifies r ↦ Unit ]) h

module _ (keys : Keys) where
  abbrev pub after_call : MemoryNonces → ℕ → Call → MemoryNonces
  after_call issued t (issues address random) = (issue keys issued address t random).0
  after_call issued t (verifies r) = (verify keys issued t r).0

  -- The store after a history, from the empty one.
  abbrev pub after : History → MemoryNonces
  after [] = []
  after ((t, c) ∷ h) = after_call (after h) t c

  -- The challenge that is open for a nonce: the last one issued with it, if no complete request has
  -- presented the nonce since.
  abbrev pub challenge_of : History → String → Option Issued
  challenge_of [] nonce = none
  challenge_of ((t, issues address random) ∷ h) nonce =
      if keys.is_valid_public_key address && str_eq random nonce
      then some (record { address = address; expires_at_ms = t + nonce_ttl_ms })
      else challenge_of h nonce
  challenge_of ((t, verifies r) ∷ h) nonce = if presents r nonce then none else challenge_of h nonce

  take-absent :
      (issued : MemoryNonces) (nonce : String)
      → get issued nonce ≡ none
      → take issued nonce ≡ (issued, none)
  unfolding take
  take-absent issued nonce e = ground arith

  take-present :
      (issued : MemoryNonces) (nonce : String) (i : Issued)
      → get issued nonce ≡ some i
      → take issued nonce ≡ (remove issued nonce, some i)
  unfolding take
  take-present issued nonce i e = ground arith

  take-fst :
      (issued : MemoryNonces) (nonce key : String)
      → get (take issued nonce).0 key ≡ (if str_eq nonce key then none else get issued key)
  take-fst issued nonce key = elim (Option-cases (get issued nonce)) [
    | inl e ↦ rw (take-absent issued nonce e) (ground (arith, eq_iff nonce key))
    | inr (i, e) ↦ rw (take-present issued nonce i e) (get-remove issued nonce key)
  ]

  take-snd : (issued : MemoryNonces) (nonce : String) → (take issued nonce).1 ≡ get issued nonce
  unfolding take
  take-snd issued nonce = ground arith

  take-IsMap : (issued : MemoryNonces) (nonce : String) → IsMap issued → IsMap (take issued nonce).0
  take-IsMap issued nonce h = elim (Option-cases (get issued nonce)) [
    | inl e ↦ subst (λ p. IsMap p.0) (sym (take-absent issued nonce e)) h
    | inr (i, e) ↦
        subst (λ p. IsMap p.0) (sym (take-present issued nonce i e)) (remove-IsMap issued nonce h)
  ]

  -- What a call does to the entry of one nonce.
  issue-get :
      (issued : MemoryNonces) (address : String) (t : ℕ) (random nonce : String)
      → IsMap issued
      → get (issue keys issued address t random).0 nonce ≡ (
          if keys.is_valid_public_key address
          then if str_eq random nonce
            then some (record { address = address; expires_at_ms = t + nonce_ttl_ms })
            else elim (get issued nonce) [
              | none ↦ none
              | some i ↦ if not (leb i.expires_at_ms t) then some i else none
            ]
          else get issued nonce)
  unfolding issue sweep
  issue-get issued address t random nonce h = elim (Bool-cases (keys.is_valid_public_key address)) [
    | inl e ↦ rw e (rw (get-put, get-filter (λ i. not (leb i.expires_at_ms t)) issued nonce h) refl)
    | inr e ↦ rw e refl
  ]

  verify-get :
      (issued : MemoryNonces) (t : ℕ) (r : Request) (nonce : String)
      → get (verify keys issued t r).0 nonce ≡ (if presents r nonce then none else get issued nonce)
  unfolding verify verify_given
  verify-get issued t r nonce =
      elim (Bool-cases (absent r.address || (absent r.nonce || absent r.signature))) [
        | inl e ↦ rw e refl
        | inr e ↦ rw e (take-fst issued (text_of r.nonce) nonce)
      ]

  -- A store that an operation leaves alone or gives another one.
  if-IsMap : (b : Bool) (m m' : MemoryNonces) → IsMap m → IsMap m' → IsMap (if b then m else m')
  if-IsMap true m m' h h' = h
  if-IsMap false m m' h h' = h'

  issue-fst :
      (issued : MemoryNonces) (address : String) (t : ℕ) (random : String)
      → (issue keys issued address t random).0 ≡ (
          if not (keys.is_valid_public_key address)
          then issued
          else put
              (sweep issued t)
              random
              (record { address = address; expires_at_ms = t + nonce_ttl_ms }))
  unfolding issue
  issue-fst issued address t random = ground arith

  verify-fst :
      (issued : MemoryNonces) (t : ℕ) (r : Request)
      → (verify keys issued t r).0 ≡ (
          if absent r.address || (absent r.nonce || absent r.signature)
          then issued
          else (take issued (text_of r.nonce)).0)
  unfolding verify verify_given
  verify-fst issued t r = ground arith

  after_call-IsMap :
      (issued : MemoryNonces) (t : ℕ) (c : Call) → IsMap issued → IsMap (after_call issued t c)
  unfolding sweep
  after_call-IsMap issued t (issues address random) h =
      subst IsMap (sym (issue-fst issued address t random))
        (if-IsMap _ _ _ h (put-IsMap (sweep issued t) random _ (filter-IsMap _ issued h)))
  after_call-IsMap issued t (verifies r) h =
      subst IsMap (sym (verify-fst issued t r))
        (if-IsMap _ _ _ h (take-IsMap issued (text_of r.nonce) h))

  after-IsMap : (h : History) → IsMap (after h)
  after-IsMap [] = tt
  after-IsMap ((t, c) ∷ h) = after_call-IsMap (after h) t c (after-IsMap h)

  -- An entry of the store is an open challenge, and an open challenge that has not expired is there.
  after_sound :
      (h : History) (nonce : String) (i : Issued)
      → get (after h) nonce ≡ some i
      → challenge_of h nonce ≡ some i
  unfolding get
  after_sound [] nonce i e = e
  after_sound ((t, issues address random) ∷ h) nonce i e =
      ground
        (arith, after_sound h nonce i, issue-get (after h) address t random nonce (after-IsMap h))
  after_sound ((t, verifies r) ∷ h) nonce i e =
      ground (arith, after_sound h nonce i, verify-get (after h) t r nonce)

  after_complete :
      (h : History) (nonce : String) (i : Issued)
      → IsChronological h
      → challenge_of h nonce ≡ some i
      → latest h < i.expires_at_ms
      → get (after h) nonce ≡ some i
  after_complete [] nonce i chron e late = cc
  after_complete ((t, issues address random) ∷ h) nonce i (le, chron) e late = ground (
    arith,
    after_complete h nonce i chron,
    leb_iff i.expires_at_ms t,
    issue-get (after h) address t random nonce (after-IsMap h),
  )
  after_complete ((t, verifies r) ∷ h) nonce i (le, chron) e late =
      ground (arith, after_complete h nonce i chron, verify-get (after h) t r nonce)

  -- What a request must bring: all its parts, an open challenge for its nonce that was issued to its
  -- address and has not expired, and a signature of that nonce of the right length.
  abbrev pub Admits : History → ℕ → Request → String → Type 0
  Admits h now r address =
      IsComplete r
      × (text_of r.address ≡ address)
      × ((i : Issued) × (challenge_of h (text_of r.nonce) ≡ some i)
          × (i.address ≡ address)
          × (now < i.expires_at_ms))
      × (keys.decoded_length (text_of r.signature) ≡ signature_bytes)
      × (signature_ok keys address (text_of r.nonce) (text_of r.signature) ≡ true)

  check_taken_iff :
      (now : ℕ) (a n s : String) (found : Option Issued) (address : String)
      → (check_taken keys now a n s found ≡ returns address) ↔ (
          (a ≡ address)
          × ((i : Issued) × (found ≡ some i) × (i.address ≡ address) × (now < i.expires_at_ms))
          × (keys.decoded_length s ≡ signature_bytes)
          × (signature_ok keys address n s ≡ true))
  unfolding check_taken
  check_taken_iff now a n s none address = ground arith
  check_taken_iff now a n s (some i) address =
      let length_is = ==_iff (keys.decoded_length s) signature_bytes in
      let early = leb_iff i.expires_at_ms now in
      (
        λ h. (
          ground arith,
          (i, refl, ground (arith, eq_iff i.address a), ground (arith, early)),
          ground (arith, length_is),
          ground arith,
        ),
        λ (same, (j, at, bound, late), sized, signed).
            ground (arith, early, eq_iff i.address a, length_is),
      )

  verify-snd :
      (issued : MemoryNonces) (now : ℕ) (r : Request) (address : String)
      → ((verify keys issued now r).1 ≡ returns address) ↔ (
          IsComplete r
          × (check_taken keys now
                (text_of r.address)
                (text_of r.nonce)
                (text_of r.signature)
                (get issued (text_of r.nonce))
              ≡ returns address))
  unfolding verify verify_given
  verify-snd issued now r address =
      elim (Bool-cases (absent r.address || (absent r.nonce || absent r.signature))) [
        | inl e ↦ rw e (ground arith)
        | inr e ↦ rw (e, take-snd issued (text_of r.nonce)) (ground arith)
      ]

  accepted_sound :
      (h : History) (now : ℕ) (r : Request) (address : String)
      → (verify keys (after h) now r).1 ≡ returns address
      → Admits h now r address
  accepted_sound h now r address e =
      let (complete, checked) = (verify-snd (after h) now r address).0 e in
      let (same, (i, at, bound, late), sized, signed) =
        (check_taken_iff now _ _ _ _ address).0 checked in
      (complete, same, (i, after_sound h (text_of r.nonce) i at, bound, late), sized, signed)

  challenge_of-spent :
      (later h : History) (now : ℕ) (r : Request)
      → IsComplete r
      → Unissued later (text_of r.nonce)
      → challenge_of (later ++ (now, verifies r) ∷ h) (text_of r.nonce) ≡ none
  challenge_of-spent [] h now r complete fresh =
      ground (arith, eq_iff (text_of r.nonce) (text_of r.nonce))
  challenge_of-spent ((t, issues address random) ∷ later) h now r complete (fresh, rest) =
      ground
        (arith, challenge_of-spent later h now r complete rest, eq_iff random (text_of r.nonce))
  challenge_of-spent ((t, verifies s) ∷ later) h now r complete (fresh, rest) =
      ground (arith, challenge_of-spent later h now r complete rest)

-- Over any history of calls in the order of their times, a request is accepted for an address
-- exactly when it is complete and from this address, its nonce has an open challenge that was issued
-- for this address and has not expired, and its signature has the right length and is the address's
-- over this nonce, by either of the two schemes.
pub verify_iff :
    (keys : Keys) (h : History) (now : ℕ) (r : Request) (address : String)
    → IsChronological h
    → latest h ≤ now
    → ((verify keys (after keys h) now r).1 ≡ returns address) ↔ Admits keys h now r address
verify_iff keys h now r address chron le = (
  accepted_sound keys h now r address,
  λ (complete, same, (i, challenge, bound, late), sized, signed).
      (verify-snd keys (after keys h) now r address).1 (
        complete,
        (check_taken_iff keys now _ _ _ _ address).1 (
          same,
          (i, after_complete keys h (text_of r.nonce) i chron challenge (omega arith), bound, late),
          sized,
          signed,
        ),
      ),
)

-- Once a complete request has presented a nonce, accepted or not, no request with the same nonce is
-- accepted at any later point of the history, unless a challenge is issued with that nonce again.
pub nonce_spent :
    (keys : Keys) (later h : History) (now now' : ℕ) (r r' : Request) (address : String)
    → IsComplete r
    → text_of r'.nonce ≡ text_of r.nonce
    → Unissued later (text_of r.nonce)
    → (verify keys (after keys (later ++ (now, verifies r) ∷ h)) now' r').1 ≢ returns address
nonce_spent keys later h now now' r r' address complete same fresh e =
    let (_, _, (i, challenge, _, _), _, _) = accepted_sound keys _ now' r' address e in
    let spent = challenge_of-spent keys later h now r complete fresh in cc (spent, same, challenge)
