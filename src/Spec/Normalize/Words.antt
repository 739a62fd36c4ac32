-- ===== src/Spec/Normalize/Words.antt =====
-- The one pass of `normBase` against the words of its text.
use sterun.Common.{
  ℕ, Bool, true, false, ◌&&◌, ◌||◌, leb, List, [], ◌∷◌, ◌++◌, append-nil, append_assoc, ◌==◌,
  if◌then◌else◌, any, ◌≡◌, refl, sym, ap, ◌∙◌, arith, Bool-cases, inl, inr,
}
use sterun.Spec.Normalize.{
  is_spec_whitespace, refuses, e_empty, e_nul, normalizes, nul, space, trim_start, is_empty,
  trim_end, Collapse, collapse_one, collapse, concluded, norm_base,
}

-- The maximal runs of characters that are not white space, with the run so far.
abbrev pub words_from : List ℕ → List ℕ → List (List ℕ)
words_from [] [] = []
words_from (w ∷ ws) [] = (w ∷ ws) ∷ []
words_from [] (cp ∷ cps) =
    if is_spec_whitespace cp then words_from [] cps else words_from (cp ∷ []) cps
words_from (w ∷ ws) (cp ∷ cps) =
    if is_spec_whitespace cp
    then (w ∷ ws) ∷ words_from [] cps
    else words_from (w ∷ (ws ++ cp ∷ [])) cps

abbrev pub words : List ℕ → List (List ℕ)
words cps = words_from [] cps

-- Each word after a space.
abbrev pub spaced : List (List ℕ) → List ℕ
spaced [] = []
spaced (w ∷ ws) = space ∷ (w ++ spaced ws)

-- The words with one space between each two.
abbrev pub join : List (List ℕ) → List ℕ
join [] = []
join (w ∷ ws) = w ++ spaced ws

-- What is still written of a text, with a space that is pending or not.
abbrev pub rest_of : Bool → List ℕ → List ℕ
rest_of pending [] = []
rest_of pending (cp ∷ cps) =
    if is_spec_whitespace cp
    then rest_of true cps
    else (if pending then space ∷ cp ∷ rest_of false cps else cp ∷ rest_of false cps)

collapse_one_out :
    (s : Collapse) (cp : ℕ) (cps : List ℕ)
    → (collapse_one s cp).out ++ rest_of (collapse_one s cp).pending_space cps
      ≡ s.out ++ rest_of s.pending_space (cp ∷ cps)
unfolding collapse_one
collapse_one_out s cp cps = elim (Bool-cases (is_spec_whitespace cp)) [
  | inl e ↦ rw e refl
  | inr e ↦ elim (Bool-cases s.pending_space) [
    | inl p ↦
        rw (e, p)
          (append_assoc (s.out ++ space ∷ []) (cp ∷ []) (rest_of false cps)
            ∙ append_assoc s.out (space ∷ []) (cp ∷ rest_of false cps))
    | inr p ↦ rw (e, p) (append_assoc s.out (cp ∷ []) (rest_of false cps))
  ]
]

collapse_out :
    (s : Collapse) (cps : List ℕ) → (collapse s cps).out ≡ s.out ++ rest_of s.pending_space cps
unfolding collapse
collapse_out s [] = sym (append-nil s.out)
collapse_out s (cp ∷ cps) = collapse_out (collapse_one s cp) cps ∙ collapse_one_out s cp cps

collapse-nul :
    (s : Collapse) (cps : List ℕ)
    → (collapse s cps).saw_nul ≡ (s.saw_nul || any (λ cp. cp == nul) (rest_of s.pending_space cps))
unfolding collapse collapse_one
collapse-nul s [] = ground arith
collapse-nul s (cp ∷ cps) = ground (arith, collapse-nul (collapse_one s cp) cps)

spaced-words_from :
    (cps : List ℕ)
    → ((w : ℕ) (ws : List ℕ)
        → spaced (words_from (w ∷ ws) cps) ≡ space ∷ w ∷ (ws ++ rest_of false cps))
      × (spaced (words_from [] cps) ≡ rest_of true cps)
spaced-words_from [] = (λ w ws. refl, refl)
spaced-words_from (cp ∷ cps) =
    let (going, between) = spaced-words_from cps in
    elim (Bool-cases (is_spec_whitespace cp)) [
      | inl e ↦ rw e (λ w ws. ap (λ xs. space ∷ w ∷ (ws ++ xs)) between, between)
      | inr e ↦ rw e (
        λ w ws.
            going w (ws ++ cp ∷ [])
            ∙ ap (λ xs. space ∷ w ∷ xs) (append_assoc ws (cp ∷ []) (rest_of false cps)),
        going cp [],
      )
    ]

is_empty-nil : (xs : List ℕ) → is_empty xs ≡ true → xs ≡ []
is_empty-nil [] h = refl
is_empty-nil (x ∷ xs) h = absurd (cc h)

rest_of-trim_end :
    (pending : Bool) (cps : List ℕ) → rest_of pending (trim_end cps) ≡ rest_of pending cps
unfolding trim_end
rest_of-trim_end pending [] = refl
rest_of-trim_end pending (cp ∷ cps) = elim (Bool-cases (is_empty (trim_end cps))) [
  | inl e ↦
      let none_left = is_empty-nil (trim_end cps) e in
      let nothing : (b : Bool) → rest_of b cps ≡ [] =
        λ b. sym (rest_of-trim_end b cps) ∙ ap (rest_of b) none_left in
      ground (arith, nothing true, nothing false, none_left)
  | inr e ↦ rw e (ground (arith, rest_of-trim_end true cps, rest_of-trim_end false cps))
]

trim_start-char :
    (cp : ℕ) (cps : List ℕ) → is_spec_whitespace cp ≡ false → trim_start (cp ∷ cps) ≡ cp ∷ cps
unfolding trim_start
trim_start-char cp cps e = ground arith

trim_start-space :
    (cp : ℕ) (cps : List ℕ) → is_spec_whitespace cp ≡ true → trim_start (cp ∷ cps) ≡ trim_start cps
unfolding trim_start
trim_start-space cp cps e = ground arith

trim_start-nil : trim_start [] ≡ []
unfolding trim_start
trim_start-nil = refl

words-trim_start : (cps : List ℕ) → words (trim_start cps) ≡ words cps
words-trim_start [] = ap words trim_start-nil
words-trim_start (cp ∷ cps) = elim (Bool-cases (is_spec_whitespace cp)) [
  | inl e ↦ ground (arith, words-trim_start cps, trim_start-space cp cps e)
  | inr e ↦ ap words (trim_start-char cp cps e)
]

abbrev tail : List ℕ → List ℕ
tail [] = []
tail (x ∷ xs) = xs

tail-spaced : (ws : List (List ℕ)) → tail (spaced ws) ≡ join ws
tail-spaced [] = refl
tail-spaced (w ∷ ws) = refl

words-char :
    (cp : ℕ) (cps : List ℕ)
    → is_spec_whitespace cp ≡ false
    → words (cp ∷ cps) ≡ words_from (cp ∷ []) cps
words-char cp cps e = ground arith

words-space : (cp : ℕ) (cps : List ℕ) → is_spec_whitespace cp ≡ true → words (cp ∷ cps) ≡ words cps
words-space cp cps e = ground arith

rest_of-char :
    (cp : ℕ) (cps : List ℕ)
    → is_spec_whitespace cp ≡ false
    → rest_of false (cp ∷ cps) ≡ cp ∷ rest_of false cps
rest_of-char cp cps e = ground arith

-- A text without its leading white space is written as its words.
pub rest_of-trim_start : (cps : List ℕ) → rest_of false (trim_start cps) ≡ join (words cps)
rest_of-trim_start [] = ap (rest_of false) trim_start-nil
rest_of-trim_start (cp ∷ cps) = elim (Bool-cases (is_spec_whitespace cp)) [
  | inl e ↦
      ap (rest_of false) (trim_start-space cp cps e)
      ∙ rest_of-trim_start cps
      ∙ ap join (sym (words-space cp cps e))
  | inr e ↦
      ap (rest_of false) (trim_start-char cp cps e)
      ∙ rest_of-char cp cps e
      ∙ sym (ap tail ((spaced-words_from cps).0 cp []))
      ∙ tail-spaced (words_from (cp ∷ []) cps)
      ∙ ap join (sym (words-char cp cps e))
]

-- The 25 characters with the property White_Space in Unicode.
abbrev pub is_white_space : ℕ → Bool
is_white_space cp =
    (leb 0x9 cp && leb cp 0xd)
    || cp == 0x20
    || cp == 0x85
    || cp == 0xa0
    || cp == 0x1680
    || (leb 0x2000 cp && leb cp 0x200a)
    || cp == 0x2028
    || cp == 0x2029
    || cp == 0x202f
    || cp == 0x205f
    || cp == 0x3000

pub is_spec_whitespace_lem : (cp : ℕ) → is_spec_whitespace cp ≡ is_white_space cp
unfolding is_spec_whitespace
is_spec_whitespace_lem cp = ground arith

-- The text is normalised to its words with one space between each two, where a word is a longest run
-- of characters that are none of Unicode's 25 white spaces; it is refused as empty when it has no word,
-- and for a NUL when one is in a word, also where the text is nothing else.
pub norm_base_lem :
    (nfc : List ℕ → List ℕ) (input : List ℕ)
    → ((cp : ℕ) → is_spec_whitespace cp ≡ is_white_space cp)
      × (norm_base nfc input ≡ (
          let out = join (words (nfc input)) in
          if is_empty out
          then refuses e_empty
          else if any (λ cp. cp == nul) out
          then refuses e_nul
          else normalizes out))
unfolding norm_base concluded
norm_base_lem nfc input =
    let text = trim_start (nfc input) in
    let start : Collapse = record { out = []; pending_space = false; saw_nul = false } in
    let same = rest_of-trim_end false text ∙ rest_of-trim_start (nfc input) in
    let out = collapse_out start (trim_end text) ∙ same in
    let saw = collapse-nul start (trim_end text) ∙ ap (any (λ cp. cp == nul)) same in
    (is_spec_whitespace_lem, rw (out, saw) refl)
