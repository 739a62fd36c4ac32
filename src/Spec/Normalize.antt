-- ===== src/Spec/Normalize.antt =====
-- be/src/spec/normalize.ts and whitespace.ts. A text is its code points, by which the code walks it;
-- Unicode's NFC is the parameter `nfc`. An error is its code, the field being the function's.
pub mod Words
pub mod Separators
use sterun.Common.{
  ℕ, ◌+◌, ◌-◌, Bool, true, false, not, ◌&&◌, ◌||◌, List, [], ◌∷◌, ◌++◌, ◌==◌, leb, if◌then◌else◌,
  any,
}

abbrev pub white_space : List ℕ
white_space =
    0x9 ∷ 0xa ∷ 0xb ∷ 0xc ∷ 0xd ∷ 0x20 ∷ 0x85 ∷ 0xa0 ∷ 0x1680 ∷ 0x2000 ∷ 0x2001 ∷ 0x2002 ∷ 0x2003
    ∷ 0x2004 ∷ 0x2005 ∷ 0x2006 ∷ 0x2007 ∷ 0x2008 ∷ 0x2009 ∷ 0x200a ∷ 0x2028 ∷ 0x2029 ∷ 0x202f
    ∷ 0x205f ∷ 0x3000 ∷ []

unfoldable pub is_spec_whitespace : ℕ → Bool
is_spec_whitespace cp = any (λ w. w == cp) white_space

pub data NormalizationCode : Type 0 where
  e_empty e_nul : NormalizationCode

pub data Normalized : Type 0 where
  refuses : NormalizationCode → Normalized
  normalizes : List ℕ → Normalized

abbrev pub nul : ℕ
nul = 0

abbrev pub space : ℕ
space = 0x20

abbrev pub hyphen_minus : ℕ
hyphen_minus = 0x2d

abbrev pub left_paren : ℕ
left_paren = 0x28

abbrev pub right_paren : ℕ
right_paren = 0x29

-- The two loops that move `start` and `end`.
unfoldable pub trim_start : List ℕ → List ℕ
trim_start [] = []
trim_start (cp ∷ cps) = if is_spec_whitespace cp then trim_start cps else cp ∷ cps

abbrev pub is_empty : List ℕ → Bool
is_empty [] = true
is_empty (cp ∷ cps) = false

unfoldable pub trim_end : List ℕ → List ℕ
trim_end [] = []
trim_end (cp ∷ cps) =
    let rest = trim_end cps in if is_empty rest && is_spec_whitespace cp then [] else cp ∷ rest

-- The variables of the loop.
pub record Collapse : Type 0 where
  pub out : List ℕ
  pub pending_space : Bool
  pub saw_nul : Bool

unfoldable pub collapse_one : Collapse → ℕ → Collapse
collapse_one s cp = if is_spec_whitespace cp then record s { pending_space = true } else record {
  out = (if s.pending_space then s.out ++ space ∷ [] else s.out) ++ cp ∷ [];
  pending_space = false;
  saw_nul = if cp == nul then true else s.saw_nul;
}

unfoldable pub collapse : Collapse → List ℕ → Collapse
collapse s [] = s
collapse s (cp ∷ cps) = collapse (collapse_one s cp) cps

unfoldable pub concluded : List ℕ → Bool → Normalized
concluded out saw_nul =
    if is_empty out then refuses e_empty else if saw_nul then refuses e_nul else normalizes out

unfoldable pub stripped : List ℕ → Normalized
stripped out = if is_empty out then refuses e_empty else normalizes out

unfoldable pub strip_id : List ℕ → List ℕ
strip_id [] = []
strip_id (cp ∷ cps) =
    if is_spec_whitespace cp || cp == hyphen_minus
    then strip_id cps
    else (if leb 0x61 cp && leb cp 0x7a then cp - 32 else cp) ∷ strip_id cps

unfoldable pub strip_contact : List ℕ → List ℕ
strip_contact [] = []
strip_contact (cp ∷ cps) =
    if is_spec_whitespace cp || (cp == hyphen_minus || (cp == left_paren || cp == right_paren))
    then strip_contact cps
    else cp ∷ strip_contact cps

unfoldable pub after_base : (List ℕ → List ℕ) → Normalized → Normalized
after_base strip (refuses code) = refuses code
after_base strip (normalizes base) = stripped (strip base)

module _ (nfc : List ℕ → List ℕ) where
  unfoldable pub norm_base : List ℕ → Normalized
  norm_base input =
      let s =
        collapse (record { out = []; pending_space = false; saw_nul = false })
          (trim_end (trim_start (nfc input))) in
      concluded s.out s.saw_nul

  unfoldable pub norm_name : List ℕ → Normalized
  norm_name input = norm_base input

  unfoldable pub norm_id : List ℕ → Normalized
  norm_id input = after_base strip_id (norm_base input)

  unfoldable pub norm_contact : List ℕ → Normalized
  norm_contact input = after_base strip_contact (norm_base input)
