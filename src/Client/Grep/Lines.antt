-- ===== src/Client/Grep/Lines.antt =====
-- Lines and parts of lines as the scanner of parseRgJSON splits a text that ends anywhere.
use rsb.Prelude.{
  ℕ, false, ◌≡◌, ◌≢◌, refl, sym, ap, ◌∙◌, Bytes, List, [], ◌∷◌, ◌++◌, arith, length, eqb,
  if◌then◌else◌, All, append-nil, append_assoc, pos→not_eqb,
}
use rsb.Agent.Get.{lines_from, raw_lines, drop_cr}

-- Text in front of the next newline, split off a text that goes on differently.
pub data Split (l t d rest : Bytes) : Type 0 where
  shorter : (q : Bytes) → l ≡ d ++ q → rest ≡ q ++ b'\n' ∷ t → Split l t d rest
  longer : (d' : Bytes) → d ≡ l ++ b'\n' ∷ d' → t ≡ d' ++ rest → Split l t d rest

Split-cons :
    (b c : ℕ) (l t d rest : Bytes) → b ≡ c → Split l t d rest → Split (b ∷ l) t (c ∷ d) rest
Split-cons b c l t d rest e (shorter q same there) = shorter q (cc (e, same)) there
Split-cons b c l t d rest e (longer d' same there) = longer d' (cc (sym e, same)) there

pub split : (l t d rest : Bytes) → l ++ b'\n' ∷ t ≡ d ++ rest → Split l t d rest
split l t [] rest h = shorter l refl (sym h)
split [] t (c ∷ d) rest h = longer d (cc h) (cc h)
split (b ∷ l) t (c ∷ d) rest h = Split-cons b c l t d rest (cc h) (split l t d rest (cc h))

-- No newline and no carriage return.
abbrev pub IsText : Bytes → Type 0
IsText l = All (λ b. (eqb b b'\n' ≡ false) × (eqb b b'\r' ≡ false)) l

pub IsText-left : (p q : Bytes) → IsText (p ++ q) → IsText p
IsText-left [] q h = tt
IsText-left (b ∷ p) q (h, hs) = (h, IsText-left p q hs)

pub drop_cr-IsText : (l : Bytes) → IsText l → drop_cr l ≡ l
unfolding drop_cr
drop_cr-IsText [] h = refl
drop_cr-IsText (b ∷ []) ((n, r), h) = rw r refl
drop_cr-IsText (b ∷ c ∷ l) (h, hs) = ap (◌∷◌ b) (drop_cr-IsText (c ∷ l) hs)

-- A whole line, and a text without a newline.
pub lines_from-line :
    (cur l rest : Bytes)
    → IsText l
    → lines_from cur (l ++ b'\n' ∷ rest) ≡ (cur ++ l) ∷ raw_lines rest
unfolding lines_from
lines_from-line cur [] rest h = rw append-nil refl
lines_from-line cur (b ∷ l) rest ((n, r), h) =
    rw (lines_from, n) (lines_from-line (cur ++ b ∷ []) l rest h ∙ rw append_assoc refl)

abbrev pub unless_empty : Bytes → List Bytes
unless_empty d = if eqb (length d) 0 then [] else d ∷ []

pub ends : (q t : Bytes) → [] ≢ q ++ b'\n' ∷ t
ends [] t h = absurd (cc h)
ends (b ∷ q) t h = absurd (cc h)

pub unless_empty_some : (c : ℕ) (d : Bytes) → unless_empty (c ∷ d) ≡ (c ∷ d) ∷ []
unless_empty_some c d = rw (pos→not_eqb (length (c ∷ d)) (omega arith)) refl

pub lines_from-partial : (cur l : Bytes) → IsText l → lines_from cur l ≡ unless_empty (cur ++ l)
unfolding lines_from
lines_from-partial cur [] h = rw append-nil refl
lines_from-partial cur (b ∷ l) ((n, r), h) =
    rw (lines_from, n) (lines_from-partial (cur ++ b ∷ []) l h ∙ rw append_assoc refl)
