-- ===== src/Client/Grep/Scan.antt =====
-- A scan of the first part of ripgrep's output, of any length.
use rsb.Prelude.{
  ℕ, ◌+◌, ◌<◌, false, ◌≡◌, ◌≢◌, inl, inr, refl, sym, ap, ◌∙◌, Bytes, List, [], ◌∷◌, ◌++◌, Option,
  none, some, arith, length, leb, ◌==◌, if◌then◌else◌, All, append-nil, append_assoc, length-append,
  subst, Bool-cases, Option-cases,
}
use rsb.Agent.Get.{lines_from, raw_lines, drop_cr, max_line}
use rsb.Client.Grep.{Hit, RgEntry, scan_lines}
use rsb.Client.Grep.Lines.{
  shorter, longer, split, IsText, IsText-left, drop_cr-IsText, lines_from-line, lines_from-partial,
  unless_empty, unless_empty_some,
}

-- A line of ripgrep's output, by its entry: it is no longer than the scanner's buffer, has no newline and
-- no carriage return, and is JSON, while a part of it that lacks its end is none.
pub record IsEntry (parse : Bytes → Option RgEntry) (l : Bytes) (e : RgEntry) : Type 0 where
  pub text : IsText l
  pub short : length l < max_line
  pub whole : parse l ≡ some e
  pub part : (p q : Bytes) → l ≡ p ++ q → q ≢ [] → parse p ≡ none

abbrev pub AllEntries : (Bytes → Option RgEntry) → List (Bytes × RgEntry) → Type 0
AllEntries parse = All (λ x. IsEntry parse x.0 x.1)

-- The output as a stream, and the matches in it.
abbrev pub stream : List (Bytes × RgEntry) → Bytes
stream [] = []
stream ((l, e) ∷ ls) = l ++ b'\n' ∷ stream ls

abbrev pub hit_of : RgEntry → List Hit
hit_of e = if e.type == "match" then e.hit ∷ [] else []

abbrev pub hits_of : List (Bytes × RgEntry) → List Hit
hits_of [] = []
hits_of ((l, e) ∷ ls) = hit_of e ++ hits_of ls

module _ (parse : Bytes → Option RgEntry) where
  -- Where a search stands: in a line whose first part is buffered, before the newline of a line that is
  -- taken already, or at the end.
  pub data At (buffer rest : Bytes) (hits : List Hit) : Type 0 where
    inside :
        (l q : Bytes) (e : RgEntry) (ls : List (Bytes × RgEntry))
        → IsEntry parse l e
        → AllEntries parse ls
        → l ≡ buffer ++ q
        → rest ≡ q ++ b'\n' ∷ stream ls
        → hits ≡ hit_of e ++ hits_of ls
        → At buffer rest hits
    behind :
        (ls : List (Bytes × RgEntry))
        → AllEntries parse ls
        → buffer ≡ []
        → rest ≡ b'\n' ∷ stream ls
        → hits ≡ hits_of ls
        → At buffer rest hits
    at_end : buffer ≡ [] → rest ≡ [] → hits ≡ [] → At buffer rest hits

  pub start :
      (ls : List (Bytes × RgEntry)) (rest : Bytes)
      → AllEntries parse ls
      → rest ≡ stream ls
      → At [] rest (hits_of ls)
  start [] rest all h = at_end refl h refl
  start ((l, e) ∷ ls) rest (is, all) h = inside l l e ls is all refl h refl

  -- What a scan leaves to be done.
  pub record Scanned (hits : List Hit) (rest : Bytes) (r : List Hit × Bytes) : Type 0 where
    pub later : List Hit
    pub at : At r.1 rest later
    pub all : hits ≡ r.0 ++ later

  scan_count :
      (raws : List Bytes) (n m : ℕ) (kept : Bytes)
      → scan_lines parse 0 raws n kept ≡ scan_lines parse 0 raws m kept
  unfolding scan_lines
  scan_count [] n m kept = refl
  scan_count (raw ∷ raws) n m kept = elim (Bool-cases (leb max_line (length raw))) [
    | inl long ↦ rw long refl
    | inr fits ↦ elim (Option-cases (parse (drop_cr raw))) [
      | inl partial ↦ rw (fits, partial) (scan_count raws n m (kept ++ drop_cr raw))
      | inr (e, whole) ↦ elim (Bool-cases (e.type == "match")) [
        | inl match ↦ rw (fits, whole, match, scan_count raws (n + 1) (m + 1) kept) refl
        | inr no_match ↦ rw (fits, whole, no_match) (scan_count raws n m kept)
      ]
    ]
  ]

  scan_entry :
      (l : Bytes) (e : RgEntry) (raws : List Bytes) (n : ℕ)
      → IsEntry parse l e
      → let r = scan_lines parse 0 raws n [] in
        scan_lines parse 0 (l ∷ raws) n [] ≡ (hit_of e ++ r.0, r.1)
  unfolding scan_lines
  scan_entry l e raws n is =
      let fits : leb max_line (length l) ≡ false = ground (arith, is.short) in
      elim (Bool-cases (e.type == "match")) [
        | inl match ↦
            rw (fits, drop_cr-IsText l is.text, is.whole, match, scan_count raws (n + 1) n []) refl
        | inr no_match ↦ rw (fits, drop_cr-IsText l is.text, is.whole, no_match) refl
      ]

  scan_partial :
      (d : Bytes) (n : ℕ)
      → length d < max_line
      → IsText d
      → parse d ≡ none
      → scan_lines parse 0 (d ∷ []) n [] ≡ ([], d)
  unfolding scan_lines
  scan_partial d n short text part =
      let fits : leb max_line (length d) ≡ false = ground (arith, short) in
      let same : drop_cr d ≡ d = drop_cr-IsText d text in
      rw (fits, same, part) (ap (λ (x : Bytes). ([], x)) same)

  scan_part :
      (l d q rest : Bytes) (e : RgEntry) (ls : List (Bytes × RgEntry)) (n : ℕ)
      → IsEntry parse l e
      → AllEntries parse ls
      → l ≡ d ++ q
      → rest ≡ q ++ b'\n' ∷ stream ls
      → Scanned (hit_of e ++ hits_of ls) rest (scan_lines parse 0 (unless_empty d) n [])
  unfolding scan_lines
  scan_part l [] q rest e ls n is all same there = record {
    later = hit_of e ++ hits_of ls;
    at = inside l q e ls is all same there refl;
    all = refl;
  }
  scan_part l (c ∷ d) [] rest e ls n is all same there =
      let whole : l ≡ c ∷ d = same ∙ append-nil (c ∷ d) in
      let one : scan_lines parse 0 ((c ∷ d) ∷ []) n [] ≡ (hit_of e ++ [], []) =
        subst (λ (x : Bytes). scan_lines parse 0 (x ∷ []) n [] ≡ (hit_of e ++ [], [])) whole
          (scan_entry l e [] n is) in
      subst (Scanned (hit_of e ++ hits_of ls) rest)
        (sym (ap (λ (x : List Bytes). scan_lines parse 0 x n []) (unless_empty_some c d) ∙ one))
        (record {
          later = hits_of ls;
          at = behind ls all refl there refl;
          all = ap (λ (x : List Hit). x ++ hits_of ls) (sym (append-nil (hit_of e)));
        })
  scan_part l (c ∷ d) (x ∷ q) rest e ls n is all same there =
      let shorter_than : length l ≡ length (c ∷ d) + length (x ∷ q) =
        ap length same ∙ length-append (c ∷ d) (x ∷ q) in
      let one : scan_lines parse 0 ((c ∷ d) ∷ []) n [] ≡ ([], c ∷ d) =
        scan_partial (c ∷ d) n (omega (arith, is.short, shorter_than))
          (IsText-left (c ∷ d) (x ∷ q) (subst IsText same is.text))
          (is.part (c ∷ d) (x ∷ q) same (λ h. absurd (cc h))) in
      subst (Scanned (hit_of e ++ hits_of ls) rest)
        (sym (ap (λ (x : List Bytes). scan_lines parse 0 x n []) (unless_empty_some c d) ∙ one))
        (record {
          later = hit_of e ++ hits_of ls;
          at = inside l (x ∷ q) e ls is all same there refl;
          all = refl;
        })

  Scanned-entry :
      (e : RgEntry) (hits : List Hit) (rest : Bytes) (r : List Hit × Bytes)
      → Scanned hits rest r
      → Scanned (hit_of e ++ hits) rest (hit_of e ++ r.0, r.1)
  Scanned-entry e hits rest r s = record {
    later = s.later;
    at = s.at;
    all = ap (◌++◌ (hit_of e)) s.all ∙ sym (append_assoc (hit_of e) r.0 s.later);
  }

  -- A scan from the start of a line on.
  pub scan_stream :
      (ls : List (Bytes × RgEntry)) (d rest : Bytes) (n : ℕ)
      → AllEntries parse ls
      → stream ls ≡ d ++ rest
      → Scanned (hits_of ls) rest (scan_lines parse 0 (raw_lines d) n [])
  unfolding scan_lines lines_from
  scan_stream [] [] rest n all h = record { later = []; at = at_end refl (sym h) refl; all = refl }
  scan_stream [] (c ∷ d) rest n all h = absurd (cc h)
  scan_stream ((l, e) ∷ ls) d rest n (is, all) h = elim (split l (stream ls) d rest h) [
    | shorter q same there ↦
        let text : IsText d = IsText-left d q (subst IsText same is.text) in
        subst
          (λ (x : List Bytes). Scanned (hit_of e ++ hits_of ls) rest (scan_lines parse 0 x n []))
          (sym (lines_from-partial [] d text)) (scan_part l d q rest e ls n is all same there)
    | longer d' same there ↦
        let lines : raw_lines d ≡ l ∷ raw_lines d' =
          ap raw_lines same ∙ lines_from-line [] l d' is.text in
        subst (Scanned (hit_of e ++ hits_of ls) rest)
          (sym (
            ap (λ (x : List Bytes). scan_lines parse 0 x n []) lines
            ∙ scan_entry l e (raw_lines d') n is))
          (Scanned-entry e (hits_of ls) rest _ (scan_stream ls d' rest n all there))
  ]
