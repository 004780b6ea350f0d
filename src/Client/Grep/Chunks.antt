-- ===== src/Client/Grep/Chunks.antt =====
-- The matches of a search do not depend on how ripgrep's output is cut into chunks.
use rsb.Prelude.{
  ◌≡◌, refl, sym, ap, ◌∙◌, Bytes, List, [], ◌∷◌, ◌++◌, Option, none, concat, append_assoc, subst,
}
use rsb.Agent.Get.{lines_from, drop_cr}
use rsb.Client.Grep.{Hit, RgEntry, scan_lines, parse_rg_json}
use rsb.Client.Grep.Lines.{ends}
use rsb.Client.Grep.Scan.{
  AllEntries, stream, hits_of, At, inside, behind, at_end, start, Scanned, scan_stream,
}

module _ (parse : Bytes → Option RgEntry) (nothing : parse [] ≡ none) where
  -- One chunk, from any place.
  step :
      (buffer chunk rest : Bytes) (hits : List Hit)
      → At parse buffer (chunk ++ rest) hits
      → Scanned parse hits rest (parse_rg_json parse buffer chunk 0)
  unfolding parse_rg_json scan_lines lines_from drop_cr
  step buffer chunk rest hits (inside l q e ls is all same there these) =
      let whole : stream ((l, e) ∷ ls) ≡ (buffer ++ chunk) ++ rest =
        ap (λ (x : Bytes). x ++ b'\n' ∷ stream ls) same
        ∙ append_assoc buffer q (b'\n' ∷ stream ls)
        ∙ ap (◌++◌ buffer) (sym there)
        ∙ sym (append_assoc buffer chunk rest) in
      subst (λ (h : List Hit). Scanned parse h rest (parse_rg_json parse buffer chunk 0))
        (sym these) (scan_stream parse ((l, e) ∷ ls) (buffer ++ chunk) rest 0 (is, all) whole)
  step buffer [] rest hits (behind ls all same there these) =
      rw same (record { later = hits; at = behind ls all refl there these; all = refl })
  step buffer (c ∷ chunk) rest hits (behind ls all same there these) =
      let newline : c ≡ b'\n' = cc there in
      let tail : stream ls ≡ chunk ++ rest = cc there in
      rw (same, newline, these) (rw nothing (scan_stream parse ls chunk rest 0 all tail))
  step buffer [] rest hits (at_end same there these) =
      rw same (record { later = hits; at = at_end refl there these; all = refl })
  step buffer (c ∷ chunk) rest hits (at_end same there these) = absurd (cc there)

  -- The calls of parseRgJSON for the chunks in turn.
  abbrev pub fed : Bytes → List Bytes → List Hit × Bytes
  fed buffer [] = ([], buffer)
  fed buffer (chunk ∷ chunks) =
      let r = parse_rg_json parse buffer chunk 0 in
      let later = fed r.1 chunks in (r.0 ++ later.0, later.1)

  fed-At :
      (chunks : List Bytes) (buffer : Bytes) (hits : List Hit)
      → At parse buffer (concat chunks) hits
      → fed buffer chunks ≡ (hits, [])
  fed-At [] buffer hits (inside l q e ls is all same there these) =
      absurd (ends q (stream ls) there)
  fed-At [] buffer hits (behind ls all same there these) = absurd (cc there)
  fed-At [] buffer hits (at_end same there these) = cc (same, these)
  fed-At (chunk ∷ chunks) buffer hits at =
      let s = step buffer chunk (concat chunks) hits at in
      rw (fed-At chunks _ s.later s.at) (ap (λ (h : List Hit). (h, [])) (sym s.all))

  -- The calls of parseRgJSON with no limit, in turn, on chunks into which ripgrep's output of whole lines
  -- is cut in any way, print the matches of all its lines, in order, and leave nothing in the buffer:
  -- each line is an entry in JSON, shorter than the scanner's buffer and with no carriage return, and no
  -- proper first part of it is JSON.
  pub fed-stream :
      (ls : List (Bytes × RgEntry)) (chunks : List Bytes)
      → AllEntries parse ls
      → concat chunks ≡ stream ls
      → fed [] chunks ≡ (hits_of ls, [])
  fed-stream ls chunks all h = fed-At chunks [] (hits_of ls) (start parse ls (concat chunks) all h)
