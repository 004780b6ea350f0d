-- ===== src/Tests/Searches.antt =====
-- A search whose one line comes in two chunks, with a stand-in for JSON.
use rsb.Prelude.{◌≡◌, ◌≢◌, refl, sym, Bytes, [], ◌∷◌, ◌++◌, Option, none, some, arith}
use rsb.Client.Grep.{Hit, RgEntry}
use rsb.Client.Grep.Scan.{IsEntry}
use rsb.Client.Grep.Chunks.{fed, fed-stream}

abbrev hit : Hit
hit = record { path = "a.go"; line_number = 3; text = 65 ∷ [] }

abbrev entry : RgEntry
entry = record { type = "match"; hit = hit }

abbrev parse : Bytes → Option RgEntry
parse [] = none
parse (x ∷ []) = none
parse (x ∷ y ∷ []) = some entry
parse (x ∷ y ∷ z ∷ rest) = none

append_empty : (p q : Bytes) → [] ≡ p ++ q → [] ≡ q
append_empty [] q h = h
append_empty (b ∷ p) q h = absurd (cc h)

parse-part : (p q : Bytes) → 123 ∷ 125 ∷ [] ≡ p ++ q → q ≢ [] → parse p ≡ none
parse-part [] q h some_left = refl
parse-part (x ∷ []) q h some_left = refl
parse-part (x ∷ y ∷ p) q h some_left = absurd (some_left (sym (append_empty p q (cc h))))

braces-IsEntry : IsEntry parse (123 ∷ 125 ∷ []) entry
braces-IsEntry = record {
  text = ((refl, refl), ((refl, refl), tt));
  short = omega arith;
  whole = refl;
  part = parse-part;
}

fed-stream_example : fed parse refl [] ((123 ∷ []) ∷ (125 ∷ 10 ∷ []) ∷ []) ≡ (hit ∷ [], [])
fed-stream_example =
    fed-stream parse refl ((123 ∷ 125 ∷ [], entry) ∷ []) ((123 ∷ []) ∷ (125 ∷ 10 ∷ []) ∷ [])
      (braces-IsEntry, tt) refl
