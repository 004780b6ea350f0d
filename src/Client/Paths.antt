-- ===== src/Client/Paths.antt =====
-- ParsePath of internal/client/files.go. A Go string is its bytes.
use rsb.Prelude.{
  ℕ, Bool, false, not, ◌&&◌, ◌≡◌, ◌≢◌, refl, sym, ap, ◌∙◌, Bytes, [], ◌∷◌, ◌++◌, Option, none, some,
  arith, eqb, length, Bool-cases, Option-cases, inl, inr, if◌then◌else◌, All,
}

-- PathSpec; the empty host is a plain path of this machine.
pub record PathSpec : Type 0 where
  pub host : Bytes
  pub path : Bytes

abbrev pub local_host : Bytes
local_host = b'l' ∷ b'o' ∷ b'c' ∷ b'a' ∷ b'l' ∷ []

-- strings.HasPrefix, with what follows the prefix
unfoldable pub strip_prefix : Bytes → Bytes → Option Bytes
strip_prefix [] s = some s
strip_prefix (p ∷ ps) [] = none
strip_prefix (p ∷ ps) (b ∷ s) = let rest = strip_prefix ps s in if eqb p b then rest else none

before : ℕ → Option (Bytes × Bytes) → Option (Bytes × Bytes)
before b none = none
before b (some (host, path)) = some (b ∷ host, path)

-- strings.Index(s, ":"), as the parts around the colon
unfoldable pub split_colon : Bytes → Option (Bytes × Bytes)
unfolding before
split_colon [] = none
split_colon (b ∷ s) = let rest = split_colon s in if eqb b b':' then some ([], s) else before b rest

abbrev pub starts_with_backslash : Bytes → Bool
starts_with_backslash [] = false
starts_with_backslash (b ∷ s) = eqb b b'\\'

-- The branches behind the search; a colon at the start is none.
around_colon : Bytes → Option (Bytes × Bytes) → PathSpec
around_colon s none = record { host = []; path = s }
around_colon s (some ([], path)) = record { host = []; path = s }
around_colon s (some (b ∷ host, path)) =
    if eqb (length (b ∷ host)) 1 && starts_with_backslash path
    then record { host = []; path = s }
    else record { host = b ∷ host; path = path }

local_or : Bytes → Option Bytes → PathSpec
unfolding around_colon
local_or s (some path) = record { host = local_host; path = path }
local_or s none = around_colon s (split_colon s)

unfoldable pub parse_path : Bytes → PathSpec
unfolding local_or
parse_path s = local_or s (strip_prefix (local_host ++ b':' ∷ []) s)

-- IsRemote
unfoldable pub is_remote : PathSpec → Bool
is_remote spec = not (eqb (length spec.host) 0)

-- A host as the command line gives it: not empty, with no colon, and no drive letter.
pub record IsHost (host path : Bytes) : Type 0 where
  pub some_host : host ≢ []
  pub no_colon : All (λ b. eqb b b':' ≡ false) host
  pub no_drive : (eqb (length host) 1 && starts_with_backslash path) ≡ false

split_colon-host :
    (host path : Bytes)
    → All (λ b. eqb b b':' ≡ false) host
    → split_colon (host ++ b':' ∷ path) ≡ some (host, path)
unfolding split_colon before
split_colon-host [] path h = refl
split_colon-host (b ∷ host) path (h, hs) = rw (h, split_colon-host host path hs) refl

strip_prefix-append : (p s rest : Bytes) → strip_prefix p s ≡ some rest → s ≡ p ++ rest
unfolding strip_prefix
strip_prefix-append [] s rest h = cc h
strip_prefix-append (b ∷ p) [] rest h = absurd (cc h)
strip_prefix-append (b ∷ p) (c ∷ s) rest h = elim (Bool-cases (eqb b c)) [
  | inl e ↦
      let same : b ≡ c = ground (arith, e) in
      let tail : s ≡ p ++ rest = strip_prefix-append p s rest (rw e at h) in cc (same, tail)
  | inr e ↦ absurd (cc (rw e at h))
]

around_colon-host :
    (s host path : Bytes)
    → IsHost host path
    → around_colon s (some (host, path)) ≡ record { host = host; path = path }
unfolding around_colon
around_colon-host s [] path h = absurd (h.some_host refl)
around_colon-host s (b ∷ host) path h = rw h.no_drive refl

-- Parsing what a host and a path are written as, `host:path`, gives them back: for a host that is
-- not empty and has no colon, unless it is one letter before a path that starts with a backslash.
pub parse_path-host :
    (host path : Bytes)
    → IsHost host path
    → parse_path (host ++ b':' ∷ path) ≡ record { host = host; path = path }
unfolding parse_path local_or
parse_path-host host path h =
    elim (Option-cases (strip_prefix (local_host ++ b':' ∷ []) (host ++ b':' ∷ path))) [
      | inl e ↦ rw (e, split_colon-host host path h.no_colon) (around_colon-host _ host path h)
      | inr (rest, e) ↦
          let whole : host ++ b':' ∷ path ≡ local_host ++ b':' ∷ rest =
            strip_prefix-append (local_host ++ b':' ∷ []) (host ++ b':' ∷ path) rest e in
          let parts : some (host, path) ≡ some (local_host, rest) =
            sym (split_colon-host host path h.no_colon)
            ∙ ap split_colon whole
            ∙ split_colon-host local_host rest (refl, (refl, (refl, (refl, (refl, tt))))) in
          let same_host : local_host ≡ host = cc parts in
          let same_path : rest ≡ path = cc parts in rw (e, same_host, same_path) refl
    ]
