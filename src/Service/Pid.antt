-- ===== src/Service/Pid.antt =====
-- The PID file: fmtPid and itoa of cmd/rsb-daemon/main.go write it, readPID of cmd/rsb/main.go reads it.
-- A text is its bytes. Of strings.TrimSpace only the spaces of ASCII are modelled; strconv.Atoi gives 0
-- for what is no number, and the nearest int64 for one out of range.
pub mod RoundTrip
use rsb.Prelude.{
  ℕ, zero, suc, ◌+◌, ◌-◌, ◌*◌, ◌/◌, ◌%◌, ◌^◌, Bool, true, false, ◌&&◌, ◌||◌, Bytes, List, [], ◌∷◌,
  ◌++◌, Option, none, some, Try, ok, err, eqb, leb, ltb, if◌then◌else◌,
}
use rsb.Prelude.Int.{ℤ, pos, negsuc}

-- The loop of itoa, which writes the digits backwards into a buffer; `room` bytes of it are left. One
-- digit too many is an index out of range: `none`.
unfoldable pub itoa_loop : ℕ → ℕ → Bytes → Option Bytes
itoa_loop room zero out = some out
itoa_loop zero (suc n) out = none
itoa_loop (suc room) (suc n) out = itoa_loop room (suc n / 10) ((b'0' + suc n % 10) ∷ out)

-- `var b [20]byte`
abbrev pub buffer_size : ℕ
buffer_size = 20

unfoldable pub itoa : ℕ → Option Bytes
itoa n = if eqb n 0 then some (b'0' ∷ []) else itoa_loop buffer_size n []

newline_behind : Option Bytes → Option Bytes
newline_behind none = none
newline_behind (some s) = some (s ++ 10 ∷ [])

unfoldable pub fmt_pid : ℕ → Option Bytes
unfolding newline_behind
fmt_pid pid = newline_behind (itoa pid)

unfoldable pub is_space : ℕ → Bool
is_space c = eqb c 32 || (leb 9 c && leb c 13)

unfoldable pub trim_left : Bytes → Bytes
unfolding is_space
trim_left [] = []
trim_left (c ∷ s) = let rest = trim_left s in if is_space c then rest else c ∷ s

is_empty : Bytes → Bool
is_empty [] = true
is_empty (c ∷ s) = false

unfoldable pub trim_right : Bytes → Bytes
unfolding is_space is_empty
trim_right [] = []
trim_right (c ∷ s) = let rest = trim_right s in if is_space c && is_empty rest then [] else c ∷ rest

unfoldable pub trim_space : Bytes → Bytes
unfolding trim_left trim_right
trim_space s = trim_right (trim_left s)

unfoldable pub is_digit : ℕ → Bool
is_digit c = leb b'0' c && leb c b'9'

-- The digits behind `n`; `none` where there is another character.
unfoldable pub atoi_digits : Bytes → ℕ → Option ℕ
unfolding is_digit
atoi_digits [] n = some n
atoi_digits (c ∷ s) n = if is_digit c then atoi_digits s (n * 10 + (c - b'0')) else none

unfoldable pub unsigned : Bytes → Option ℕ
unfolding atoi_digits
unsigned [] = none
unsigned (c ∷ s) = atoi_digits (c ∷ s) 0

unfoldable pub positive : Option ℕ → ℤ
positive none = pos 0
positive (some n) = pos (if ltb n (2 ^ 63) then n else 2 ^ 63 - 1)

unfoldable pub negated : Option ℕ → ℤ
negated none = pos 0
negated (some zero) = pos 0
negated (some (suc n)) = negsuc (if ltb n (2 ^ 63) then n else 2 ^ 63 - 1)

unfoldable pub atoi : Bytes → ℤ
unfolding unsigned positive negated
atoi [] = pos 0
atoi (c ∷ s) =
    if eqb c b'-'
    then negated (unsigned s)
    else if eqb c b'+'
    then positive (unsigned s)
    else positive (unsigned (c ∷ s))

-- readPID, on what reading the file gives.
unfoldable pub read_pid : Try Bytes → ℤ
unfolding atoi trim_space
read_pid (err e) = pos 0
read_pid (ok content) = atoi (trim_space content)
