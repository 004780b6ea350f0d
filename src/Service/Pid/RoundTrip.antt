-- ===== src/Service/Pid/RoundTrip.antt =====
-- The PID that the daemon writes is the one that `rsb daemon` reads.
use native.Mathlib.Nat.{pow-suc}
use rsb.Prelude.{
  ℕ, zero, suc, ◌+◌, ◌*◌, ◌/◌, ◌%◌, ◌^◌, ◌≤◌, ◌<◌, ◌≡◌, refl, ◌∙◌, Bytes, [], ◌∷◌, ◌++◌, some, ok,
  arith, length, pos→not_eqb, All,
}
use rsb.Prelude.Int.{pos}
use rsb.Service.Pid.{
  itoa_loop, itoa, fmt_pid, is_space, trim_left, trim_right, trim_space, is_digit, atoi_digits,
  unsigned, positive, atoi, read_pid,
}

abbrev IsDigit : ℕ → Type 0
IsDigit c = (b'0' ≤ c) × (c ≤ b'9')

-- What the loop has written once it ends: digits that spell `n` in front of `out`.
record Spelled (n : ℕ) (out bs : Bytes) : Type 0 where
  digits : All IsDigit bs
  spells : atoi_digits bs 0 ≡ atoi_digits out n
  grown : length out ≤ length bs

tenth-lt : (n m : ℕ) → n < 10 ^ suc m → n / 10 < 10 ^ m
tenth-lt n m h = let h' : n < 10 ^ m * 10 = rw (pow-suc) at h in omega arith

atoi_digits-last :
    (n : ℕ) (out : Bytes) → atoi_digits ((b'0' + n % 10) ∷ out) (n / 10) ≡ atoi_digits out n
unfolding atoi_digits is_digit
atoi_digits-last n out = ground arith

itoa_loop-Spelled :
    (room n : ℕ) (out : Bytes)
    → n < 10 ^ room
    → All IsDigit out
    → (bs : Bytes) × (itoa_loop room n out ≡ some bs) × Spelled n out bs
unfolding itoa_loop
itoa_loop-Spelled room zero out fits all =
    (out, refl, record { digits = all; spells = refl; grown = omega arith })
itoa_loop-Spelled zero (suc n) out fits all = absurd (omega (arith, fits))
itoa_loop-Spelled (suc room) (suc n) out fits all =
    let (bs, written, s) =
      itoa_loop-Spelled room (suc n / 10) ((b'0' + suc n % 10) ∷ out) (tenth-lt (suc n) room fits)
        ((omega arith, omega arith), all) in
    (
      bs,
      written,
      record {
        digits = s.digits;
        spells = s.spells ∙ atoi_digits-last (suc n) out;
        grown = omega (arith, s.grown);
      },
    )

trim_right-digits : (s : Bytes) → All IsDigit s → trim_right (s ++ 10 ∷ []) ≡ s
unfolding trim_right is_space
trim_right-digits [] all = refl
trim_right-digits (c ∷ s) (d, all) = rw (trim_right-digits s all) (ground arith)

trim_left-digit : (c : ℕ) (s : Bytes) → IsDigit c → trim_left (c ∷ s) ≡ c ∷ s
unfolding trim_left is_space
trim_left-digit c s d = ground arith

trim_space-digits : (s : Bytes) → 0 < length s → All IsDigit s → trim_space (s ++ 10 ∷ []) ≡ s
unfolding trim_space
trim_space-digits [] some_digit all = absurd (omega (arith, some_digit))
trim_space-digits (c ∷ s) some_digit (d, all) =
    rw (trim_left-digit c (s ++ 10 ∷ []) d) (trim_right-digits (c ∷ s) (d, all))

atoi-digits :
    (n : ℕ) (s : Bytes)
    → 0 < length s
    → All IsDigit s
    → atoi_digits s 0 ≡ some n
    → n < 2 ^ 63
    → atoi s ≡ pos n
unfolding atoi unsigned positive
atoi-digits n [] some_digit all spells fits = absurd (omega (arith, some_digit))
atoi-digits n (c ∷ s) some_digit (d, all) spells fits = ground arith

-- The first round of the loop writes a digit.
itoa_loop-first :
    (room n : ℕ)
    → suc n < 10 ^ suc room
    → (bs : Bytes) × (itoa_loop (suc room) (suc n) [] ≡ some bs)
      × Spelled (suc n / 10) ((b'0' + suc n % 10) ∷ []) bs
unfolding itoa_loop
itoa_loop-first room n fits =
    itoa_loop-Spelled room (suc n / 10) ((b'0' + suc n % 10) ∷ []) (tenth-lt (suc n) room fits)
      ((omega arith, omega arith), tt)

one_digit : (n : ℕ) → atoi_digits ((b'0' + n % 10) ∷ []) (n / 10) ≡ some n
unfolding atoi_digits
one_digit n = atoi_digits-last n []

-- A PID fits the buffer, and what is written for it is read back, whatever the 63-bit number.
pub read_pid-fmt_pid :
    (pid : ℕ)
    → 0 < pid
    → pid < 2 ^ 63
    → (content : Bytes) × (fmt_pid pid ≡ some content) × (read_pid (ok content) ≡ pos pid)
unfolding fmt_pid itoa read_pid
read_pid-fmt_pid zero some_pid fits = elim some_pid [ ]
read_pid-fmt_pid (suc n) some_pid fits =
    let (bs, written, s) = itoa_loop-first 19 n (omega (arith, fits)) in
    let nonempty : 0 < length bs = omega (arith, s.grown) in
    (
      bs ++ 10 ∷ [],
      rw (pos→not_eqb (suc n) some_pid, written) refl,
      rw (trim_space-digits bs nonempty s.digits)
          (atoi-digits (suc n) bs nonempty s.digits (s.spells ∙ one_digit (suc n)) fits),
    )
