-- ===== src/Base/Format.antt =====
-- `fmt.Sprintf("%09d", n)` of Go's standard library, as the ledger's keys use it: decimal digits,
-- padded with zeros to nine places, the sign counted.
use Prim.Native.Nat.{ℕ, zero, suc, ◌+◌, ◌-◌, ◌*◌, ◌/◌, ◌%◌, ◌≤◌, ◌<◌}
use mathlib.Core.Logic.{inl, inr}
use Prim.Native.Char.{Char, code}
use Prim.Native.String.{String}
use mathlib.Core.Path.{◌≡◌, refl, sym, ap, ◌∙◌}
use native.Mathlib.Omega.{arith}
use aplikasi_transaksi_kanto.Base.Tests.{◌==◌, if◌then◌else◌, Bool-cases}
use aplikasi_transaksi_kanto.Base.Int64.{ℤ, pos, negsuc}

abbrev digit : ℕ → Char
digit zero = "0"
digit (suc zero) = "1"
digit (suc (suc zero)) = "2"
digit (suc (suc (suc zero))) = "3"
digit (suc (suc (suc (suc zero)))) = "4"
digit (suc (suc (suc (suc (suc zero))))) = "5"
digit (suc (suc (suc (suc (suc (suc zero)))))) = "6"
digit (suc (suc (suc (suc (suc (suc (suc zero))))))) = "7"
digit (suc (suc (suc (suc (suc (suc (suc (suc zero)))))))) = "8"
digit n = "9"

-- Digits are put in front of `out`, the last first; `width` places at least are filled, and `fuel`
-- bounds the digits of `n`.
put_digits : ℕ → ℕ → ℕ → String → String
put_digits zero width n out = out
put_digits (suc fuel) width n out =
    let rest = put_digits fuel (width - 1) (n / 10) (String.◌∷◌ (digit (n % 10)) out) in
    if n == 0 then (if width == 0 then out else rest) else rest

pad : ℕ → ℕ → String → String
unfolding put_digits
pad width n out = put_digits (n + width) width n out

unfoldable pub sprintf_09d : ℤ → String
unfolding pad
sprintf_09d (pos n) = pad 9 n String.[]
sprintf_09d (negsuc n) = String.◌∷◌ "-" (pad 8 (n + 1) String.[])

-- What a text of digits stands for, read from the left after the number `acc`.
value : ℕ → String → ℕ
value acc String.[] = acc
value acc (String.◌∷◌ c s) = value (acc * 10 + (code c - b'0')) s

digit_value : (d : ℕ) → d < 10 → code (digit d) - b'0' ≡ d
digit_value zero h = refl
digit_value (suc zero) h = refl
digit_value (suc (suc zero)) h = refl
digit_value (suc (suc (suc zero))) h = refl
digit_value (suc (suc (suc (suc zero)))) h = refl
digit_value (suc (suc (suc (suc (suc zero))))) h = refl
digit_value (suc (suc (suc (suc (suc (suc zero)))))) h = refl
digit_value (suc (suc (suc (suc (suc (suc (suc zero))))))) h = refl
digit_value (suc (suc (suc (suc (suc (suc (suc (suc zero)))))))) h = refl
digit_value (suc (suc (suc (suc (suc (suc (suc (suc (suc zero))))))))) h = refl
digit_value (suc (suc (suc (suc (suc (suc (suc (suc (suc (suc d)))))))))) h = absurd (omega arith)

-- One more digit in front keeps what the text stands for.
value-digit :
    (n : ℕ) (out : String) → value (n / 10) (String.◌∷◌ (digit (n % 10)) out) ≡ value n out
unfolding value
value-digit n out = ap (λ k. value k out) (omega (arith, digit_value (n % 10) (omega arith)))

-- With enough fuel the digits in front of `out` stand for `n`.
value-put_digits :
    (fuel width n : ℕ) (out : String)
    → n + width ≤ fuel
    → value 0 (put_digits fuel width n out) ≡ value n out
unfolding put_digits
value-put_digits zero width n out h = ap (λ k. value k out) (omega arith)
value-put_digits (suc fuel) width n out h = elim (Bool-cases (n == 0)) [
  | inr more ↦ rw more (
      value-put_digits fuel (width - 1) (n / 10) (String.◌∷◌ (digit (n % 10)) out) (ground arith)
      ∙ value-digit n out)
  | inl none_left ↦ elim (Bool-cases (width == 0)) [
    | inl full ↦ rw (none_left, full) (ap (λ k. value k out) (ground arith))
    | inr short ↦
        rw (none_left, short)
          (value-put_digits fuel (width - 1) (n / 10) (String.◌∷◌ (digit (n % 10)) out)
              (ground arith)
            ∙ value-digit n out)
  ]
]

value-sprintf_09d : (n : ℕ) → value 0 (sprintf_09d (pos n)) ≡ n
unfolding sprintf_09d value
value-sprintf_09d n = value-put_digits (n + 9) 9 n String.[] (omega arith)

-- Two sequence numbers that are not negative have different texts.
pub sprintf_09d-injective : (m n : ℕ) → sprintf_09d (pos m) ≡ sprintf_09d (pos n) → m ≡ n
sprintf_09d-injective m n h = sym (value-sprintf_09d m) ∙ ap (value 0) h ∙ value-sprintf_09d n

test_pos : sprintf_09d (pos 1207) ≡ "000001207"
unfolding sprintf_09d
test_pos = refl

test_wide : sprintf_09d (pos 12345678901) ≡ "12345678901"
unfolding sprintf_09d
test_wide = refl

test_neg : sprintf_09d (negsuc 4) ≡ "-00000005"
unfolding sprintf_09d
test_neg = refl
