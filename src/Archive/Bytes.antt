-- ===== src/Archive/Bytes.antt =====
-- The scratch file: its first bytes, and a write at an offset, as the operating system does it.
use aplikasi_transaksi_kanto.Base.{
  ℕ, zero, suc, ◌+◌, ◌≤◌, ◌≡◌, refl, ap, [], ◌∷◌, ◌++◌, length, arith,
}
use aplikasi_transaksi_kanto.Crypto.Hybrid.{Bytes}

-- The first `n` bytes, or all.
unfoldable pub take : ℕ → Bytes → Bytes
take zero file = []
take (suc n) [] = []
take (suc n) (b ∷ file) = b ∷ take n file

-- A write of `bytes` at an offset; a gap reads as zeros, and no bytes are no write.
unfoldable pub write_at : ℕ → Bytes → Bytes → Bytes
write_at zero [] file = file
write_at zero (b ∷ bytes) [] = b ∷ bytes
write_at zero (b ∷ bytes) (f ∷ file) = b ∷ write_at zero bytes file
write_at (suc n) [] [] = []
write_at (suc n) (b ∷ bytes) [] = 0 ∷ write_at n (b ∷ bytes) []
write_at (suc n) bytes (f ∷ file) = f ∷ write_at n bytes file

pub length-take : (n : ℕ) (file : Bytes) → n ≤ length file → length (take n file) ≡ n
unfolding take
length-take zero file h = refl
length-take (suc n) [] h = absurd (omega arith)
length-take (suc n) (b ∷ file) h = omega (arith, length-take n file (omega arith))

pub take-take : (n : ℕ) (file : Bytes) → take n (take n file) ≡ take n file
unfolding take
take-take zero file = refl
take-take (suc n) [] = refl
take-take (suc n) (b ∷ file) = ap (λ t. b ∷ t) (take-take n file)

-- What lies before the offset stays.
pub take-write_at :
    (n : ℕ) (bytes file : Bytes) → n ≤ length file → take n (write_at n bytes file) ≡ take n file
unfolding take write_at
take-write_at zero bytes file h = refl
take-write_at (suc n) bytes [] h = absurd (omega arith)
take-write_at (suc n) [] (f ∷ file) h = ap (λ t. f ∷ t) (take-write_at n [] file (omega arith))
take-write_at (suc n) (b ∷ bytes) (f ∷ file) h =
    ap (λ t. f ∷ t) (take-write_at n (b ∷ bytes) file (omega arith))

whole : (bytes : Bytes) (k : ℕ) → k ≡ length bytes → take k bytes ≡ bytes
unfolding take
whole [] zero q = refl
whole [] (suc k) q = refl
whole (b ∷ bytes) zero q = absurd (omega (arith, q))
whole (b ∷ bytes) (suc k) q = ap (λ t. b ∷ t) (whole bytes k (omega (arith, q)))

written :
    (k n : ℕ) (bytes file : Bytes)
    → k ≡ n + length bytes
    → n ≤ length file
    → take k (write_at n bytes file) ≡ take n file ++ bytes
unfolding take write_at
written zero zero [] file q h = refl
written (suc k) zero [] file q h = absurd (omega (arith, q))
written k zero (b ∷ bytes) [] q h = whole (b ∷ bytes) k (omega (arith, q))
written zero zero (b ∷ bytes) (f ∷ file) q h = absurd (omega (arith, q))
written (suc k) zero (b ∷ bytes) (f ∷ file) q h =
    ap (λ t. b ∷ t) (written k zero bytes file (omega (arith, q)) (omega arith))
written k (suc n) bytes [] q h = absurd (omega arith)
written zero (suc n) bytes (f ∷ file) q h = absurd (omega (arith, q))
written (suc k) (suc n) [] (f ∷ file) q h =
    ap (λ t. f ∷ t) (written k n [] file (omega (arith, q)) (omega (arith, h)))
written (suc k) (suc n) (b ∷ bytes) (f ∷ file) q h =
    ap (λ t. f ∷ t) (written k n (b ∷ bytes) file (omega (arith, q)) (omega (arith, h)))

-- What has been written follows it.
pub take-write_at_end :
    (n : ℕ) (bytes file : Bytes)
    → n ≤ length file
    → take (n + length bytes) (write_at n bytes file) ≡ take n file ++ bytes
take-write_at_end n bytes file h = written (n + length bytes) n bytes file refl h

pub length-write_at :
    (n : ℕ) (bytes file : Bytes)
    → n ≤ length file
    → n + length bytes ≤ length (write_at n bytes file)
unfolding write_at
length-write_at zero [] file h = omega arith
length-write_at zero (b ∷ bytes) [] h = omega arith
length-write_at zero (b ∷ bytes) (f ∷ file) h =
    omega (arith, length-write_at zero bytes file (omega arith))
length-write_at (suc n) bytes [] h = absurd (omega arith)
length-write_at (suc n) [] (f ∷ file) h = omega (arith, length-write_at n [] file (omega arith))
length-write_at (suc n) (b ∷ bytes) (f ∷ file) h =
    omega (arith, length-write_at n (b ∷ bytes) file (omega arith))
