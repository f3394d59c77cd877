-- ===== src/MemoryWorker/Bits.antt =====
-- When the binary digits of numbers, combined by `^` and `|`, are all 0.
use Prim.Native.Nat.{digits, differ, bitwise, bit_or, bit_or-bitwise, bit_xor, bit_xor-bitwise, max}
use memory_server_worker.Prelude.{ℕ, zero, suc, ◌/◌, ◌%◌, ◌≡◌, ◌≤◌, ◌↔◌, arith}

differ_zero : (a b : ℕ) → (differ a b ≡ 0) ↔ (a ≡ b)
differ_zero zero b = ground arith
differ_zero (suc a) zero = ground arith
differ_zero (suc a) (suc b) = ground (arith, differ_zero a b)

max_zero : (a b : ℕ) → (max a b ≡ 0) ↔ ((a ≡ 0) × (b ≡ 0))
max_zero zero b = ground arith
max_zero (suc a) zero = ground arith
max_zero (suc a) (suc b) = ground arith

digits-differ_zero : (n a b : ℕ) → a ≤ n → (digits (λ b. b) differ n a b ≡ 0) ↔ (a ≡ b)
digits-differ_zero zero zero b le = ground arith
digits-differ_zero zero (suc a) b le = elim le [ ]
digits-differ_zero (suc n) zero b le = ground arith
digits-differ_zero (suc n) (suc a) b le =
    let rest = digits-differ_zero n (suc a / 2) (b / 2) (omega arith) in
    let last = differ_zero (suc a % 2) (b % 2) in ground arith

digits-max_zero : (n a b : ℕ) → a ≤ n → (digits (λ b. b) max n a b ≡ 0) ↔ ((a ≡ 0) × (b ≡ 0))
digits-max_zero zero zero b le = ground arith
digits-max_zero zero (suc a) b le = elim le [ ]
digits-max_zero (suc n) zero b le = ground arith
digits-max_zero (suc n) (suc a) b le =
    let rest = digits-max_zero n (suc a / 2) (b / 2) (omega arith) in
    let last = max_zero (suc a % 2) (b % 2) in ground arith

pub bit_xor_zero : (a b : ℕ) → (bit_xor a b ≡ 0) ↔ (a ≡ b)
bit_xor_zero a b =
    let written : bit_xor a b ≡ bitwise (λ b. b) differ a b = bit_xor-bitwise a b in
    rw written (digits-differ_zero a a b (omega arith))

pub bit_or_zero : (a b : ℕ) → (bit_or a b ≡ 0) ↔ ((a ≡ 0) × (b ≡ 0))
bit_or_zero a b =
    let written : bit_or a b ≡ bitwise (λ b. b) max a b = bit_or-bitwise a b in
    rw written (digits-max_zero a a b (omega arith))
