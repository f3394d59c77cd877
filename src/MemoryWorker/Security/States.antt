-- ===== src/MemoryWorker/Security/States.antt =====
-- The comparison of states without an early exit is equality.
use Prim.Native.Nat.{bit_or, bit_xor}
use memory_server_worker.Prelude.{
  ℕ, true, false, Option, none, some, [], ◌∷◌, ◌==◌, nat_eq, length, ◌≡◌, ◌↔◌, refl, ap, sym, arith,
  Bool-cases, inl, inr,
}
use memory_server_worker.Texts.{Text, is_empty}
use memory_server_worker.MemoryWorker.Bits.{bit_or_zero, bit_xor_zero}
use memory_server_worker.MemoryWorker.Security.{differences, same_state, is_valid_sso_state}

differences_zero :
    (n : ℕ) (a b : Text) → length a ≡ length b → (differences n a b ≡ 0) ↔ ((n ≡ 0) × (a ≡ b))
differences_zero n [] [] e = ground arith
differences_zero n [] (d ∷ b) e = ground arith
differences_zero n (c ∷ a) [] e = ground arith
differences_zero n (c ∷ a) (d ∷ b) e =
    let rest = differences_zero (bit_or n (bit_xor c d)) a b (omega arith) in
    let both = bit_or_zero n (bit_xor c d) in let one = bit_xor_zero c d in ground arith

same_state_iff : (a b : Text) → (same_state a b ≡ true) ↔ ((is_empty a ≡ false) × (a ≡ b))
same_state_iff [] b = ground arith
same_state_iff (c ∷ a) [] = ground arith
same_state_iff (c ∷ a) (d ∷ b) = elim (Bool-cases (length a == length b)) [
  | inl e ↦ ground (arith, differences_zero 0 (c ∷ a) (d ∷ b) (ground arith))
  | inr e ↦
      let other : ¬ (c ∷ a ≡ d ∷ b) = λ h. absurd (ground (arith, ap length h)) in ground arith
]

-- States are valid exactly if both are there, are not empty, and are the same text.
pub is_valid_sso_state_iff :
    (x y : Option Text)
    → (is_valid_sso_state x y ≡ true)
      ↔ ((s : Text) × (x ≡ some s) × (y ≡ some s) × (is_empty s ≡ false))
unfolding is_valid_sso_state
is_valid_sso_state_iff none y = (λ h. absurd (ground arith), λ (s, a, b, c). absurd (ground arith))
is_valid_sso_state_iff (some a) none =
    (λ h. absurd (ground arith), λ (s, a, b, c). absurd (ground arith))
is_valid_sso_state_iff (some a) (some b) = (
  (λ h. let (full, same) = (same_state_iff a b).0 h in (a, refl, ap some (sym same), full)),
  (λ (s, x, y, full). (same_state_iff a b).1 (ground arith)),
)
