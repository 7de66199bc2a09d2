-- ===== src/Webhook/Compare.antt =====
-- The constant-time comparison and equality of byte sequences (src/webhook.rs).
use Prim.Native.Nat.{bit_or, bit_xor}
use paratro_sdk_rust.Base.{ℕ, true, ◌≡◌, refl, ap₂, ◌↔◌, List, [], ◌∷◌, arith, length}
use paratro_sdk_rust.Base.Bits.{bit_or-eq-zero, bit_xor-eq-zero, bit_xor_self}
use paratro_sdk_rust.Webhook.{fold_differences, constant_time_eq}

-- A fold that ends at zero started at zero and met no difference.
fold-eq-zero :
    (acc : ℕ) (a b : List ℕ)
    → length a ≡ length b
    → fold_differences acc a b ≡ 0
    → (acc ≡ 0) × (a ≡ b)
unfolding fold_differences
fold-eq-zero acc [] [] l h = (h, refl)
fold-eq-zero acc [] (y ∷ b) l h = absurd (omega arith)
fold-eq-zero acc (x ∷ a) [] l h = absurd (omega arith)
fold-eq-zero acc (x ∷ a) (y ∷ b) l h =
    let (z, e) = fold-eq-zero (bit_or acc (bit_xor x y)) a b (omega arith) h in
    let (start, here) = bit_or-eq-zero acc (bit_xor x y) z in
    (start, ap₂ ◌∷◌ (bit_xor-eq-zero x y here) e)

fold_self : (a : List ℕ) → fold_differences 0 a a ≡ 0
unfolding fold_differences
fold_self [] = refl
fold_self (x ∷ a) = rw bit_xor_self (fold_self a)

-- `constant_time_eq` returns true exactly for equal byte sequences.
pub constant_time_eq_iff : (a b : List ℕ) → (constant_time_eq a b ≡ true) ↔ (a ≡ b)
unfolding constant_time_eq
constant_time_eq_iff a b = (
  (λ h. (fold-eq-zero 0 a b (ground arith) (ground arith)).1),
  (λ e. rw e (ground (arith, fold_self b))),
)
