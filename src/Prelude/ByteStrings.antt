-- ===== src/Prelude/ByteStrings.antt =====
-- `std::string` and `std::string_view` as lists of bytes, with the order of `std::string::compare`:
-- the first byte that differs decides, by its unsigned value, and a proper prefix is smaller.
use Prim.Native.Nat.{ℕ}
use mathlib.Core.Path.{◌≡◌, refl}
use mathlib.Core.Bool.{Bool, true, false, ◌&&◌, ◌||◌}
use mathlib.Core.List.{List, [], ◌∷◌}
use native.Mathlib.Omega.{arith}
use moyuan_kv.Prelude.Tests.{ltb, ◌==◌}

abbrev pub Bytes : Type 0
Bytes = List ℕ

-- `a == b` on strings.
unfoldable pub beq : Bytes → Bytes → Bool
beq [] [] = true
beq [] (b ∷ bs) = false
beq (a ∷ as') [] = false
beq (a ∷ as') (b ∷ bs) = a == b && beq as' bs

-- `a < b` on strings.
unfoldable pub blt : Bytes → Bytes → Bool
blt [] [] = false
blt [] (b ∷ bs) = true
blt (a ∷ as') [] = false
blt (a ∷ as') (b ∷ bs) = ltb a b || a == b && blt as' bs

pub beq_refl : (a : Bytes) → beq a a ≡ true
unfolding beq
beq_refl [] = refl
beq_refl (x ∷ xs) = ground (arith, beq_refl xs)

pub beq→eq : (a b : Bytes) → beq a b ≡ true → a ≡ b
unfolding beq
beq→eq [] [] h = refl
beq→eq [] (y ∷ ys) h = cc
beq→eq (x ∷ xs) [] h = cc
beq→eq (x ∷ xs) (y ∷ ys) h = ground (arith, beq→eq xs ys)

pub beq_comm : (a b : Bytes) → beq a b ≡ beq b a
unfolding beq
beq_comm [] [] = refl
beq_comm [] (y ∷ ys) = refl
beq_comm (x ∷ xs) [] = refl
beq_comm (x ∷ xs) (y ∷ ys) = ground (arith, beq_comm xs ys)

pub blt_irrefl : (a : Bytes) → blt a a ≡ false
unfolding blt
blt_irrefl [] = refl
blt_irrefl (x ∷ xs) = ground (arith, blt_irrefl xs)

pub blt_trans : (a b c : Bytes) → blt a b ≡ true → blt b c ≡ true → blt a c ≡ true
unfolding blt
blt_trans [] [] c h k = cc
blt_trans [] (y ∷ ys) [] h k = cc
blt_trans [] (y ∷ ys) (z ∷ zs) h k = refl
blt_trans (x ∷ xs) [] c h k = cc
blt_trans (x ∷ xs) (y ∷ ys) [] h k = cc
blt_trans (x ∷ xs) (y ∷ ys) (z ∷ zs) h k = ground (arith, blt_trans xs ys zs)

-- Of two strings neither of which is smaller, each is the other.
pub eq_of_not_blt : (a b : Bytes) → blt a b ≡ false → blt b a ≡ false → a ≡ b
unfolding blt
eq_of_not_blt [] [] h k = refl
eq_of_not_blt [] (y ∷ ys) h k = cc
eq_of_not_blt (x ∷ xs) [] h k = cc
eq_of_not_blt (x ∷ xs) (y ∷ ys) h k = ground (arith, eq_of_not_blt xs ys)
