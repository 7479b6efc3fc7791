-- ===== src/Cypher/Decimal.antt =====
-- The keys "p1", "p2", ... of src/cypher/query.go: two numbers never have the same key.
use gopher_cypher.Common.{
  ℕ, zero, suc, ◌+◌, ◌-◌, ◌*◌, ◌/◌, ◌%◌, ◌<◌, List, [], ◌∷◌, false, ◌≡◌, ◌≢◌, sym, ap, ◌∙◌, inl,
  inr, arith, ltb, Bool-cases, str_eq, str_eq→eq,
}
use gopher_cypher.Cypher.Parameters.{digits_before, decimal, param_key}

-- The number that digits stand for, after those of n.
read_digits : ℕ → List ℕ → ℕ
read_digits n [] = n
read_digits n (d ∷ ds) = read_digits (n * 10 + (d - 48)) ds

read_digits-digits_before :
    (fuel n : ℕ) (rest : List ℕ)
    → n < fuel
    → read_digits 0 (digits_before fuel n rest) ≡ read_digits n rest
unfolding read_digits digits_before
read_digits-digits_before zero n rest h = omega arith
read_digits-digits_before (suc fuel) n rest h = elim (Bool-cases (ltb n 10)) [
  | inl e ↦ rw e (ap (λ k. read_digits k rest) (omega arith))
  | inr e ↦ rw e (
      read_digits-digits_before fuel (n / 10) ((48 + n % 10) ∷ rest) (ground arith)
      ∙ ap (λ k. read_digits k rest) (omega arith))
]

read_digits-decimal : (n : ℕ) → read_digits 0 (decimal n) ≡ n
unfolding decimal read_digits
read_digits-decimal n = read_digits-digits_before (suc n) n [] (omega arith)

digits_of : List ℕ → List ℕ
digits_of [] = []
digits_of (p ∷ ds) = ds

pub param_key_injective : (i j : ℕ) → param_key i ≡ param_key j → i ≡ j
unfolding param_key digits_of
param_key_injective i j e =
    sym (read_digits-decimal i) ∙ ap (λ k. read_digits 0 (digits_of k)) e ∙ read_digits-decimal j

pub str_eq-param_key : (i j : ℕ) → i ≢ j → str_eq (param_key i) (param_key j) ≡ false
str_eq-param_key i j d = elim (Bool-cases (str_eq (param_key i) (param_key j))) [
  | inl e ↦ absurd (d (param_key_injective i j (str_eq→eq (param_key i) (param_key j) e)))
  | inr e ↦ e
]
