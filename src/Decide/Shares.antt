-- ===== src/Decide/Shares.antt =====
-- `split_evenly` of src/fabri/decide/types.py: the shares of a count.
use fabri.Prelude.{
  ℕ, zero, suc, ◌+◌, ◌*◌, ◌/◌, ◌%◌, ◌≤◌, ◌<◌, ◌≡◌, refl, ltb, length, sum, All, arith, Bool-cases,
  inl, inr,
}
use native.Mathlib.Nat.{mod-lt, mod-add-div}
use fabri.Decide.Question.{shares_from, split_evenly}

length-shares_from : (base rem i n : ℕ) → length (shares_from base rem i n) ≡ n
unfolding shares_from
length-shares_from base rem i zero = refl
length-shares_from base rem i (suc n) = omega (arith, length-shares_from base rem (suc i) n)

abbrev IsShare : ℕ → ℕ → Type 0
IsShare base s = (base ≤ s) × (s ≤ suc base)

shares_from-IsShare : (base rem i n : ℕ) → All (IsShare base) (shares_from base rem i n)
unfolding shares_from
shares_from-IsShare base rem i zero = tt
shares_from-IsShare base rem i (suc n) =
    ((ground arith, ground arith), shares_from-IsShare base rem (suc i) n)

-- The shares after the remainder are all the same.
sum_after : (base rem i n : ℕ) → rem ≤ i → sum (shares_from base rem i n) ≡ n * base
unfolding shares_from
sum_after base rem i zero a = omega arith
sum_after base rem i (suc n) a = ground (arith, sum_after base rem (suc i) n (omega arith))

sum-shares_from :
    (base rem i n : ℕ) → rem ≤ i + n → i ≤ rem → sum (shares_from base rem i n) + i ≡ n * base + rem
unfolding shares_from
sum-shares_from base rem i zero a b = omega arith
sum-shares_from base rem i (suc n) a b = elim (Bool-cases (ltb i rem)) [
  | inl more ↦ ground (arith, sum-shares_from base rem (suc i) n (omega arith) (ground arith))
  | inr done ↦ ground (arith, sum_after base rem (suc i) n (ground arith))
]

-- The shares of a total for `n` answers, `n` positive: there are `n` of them, they sum to the total,
-- and each is the quotient or one more.
pub split_evenly_lem :
    (total n : ℕ)
    → 0 < n
    → (length (split_evenly total n) ≡ n)
      × (sum (split_evenly total n) ≡ total)
      × All (λ s. (total / n ≤ s) × (s ≤ suc (total / n))) (split_evenly total n)
unfolding split_evenly
split_evenly_lem total zero pos = absurd (omega arith)
split_evenly_lem total (suc k) pos = (
  length-shares_from (total / suc k) (total % suc k) 0 (suc k),
  (let below = mod-lt total pos in
      let whole = mod-add-div total (suc k) in
      let all =
        sum-shares_from (total / suc k) (total % suc k) 0 (suc k) (omega arith) (omega arith) in
      omega arith),
  shares_from-IsShare (total / suc k) (total % suc k) 0 (suc k),
)
