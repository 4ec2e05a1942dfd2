-- ===== src/Prelude/Traverse.antt =====
-- What a successful `traverse` gives.
use Prim.Native.Nat.{suc}
use mathlib.Core.Path.{◌≡◌, ap, sym, subst, ◌∙◌}
use mathlib.Core.List.{List, [], ◌∷◌}
use native.Mathlib.Omega.{arith}
use fabri.Prelude.Lists.{length, All}
use fabri.Prelude.Results.{Result, ok, ◌>>=◌, >>=-eq-ok, traverse}

module _ {ℓ κ} {E : Type ℓ} {A B : Type κ} (f : A → Result E B) where
  pub length-traverse : (xs : List A) (ys : List B) → traverse f xs ≡ ok ys → length ys ≡ length xs
  unfolding traverse
  length-traverse [] ys h = ground arith
  length-traverse (x ∷ xs) ys h =
      let (y, e, rest) = >>=-eq-ok (f x) (λ a. traverse f xs >>= λ bs. ok (a ∷ bs)) h in
      let (zs, e', last) = >>=-eq-ok (traverse f xs) (λ bs. ok (y ∷ bs)) rest in
      let same : y ∷ zs ≡ ys = cc in ap length (sym same) ∙ ap suc (length-traverse xs zs e')

  pub All-traverse {μ} :
      (P : B → Type μ)
      → ((a : A) (b : B) → f a ≡ ok b → P b)
      → (xs : List A) (ys : List B) → traverse f xs ≡ ok ys
      → All P ys
  unfolding traverse
  All-traverse P each [] ys h = let same : [] ≡ ys = cc in subst (All P) same tt
  All-traverse P each (x ∷ xs) ys h =
      let (y, e, rest) = >>=-eq-ok (f x) (λ a. traverse f xs >>= λ bs. ok (a ∷ bs)) h in
      let (zs, e', last) = >>=-eq-ok (traverse f xs) (λ bs. ok (y ∷ bs)) rest in
      let same : y ∷ zs ≡ ys = cc in subst (All P) same (each x y e, All-traverse P each xs zs e')
