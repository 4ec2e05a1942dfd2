-- ===== src/Decide/Tree/Report.antt =====
-- `cost_known` and `unpriced_models` of TreeResult in src/fabri/decide/tree.py.
use fabri.Prelude.{
  String, Bool, true, not, ◌&&◌, ◌||◌, List, [], ◌∷◌, ◌++◌, if◌then◌else◌, all, any, elem,
  elem-append, is_nodup, ◌==◌, false, ◌∙◌, ◌≡◌, refl, arith, eq_iff,
}
use fabri.Decide.Answer.{Answer}
use fabri.Decide.Tree.Run.{TreeResult}

is_nodup-snoc :
    (xs : List String) (x : String)
    → is_nodup xs ≡ true
    → elem x xs ≡ false
    → is_nodup (xs ++ x ∷ []) ≡ true
is_nodup-snoc [] x h n = refl
is_nodup-snoc (y ∷ xs) x h n =
    ground (arith, is_nodup-snoc xs x, elem-append y xs (x ∷ []), eq_iff x y, eq_iff y x)

-- `not unpriced_models`.
abbrev pub no_models : List String → Bool
no_models [] = true
no_models (m ∷ ms) = false

module _ {R : Type 0} where
  abbrev pub cost_known : TreeResult R → Bool
  cost_known r = all (λ a. a.cost_known) r.path

  -- One turn of the loop of `unpriced_models`.
  abbrev add_model : List String → Answer R → List String
  add_model out a = if not a.cost_known && not (elem a.model out) then out ++ a.model ∷ [] else out

  -- The loop of `unpriced_models`, `out` being the models so far.
  unfoldable unpriced_from : List String → List (Answer R) → List String
  unpriced_from out [] = out
  unpriced_from out (a ∷ rest) = unpriced_from (add_model out a) rest

  unfoldable pub unpriced_models : TreeResult R → List String
  unfolding unpriced_from
  unpriced_models r = unpriced_from [] r.path

  -- An answer of that model could not be priced.
  abbrev pub is_unpriced : String → Answer R → Bool
  is_unpriced m a = not a.cost_known && (a.model == m)

  elem-add_model :
      (m : String) (out : List String) (a : Answer R)
      → elem m (add_model out a) ≡ (elem m out || is_unpriced m a)
  elem-add_model m out a = ground (arith, elem-append m out (a.model ∷ []), eq_iff a.model m)

  elem-unpriced_from :
      (m : String) (out : List String) (answers : List (Answer R))
      → elem m (unpriced_from out answers) ≡ (elem m out || any (is_unpriced m) answers)
  unfolding unpriced_from
  elem-unpriced_from m out [] = ground arith
  elem-unpriced_from m out (a ∷ rest) =
      elem-unpriced_from m (add_model out a) rest
      ∙ (let e = elem-add_model m out a in ground (arith, e))

  is_nodup-unpriced_from :
      (out : List String) (answers : List (Answer R))
      → is_nodup out ≡ true
      → is_nodup (unpriced_from out answers) ≡ true
  unfolding unpriced_from
  is_nodup-unpriced_from out [] h = h
  is_nodup-unpriced_from out (a ∷ rest) h =
      is_nodup-unpriced_from (add_model out a) rest (ground (arith, is_nodup-snoc out a.model, h))

  no_models-unpriced_from :
      (out : List String) (answers : List (Answer R))
      → no_models (unpriced_from out answers) ≡ (no_models out && all (λ a. a.cost_known) answers)
  unfolding unpriced_from
  no_models-unpriced_from out [] = ground arith
  no_models-unpriced_from [] (a ∷ rest) =
      no_models-unpriced_from (add_model [] a) rest ∙ ground arith
  no_models-unpriced_from (m ∷ ms) (a ∷ rest) =
      no_models-unpriced_from (add_model (m ∷ ms) a) rest ∙ ground arith

  -- The models of `unpriced_models` are exactly those of the answers on the path that could not be
  -- priced, each of them once. `cost_known` holds exactly if there are none.
  pub unpriced_models-IsReported :
      (r : TreeResult R)
      → ((m : String) → elem m (unpriced_models r) ≡ any (is_unpriced m) r.path)
        × (is_nodup (unpriced_models r) ≡ true)
        × (no_models (unpriced_models r) ≡ cost_known r)
  unfolding unpriced_models
  unpriced_models-IsReported r = (
    λ m. elem-unpriced_from m [] r.path,
    is_nodup-unpriced_from [] r.path refl,
    no_models-unpriced_from [] r.path,
  )
