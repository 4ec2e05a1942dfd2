-- ===== src/Agent/Complete.antt =====
-- Every call that `_dispatch_tool_calls` of src/fabri/core/agent.py makes has a result, in whatever
-- order the members of a parallel group finish.
use fabri.Prelude.{
  ℕ, suc, ◌<◌, Bool, true, false, not, ◌==◌, ◌&&◌, ◌||◌, Option, none, some, List, [], ◌∷◌, ◌++◌,
  Result, ok, err, ◌≡◌, refl, ◌∙◌, Dict, eqb, length, filter, is_some, arith, Bool-cases, inl, inr,
}
use fabri.Indices.{
  elem, range, elem-range, elem-append, elem-filter, replicate, get_or, length-set,
  length-replicate, get_or-set,
}
use fabri.Agent.Defs.{
  Usage, LlmError, Call, ToolResult, Env, Account, budget_breached, decompose_tool_name,
  spawn_subagent_tool_name,
}
use fabri.Agent.Calls.{
  index_parallel_groups, members, call_at, Progress, set_result, refused, dispatch_decompose,
  dispatch_one, dispatch_each, dispatch_groups, dispatch_all,
}
use fabri.Agent.Turn.{charge_child, Turn, build_turn, add_result}

-- The members of a group are those that finish.
pub record Finishes {W F : Type 0} (env : Env W F) : Type 0 where
  pub same_members :
      (i : ℕ) (indices : List ℕ) (w : W) → elem i (env.finish_order indices w) ≡ elem i indices

module _ {W F : Type 0} (env : Env W F) (max_cost : Option F) (calls : List Call) where
  abbrev has_result : Progress env max_cost → ℕ → Bool
  has_result p i = is_some (get_or p.results i none)

  -- Unless an exception was raised, the indices that a test accepts have a result.
  record Covers (seen : ℕ → Bool) (p : Progress env max_cost) : Type 0 where
    size : length p.results ≡ length calls
    filled : (i : ℕ) → i < length calls → seen i ≡ true → p.raised ≡ none → has_result p i ≡ true

  set_result-Covers :
      (seen : ℕ → Bool) (i : ℕ) (result : ToolResult F) (account : Account F) (world : W)
      (p : Progress env max_cost)
      → Covers seen p
      → Covers (λ j. eqb i j || seen j) (set_result env max_cost i result account world p)
  set_result-Covers seen i result account world p c = record {
    size = length-set p.results i (some result) ∙ c.size;
    filled = λ j h s none_raised.
        ground (arith, get_or-set p.results i j (some result) none, c.size, c.filled j h);
  }

  raised-Covers :
      (seen : ℕ → Bool) (p : Progress env max_cost) (e : LlmError)
      → length p.results ≡ length calls
      → p.raised ≡ some e
      → Covers seen p
  raised-Covers seen p e size r = record {
    size = size;
    filled = λ j h s none_raised. absurd (ground (arith, r, none_raised));
  }

  dispatch_decompose-Covers :
      (seen : ℕ → Bool) (i : ℕ) (answer : Result LlmError (ToolResult F × Option Usage) × W)
      (p : Progress env max_cost)
      → Covers seen p
      → Covers (λ j. eqb i j || seen j) (dispatch_decompose env max_cost i answer p)
  unfolding dispatch_decompose
  dispatch_decompose-Covers seen i (ok (result, usage), world) p c =
      set_result-Covers seen i result _ world p c
  dispatch_decompose-Covers seen i (err e, world) p c =
      raised-Covers (λ j. eqb i j || seen j) (record p { raised = some e; world = world }) e c.size
        refl

  dispatch_one-Covers :
      (seen : ℕ → Bool) (i : ℕ) (p : Progress env max_cost)
      → Covers seen p
      → Covers (λ j. eqb i j || seen j) (dispatch_one env max_cost calls i p)
  unfolding dispatch_one
  dispatch_one-Covers seen i p c =
      elim (Bool-cases ((call_at calls i).name == decompose_tool_name)) [
        | inl d ↦
            rw d (dispatch_decompose-Covers seen i (env.decompose (call_at calls i) p.world) p c)
        | inr d ↦
            elim (Bool-cases (
              ((call_at calls i).name == spawn_subagent_tool_name)
              && budget_breached env max_cost p.account)) [
                | inl b ↦
                    rw (d, b)
                      (set_result-Covers seen i (refused env max_cost) p.account p.world p c)
                | inr b ↦
                    rw (d, b)
                      (set_result-Covers seen i (env.invoke (call_at calls i) p.world).0 p.account
                        (env.invoke (call_at calls i) p.world).1 p c)
              ]
      ]

  weaken :
      (f g : ℕ → Bool) (p : Progress env max_cost)
      → ((i : ℕ) → i < length calls → g i ≡ true → f i ≡ true)
      → Covers f p
      → Covers g p
  weaken f g p h c = record { size = c.size; filled = λ i k s r. c.filled i k (h i k s) r }

  dispatch_each-Covers :
      (seen : ℕ → Bool) (indices : List ℕ) (p : Progress env max_cost)
      → Covers seen p
      → Covers (λ j. elem j indices || seen j) (dispatch_each env max_cost calls indices p)
  unfolding dispatch_each
  dispatch_each-Covers seen [] p c = c
  dispatch_each-Covers seen (i ∷ indices) p c = by_raised p.raised refl (
      dispatch_each-Covers (λ j. eqb i j || seen j) indices (dispatch_one env max_cost calls i p)
        (dispatch_one-Covers seen i p c))
    where
      next : Progress env max_cost
      next = dispatch_one env max_cost calls i p

      by_raised :
          (o : Option LlmError)
          → p.raised ≡ o
          → Covers
              (λ j. elem j indices || (eqb i j || seen j))
              (dispatch_each env max_cost calls indices next)
          → Covers
              (λ j. elem j (i ∷ indices) || seen j)
              (elim o [ none ↦ dispatch_each env max_cost calls indices next | some e ↦ p ])
      by_raised none r later =
          weaken (λ j. elem j indices || (eqb i j || seen j)) (λ j. elem j (i ∷ indices) || seen j)
            (dispatch_each env max_cost calls indices next) (λ j k s. ground arith) later
      by_raised (some e) r later = raised-Covers (λ j. elem j (i ∷ indices) || seen j) p e c.size r

  dispatch_groups-Covers :
      Finishes env
      → (seen : ℕ → Bool) (groups : Dict (List ℕ)) (p : Progress env max_cost) → Covers seen p
      → Covers
          (λ j. elem j (members groups) || seen j)
          (dispatch_groups env max_cost calls groups p)
  unfolding dispatch_groups
  dispatch_groups-Covers fin seen [] p c = c
  dispatch_groups-Covers fin seen ((group, indices) ∷ groups) p c =
      let finished = env.finish_order indices p.world in
      let next = dispatch_each env max_cost calls finished p in
      weaken (λ j. elem j (members groups) || (elem j finished || seen j))
        (λ j. elem j (indices ++ members groups) || seen j)
        (dispatch_groups env max_cost calls groups next)
        (λ j k s.
          ground
            (arith, elem-append j indices (members groups), fin.same_members j indices p.world))
        (dispatch_groups-Covers fin (λ j. elem j finished || seen j) groups next
          (dispatch_each-Covers seen finished p c))

  dispatch_all-Covers :
      Finishes env
      → (account : Account F) (world : W)
      → Covers (λ j. true) (dispatch_all env max_cost calls account world)
  unfolding dispatch_all
  dispatch_all-Covers fin account world =
      let groups = index_parallel_groups calls in
      let n = length calls in
      let alone = λ (i : ℕ). not (elem i (members groups)) in
      let serial = filter alone (range n) in
      let begun : Progress env max_cost = record {
        results = replicate n none;
        raised = none;
        account = account;
        world = world;
      } in
      let first = dispatch_each env max_cost calls serial begun in
      weaken (λ j. elem j (members groups) || (elem j serial || false)) (λ j. true)
        (dispatch_groups env max_cost calls groups first)
        (λ j k s. ground (arith, elem-filter alone j (range n), elem-range j n))
        (dispatch_groups-Covers fin (λ j. elem j serial || false) groups first
          (dispatch_each-Covers (λ j. false) serial begun
            (record {
              size = length-replicate {A = Option (ToolResult F)} n none;
              filled = λ i k s r. absurd (cc);
            })))

module _ {W F : Type 0} (env : Env W F) (max_cost : Option F) where
  -- With a result for each call there is a turn.
  build_turn-some :
      (calls : List Call) (results : List (Option (ToolResult F))) (account : Account F)
      → length results ≡ length calls
      → ((i : ℕ) → i < length calls → is_some (get_or results i none) ≡ true)
      → (t : Turn env max_cost) × (build_turn env max_cost calls results account ≡ some t)
  unfolding build_turn
  build_turn-some [] results account size filled = (_, refl)
  build_turn-some (call ∷ calls) [] account size filled = absurd (omega arith)
  build_turn-some (call ∷ calls) (none ∷ results) account size filled =
      absurd (ground (arith, filled 0))
  build_turn-some (call ∷ calls) (some result ∷ results) account size filled =
      let (t, e) =
        build_turn-some calls results (charge_child env max_cost call result account) (omega arith)
          (λ i h. filled (suc i) (omega arith)) in
      (add_result env max_cost call result t, rw e)

  pub dispatch_all-built :
      (calls : List Call) (account : Account F) (world : W)
      → Finishes env
      → (dispatch_all env max_cost calls account world).raised ≡ none
      → (t : Turn env max_cost) × (build_turn env max_cost calls
            (dispatch_all env max_cost calls account world).results
            (dispatch_all env max_cost calls account world).account
          ≡ some t)
  dispatch_all-built calls account world fin r =
      let p = dispatch_all env max_cost calls account world in
      let c = dispatch_all-Covers env max_cost calls fin account world in
      build_turn-some calls p.results p.account c.size (λ i h. c.filled i h refl r)
