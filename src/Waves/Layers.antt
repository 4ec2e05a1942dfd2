-- ===== src/Waves/Layers.antt =====
-- The invariant of the loop `while ready` of src/fabri/builder/waves.py.
use fabri.Prelude.{
  ◌+◌, String, Bool, true, not, ◌&&◌, List, [], ◌∷◌, ◌++◌, ◌≡◌, Dict, eqb, length, elem, is_nodup,
  filter, All, append_nil, append_assoc,
}
use fabri.Waves.Defs.{Wave, Layering, indeg_at}
use fabri.Waves.Release.{unmet}

-- The ids of a plan, wave by wave.
abbrev pub wave_ids : List Wave → List String
wave_ids [] = []
wave_ids (w ∷ ws) = w.ids ++ wave_ids ws

-- All that an item of a wave depends on stands in `seen` or in an earlier wave.
abbrev pub IsLayered : (String → List String) → List String → List Wave → Type 0
IsLayered deps seen [] = Unit
IsLayered deps seen (w ∷ ws) =
    All (λ i. All (λ d. elem d seen ≡ true) (deps i)) w.ids × IsLayered deps (seen ++ w.ids) ws

pub wave_ids-snoc : (ws : List Wave) (w : Wave) → wave_ids (ws ++ w ∷ []) ≡ wave_ids ws ++ w.ids
wave_ids-snoc [] w = append_nil w.ids
wave_ids-snoc (v ∷ ws) w = simp (wave_ids-snoc ws w, append_assoc)

pub IsLayered-snoc :
    (deps : String → List String) (seen : List String) (ws : List Wave) (w : Wave)
    → IsLayered deps seen ws
    → All (λ i. All (λ d. elem d (seen ++ wave_ids ws) ≡ true) (deps i)) w.ids
    → IsLayered deps seen (ws ++ w ∷ [])
IsLayered-snoc deps seen [] w h k = (rw append_nil at k, tt)
IsLayered-snoc deps seen (v ∷ ws) w h k =
    (h.0, IsLayered-snoc deps (seen ++ v.ids) ws w h.1 (rw append_assoc k))

module _ (order : List String) (deps : String → List String) (children : Dict (List String)) where
  -- The ids that are not in a list yet, and those of them with no dependency outside it.
  abbrev pub waiting : List String → List String
  waiting P = filter (λ i. not (elem i P)) order

  abbrev pub is_next : List String → String → Bool
  is_next P i = not (elem i P) && eqb (unmet (λ d. elem d P) (deps i)) 0

  pub record IsLayering (s : Layering) : Type 0 where
    pub counts : (c : String) → indeg_at c s.indeg ≡ unmet (λ d. elem d (wave_ids s.waves)) (deps c)
    pub ready : s.ready ≡ filter (is_next (wave_ids s.waves)) order
    pub met :
        (c : String)
        → elem c (wave_ids s.waves) ≡ true
        → unmet (λ d. elem d (wave_ids s.waves)) (deps c) ≡ 0
    pub declared : (c : String) → elem c (wave_ids s.waves) ≡ true → elem c order ≡ true
    pub nodup : is_nodup (wave_ids s.waves) ≡ true
    pub placed : s.placed + length (waiting (wave_ids s.waves)) ≡ length order
    pub layered : IsLayered deps [] s.waves
