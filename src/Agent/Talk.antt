-- ===== src/Agent/Talk.antt =====
-- Messages of src/fabri/core/agent.py in which each tool call is answered by the message after it.
use fabri.Prelude.{
  String, Option, List, [], ◌∷◌, ◌++◌, ◌≡◌, refl, sym, ap, subst, ◌∙◌, any, Bool-cases, inl, inr,
}
use fabri.Agent.Defs.{
  Block, tool_use, tool_result, text_block, Role, user, assistant, Content, plain, blocks, Message,
}
use fabri.Agent.Steps.{
  has_nudge, final_step_nudge, nudge_content, nudge_message, inject_final_step_nudge,
}

-- The ids of the tool calls in some blocks, and of the results.
abbrev pub use_ids : List Block → List (Option String)
use_ids [] = []
use_ids (tool_use id name ∷ bs) = id ∷ use_ids bs
use_ids (tool_result id content ∷ bs) = use_ids bs
use_ids (text_block t ∷ bs) = use_ids bs

abbrev pub result_ids : List Block → List (Option String)
result_ids [] = []
result_ids (tool_use id name ∷ bs) = result_ids bs
result_ids (tool_result id content ∷ bs) = id ∷ result_ids bs
result_ids (text_block t ∷ bs) = result_ids bs

abbrev pub ids_in : (List Block → List (Option String)) → Content → List (Option String)
ids_in ids (plain t) = []
ids_in ids (blocks bs) = ids bs

-- What the assistant calls in a message, and what the user answers.
abbrev pub called : Message → List (Option String)
called m = elim m.role [ user ↦ [] | assistant ↦ ids_in use_ids m.content ]

abbrev pub answered : Message → List (Option String)
answered m = elim m.role [ user ↦ ids_in result_ids m.content | assistant ↦ [] ]

-- Each message answers exactly what the one before it has called, in the same order.
abbrev pub IsPaired : List (Option String) → List Message → Type 0
IsPaired pending [] = pending ≡ []
IsPaired pending (m ∷ ms) = (answered m ≡ pending) × IsPaired (called m) ms

pub IsPaired-append :
    (pending : List (Option String)) (ms ns : List Message)
    → IsPaired pending ms
    → IsPaired [] ns
    → IsPaired pending (ms ++ ns)
IsPaired-append pending [] ns h k = subst (λ p. IsPaired p ns) (sym h) k
IsPaired-append pending (m ∷ ms) ns h k = (h.0, IsPaired-append (called m) ms ns h.1 k)

result_ids-snoc :
    (bs : List Block) (t : String) → result_ids (bs ++ text_block t ∷ []) ≡ result_ids bs
result_ids-snoc [] t = refl
result_ids-snoc (tool_use id name ∷ bs) t = result_ids-snoc bs t
result_ids-snoc (tool_result id content ∷ bs) t = ap (λ r. id ∷ r) (result_ids-snoc bs t)
result_ids-snoc (text_block s ∷ bs) t = result_ids-snoc bs t

nudge_content-ids : (c : Content) → ids_in result_ids (nudge_content c) ≡ ids_in result_ids c
unfolding nudge_content
nudge_content-ids (plain t) = refl
nudge_content-ids (blocks bs) = elim (Bool-cases (any has_nudge bs)) [
  | inl e ↦ rw e refl
  | inr e ↦ rw e (result_ids-snoc bs final_step_nudge)
]

nudge_message-ids :
    (m : Message)
    → (answered (nudge_message m) ≡ answered m) × (called (nudge_message m) ≡ called m)
unfolding nudge_message
nudge_message-ids m = by_role m.role m.content
  where
    by_role :
        (role : Role) (content : Content)
        → (answered (nudge_message (record { role = role; content = content }))
            ≡ answered (record { role = role; content = content }))
          × (called (nudge_message (record { role = role; content = content }))
              ≡ called (record { role = role; content = content }))
    by_role user content = (nudge_content-ids content, refl)
    by_role assistant content = (refl, refl)

pub inject-IsPaired :
    (pending : List (Option String)) (ms : List Message)
    → IsPaired pending ms
    → IsPaired pending (inject_final_step_nudge ms)
unfolding inject_final_step_nudge
inject-IsPaired pending [] h = h
inject-IsPaired pending (m ∷ []) h = ((nudge_message-ids m).0 ∙ h.0, (nudge_message-ids m).1 ∙ h.1)
inject-IsPaired pending (m ∷ n ∷ ms) h = (h.0, inject-IsPaired (called m) (n ∷ ms) h.1)
