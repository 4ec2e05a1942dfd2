-- ===== src/Memory/Evict.antt =====
-- `_evict_if_needed` and `_summarize_and_evict` of src/fabri/memory/pruning.py.
use Prim.Native.String.{◌++◌ as ◌<>◌}
use fabri.Prelude.{
  ℕ, zero, suc, ◌-◌, max, String, Bool, not, ◌==◌, Option, none, some, List, [], ◌∷◌, ◌++◌, map,
  if◌then◌else◌, eqb, leb, length, take, drop, filter, dedup, Dict, insert, is_empty,
}
use fabri.Value.{end}
use fabri.Memory.Entry.{Entry, sync_aliases, entry_id, embedding_model_version}
use fabri.Memory.Ingest.{Env, remove}

-- `_eviction_score` with the order of floats: the score falls with the age of the entry and rises with
-- its hits.
pub record Scoring (T : Type 0) : Type 1 where
  pub Score : Type 0
  pub score : Entry T → Score
  pub less : Score → Score → Bool

-- What a step of the language model gives: it raises, or it returns, with a final text or without one.
pub data Reply : Type 0 where
  raised no_text : Reply
  final : String → Reply

-- The model that compresses, and `strip` with `enforce_token_cap` on its texts.
pub record Compressor : Type 0 where
  pub reply : String → Reply
  pub capped : String → String

abbrev summary_chunk : ℕ
summary_chunk = 5

-- `"\n".join(f"- {e.text}" for e in group)`.
unfoldable bullets : List String → String
bullets [] = ""
bullets (t ∷ []) = "- " <> t
bullets (t ∷ u ∷ ts) = "- " <> (t <> ("\n" <> bullets (u ∷ ts)))

-- `(response.final_text or fallback)`, with `none` where the step raises.
unfoldable pub reply_text : String → Reply → Option String
unfolding is_empty
reply_text fallback raised = none
reply_text fallback no_text = some fallback
reply_text fallback (final t) = some (if is_empty t then fallback else t)

-- `entry.outcome or "unknown"`.
abbrev outcome_or : String → String
outcome_or o = if is_empty o then "unknown" else o

module _ {T : Type 0} where
  abbrev pub is_protected : Entry T → Bool
  is_protected e = e.kind == "strategic"

  -- `hit_count or 1`.
  abbrev pub hits : Entry T → ℕ
  hits e = if eqb e.hit_count 0 then 1 else e.hit_count

  abbrev max_hits : List (Entry T) → ℕ
  max_hits [] = 0
  max_hits (e ∷ es) = max (hits e) (max_hits es)

  abbrev all_of : (Entry T → List String) → List (Entry T) → List String
  all_of f [] = []
  all_of f (e ∷ es) = f e ++ all_of f es

  -- A stable sort by the score, the lowest first.
  unfoldable pub insert_by : (s : Scoring T) → Entry T → List (Entry T) → List (Entry T)
  insert_by s e [] = e ∷ []
  insert_by s e (f ∷ fs) =
      if s.less (s.score f) (s.score e) then f ∷ insert_by s e fs else e ∷ f ∷ fs

  unfoldable pub sort_by : (s : Scoring T) → List (Entry T) → List (Entry T)
  unfolding insert_by
  sort_by s [] = []
  sort_by s (e ∷ es) = insert_by s e (sort_by s es)

  -- `store.iterate()`.
  abbrev pub values : Dict (Entry T) → List (Entry T)
  values store = map (λ p. p.1) store

  -- The entries in the order in which they are evicted.
  unfoldable pub candidates : (s : Scoring T) → Dict (Entry T) → List (Entry T)
  unfolding sort_by
  candidates s store =
      sort_by s (filter (λ e. not (is_protected e)) (values store))
      ++ sort_by s (filter is_protected (values store))

  -- `candidates[:need_to_remove]`.
  unfoldable pub to_delete : (s : Scoring T) → ℕ → Dict (Entry T) → List (Entry T)
  unfolding candidates
  to_delete s max_entries store = take (length store - max_entries) (candidates s store)

  -- `store.delete(e.id)` for each entry.
  unfoldable pub delete_all : Env T → List (Entry T) → Dict (Entry T) → Dict (Entry T)
  unfolding entry_id
  delete_all env [] store = store
  delete_all env (e ∷ es) store = delete_all env es (remove (entry_id env.digest e) store)

  -- The constructor with the fields that a summary gives.
  abbrev summary :
      Env T → String → String → List String → List String → ℕ → String → String → Entry T
  summary env text kind sessions tools count domain outcome = sync_aliases (record {
    text = text;
    kind = kind;
    session_ids = sessions;
    tags = [];
    tools = tools;
    hit_count = count;
    created_at = env.now;
    model_version = embedding_model_version;
    domain = domain;
    outcome = outcome;
    agent_id = none;
    task_embedding_hash = none;
    dedup_key = none;
    producer_agent_id = none;
    scope = "agent";
    verification = "unverified";
    tier = "unclassified";
    resolution = none;
    source_session_ids = [];
    source_event_ids = [];
    applicability = [];
    do_not_reuse_when = [];
    payload = end;
  })

  unfoldable group_summary : Env T → String → List (Entry T) → Entry T
  unfolding sync_aliases
  group_summary env text group =
      let tools = dedup (all_of (λ e. e.tools) group) in
      summary env text "tactical" (dedup (all_of (λ e. e.session_ids) group)) tools (max_hits group)
        (env.domain_of text tools) "unknown"

  unfoldable pub strategic_summary : Env T → String → Entry T → Entry T
  unfolding sync_aliases is_empty
  strategic_summary env text e =
      summary env text "strategic" e.session_ids e.tools (hits e) e.domain (outcome_or e.outcome)

  -- One group of the first loop: a summary takes the place of the entries.
  unfoldable summarize_group : Env T → Compressor → List (Entry T) → Dict (Entry T) → Dict (Entry T)
  unfolding reply_text bullets group_summary delete_all
  summarize_group env llm group store =
      let combined = bullets (map (λ e. e.text) group) in
      elim (reply_text combined (llm.reply combined)) [
        | none ↦ delete_all env group store
        | some t ↦
            let new = group_summary env (llm.capped t) group in
            delete_all env group (insert (entry_id env.digest new) new store)
      ]

  -- The first loop, on groups of `summary_chunk`: there are at most as many as there are entries.
  unfoldable summarize_groups :
      ℕ → Env T → Compressor → List (Entry T) → Dict (Entry T) → Dict (Entry T)
  unfolding summarize_group
  summarize_groups zero env llm es store = store
  summarize_groups (suc fuel) env llm [] store = store
  summarize_groups (suc fuel) env llm (e ∷ es) store =
      summarize_groups fuel env llm (drop summary_chunk (e ∷ es))
        (summarize_group env llm (take summary_chunk (e ∷ es)) store)

  -- One turn of the second loop.
  unfoldable pub summarize_strategic :
      Env T → Compressor → Entry T → Dict (Entry T) → Dict (Entry T)
  unfolding reply_text strategic_summary entry_id
  summarize_strategic env llm e store = elim (reply_text e.text (llm.reply e.text)) [
    | none ↦ remove (entry_id env.digest e) store
    | some t ↦
        let new = strategic_summary env (llm.capped t) e in
        remove (entry_id env.digest e) (insert (entry_id env.digest new) new store)
  ]

  unfoldable summarize_strategics :
      Env T → Compressor → List (Entry T) → Dict (Entry T) → Dict (Entry T)
  unfolding summarize_strategic
  summarize_strategics env llm [] store = store
  summarize_strategics env llm (e ∷ es) store =
      summarize_strategics env llm es (summarize_strategic env llm e store)

  -- `_summarize_and_evict`.
  unfoldable summarize_and_evict :
      Env T → Compressor → List (Entry T) → Dict (Entry T) → Dict (Entry T)
  unfolding summarize_groups summarize_strategics
  summarize_and_evict env llm es store =
      summarize_strategics env llm (filter is_protected es)
        (summarize_groups (length es) env llm (filter (λ e. not (is_protected e)) es) store)

  -- `_evict_if_needed`, with the number that it returns: `none` is the plain deletion, which is also
  -- done without a language model.
  unfoldable pub evict_if_needed :
      Env T → (s : Scoring T) → Option Compressor → ℕ → Dict (Entry T) → ℕ × Dict (Entry T)
  unfolding to_delete summarize_and_evict delete_all
  evict_if_needed env s compressor max_entries store =
      let gone = to_delete s max_entries store in
      if leb (length store) max_entries then (0, store) else (
        length gone,
        elim compressor [
          | none ↦ delete_all env gone store
          | some llm ↦ summarize_and_evict env llm gone store
        ],
      )
