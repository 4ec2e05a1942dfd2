-- ===== src/Memory/Summaries.antt =====
-- The summary of a strategic entry in `_summarize_and_evict` of src/fabri/memory/pruning.py.
use fabri.Prelude.{
  String, true, ◌==◌, [], ◌∷◌, Dict, insert, ◌≡◌, refl, sym, ap, ◌∙◌, arith, eq_iff, Bool-cases,
  inl, inr,
}
use fabri.Memory.Entry.{Entry, namespace, entry_id, sync_aliases}
use fabri.Memory.Ingest.{Env, remove}
use fabri.Memory.Evict.{
  Compressor, no_text, reply_text, is_protected, strategic_summary, summarize_strategic,
}

module _ {T : Type 0} (env : Env T) where
  -- What was written under an id is removed with it.
  remove-insert :
      (k : String) (e : Entry T) (store : Dict (Entry T))
      → remove k (insert k e store) ≡ remove k store
  remove-insert k e [] = ground (arith, eq_iff k k)
  remove-insert k e ((j, old) ∷ store) = elim (Bool-cases (j == k)) [
    | inl same ↦ let self : (k == k) ≡ true = ground (arith, eq_iff k k) in rw (same, self) refl
    | inr apart ↦ rw apart (rw apart (ap (λ r. (j, old) ∷ r) (remove-insert k e store)))
  ]

  summary_id :
      (e : Entry T)
      → is_protected e ≡ true
      → entry_id env.digest (strategic_summary env e.text e) ≡ entry_id env.digest e
  unfolding entry_id strategic_summary sync_aliases
  summary_id e h = ap (λ k. env.digest (namespace k) e.text) (sym ((eq_iff e.kind "strategic").0 h))

  summarize_kept :
      (llm : Compressor) (e : Entry T) (store : Dict (Entry T))
      → llm.reply e.text ≡ no_text
      → llm.capped e.text ≡ e.text
      → let new = strategic_summary env e.text e in
        summarize_strategic env llm e store
        ≡ remove (entry_id env.digest e) (insert (entry_id env.digest new) new store)
  unfolding summarize_strategic reply_text
  summarize_kept llm e store silent short = rw (silent, summarize_strategic) (rw short refl)

  -- A strategic entry whose text the cap and `strip` leave as it is, and for which the model returns
  -- no final text, is lost: the summary that keeps its text has its id and is deleted with it.
  pub summarize_strategic_lost :
      (llm : Compressor) (e : Entry T) (store : Dict (Entry T))
      → is_protected e ≡ true
      → llm.reply e.text ≡ no_text
      → llm.capped e.text ≡ e.text
      → summarize_strategic env llm e store ≡ remove (entry_id env.digest e) store
  summarize_strategic_lost llm e store strategic silent short =
      summarize_kept llm e store silent short
      ∙ ap (λ k. remove (entry_id env.digest e) (insert k (strategic_summary env e.text e) store))
          (summary_id e strategic)
      ∙ remove-insert (entry_id env.digest e) (strategic_summary env e.text e) store
