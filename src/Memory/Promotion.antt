-- ===== src/Memory/Promotion.antt =====
-- src/fabri/memory/global_promotion.py: lessons that recur across organizations. The collections are a
-- dictionary by name, each of which is opened empty where it is missing.
use Prim.Native.Char.{code}
use fabri.Prelude.{
  ℕ, ◌+◌, String, Bool, true, false, not, ◌==◌, ◌&&◌, ◌||◌, Option, none, some, List, [], ◌∷◌, map,
  Result, ok, err, ◌>>=◌, ◌>>◌, raise_if, if◌then◌else◌, eqb, ltb, elem, filter, or_else, str_leb,
  Dict, lookup, insert, has_key,
}
use fabri.Value.{Value, num, str, field, end, text, find_field, set_field}
use fabri.Memory.Entry.{Entry, sync_aliases, entry_id, embedding_model_version}
use fabri.Memory.Tier.{distinct}
use fabri.Memory.Ingest.{Env, remove}

abbrev default_min_orgs : ℕ
default_min_orgs = 3

abbrev pub candidates_collection : String
candidates_collection = "fabri_global_candidates"

pub record Listed : Type 0 where
  pub id : String
  pub text : String
  pub source_count : ℕ
  pub status : String

pub record ForgetReport : Type 0 where
  pub collection_dropped : Bool
  pub candidates_updated : ℕ
  pub candidates_dropped : ℕ
  pub approved_below_min : ℕ

pub data PromotionError : Type 0 where
  no_match ambiguous : String → PromotionError
  too_few : ℕ → PromotionError
  was_rejected : PromotionError

-- `str(payload.get("status", "pending"))`; the `str` of a value that is no text is none of the three
-- statuses, here as that of `None`.
unfoldable pub status_text : Option Value → String
status_text none = "pending"
status_text (some (str s)) = s
status_text (some _) = "None"

-- `s.startswith(p)`, the text first.
unfoldable pub starts_with : String → String → Bool
starts_with s String.[] = true
starts_with String.[] (String.◌∷◌ c p) = false
starts_with (String.◌∷◌ d s) (String.◌∷◌ c p) = eqb (code d) (code c) && starts_with s p

-- The collections of the memory, by name.
abbrev pub Collections : Type 0 → Type 0
Collections T = Dict (Dict (Entry T))

module _ {T : Type 0} where
  abbrev pub sibling : String → Collections T → Dict (Entry T)
  sibling name w = or_else (lookup name w) []

  abbrev pub drop_collection : String → Collections T → Collections T
  drop_collection name w = filter (λ p. not (p.0 == name)) w

  unfoldable pub status_of : Entry T → String
  unfolding status_text find_field
  status_of e = status_text (find_field "status" e.payload)

  -- `store.iterate()`: an entry is made anew from its payload.
  unfoldable pub iterate : Dict (Entry T) → List (Entry T)
  unfolding sync_aliases
  iterate store = map (λ p. sync_aliases p.1) store

  abbrev pub source_count_of : Entry T → ℕ
  source_count_of e = distinct e.session_ids

  module _ (env : Env T) where
    abbrev listed : Entry T → Listed
    listed e = record {
      id = entry_id env.digest e;
      text = e.text;
      source_count = source_count_of e;
      status = status_of e;
    }

    abbrev is_listed : ℕ → Option String → Entry T → Bool
    is_listed min_orgs status e =
        not (ltb (source_count_of e) min_orgs)
        && elim status [ none ↦ true | some s ↦ status_of e == s ]

    -- The order of the list: by the count, the greatest first, then by the id.
    abbrev pub is_before : Listed → Listed → Bool
    is_before c d =
        ltb d.source_count c.source_count || eqb c.source_count d.source_count && str_leb c.id d.id

    unfoldable insert_listed : Listed → List Listed → List Listed
    unfolding str_leb
    insert_listed c [] = c ∷ []
    insert_listed c (d ∷ ds) = if is_before c d then c ∷ d ∷ ds else d ∷ insert_listed c ds

    unfoldable sort_listed : List Listed → List Listed
    unfolding insert_listed
    sort_listed [] = []
    sort_listed (c ∷ cs) = insert_listed c (sort_listed cs)

    -- `list_candidates`.
    unfoldable pub list_candidates : ℕ → Option String → Collections T → List Listed
    unfolding iterate status_of entry_id sort_listed
    list_candidates min_orgs status w = sort_listed (
        map listed (filter (is_listed min_orgs status) (iterate (sibling candidates_collection w))))

    -- `_resolve`.
    unfoldable pub resolve : String → Dict (Entry T) → Result PromotionError (Entry T)
    unfolding iterate entry_id starts_with
    resolve ident store =
        elim (filter
          (λ e. entry_id env.digest e == ident || starts_with (entry_id env.digest e) ident)
          (iterate store)) [
            | [] ↦ err (no_match ident)
            | e ∷ [] ↦ ok e
            | e ∷ f ∷ rest ↦ err (ambiguous ident)
          ]

    -- `{**payload, "status": status}`, and the upsert.
    abbrev pub with_status : String → Entry T → Entry T
    with_status status e = record e { payload = set_field "status" (str status) e.payload }

    -- The entry that stands for the candidate in GLOBAL.
    unfoldable pub promoted_entry : Entry T → Entry T
    unfolding sync_aliases
    promoted_entry e = sync_aliases (record {
      text = e.text;
      kind = "strategic";
      session_ids = [];
      tags = [];
      tools = [];
      hit_count = source_count_of e;
      created_at = env.now;
      model_version = embedding_model_version;
      domain = e.domain;
      outcome = "unknown";
      agent_id = none;
      task_embedding_hash = none;
      dedup_key = none;
      producer_agent_id = none;
      scope = "global";
      verification = "human_verified";
      tier = "retrieve";
      resolution = none;
      source_session_ids = [];
      source_event_ids = [];
      applicability = [];
      do_not_reuse_when = [];
      payload =
          field (text "memory_scope") (str "global")
            (field (text "source_orgs") (num (source_count_of e)) end);
    })

    abbrev pub upsert_in : String → Entry T → Collections T → Collections T
    upsert_in name e w = insert name (insert (entry_id env.digest e) e (sibling name w)) w

    -- `approve`.
    unfoldable pub approve :
        ℕ → String → String → Collections T → Result PromotionError (Entry T × Collections T)
    unfolding resolve status_of promoted_entry entry_id set_field
    approve min_orgs global ident w = do
      e ← resolve ident (sibling candidates_collection w)
      raise_if (ltb (source_count_of e) min_orgs) (too_few (source_count_of e))
      raise_if (status_of e == "rejected") was_rejected
      ok (
        promoted_entry e,
        upsert_in candidates_collection (with_status "approved" e)
            (upsert_in global (promoted_entry e) w),
      )

    -- `reject`.
    unfoldable reject : String → Collections T → Result PromotionError (Entry T × Collections T)
    unfolding resolve entry_id set_field
    reject ident w = do
      e ← resolve ident (sibling candidates_collection w)
      ok (with_status "rejected" e, upsert_in candidates_collection (with_status "rejected" e) w)

    abbrev without : String → Entry T → List String
    without org e = filter (λ s. not (s == org)) e.session_ids

    abbrev pub withdrawn : String → Entry T → Entry T
    withdrawn org e = record e { session_ids = without org e; source_session_ids = without org e }

    abbrev is_nil : List String → Bool
    is_nil [] = true
    is_nil (x ∷ xs) = false

    -- A candidate without other organizations goes, and so does one that is not approved and has too
    -- few of them.
    abbrev pub is_dropped : ℕ → String → Entry T → Bool
    is_dropped min_orgs org e =
        is_nil (without org e)
        || not (status_of e == "approved") && ltb (distinct (without org e)) min_orgs

    -- One turn of the loop of `forget_org`.
    unfoldable pub forget_entry :
        ℕ → String → Entry T → ForgetReport × Dict (Entry T) → ForgetReport × Dict (Entry T)
    unfolding status_of entry_id
    forget_entry min_orgs org e (report, store) =
        let below = status_of e == "approved" && ltb (distinct (without org e)) min_orgs in
        if not (elem org e.session_ids)
        then (report, store)
        else if is_dropped min_orgs org e
        then (
          record report { candidates_dropped = report.candidates_dropped + 1 },
          remove (entry_id env.digest e) store,
        )
        else (
          record report {
            candidates_updated = report.candidates_updated + 1;
            approved_below_min = report.approved_below_min + (if below then 1 else 0);
          },
          insert (entry_id env.digest e) (withdrawn org e) store,
        )

    unfoldable pub forget_entries :
        ℕ → String → List (Entry T) → ForgetReport × Dict (Entry T) → ForgetReport × Dict (Entry T)
    unfolding forget_entry
    forget_entries min_orgs org [] s = s
    forget_entries min_orgs org (e ∷ es) s =
        forget_entries min_orgs org es (forget_entry min_orgs org e s)

    -- `forget_org` on the hash of the organization, with its collection's name.
    unfoldable pub forget_org : ℕ → String → String → Collections T → ForgetReport × Collections T
    unfolding forget_entries iterate
    forget_org min_orgs name org w =
        let report : ForgetReport = record {
          collection_dropped = has_key name w;
          candidates_updated = 0;
          candidates_dropped = 0;
          approved_below_min = 0;
        } in
        let rest = drop_collection name w in
        let candidates = sibling candidates_collection rest in
        let r = forget_entries min_orgs org (iterate candidates) (report, candidates) in
        if has_key candidates_collection rest
        then (r.0, insert candidates_collection r.1 rest)
        else (report, rest)

    -- `forget_user` on the name of the user's collection.
    unfoldable forget_user : String → Collections T → Bool × Collections T
    forget_user name w = if has_key name w then (true, drop_collection name w) else (false, w)
