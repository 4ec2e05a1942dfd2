-- ===== src/Memory/Tier.antt =====
-- `classify_tier` and the ranks of src/fabri/memory/pruning.py. The rank is shifted by one: an unknown
-- tier has rank 0 here and -1 there.
use Prim.Native.Char.{code}
use fabri.Prelude.{
  ℕ, suc, String, Bool, true, false, ◌==◌, ◌&&◌, ◌||◌, List, [], ◌∷◌, if◌then◌else◌, ltb, leb,
  length, dedup, is_space, is_blank,
}
use fabri.Memory.Entry.{Entry}

-- `len(s.strip())`.
unfoldable trailing_length : String → ℕ
unfolding is_blank
trailing_length String.[] = 0
trailing_length (String.◌∷◌ c s) =
    let rest = trailing_length s in if is_blank (String.◌∷◌ c s) then 0 else suc rest

unfoldable pub strip_length : String → ℕ
unfolding trailing_length is_space
strip_length String.[] = 0
strip_length (String.◌∷◌ c s) =
    let rest = strip_length s in
    if is_space (code c) then rest else trailing_length (String.◌∷◌ c s)

-- `len(s)`.
unfoldable pub text_length : String → ℕ
text_length String.[] = 0
text_length (String.◌∷◌ c s) = suc (text_length s)

abbrev generic_success_summary_max_chars : ℕ
generic_success_summary_max_chars = 160

unfoldable pub tier_rank : String → ℕ
tier_rank tier =
    if tier == "quarantine"
    then 1
    else if tier == "retrieve"
    then 2
    else if tier == "core"
    then 3
    else if tier == "action"
    then 4
    else 0

unfoldable pub verification_rank : String → ℕ
verification_rank v =
    if v == "tool_verified"
    then 1
    else if v == "rubric_verified"
    then 2
    else if v == "contradicted"
    then 3
    else 0

-- `len(set(xs))`.
abbrev pub distinct : List String → ℕ
distinct xs = length (dedup xs)

abbrev is_nil : List String → Bool
is_nil [] = true
is_nil (x ∷ xs) = false

-- `classify_tier` of an entry.
unfoldable pub classify_tier : {T : Type 0} → Entry T → String
unfolding strip_length
classify_tier e =
    if e.verification == "contradicted"
    then "quarantine"
    else if (e.verification == "tool_verified" || e.verification == "rubric_verified")
        && (e.kind == "strategic" && leb 2 (distinct e.source_session_ids))
    then "core"
    else if e.verification == "unverified"
        && (e.kind == "success_pattern"
            && (is_nil e.tools && ltb (strip_length e.text) generic_success_summary_max_chars
                || leb (distinct e.source_session_ids) 1))
    then "quarantine"
    else "retrieve"
