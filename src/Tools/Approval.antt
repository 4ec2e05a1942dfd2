-- ===== src/Tools/Approval.antt =====
-- src/fabri/tools/approval.py. `str.upper` and the words that `_tokens` cuts out of names are parameters.
use fabri.Prelude.{
  ℕ, String, Bool, true, false, ◌==◌, Option, List, [], ◌∷◌, ◌++◌, Result, ok, err, if◌then◌else◌,
  leb, elem, any, or_else,
}
use fabri.Value.{Value, str, bool, mapping, get_field}

-- The approval classes.
pub data Approval : Type 0 where
  read write always_approve : Approval

pub data ApprovalError : Type 0 where
  unknown_class : ApprovalError

unfoldable pub check_approval : Value → Result ApprovalError Approval
check_approval (str s) =
    if s == "read"
    then ok read
    else if s == "write"
    then ok write
    else if s == "always_approve"
    then ok always_approve
    else err unknown_class
check_approval _ = err unknown_class

abbrev pub rank : Approval → ℕ
rank read = 0
rank write = 1
rank always_approve = 2

abbrev pub stricter : Approval → Approval → Approval
stricter a b = if leb (rank b) (rank a) then a else b

abbrev pub read_methods : List String
read_methods = "GET" ∷ "HEAD" ∷ "OPTIONS" ∷ []

abbrev sensitive : List String
sensitive =
    "send" ∷ "sends" ∷ "message" ∷ "messages" ∷ "msg" ∷ "email" ∷ "emails" ∷ "mail" ∷ "sms"
    ∷ "notify" ∷ "notification" ∷ "notifications" ∷ "broadcast" ∷ "publish" ∷ "post_message"
    ∷ "postmessage" ∷ "reply" ∷ "dm" ∷ "invite" ∷ "pay" ∷ "pays" ∷ "payment" ∷ "payments" ∷ "charge"
    ∷ "charges" ∷ "refund" ∷ "refunds" ∷ "payout" ∷ "payouts" ∷ "transfer" ∷ "transfers"
    ∷ "checkout" ∷ "purchase" ∷ "purchases" ∷ "withdraw" ∷ "withdrawal" ∷ []

abbrev destructive : List String
destructive =
    "delete" ∷ "deletes" ∷ "remove" ∷ "destroy" ∷ "drop" ∷ "purge" ∷ "erase" ∷ "wipe" ∷ "truncate"
    ∷ []

-- `words & (_SENSITIVE | _DESTRUCTIVE)`.
abbrev pub is_risky : List String → Bool
is_risky words = any (λ w. elem w (sensitive ++ destructive)) words

module _ (upper : String → String) (tokens : List String → List String) where
  -- `(method or "").upper()`.
  abbrev pub verb_of : Option String → String
  verb_of method = upper (or_else method "")

  unfoldable pub default_approval_for_method : Option String → Approval
  default_approval_for_method method = if elem (verb_of method) read_methods then read else write

  unfoldable pub safe_approval : Option String → List String → Approval
  safe_approval method names =
      if elem (verb_of method) read_methods
      then read
      else if verb_of method == "DELETE"
      then always_approve
      else if is_risky (tokens names)
      then always_approve
      else write

  abbrev is_true : Value → Bool
  is_true (bool true) = true
  is_true _ = false

  abbrev is_marked : Value → Bool
  is_marked (mapping hints) = is_true (get_field "destructiveHint" hints)
  is_marked _ = false

  unfoldable mcp_approval : String → Value → Approval
  unfolding get_field
  mcp_approval name annotations =
      if is_marked annotations
      then always_approve
      else if is_risky (tokens (name ∷ []))
      then always_approve
      else write
