-- ===== src/Memory/Recurrence/Signature.antt =====
-- src/fabri/memory/recurrence.py: `canonicalize` and `fingerprint`. SHA-256 is a parameter.
use fabri.Prelude.{
  ◌+◌, String, List, [], ◌∷◌, map, if◌then◌else◌, dedup, sorted, join, str_append, str_length,
  decimal,
}
use fabri.Value.{
  Value, Items, Fields, null, bool, num, neg, str, seq, mapping, nil, cons, end, field, text,
  get_field, is_int,
}

-- `_SIGNATURE_FIELDS`.
abbrev pub signature_fields : List String
signature_fields =
    "phase" ∷ "agency" ∷ "roles" ∷ "error_class" ∷ "cause" ∷ "configured_cap" ∷ "retry_cap"
    ∷ "model_family" ∷ "finish_reason" ∷ []

-- `canonicalize`: the mapping beneath `problem_signature`, or the signals themselves.
abbrev pub source_of : Fields → Fields
unfolding get_field
source_of signals = elim (get_field "problem_signature" signals) [
  | mapping nested ↦ nested
  | _ ↦ signals
]

abbrev texts_in : Items → List String
texts_in nil = []
texts_in (cons (str s) vs) = s ∷ texts_in vs
texts_in (cons v vs) = texts_in vs

abbrev texts : List String → Items
texts [] = nil
texts (s ∷ ss) = cons (str s) (texts ss)

-- The roles without repetition, in order.
unfoldable pub canonical_roles : Value → Value
unfolding sorted
canonical_roles (seq vs) = seq (texts (sorted (dedup (texts_in vs))))
canonical_roles v = seq nil

abbrev pub text_or_null : Value → Value
text_or_null (str s) = str s
text_or_null v = null

abbrev pub int_or_null : Value → Value
int_or_null v = if is_int v then v else null

unfoldable pub canonicalize : Fields → Fields
unfolding source_of canonical_roles
canonicalize signals =
    let source = source_of signals in
    let as_text = λ (k : String). text_or_null (get_field k source) in
    let as_int = λ (k : String). int_or_null (get_field k source) in
    field (text "roles") (canonical_roles (get_field "roles" source)) (
      field (text "phase") (as_text "phase") (
        field (text "agency") (as_text "agency") (
          field (text "error_class") (as_text "error_class") (
            field (text "cause") (as_text "cause") (
              field (text "configured_cap") (as_int "configured_cap") (
                field (text "retry_cap") (as_int "retry_cap") (
                  field (text "model_family") (as_text "model_family")
                    (field (text "finish_reason") (as_text "finish_reason") end))))))))

-- `_encode_value`: texts stand after their length.
unfoldable pub encode_scalar : Value → String
unfolding decimal str_append str_length
encode_scalar null = "none"
encode_scalar (num n) = str_append "int:" (decimal n)
encode_scalar (neg n) = str_append "int:-" (decimal (n + 1))
encode_scalar (str s) = str_append "str:" (str_append (decimal (str_length s)) (str_append ":" s))
encode_scalar _ = "invalid"

unfoldable mutual
  unfolding encode_scalar join str_append

  pub encode_value : Value → String
  encode_value (seq vs) = str_append "list:" (join "," (encode_items vs))
  encode_value null = encode_scalar null
  encode_value (bool b) = encode_scalar (bool b)
  encode_value (num n) = encode_scalar (num n)
  encode_value (neg n) = encode_scalar (neg n)
  encode_value (str s) = encode_scalar (str s)
  encode_value (mapping fs) = encode_scalar (mapping fs)

  pub encode_items : Items → List String
  encode_items nil = []
  encode_items (cons v vs) = encode_value v ∷ encode_items vs

-- `fingerprint`.
unfoldable pub fingerprint : (String → String) → Fields → String
unfolding canonicalize encode_value get_field
fingerprint digest signature =
    let canonical = canonicalize signature in
    digest (
      join "|" (
        map (λ k. str_append k (str_append ":" (encode_value (get_field k canonical))))
          signature_fields))
