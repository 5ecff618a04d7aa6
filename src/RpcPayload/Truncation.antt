-- ===== src/RpcPayload/Truncation.antt =====
-- RpcMessagePayload::FromBinary on input that was cut short.
use mathlib.Core.Path.{subst}
use mathlib.Core.List.{append-nil}
use helianthus.Prelude.{
  ℕ, ◌≡◌, refl, ap, ◌⊎◌, inl, inr, false, some, List, [], ◌∷◌, ◌++◌, arith, length, length-append,
  take, drop, take-append_le, drop-append_le, le_bytes, le_value, length-le_bytes, Option-cases,
  Bool-cases, ltb,
}
use helianthus.RpcPayload.{
  RpcMessagePayload, to_binary, read_string, Reading, Setter, read_into, read_call_id, read_strings,
  read_error_code, from_binary,
}
use helianthus.RpcPayload.RoundTrip.{Fits, before_error_code, read_strings_written}

read_string-append :
    (bytes more s rest : List ℕ)
    → read_string bytes ≡ some (s, rest)
    → read_string (bytes ++ more) ≡ some (s, rest ++ more)
unfolding read_string
read_string-append bytes more s rest h = ground (
  arith,
  length-append bytes more,
  length-append (drop 4 bytes) more,
  take-append_le 4 bytes more,
  drop-append_le 4 bytes more,
  take-append_le (le_value (take 4 bytes)) (drop 4 bytes) more,
  drop-append_le (le_value (take 4 bytes)) (drop 4 bytes) more,
)

Reading-cases :
    (r : Reading)
    → ((p : RpcMessagePayload) × (r ≡ Reading.failed p))
      ⊎ ((p : RpcMessagePayload) × (rest : List ℕ) × (r ≡ Reading.going p rest))
Reading-cases (Reading.failed p) = inl (p, refl)
Reading-cases (Reading.going p rest) = inr (p, rest, refl)

-- The same reading on an input with more behind it.
abbrev Extends : List ℕ → Reading → Reading → Type 0
Extends more (Reading.failed p) s = Unit {0}
Extends more (Reading.going p rest) s = s ≡ Reading.going p (rest ++ more)

read_into-Extends :
    (set : Setter) (more : List ℕ) (r s : Reading)
    → Extends more r s
    → Extends more (read_into set r) (read_into set s)
unfolding read_into
read_into-Extends set more (Reading.failed p) s h = tt
read_into-Extends set more (Reading.going p bytes) s h = elim (Option-cases (read_string bytes)) [
  | inl e ↦ rw (e, read_into) tt
  | inr ((str, rest), e) ↦ rw (e, h, read_string-append bytes more str rest e, read_into) refl
]

read_call_id-Extends :
    (q : RpcMessagePayload) (bytes more : List ℕ)
    → Extends more (read_call_id q bytes) (read_call_id q (bytes ++ more))
unfolding read_call_id
read_call_id-Extends q bytes more = elim (Bool-cases (ltb (length bytes) 8)) [
  | inl short ↦ rw short tt
  | inr enough ↦ rw enough (
      ground (
        arith,
        enough,
        length-append bytes more,
        take-append_le 8 bytes more,
        drop-append_le 8 bytes more,
      ))
]

read_strings-Extends :
    (more : List ℕ) (r s : Reading)
    → Extends more r s
    → Extends more (read_strings r) (read_strings s)
unfolding read_strings
read_strings-Extends more r s h = read_into-Extends _ more _ _ (
    read_into-Extends _ more _ _ (
      read_into-Extends _ more _ _ (read_into-Extends _ more _ _ (read_into-Extends _ more _ _ h))))

-- FromBinary answers false on every proper prefix of what ToBinary wrote of a payload whose texts
-- are below 2^32 bytes and whose numbers fit their types.
pub from_binary_truncated :
    (q p : RpcMessagePayload) (front back : List ℕ) (x : ℕ)
    → Fits p
    → to_binary p ≡ front ++ (x ∷ back)
    → (from_binary q front).1 ≡ false
unfolding from_binary read_error_code
from_binary_truncated q p front back x fits e =
    elim (Reading-cases (read_strings (read_call_id q front))) [
      | inl (p', r) ↦ rw r
      | inr (p', rest, r) ↦
          let longer : read_strings (read_call_id q (front ++ (x ∷ back)))
              ≡ Reading.going p' (rest ++ (x ∷ back)) =
            subst (λ t. Extends (x ∷ back) t (read_strings (read_call_id q (front ++ (x ∷ back)))))
              r (read_strings-Extends (x ∷ back) _ _ (read_call_id-Extends q front (x ∷ back))) in
          let whole : read_strings (read_call_id q (to_binary p))
              ≡ Reading.going (before_error_code q p) (le_bytes 4 p.error_code) =
            simp append-nil at (read_strings_written q p [] fits) in
          let same : rest ++ (x ∷ back) ≡ le_bytes 4 p.error_code = cc (e, longer, whole) in
          rw r (
            ground (
              arith,
              ap length same,
              length-append rest (x ∷ back),
              length-le_bytes 4 p.error_code,
            ))
    ]
