-- ===== src/ChatCompletions/Reread.antt =====
-- chatcompletions/response.go, `toError`, and errors.go, `quota`: the adapter's rule for insufficient
-- quota and the reader's.
use openresponses.Prelude.{
  ℕ, String, str_eq, str_append, ◌==◌, ltb, if◌then◌else◌, ◌≡◌, refl, ap, subst, sym, ◌∙◌, Bool,
  true, false, not, ◌&&◌, ◌||◌, inl, inr, Bool-cases, arith, eq_iff, pos, zero,
}
use text.Mathlib.TextPositions.{slice-append_left}
use Prim.Native.String.{slice, len}
use openresponses.Errors.{quota, error_type_for_status, quota_type, registered_code}
use openresponses.Errors.Quota.{insufficient-Settled, if-and_false}
use openresponses.ChatCompletions.Chunk.{ApiError}
use openresponses.ChatCompletions.Failure.{
  Texts, to_error, classify, insufficient_quota, overflow_status, context_overflow, plain_code,
  code_of, first_nonempty,
}

-- A code that is made from a status begins otherwise.
http_code : (n : String) → str_eq (str_append "http_" n) "insufficient_quota" ≡ false
http_code n = elim (Bool-cases (str_eq (str_append "http_" n) "insufficient_quota")) [
  | inl e ↦ absurd (
      true-false (
        (eq_iff "http_" "insuf").1 (
          sym (slice-append_left "http_" n)
          ∙ ap (λ v. slice v zero (len "http_"))
              ((eq_iff (str_append "http_" n) "insufficient_quota").0 e))))
  | inr e ↦ e
]
  where
    true-false : false ≡ true → ⊥
    true-false p = cc

first_nonempty-other :
    (t : Texts) (a b : String)
    → str_eq a "insufficient_quota" ≡ false
    → str_eq b "insufficient_quota" ≡ false
    → str_eq (first_nonempty t a b) "insufficient_quota" ≡ false
first_nonempty-other t a b h g = elim (Bool-cases (str_eq a "")) [ inl e ↦ rw e g | inr e ↦ rw e h ]

if-other :
    (b : Bool) (x y : String)
    → str_eq x "insufficient_quota" ≡ false
    → str_eq y "insufficient_quota" ≡ false
    → str_eq (if b then x else y) "insufficient_quota" ≡ false
if-other true x y h g = h
if-other false x y h g = g

status_type-other : (s : ℕ) → str_eq (error_type_for_status s) "insufficient_quota" ≡ false
unfolding error_type_for_status
status_type-other s = if-other (s == 404) "not_found" _ refl (
    if-other (s == 429) "too_many_requests" _ refl (
      if-other (s == 408) "server_error" _ refl
        (if-other (not (ltb s 400) && ltb s 500) "invalid_request" "server_error" refl refl)))

-- What `quota` leaves alone.
unchanged :
    (s : ℕ) (code type : String)
    → str_eq code "insufficient_quota" ≡ false
    → str_eq type "insufficient_quota" ≡ false
    → (s == 402 && not (registered_code code)) ≡ false
    → quota s code type ≡ (code, type)
unfolding quota
unchanged s code type c t p = ground arith

insufficient_parts :
    (a b c d : Bool)
    → ((a || b) || (c && not d)) ≡ false
    → (a ≡ false) × (b ≡ false) × ((c && not d) ≡ false)
insufficient_parts true b c d h = cc
insufficient_parts false true c d h = cc
insufficient_parts false false c d h = (refl, refl, h)

and-not_mono : (b d r : Bool) → (b && not d) ≡ false → (d ≡ true → r ≡ true) → (b && not r) ≡ false
and-not_mono false d r h f = refl
and-not_mono true true r h f = ap not (f refl)
and-not_mono true false r h f = cc

module _ (t : Texts) (e : ApiError) (s : ℕ) where
  plain_code-other :
      str_eq (code_of t e.code) "insufficient_quota" ≡ false
      → str_eq e.type "insufficient_quota" ≡ false
      → str_eq (plain_code t e s) "insufficient_quota" ≡ false
  plain_code-other c d =
      first_nonempty-other t (first_nonempty t (code_of t e.code) e.type) _
        (first_nonempty-other t (code_of t e.code) e.type c d)
        (if-other (s == 0) "upstream_error" (str_append "http_" (t.itoa (pos s))) refl
          (http_code (t.itoa (pos s))))

  plain_code-registered :
      str_eq (code_of t e.code) "context_length_exceeded" ≡ true
      → registered_code (plain_code t e s) ≡ true
  plain_code-registered h =
      subst
        (λ c.
          registered_code (
            first_nonempty t (first_nonempty t c e.type)
              (if s == 0 then "upstream_error" else str_append "http_" (t.itoa (pos s))))
          ≡ true)
        (sym ((eq_iff (code_of t e.code) "context_length_exceeded").0 h)) refl

  plain-quota :
      insufficient_quota t e s ≡ false
      → quota s (plain_code t e s) (error_type_for_status s)
        ≡ (plain_code t e s, error_type_for_status s)
  unfolding insufficient_quota
  plain-quota h =
      let (c, d, p) =
        insufficient_parts (str_eq (code_of t e.code) "insufficient_quota")
          (str_eq e.type "insufficient_quota") (s == 402)
          (str_eq (code_of t e.code) "context_length_exceeded") h in
      unchanged s (plain_code t e s) (error_type_for_status s) (plain_code-other c d)
        (status_type-other s)
        (and-not_mono (s == 402) (str_eq (code_of t e.code) "context_length_exceeded")
          (registered_code (plain_code t e s)) p plain_code-registered)

  classify-quota :
      (overflow insufficient : Bool)
      → insufficient_quota t e s ≡ insufficient
      → let r = classify t overflow insufficient e s in quota s r.0 r.1 ≡ r
  unfolding quota
  classify-quota true i h =
      ap (λ c. (c, quota_type c "invalid_request"))
        (if-and_false (s == 402) "insufficient_quota" "context_length_exceeded")
  classify-quota false true h = insufficient-Settled s "invalid_request"
  classify-quota false false h = plain-quota h

  -- The error that the adapter makes of an upstream's one is the one that a client reads, by the
  -- rule of `quota`, if it gets its code and type with the same status.
  pub to_error-quota :
      quota s (to_error t e s).code (to_error t e s).type
      ≡ ((to_error t e s).code, (to_error t e s).type)
  unfolding to_error
  to_error-quota =
      classify-quota (overflow_status s && context_overflow t e) (insufficient_quota t e s) refl
