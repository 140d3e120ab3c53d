-- ===== src/Errors/Quota.antt =====
-- errors.go, `quota` and `Err`: an error that is read from a peer.
use openresponses.Prelude.{
  ℕ, String, str_eq, ◌==◌, if◌then◌else◌, ◌≡◌, refl, sym, ap, subst, Bool, true, false, not, ◌&&◌,
  ◌⊎◌, inl, inr, ◌∙◌, Bool-cases, eq_iff,
}
use openresponses.Response.{ErrorPayload}
use openresponses.Errors.{
  Error, payload, quota, err, is_rate_limited, is_invalid_request, is_insufficient_quota, is_target,
  typed_quota, payment_required, quota_type, registered_code,
}

-- An `if` is one of its branches.
if-cases :
    {A : Type 0} → (b : Bool) (x y : A) → ((if b then x else y) ≡ x) ⊎ ((if b then x else y) ≡ y)
if-cases true x y = inl refl
if-cases false x y = inr refl

if_same : {A : Type 0} → (b : Bool) (x : A) → (if b then x else x) ≡ x
if_same true x = refl
if_same false x = refl

pub if-and_false : {A : Type 0} → (b : Bool) (x y : A) → (if b && false then x else y) ≡ y
if-and_false true x y = refl
if-and_false false x y = refl

payment_required-quota :
    (status : ℕ) → payment_required status "insufficient_quota" ≡ "insufficient_quota"
payment_required-quota status =
    if_same (status == 402 && not (registered_code "insufficient_quota")) "insufficient_quota"

quota_type-quota_type :
    (b : Bool) (type : String)
    → (if b then "invalid_request" else (if b then "invalid_request" else type))
      ≡ (if b then "invalid_request" else type)
quota_type-quota_type true type = refl
quota_type-quota_type false type = refl

typed_quota-quota_type :
    (b : Bool) (code type : String)
    → typed_quota code type ≡ code
    → typed_quota code (if b then "invalid_request" else type) ≡ code
typed_quota-quota_type true code type h = if-and_false (str_eq code "") "insufficient_quota" code
typed_quota-quota_type false code type h = h

-- What `quota` yields for a code and the type that goes with it.
abbrev pub Settled : ℕ → String → String → Type 0
Settled status type code = quota status code (quota_type code type) ≡ (code, quota_type code type)

abbrev read_as : String → String → String → String × String
read_as type code c = (c, quota_type c (quota_type code type))

pub insufficient-Settled : (status : ℕ) (type : String) → Settled status type "insufficient_quota"
unfolding quota
insufficient-Settled status type =
    ap (λ c. (c, quota_type c "invalid_request")) (payment_required-quota status)

pub kept-Settled :
    (status : ℕ) (code type : String)
    → typed_quota code type ≡ code
    → payment_required status code ≡ code
    → Settled status type code
unfolding quota
kept-Settled status code type h k =
    subst
      (λ c.
        ◌≡◌ {A = String × String} (read_as type code (payment_required status c))
          (code, quota_type code type))
      (sym (typed_quota-quota_type (str_eq code "insufficient_quota") code type h))
      (subst (λ c. ◌≡◌ {A = String × String} (read_as type code c) (code, quota_type code type))
        (sym k)
        (ap (λ x. (code, x)) (quota_type-quota_type (str_eq code "insufficient_quota") type)))

-- Reading an error a second time, with the same status, changes neither its code nor its type.
pub quota-quota :
    (status : ℕ) (code type : String)
    → quota status (quota status code type).0 (quota status code type).1 ≡ quota status code type
unfolding quota
quota-quota status code type =
    elim (if-cases (status == 402 && not (registered_code (typed_quota code type)))
      "insufficient_quota" (typed_quota code type)) [
        | inl e ↦ subst (Settled status type) (sym e) (insufficient-Settled status type)
        | inr e ↦
            elim (if-cases (str_eq code "" && str_eq type "insufficient_quota") "insufficient_quota"
              code) [
                | inl h ↦
                    subst (Settled status type) (sym (e ∙ h)) (insufficient-Settled status type)
                | inr h ↦ subst (Settled status type) (sym (e ∙ h)) (
                    kept-Settled status code type h
                      (subst (λ c. payment_required status c ≡ c) h e))
              ]
      ]

code-insufficient : (e : Error) → is_insufficient_quota e ≡ true → e.code ≡ "insufficient_quota"
unfolding is_insufficient_quota is_target
code-insufficient e h = elim (Bool-cases (str_eq "insufficient_quota" e.code)) [
  | inl p ↦ sym ((eq_iff "insufficient_quota" e.code).0 p)
  | inr p ↦ impossible (sym h ∙ ap (λ b. not (not b) && true) p)
]
  where
    impossible : {A : Type 0} → true ≡ false → A
    impossible q = cc

-- An error from a peer that carries insufficient_quota, whatever its status and type, does not
-- match as a rate limit, and matches as an invalid request.
pub err-insufficient :
    (p : ErrorPayload) (status : ℕ)
    → is_insufficient_quota (err p status) ≡ true
    → (is_rate_limited (err p status) ≡ false) × (is_invalid_request (err p status) ≡ true)
unfolding quota err is_rate_limited is_invalid_request is_target
err-insufficient p status h =
    let t =
      subst (λ c. quota_type c p.type ≡ "invalid_request")
        (sym (code-insufficient (err p status) h)) refl in
    (
      ap (λ t. not (not (str_eq "too_many_requests" t)) && true) t,
      ap (λ t. not (not (str_eq "invalid_request" t)) && true) t,
    )

code-payment_required :
    (p : ErrorPayload) → registered_code p.code ≡ false → (err p 402).code ≡ "insufficient_quota"
unfolding err quota
code-payment_required p h =
    elim (if-cases (str_eq p.code "" && str_eq p.type "insufficient_quota") "insufficient_quota"
      p.code) [
        | inl e ↦ ap (payment_required 402) e ∙ payment_required-quota 402
        | inr e ↦
            ap (payment_required 402) e ∙ ap (λ b. if not b then "insufficient_quota" else p.code) h
      ]

-- A peer's 402 with no registered code matches as insufficient quota, whatever its type, and not as a
-- rate limit.
pub err-payment_required :
    (p : ErrorPayload)
    → registered_code p.code ≡ false
    → (is_insufficient_quota (err p 402) ≡ true) × (is_rate_limited (err p 402) ≡ false)
unfolding is_insufficient_quota is_target
err-payment_required p h =
    let q =
      ap (λ c. not (not (str_eq "insufficient_quota" c)) && true) (code-payment_required p h) in
    (q, (err-insufficient p 402 q).0)

quota_type-present :
    (b : Bool) (type : String)
    → str_eq type "" ≡ false
    → str_eq (if b then "invalid_request" else type) "" ≡ false
quota_type-present true type h = refl
quota_type-present false type h = h

abbrev with_quota : ErrorPayload → ℕ → String × String → Error
with_quota p status q = record {
  status_code = status;
  type = q.1;
  code = q.0;
  message = p.message;
  param = p.param;
}

-- An error that is read from a peer and sent on is read by the next client as the same one, if it
-- arrives with the same status and the peer's has a type.
pub err-payload :
    (p : ErrorPayload) (status : ℕ)
    → str_eq p.type "" ≡ false
    → err (payload (err p status)) status ≡ err p status
unfolding err payload quota
err-payload p status h =
    ap (λ b. with_quota p status (quota status e.code (if b then "server_error" else e.type)))
      (quota_type-present (str_eq e.code "insufficient_quota") p.type h)
    ∙ ap (with_quota p status) (quota-quota status p.code p.type)
  where
    e : Error
    e = err p status
