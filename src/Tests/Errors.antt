-- ===== src/Tests/Errors.antt =====
-- The theorems on errors from a peer, on a 429 and a 402.
use openresponses.Prelude.{◌≡◌, refl, true, false}
use openresponses.Response.{ErrorPayload}
use openresponses.Errors.{err, payload, is_rate_limited, is_invalid_request, is_insufficient_quota}
use openresponses.Errors.Quota.{err-insufficient, err-payload}

abbrev no_credit : ErrorPayload
no_credit = record {
  type = "too_many_requests";
  code = "insufficient_quota";
  message = "no credit";
  param = "";
}

abbrev pay_first : ErrorPayload
pay_first = record {
  type = "billing_error";
  code = "card_declined";
  message = "pay first";
  param = "";
}

err-insufficient_example :
    (is_rate_limited (err no_credit 429) ≡ false) × (is_invalid_request (err no_credit 429) ≡ true)
unfolding openresponses.Errors.is_insufficient_quota openresponses.Errors.err
    openresponses.Errors.quota openresponses.Errors.is_target
err-insufficient_example = err-insufficient no_credit 429 refl

err-payload_example : err (payload (err no_credit 429)) 429 ≡ err no_credit 429
err-payload_example = err-payload no_credit 429 refl
