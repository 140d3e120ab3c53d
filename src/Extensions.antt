-- ===== src/Extensions.antt =====
-- extensions.go: members outside the specification, in the map `Extra` of a value. Here it is a
-- list of names and JSON texts.
use openresponses.Prelude.{String, str_eq, if◌then◌else◌, Option, none, some, [], ◌∷◌}
use openresponses.Item.{Extra}

unfoldable pub member : String → Extra → Option String
member k [] = none
member k ((j, v) ∷ m) = if str_eq j k then some v else member k m

unfoldable pub without : String → Extra → Extra
without k [] = []
without k ((j, v) ∷ m) = if str_eq j k then without k m else (j, v) ∷ without k m

-- `setExtra`.
unfoldable pub set_member : String → String → Extra → Extra
unfolding without
set_member k v m = (k, v) ∷ without k m

abbrev pub cache_write_tokens : String
cache_write_tokens = "openresponses-experimental.cache_write_tokens"

abbrev pub cache_write_tokens_by_ttl : String
cache_write_tokens_by_ttl = "openresponses-experimental.cache_write_tokens_by_ttl"

abbrev pub issuer_member : String
issuer_member = "openresponses-experimental.issuer"

-- `SetIssuer`; `quoted` is the issuer's JSON text.
unfoldable pub set_issuer : String → String → Extra → Extra
unfolding set_member without
set_issuer issuer quoted m =
    if str_eq issuer "" then without issuer_member m else set_member issuer_member quoted m
