-- ===== src/Sample/Links.antt =====
-- A verifier of two links that expire, and a signer of one.
use inbox.Prelude.{ℕ, String, ◌==◌, some, [], ◌∷◌, true, if◌then◌else◌, ltb}
use inbox.Effect.{Fallible, value, failure}
use inbox.Token.Signing.{Claims, MapClaims, words, date, JwtToken, Jwt}
use inbox.Token.Signing.RoundTrip.{hs256}

abbrev pub link_claims : Claims
link_claims = record {
  item_id = "a";
  actor = "user:ann";
  scope = "respond";
  exp = 95;
  issued_at = 5;
}

abbrev links : String → Fallible Claims
links tok =
    if tok == "good"
    then value link_claims
    else if tok == "view"
    then value (record link_claims { scope = "view" })
    else failure "no such link"

-- the check of `exp`
abbrev pub check_link : ℕ → String → Fallible Claims
check_link now tok = if ltb now link_claims.exp then links tok else failure "expired"

abbrev signed_claims : MapClaims
signed_claims =
    ("sub", words "user:ann")
    ∷ ("item_id", words "a")
    ∷ ("scope", words "respond")
    ∷ ("exp", date 95)
    ∷ ("iat", date 5)
    ∷ []

abbrev parse_with : Fallible ℕ → Fallible JwtToken
parse_with (value key) = value (record { claims = some signed_claims; valid = true })
parse_with (failure text) = failure text

abbrev pub sample_jwt : Jwt ℕ
sample_jwt = record {
  new_numeric_date = λ t. t;
  signed_string = λ claims key. value "signed";
  parse = λ key_of tok. if tok == "signed" then parse_with (key_of hs256) else failure "malformed";
}
