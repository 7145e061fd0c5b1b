-- ===== src/Token/Signing.antt =====
-- cmd/inboxui/tokens.go, and the types of cmd/inboxui/token/token.go. The package jwt is a parameter.
pub mod RoundTrip
use inbox.Prelude.{
  ℤ, String, Bool, true, ◌||◌, ◌==◌, ◌<>◌, Option, none, some, List, [], ◌∷◌, if◌then◌else◌,
}
use inbox.Effect.{Fallible, value, failure}
use inbox.Proto.{Time}
use inbox.Inbox.Get.{add_duration}

abbrev pub scope_respond : String
scope_respond = "respond"

abbrev pub scope_view : String
scope_view = "view"

pub record Claims : Type 0 where
  pub item_id : String
  pub actor : String
  pub scope : String
  pub exp : Time
  pub issued_at : Time

-- a value of `jwt.MapClaims`: a string, a number that is a date, or another
pub data ClaimValue : Type 0 where
  words : String → ClaimValue
  date : Time → ClaimValue
  other : ClaimValue

abbrev pub MapClaims : Type 0
MapClaims = List (String × ClaimValue)

-- `*jwt.Token`; its claims are none where they are no `jwt.MapClaims`.
pub record JwtToken : Type 0 where
  pub claims : Option MapClaims
  pub valid : Bool

-- `token.Method` and its "alg" header
pub record Header : Type 0 where
  pub is_hmac : Bool
  pub alg : String

-- What the program calls of github.com/golang-jwt/jwt/v5. `parse` asks its function for the key.
pub record Jwt (Key : Type 0) : Type 0 where
  pub new_numeric_date : Time → Time
  pub signed_string : MapClaims → Key → Fallible String
  pub parse : (Header → Fallible Key) → String → Fallible JwtToken

-- `claims[key]`
abbrev pub lookup : MapClaims → String → Option ClaimValue
lookup [] key = none
lookup ((k, v) ∷ claims) key = let rest = lookup claims key in if k == key then some v else rest

-- `s, _ := claims[key].(string)`
abbrev pub text_of : Option ClaimValue → String
text_of (some (words s)) = s
text_of _ = ""

-- `GetExpirationTime` and `GetIssuedAt`, with their errors dropped; a missing date is the zero time.
abbrev date_of : Option ClaimValue → Time
date_of (some (date t)) = t
date_of _ = 0

abbrev pub checked_claims : MapClaims → Fallible Claims
checked_claims claims =
    let item_id = text_of (lookup claims "item_id") in
    let actor = text_of (lookup claims "sub") in
    if item_id == "" || actor == ""
    then failure "token missing required claims"
    else value (record {
      item_id = item_id;
      actor = actor;
      scope = text_of (lookup claims "scope");
      exp = date_of (lookup claims "exp");
      issued_at = date_of (lookup claims "iat");
    })

module _ {Key : Type 0} (jwt : Jwt Key) (secret : Key) where
  abbrev pub signed_with : Time → Fallible String → Fallible (String × Time)
  signed_with exp (value signed) = value (signed, exp)
  signed_with exp (failure text) = failure ("sign token: " <> text)

  -- the claims that `Sign` makes
  unfoldable pub new_claims : Time → String → String → String → Time → MapClaims
  new_claims now item_id actor scope exp =
      ("sub", words actor)
      ∷ ("item_id", words item_id)
      ∷ ("scope", words scope)
      ∷ ("exp", date (jwt.new_numeric_date exp))
      ∷ ("iat", date (jwt.new_numeric_date now))
      ∷ []

  unfoldable pub sign : Time → String → String → String → ℤ → Fallible (String × Time)
  unfolding new_claims
  sign now item_id actor scope expiry =
      let exp = add_duration now expiry in
      signed_with exp (jwt.signed_string (new_claims now item_id actor scope exp) secret)

  -- the function that `Verify` gives to `jwt.Parse`
  unfoldable pub key_for : Header → Fallible Key
  key_for header =
      if header.is_hmac then value secret else failure ("unexpected signing method: " <> header.alg)

  abbrev pub claims_of : Option MapClaims → Bool → Fallible Claims
  claims_of (some claims) true = checked_claims claims
  claims_of _ _ = failure "invalid token claims"

  abbrev pub parsed : Fallible JwtToken → Fallible Claims
  parsed (failure text) = failure ("verify token: " <> text)
  parsed (value token) = claims_of token.claims token.valid

  unfoldable pub verify : String → Fallible Claims
  unfolding key_for
  verify token_str = parsed (jwt.parse key_for token_str)
