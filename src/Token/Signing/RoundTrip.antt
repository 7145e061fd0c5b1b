-- ===== src/Token/Signing/RoundTrip.antt =====
-- Signed links and what verification finds in them.
use inbox.Prelude.{arith, ℤ, String, ◌≡◌, ◌≢◌, refl, eq_iff, true, false, some, none, Option, Bool}
use inbox.Effect.{Fallible, value, failure}
use inbox.Proto.{Time}
use inbox.Inbox.Get.{add_duration}
use inbox.Token.Signing.{
  Claims, Jwt, Header, JwtToken, MapClaims, lookup, text_of, checked_claims, claims_of, parsed,
  signed_with, new_claims, key_for, sign, verify,
}

-- the header of a token that `Sign` makes
abbrev pub hs256 : Header
hs256 = record { is_hmac = true; alg = "HS256" }

checked_names :
    (m : MapClaims) (claims : Claims)
    → checked_claims m ≡ value claims
    → (claims.item_id ≢ "") × (claims.actor ≢ "")
checked_names m claims h =
    ground (arith, eq_iff (text_of (lookup m "item_id")) "", eq_iff (text_of (lookup m "sub")) "")

module _ {Key : Type 0} (jwt : Jwt Key) where
  -- A text that parses, in time, to the claims that were signed, with any function that gives the
  -- key for the header of `Sign`.
  pub record ParsesTo (key : Key) (signed : String) (claims : MapClaims) : Type 0 where
    pub back :
        (key_of : Header → Fallible Key)
        → key_of hs256 ≡ value key
        → jwt.parse key_of signed ≡ value (record { claims = some claims; valid = true })

  module _ (secret : Key) where
    checked_new :
        (now : Time) (item_id actor scope : String) (exp : Time)
        → item_id ≢ ""
        → actor ≢ ""
        → checked_claims (new_claims jwt secret now item_id actor scope exp)
          ≡ value (record {
            item_id = item_id;
            actor = actor;
            scope = scope;
            exp = jwt.new_numeric_date exp;
            issued_at = jwt.new_numeric_date now;
          })
    unfolding new_claims
    checked_new now item_id actor scope exp some_id some_actor =
        ground (arith, eq_iff item_id "", eq_iff actor "")

    signed_with-time :
        (exp : Time) {exp' : Time} (r : Fallible String) {signed : String}
        → signed_with jwt secret exp r ≡ value (signed, exp')
        → exp' ≡ exp
    signed_with-time exp (value t) h = cc
    signed_with-time exp (failure t) h = cc

    -- A link that `Sign` makes for an item and an actor, both not empty, and that parses to the
    -- claims signed, is verified as a link for that item, actor and scope, with the times of the
    -- signature as dates; the time that `Sign` returns is the time of the call and the duration.
    pub verify-sign :
        (now : Time) (item_id actor scope : String) (expiry : ℤ) (signed : String) (exp : Time)
        → item_id ≢ ""
        → actor ≢ ""
        → sign jwt secret now item_id actor scope expiry ≡ value (signed, exp)
        → ParsesTo secret signed (new_claims jwt secret now item_id actor scope exp)
        → (exp ≡ add_duration now expiry)
          × (verify jwt secret signed
              ≡ value (record {
                item_id = item_id;
                actor = actor;
                scope = scope;
                exp = jwt.new_numeric_date exp;
                issued_at = jwt.new_numeric_date now;
              }))
    unfolding sign verify key_for
    verify-sign now item_id actor scope expiry signed exp some_id some_actor made accepts = (
      signed_with-time (add_duration now expiry) _ made,
      rw (accepts.back (key_for jwt secret) refl)
          (checked_new now item_id actor scope exp some_id some_actor),
    )

    claims_of_names :
        (o : Option MapClaims) (valid : Bool) (claims : Claims)
        → claims_of jwt secret o valid ≡ value claims
        → (claims.item_id ≢ "") × (claims.actor ≢ "")
    claims_of_names (some m) true claims h = checked_names m claims h
    claims_of_names (some m) false claims h = cc
    claims_of_names none valid claims h = cc

    parsed_names :
        (r : Fallible JwtToken) (claims : Claims)
        → parsed jwt secret r ≡ value claims
        → (claims.item_id ≢ "") × (claims.actor ≢ "")
    parsed_names (failure t) claims h = cc
    parsed_names (value token) claims h = claims_of_names token.claims token.valid claims h

    -- A link that is verified names an item and an actor.
    verify_names :
        (tok : String) (claims : Claims)
        → verify jwt secret tok ≡ value claims
        → (claims.item_id ≢ "") × (claims.actor ≢ "")
    unfolding verify
    verify_names tok claims h = parsed_names (jwt.parse (key_for jwt secret) tok) claims h
