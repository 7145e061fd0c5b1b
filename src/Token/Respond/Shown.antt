-- ===== src/Token/Respond/Shown.antt =====
-- What the page of a presigned link shows.
use inbox.Prelude.{
  arith, ℕ, ◌≤◌, String, ◌≡◌, ◌≢◌, refl, ◌==◌, eq_iff, ◌⊎◌, inl, inr, Bool-cases, Option,
}
use inbox.Effect.{Fallible, value, failure, Outcome, ok, err, panic}
use inbox.Proto.{Time}
use inbox.External.{Env}
use inbox.Inbox.Errors.{Error}
use inbox.Inbox.Item.{Item}
use inbox.Inbox.Get.{get}
use inbox.Inbox.Panics.{get-NoPanic}
use inbox.Token.Signing.{Claims}
use inbox.Token.Respond.{ClientData, Page, http_error, client_page, page_of, page_for, handle_get}

module _ {S Set Any Foreign Schema : Type 0} (env : Env S Set Any Foreign)
    (verify : Time → String → Fallible Claims) (try_parse : String → Any → Option Schema)
    (now : Time) where
  -- A page with the item of a verified link, its token and its scope.
  pub record ShowsLink (tok : String) (s : S) (d : ClientData Set Any Schema) : Type 0 where
    pub claims : Claims
    pub given : tok ≢ ""
    pub checked : verify now tok ≡ value claims
    pub found : get env claims.item_id s ≡ ok d.item
    pub token : d.token ≡ tok
    pub scope : d.scope ≡ claims.scope

  abbrev pub Result : String → S → Outcome Error (Page Set Any Schema) → Type 0
  Result tok s r =
      ((d : ClientData Set Any Schema) × (r ≡ ok (client_page d)) × ShowsLink tok s d)
      ⊎ ((status : ℕ) × (text : String) × (r ≡ ok (http_error status text)) × (400 ≤ status))

  page_of-Result :
      (tok : String) (claims : Claims) (s : S)
      → tok ≢ ""
      → verify now tok ≡ value claims
      → Result tok s (page_of env verify try_parse tok claims (get env claims.item_id s))
  page_of-Result tok claims s given checked = go (get env claims.item_id s) refl
    where
      go :
          (r : Outcome Error (Item Set Any))
          → get env claims.item_id s ≡ r
          → Result tok s (page_of env verify try_parse tok claims r)
      go (err e) found = inr (404, "item not found", refl, omega arith)
      go (panic text) found = absurd ((get-NoPanic env claims.item_id s).no_text text found)
      go (ok item) found = inl (
        _,
        refl,
        record {
          claims = claims;
          given = given;
          checked = checked;
          found = found;
          token = refl;
          scope = refl;
        },
      )

  -- A GET of a link never panics. It answers with the page of the item that a verified link names,
  -- with the token and the scope of the link, or with an HTTP error.
  pub handle_get-Result :
      (tok : String) (s : S) → Result tok s (handle_get env verify try_parse now tok s)
  unfolding handle_get
  handle_get-Result tok s = elim (Bool-cases (tok == "")) [
    | inl empty ↦ rw empty (inr (400, "missing token", refl, omega arith))
    | inr given ↦ rw given (go (verify now tok) refl (λ e. ground (arith, eq_iff tok "", e, given)))
  ]
    where
      go :
          (r : Fallible Claims)
          → verify now tok ≡ r
          → tok ≢ ""
          → Result tok s (page_for env verify try_parse s tok r)
      go (failure text) e given = inr (403, "invalid or expired link", refl, omega arith)
      go (value claims) e given = page_of-Result tok claims s given e
