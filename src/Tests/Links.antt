-- ===== src/Tests/Links.antt =====
-- Presigned links on the sample store.
use inbox.Prelude.{Option, ℕ, pos, String, ◌≡◌, ◌≢◌, refl, ap, ◌∙◌, arith, eq_iff, none, some}
use inbox.Effect.{Fallible, value, ok}
use inbox.Proto.{ProtoItem, item_closed}
use inbox.External.Store.{stored}
use inbox.Inbox.Get.{add_duration}
use inbox.Inbox.Item.{entity_type, new_proto_event, item_from_entity}
use inbox.Inbox.Status.{status_closed}
use inbox.Inbox.Lifecycle.{close}
use inbox.Inbox.Lifecycle.Outcome.{moved}
use inbox.Inbox.History.{after_all}
use inbox.Token.Signing.{Claims, scope_respond, scope_view, new_claims, sign, verify}
use inbox.Token.Signing.RoundTrip.{verify-sign}
use inbox.Token.Respond.{cut_colon, toast_text, handle_get, claims_context, respond, handle_post}
use inbox.Token.Respond.Effects.{Ended, handle_post-no_scope, handle_post-twice}
use inbox.Token.Respond.Shown.{Result, handle_get-Result}
use inbox.Token.Respond.Actor.{respond-records}
use inbox.Sample.Memory.{Memory, sample}
use inbox.Sample.Laws.{sample-StoreLaws}
use inbox.Sample.TagSets.{sample-IdentityLaws}
use inbox.Sample.Links.{link_claims, check_link, sample_jwt}
use inbox.Sample.Requests.{ann, stock, afterwards}

verify-sign_example :
    (95 ≡ add_duration 5 (pos 90))
    × (verify sample_jwt 1 "signed"
        ≡ value (record {
          item_id = "a";
          actor = "user:ann";
          scope = "respond";
          exp = 95;
          issued_at = 5;
        }))
unfolding sign new_claims
verify-sign_example =
    verify-sign sample_jwt 1 5 "a" "user:ann" "respond" (pos 90) "signed" 95
      (λ e. ground (arith, eq_iff "a" "", e)) (λ e. ground (arith, eq_iff "user:ann" "", e)) refl
      (record { back = λ key_of h. rw h refl })

value-same : {A : Type 0} {a b : A} → ◌≡◌ {A = Fallible A} (value a) (value b) → a ≡ b
value-same h = cc

-- the link "view" has another scope
view_only :
    (tok : String) (claims : Claims)
    → ◌≡◌ {A = Fallible String} (value "view") (value tok)
    → check_link 10 tok ≡ value claims
    → claims.scope ≢ scope_respond
view_only tok claims sent checked same =
    let view : value (record link_claims { scope = scope_view }) ≡ value claims =
      ap (check_link 10) (value-same sent) ∙ checked in
    let scope : ◌≡◌ {A = String} scope_view scope_respond =
      ap (λ c. c.scope) (value-same view) ∙ same in
    ground (arith, eq_iff scope_view scope_respond, scope)

handle_post-no_scope_example :
    (text : String) × (handle_post sample check_link none 10 (value "view") stock
      ≡ (ok (toast_text text), stock))
handle_post-no_scope_example =
    handle_post-no_scope sample sample-StoreLaws check_link none 10 (value "view") stock view_only

-- at 100 no link is verified
fixed :
    (tok : String) (claims claims' : Claims)
    → check_link 10 tok ≡ value claims
    → check_link 100 tok ≡ value claims'
    → claims' ≡ claims
fixed tok claims claims' early late = cc

abbrev posted : Memory
posted = (handle_post sample check_link none 10 (value "good") stock).1

handle_post-twice_example :
    (tok : String) × (claims : Claims) × (value "good" ≡ value tok)
    × (check_link 10 tok ≡ value claims)
    × Ended sample sample-StoreLaws check_link none posted claims.item_id
    × (handle_post sample check_link none 100 (value "good") (after_all sample afterwards posted)
        ≡ (ok (toast_text "invalid or expired link"), after_all sample afterwards posted))
unfolding handle_post close item_from_entity
handle_post-twice_example =
    handle_post-twice sample sample-StoreLaws check_link none 10 100 (value "good") stock afterwards
      fixed refl

respond-records_example :
    (p : ProtoItem ℕ) × (stored sample.store stock "a" ≡ some (entity_type, value p))
    × (stored sample.store (respond sample check_link none 10 link_claims stock).1 "a"
        ≡ some (
          entity_type,
          value (
              moved p status_closed
                (record (new_proto_event sample "user:ann"
                  (item_closed "user:ann" "submitted via presigned link")) { at = some 10 })),
        ))
unfolding close claims_context cut_colon item_from_entity
respond-records_example =
    respond-records sample check_link none sample-StoreLaws sample-IdentityLaws 10 link_claims "ann"
      (record ann { tenant_id = "token"; workspace_id = "token" }) stock _ refl
      (λ e. ground (arith, eq_iff "user" "", e)) refl refl refl

abbrev one_schema : String → ℕ → Option ℕ
one_schema type payload = some 1

handle_get-Result_example :
    Result sample check_link one_schema 10 "good" stock
      (handle_get sample check_link one_schema 10 "good" stock)
handle_get-Result_example = handle_get-Result sample check_link one_schema 10 "good" stock
