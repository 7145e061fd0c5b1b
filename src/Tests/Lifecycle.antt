-- ===== src/Tests/Lifecycle.antt =====
-- Calls of the package's methods on the sample store.
use inbox.Prelude.{ℕ, ◌≡◌, ◌≢◌, refl, String, some, List, [], ◌∷◌, ◌++◌, inl}
use inbox.Effect.{Outcome, value, ok, of_fallible}
use inbox.Effect.Blocks.{Refused}
use inbox.Proto.{ProtoItem}
use inbox.External.Store.{stored}
use inbox.Inbox.Errors.{wrapped}
use inbox.Inbox.Status.{is_terminal, status_open, status_closed, status_claimed}
use inbox.Inbox.Item.{Item, item_from_entity, entity_type, actor_from_ctx, new_proto_event}
use inbox.Inbox.Get.{get}
use inbox.Inbox.Create.{create_item}
use inbox.Inbox.Create.Stored.{IsNew, get-create_item}
use inbox.Inbox.Events.{reassign}
use inbox.Inbox.Errors.{Error}
use inbox.Inbox.History.{after_all}
use inbox.Inbox.History.Evolves.{after_all-HasSuccessor, after_all-stored, HasSuccessor}
use inbox.Inbox.Lifecycle.{do_transition, claim, release, close}
use inbox.Inbox.Lifecycle.Final.{closed_then, close_final, claim_exclusive}
use inbox.Inbox.Lifecycle.Outcome.{moved}
use inbox.Inbox.Lifecycle.Progress.{close-reaches}
use inbox.Inbox.Lifecycle.RoundTrip.{
  claim_event, release_event, release-claim, claim_write, racing_claims,
}
use inbox.Inbox.Tagging.{tag, untag, tag_value}
use inbox.Inbox.Tagging.Results.{tag_reports}
use inbox.Sample.Memory.{Memory, sample}
use inbox.Sample.Laws.{sample-StoreLaws}
use inbox.Sample.TagSets.{sample-TagLaws}
use inbox.Sample.Requests.{
  ann, bob, invoice, letter, new_letter, found_invoice, claimed_invoice, released_invoice,
  invoice_of_bob, stock, afterwards,
}

after_all-HasSuccessor_example :
    HasSuccessor sample sample-StoreLaws (after_all sample afterwards stock) "a" invoice
after_all-HasSuccessor_example =
    after_all-HasSuccessor sample sample-StoreLaws afterwards stock "a" invoice refl

after_all-stored_example :
    stored sample.store (after_all sample afterwards stock) "c" ≡ stored sample.store stock "c"
after_all-stored_example =
    after_all-stored sample sample-StoreLaws afterwards stock "c" (inl (λ p h. cc))

abbrev closed : Memory
closed = closed_then sample sample-StoreLaws (some ann) 10 "a" "paid" afterwards stock

close_final_example :
    ((q : ProtoItem ℕ) × (stored sample.store closed "a" ≡ some (entity_type, value q))
      × (q.status ≡ status_closed))
    × Refused (claim sample (some bob) 30 "a" closed) closed
    × Refused (release sample (some bob) 30 "a" closed) closed
    × Refused (close sample (some bob) 30 "a" "paid twice" closed) closed
unfolding close
close_final_example =
    close_final sample sample-StoreLaws (some ann) 10 "a" "paid" stock _ afterwards (some bob) 30
      "paid twice" refl

abbrev after_claim : Memory
after_claim = (claim sample (some ann) 10 "a" stock).1

claim_exclusive_example : Refused (claim sample (some bob) 11 "a" after_claim) after_claim
unfolding claim
claim_exclusive_example =
    claim_exclusive sample sample-StoreLaws (some ann) (some bob) 10 11 "a" stock _ refl

-- the invoice as `bob` releases it
abbrev released_by_bob : Item (List String) ℕ
released_by_bob = record released_invoice {
  proto = record invoice {
    events =
        claim_event sample sample-StoreLaws 10 "user:ann"
        ∷ release_event sample sample-StoreLaws 11 "user:bob"
        ∷ [];
  };
}

release-claim_example :
    (p : ProtoItem ℕ) × (actor : String) × (actor' : String) × (stored sample.store stock "a"
      ≡ some (entity_type, value p))
    × (stored sample.store (release sample (some bob) 11 "a" after_claim).1 "a"
        ≡ some (
          entity_type,
          value (record p {
            events =
                p.events
                ++ claim_event sample sample-StoreLaws 10 actor
                  ∷ release_event sample sample-StoreLaws 11 actor'
                  ∷ [];
          }),
        ))
    × (actor_from_ctx (some ann) ≡ ok actor)
    × (actor_from_ctx (some bob) ≡ ok actor')
    × (released_by_bob.proto.status ≡ status_open)
    × (tag_value sample released_by_bob "status" ≡ status_open)
    × (tag_value sample released_by_bob "assignee" ≡ "")
unfolding claim release
release-claim_example =
    release-claim sample sample-StoreLaws sample-TagLaws (some ann) (some bob) 10 11 "a" stock _
      released_by_bob refl refl

-- a reassignment that removes the old tag and then finds that the new one cannot be made
abbrev half_way : Outcome Error (Item (List String) ℕ) × Memory
half_way = reassign sample (some ann) 10 "a" "team:x" "*" "holiday" stock

abbrev after_create : Memory
after_create = (create_item sample (some ann) 10 "c" letter stock).1

get-create_item_example :
    (actor : String) × (found : Item (List String) ℕ) × (actor_from_ctx (some ann) ≡ ok actor)
    × IsNew sample 10 actor letter new_letter.proto
    × (get sample "c" after_create ≡ ok found)
    × (found.proto ≡ new_letter.proto)
    × (new_letter.id ≡ "c")
    × ((j : String) → j ≢ "c" → stored sample.store after_create j ≡ stored sample.store stock j)
unfolding create_item
get-create_item_example =
    get-create_item sample sample-StoreLaws (some ann) 10 "c" letter stock new_letter refl refl refl

-- two claims that have both read the invoice
abbrev first_write : Memory
first_write =
    (claim_write sample sample-StoreLaws 10 found_invoice "user:ann" "assignee:user:ann" stock).1

racing_claims_example :
    (claimed_invoice.proto
      ≡ moved invoice status_claimed (claim_event sample sample-StoreLaws 10 "user:ann"))
    × (invoice_of_bob.proto
        ≡ moved invoice status_claimed (claim_event sample sample-StoreLaws 11 "user:bob"))
    × (stored sample.store
          (claim_write sample sample-StoreLaws 11 found_invoice "user:bob" "assignee:user:bob"
            first_write).1
          "a"
        ≡ some (entity_type, value invoice_of_bob.proto))
unfolding get do_transition new_proto_event
racing_claims_example =
    racing_claims sample sample-StoreLaws 10 11 "a" stock found_invoice "user:ann"
      "assignee:user:ann" "user:bob" "assignee:user:bob" claimed_invoice invoice_of_bob refl refl
      refl

tag_reports_example :
    ((tag sample (some ann) 10 "a" ("late" ∷ []) stock).0
      ≡ of_fallible (wrapped "inbox: add tags") (sample.store.add_tags "a" ("late" ∷ []) stock).0)
    × ((untag sample (some ann) 10 "a" "team:x" stock).0
        ≡ of_fallible (wrapped "inbox: remove tag") (sample.store.remove_tag "a" "team:x" stock).0)
unfolding actor_from_ctx
tag_reports_example =
    tag_reports sample (some ann) 10 "a" ("late" ∷ []) "team:x" stock "user:ann" refl

close-reaches_example :
    (after : Item (List String) ℕ) × ((close sample (some ann) 10 "a" "paid" stock).0 ≡ ok after)
    × (after.proto.status ≡ status_closed)
    × (stored sample.store (close sample (some ann) 10 "a" "paid" stock).1 "a"
        ≡ some (entity_type, value after.proto))
unfolding get item_from_entity is_terminal
close-reaches_example =
    close-reaches sample sample-StoreLaws ann 10 "a" "paid" stock found_invoice
      ("status:closed" ∷ "team:x" ∷ []) refl refl refl (λ op e same. rw (e, same) refl)
