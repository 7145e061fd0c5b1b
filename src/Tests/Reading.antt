-- ===== src/Tests/Reading.antt =====
-- The reads of the package on the sample store, and its tokens.
use mathlib.Core.List.{Memᴰ}
use inbox.Prelude.{
  ℕ, ◌<◌, pos, Bytes, bytes, negate, ◌≡◌, refl, String, none, some, List, [], ◌∷◌, All, true,
  length,
}
use inbox.Effect.{value, ok}
use inbox.External.{StoredEntity, create}
use inbox.Inbox.Create.{create_op}
use inbox.Inbox.Create.Generated.{item_write_op, placed, tokens_at, create_op-item_write_op}
use inbox.Inbox.Item.{Item, ListOpts, item_from_entity}
use inbox.Inbox.Get.{add_duration, keep_tagged, list_by_tags, stale}
use inbox.Inbox.Get.Filter.{page, Passes, list_by_tags-filters}
use inbox.Inbox.Get.Staleness.{last_activity, older, stale_lem}
use inbox.Inbox.Tokens.{tokenize}
use inbox.Inbox.Tokens.Words.{Distinct, runs, first_only, tokenize-eq-first_only}
use inbox.Sample.Memory.{sample}
use inbox.Sample.Requests.{invoice, stock, found_invoice}

abbrev ten : ListOpts
ten = record { page_size = pos 10; cursor = none }

list_by_tags-filters_example :
    (req : List String) × (entities : List (StoredEntity ℕ)) × (sample.tags.must_new ("team:x" ∷ [])
      ≡ some req)
    × (page sample ten stock ≡ value entities)
    × All (λ i. sample.tags.has_all i.tags req ≡ true) (found_invoice ∷ [])
    × ((e : StoredEntity ℕ)
        → Memᴰ e entities
        → Passes sample.tags req e
        → (i : Item (List String) ℕ) × Memᴰ i (found_invoice ∷ []) × (i.id ≡ e.id))
    × (length (found_invoice ∷ []) ≡ length (keep_tagged sample.tags req entities))
unfolding list_by_tags item_from_entity
list_by_tags-filters_example =
    list_by_tags-filters sample ("team:x" ∷ []) ten stock (found_invoice ∷ []) refl refl

-- 20 after the start, and items untouched for 5 or more
stale_lem_example :
    (listed : List (Item (List String) ℕ)) × (list_by_tags sample ("team:x" ∷ []) ten stock
      ≡ ok listed)
    × (found_invoice ∷ [] ≡ older (add_duration 20 (negate (pos 5))) listed)
    × All (λ i. last_activity i < add_duration 20 (negate (pos 5))) (found_invoice ∷ [])
    × ((i : Item (List String) ℕ)
        → Memᴰ i listed
        → last_activity i < add_duration 20 (negate (pos 5))
        → Memᴰ i (found_invoice ∷ []))
unfolding stale item_from_entity
stale_lem_example = stale_lem sample ("team:x" ∷ []) (pos 5) ten 20 stock (found_invoice ∷ []) refl

abbrev note : Item (List String) ℕ
note = record found_invoice {
  proto = record invoice {
    events =
        record {
          at = some 20;
          actor = "user:ann";
          action = "";
          detail = "paid?";
          data_type = "inbox.v1.CommentAppended";
          event_data = some 7;
        }
        ∷ [];
  };
}

abbrev text : Bytes
text = bytes "Re: pay, PAY 12"

tokenize-eq-first_only_example :
    (tokenize text ≡ first_only [] (runs [] text)) × Distinct (tokenize text)
tokenize-eq-first_only_example = tokenize-eq-first_only text

create_op-item_write_op_example :
    let op = create_op sample "c" invoice ("team:x" ∷ []) in
    let generated =
      item_write_op
        (λ w. tokenize (bytes w))
        invoice
        create
        (placed sample "c" ("team:x" ∷ []) ∷ []) in
    (op ≡ record generated { tokens = op.tokens; confidence = 0 })
    × (generated.confidence ≡ 1)
    × ((field : String) → tokens_at op.tokens field ≡ tokens_at generated.tokens field)
create_op-item_write_op_example =
    create_op-item_write_op sample (λ w. tokenize (bytes w)) (λ w. refl) "c" invoice ("team:x" ∷ [])
