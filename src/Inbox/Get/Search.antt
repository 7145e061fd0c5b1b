-- ===== src/Inbox/Get/Search.antt =====
-- How a search of get.go depends on its query.
use inbox.Prelude.{String, bytes, map, ◌≡◌, refl, sym, ◌∙◌, ap}
use inbox.External.{Env}
use inbox.Inbox.Item.{ListOpts}
use inbox.Inbox.Get.{search_items}
use inbox.Inbox.Tokens.{lower, tokenize}
use inbox.Inbox.Tokens.Laws.{tokenize-map-lower}

module _ {S Set Any Foreign : Type 0} (env : Env S Set Any Foreign) where
  search_by_tokens :
      (q q' : String) (opts : ListOpts) (s : S)
      → tokenize (bytes q) ≡ tokenize (bytes q')
      → search_items env q opts s ≡ search_items env q' opts s
  unfolding search_items
  search_by_tokens q q' opts s same = rw same refl

  -- Two queries that differ only in the case of letters give the same answer, a failure of the store
  -- included.
  search_items-lower :
      (q q' : String) (opts : ListOpts) (s : S)
      → map lower (bytes q) ≡ map lower (bytes q')
      → search_items env q opts s ≡ search_items env q' opts s
  search_items-lower q q' opts s same =
      search_by_tokens q q' opts s
        (sym (tokenize-map-lower (bytes q)) ∙ ap tokenize same ∙ tokenize-map-lower (bytes q'))
