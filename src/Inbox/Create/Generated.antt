-- ===== src/Inbox/Create/Generated.antt =====
-- The functions of gen/inbox/v1/item_entitystore.go, which are generated from the annotations of the
-- message, and how the operation that Create makes by hand compares with them.
use inbox.Prelude.{
  String, Bytes, bytes, ◌≡◌, refl, ap, ◌∙◌, sym, subst, join, eq_iff, true, append-nil, ◌==◌,
  Bool-cases, inl, inr, List, [], ◌∷◌, ◌++◌, if◌then◌else◌,
}
use inbox.Proto.{ProtoItem}
use inbox.External.{WriteAction, create, WriteEntityOp, Env}
use inbox.Inbox.Create.{key_anchors, item_anchors, create_op}
use inbox.Inbox.Item.{entity_type}
use inbox.Inbox.Tokens.{tokenize, token_entry, build_tokens}

-- `matching.EntityMatchConfig`: an anchor is a field, and its normalizer is none. `Thresholds` is
-- the type of `matching.DefaultMatchThresholds()`.
pub record EntityMatchConfig (Thresholds : Type 0) : Type 0 where
  pub config_entity_type : String
  pub single_anchors : List String
  pub thresholds : Thresholds
  pub embed_fields : List String
  pub token_fields : List String

item_match_config : {Thresholds : Type 0} → Thresholds → EntityMatchConfig Thresholds
item_match_config defaults = record {
  config_entity_type = entity_type;
  single_anchors = "idempotency_key" ∷ [];
  thresholds = defaults;
  embed_fields = "title" ∷ "description" ∷ [];
  token_fields = "title" ∷ "description" ∷ [];
}

abbrev non_empty : String → List String
non_empty v = if v == "" then [] else v ∷ []

unfoldable item_embed_text : {Any : Type 0} → ProtoItem Any → String
item_embed_text msg = join (non_empty msg.title ++ non_empty msg.description) " "

-- `store.WriteOpOption`
abbrev pub WriteOpOption : Type 0 → Type 0
WriteOpOption Any = WriteEntityOp Any → WriteEntityOp Any

abbrev with_options : {Any : Type 0} → List (WriteOpOption Any) → WriteOpOption Any
with_options [] op = op
with_options (o ∷ opts) op = with_options opts (o op)

-- `split` is `matching.Tokenize`.
module _ (split : String → List Bytes) where
  abbrev text_entry : String → String → List (String × List Bytes)
  text_entry field v = if v == "" then [] else (field, split v) ∷ []

  unfoldable item_tokens : {Any : Type 0} → ProtoItem Any → List (String × List Bytes)
  item_tokens msg = text_entry "title" msg.title ++ text_entry "description" msg.description

  -- The options set the other fields.
  unfoldable pub item_write_op :
      {Any : Type 0} → ProtoItem Any → WriteAction → List (WriteOpOption Any) → WriteEntityOp Any
  unfolding item_tokens item_anchors
  item_write_op msg action opts = with_options opts (record {
    action = action;
    id = "";
    matched_entity_id = "";
    item = msg;
    tags = [];
    tokens = item_tokens msg;
    anchors = item_anchors msg;
    confidence = 1;
  })

-- `tokens[field]`, no token on a missing key
abbrev pub tokens_at : List (String × List Bytes) → String → List Bytes
tokens_at [] field = []
tokens_at ((f, list) ∷ tokens) field =
    let rest = tokens_at tokens field in if f == field then list else rest

tokenize-nil : tokenize (bytes "") ≡ []
unfolding tokenize
tokenize-nil = refl

module _ (rest : List (String × List Bytes)) (field f : String)
    (absent : (field == f) ≡ true → tokens_at rest f ≡ []) where
  tokens_at-empty : tokens_at rest f ≡ (if field == f then [] else tokens_at rest f)
  tokens_at-empty = elim (Bool-cases (field == f)) [ inl e ↦ rw e (absent e) | inr e ↦ rw e refl ]

  tokens_at-token_entry :
      (tokens : List Bytes)
      → tokens_at (token_entry field tokens ++ rest) f
        ≡ (if field == f then tokens else tokens_at rest f)
  tokens_at-token_entry [] = tokens_at-empty
  tokens_at-token_entry (t ∷ tokens) = refl

  tokens_at-text_entry :
      (split : String → List Bytes) (v : String)
      → ((w : String) → split w ≡ tokenize (bytes w))
      → tokens_at (text_entry split field v ++ rest) f
        ≡ (if field == f then tokenize (bytes v) else tokens_at rest f)
  tokens_at-text_entry split v agrees = elim (Bool-cases (v == "")) [
    | inl e ↦
        subst
          (λ w.
            tokens_at (text_entry split field w ++ rest) f
            ≡ (if field == f then tokenize (bytes w) else tokens_at rest f))
          (sym ((eq_iff v "").0 e)) (rw tokenize-nil tokens_at-empty)
    | inr e ↦ rw (e, agrees v) refl
  ]

-- what is found for a field where only the description is
abbrev at_description : String → String → List Bytes
at_description description f = if "description" == f then tokenize (bytes description) else []

one_entry :
    (tokens : List (String × List Bytes)) (f : String) {found : List Bytes}
    → tokens_at (tokens ++ []) f ≡ found
    → tokens_at tokens f ≡ found
one_entry tokens f h = sym (ap (λ list. tokens_at list f) (append-nil tokens)) ∙ h

description_last :
    (description f : String) → ("title" == f) ≡ true → at_description description f ≡ []
description_last description f e =
    subst (λ g. at_description description g ≡ []) ((eq_iff "title" f).0 e) refl

-- the options that set the id and the tags
abbrev pub placed :
    {S Set Any Foreign : Type 0} → Env S Set Any Foreign → String → Set → WriteOpOption Any
placed env id t op = record op { id = id; tags = env.tags.strings t }

module _ {S Set Any Foreign : Type 0} (env : Env S Set Any Foreign) (split : String → List Bytes)
    (agrees : (w : String) → split w ≡ tokenize (bytes w)) where
  tokens_at-same :
      (title description f : String)
      → tokens_at (build_tokens title description) f
        ≡ tokens_at (text_entry split "title" title ++ text_entry split "description" description) f
  unfolding build_tokens
  tokens_at-same title description f =
      let by_hand =
        one_entry (token_entry "description" (tokenize (bytes description))) f
          (tokens_at-token_entry [] "description" f (λ _. refl) _) in
      let generated =
        one_entry (text_entry split "description" description) f
          (tokens_at-text_entry [] "description" f (λ _. refl) split description agrees) in
      let last = description_last description f in
      tokens_at-token_entry _ "title" f (λ e. by_hand ∙ last e) (tokenize (bytes title))
      ∙ ap (λ rest. if "title" == f then tokenize (bytes title) else rest) (by_hand ∙ sym generated)
      ∙ sym (tokens_at-text_entry _ "title" f (λ e. generated ∙ last e) split title agrees)

  -- The operation that Create makes is the one that is generated for the item, given the id and the
  -- tags, up to the tokens and the confidence. The tokens are the same for each field, if
  -- matching.Tokenize splits texts as the tokenizer does; the confidence is 0 where the generated
  -- operation has 1.
  pub create_op-item_write_op :
      (id : String) (p : ProtoItem Any) (t : Set)
      → let op = create_op env id p t in
        let generated = item_write_op split p create (placed env id t ∷ []) in
        (op ≡ record generated { tokens = op.tokens; confidence = 0 })
        × (generated.confidence ≡ 1)
        × ((field : String) → tokens_at op.tokens field ≡ tokens_at generated.tokens field)
  unfolding create_op item_write_op item_tokens item_anchors key_anchors
  create_op-item_write_op id p t = (refl, refl, tokens_at-same p.title p.description)
