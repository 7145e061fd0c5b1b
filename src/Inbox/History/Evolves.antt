-- ===== src/Inbox/History/Evolves.antt =====
-- What any sequence of calls does to an item.
use inbox.Prelude.{
  String, ◌≡◌, ◌≢◌, refl, sym, ◌∙◌, ◌==◌, eq_iff, Bool-cases, ◌⊎◌, inl, inr, some, List, [], ◌∷◌,
  All,
}
use inbox.Effect.{value}
use inbox.Proto.{Time, ProtoItem}
use inbox.External.{Context, Env}
use inbox.External.Store.{StoreLaws, stored}
use inbox.Inbox.Item.{entity_type}
use inbox.Inbox.Evolution.{Successor, Successor-refl, Successor-trans}
use inbox.Inbox.Evolution.Store.{Evolves, unchanged, evolved}
use inbox.Inbox.Events.Evolves.{add_event-Evolves, comment-Evolves, reassign-Evolves}
use inbox.Inbox.Lifecycle.Evolves.{claim-Evolves, release-Evolves, close-Evolves}
use inbox.Inbox.Tagging.Evolves.{tag-Evolves, untag-Evolves}
use inbox.Inbox.History.{
  Method, claim, release, close, add_event, comment, reassign, tag, untag, Call, after, after_call,
  after_all,
}

module _ {S Set Any Foreign : Type 0} (env : Env S Set Any Foreign)
    (laws : StoreLaws env.store) where
  after-Evolves :
      (ctx : Context) (now : Time) (id : String) (m : Method Any) (s : S)
      → Evolves env.store id s (after env ctx now id m s)
  after-Evolves ctx now id claim s = claim-Evolves env laws ctx now id s
  after-Evolves ctx now id release s = release-Evolves env laws ctx now id s
  after-Evolves ctx now id (close reason) s = close-Evolves env laws ctx now id reason s
  after-Evolves ctx now id (add_event evt) s = add_event-Evolves env laws now id evt s
  after-Evolves ctx now id (comment body opts) s = comment-Evolves env laws ctx now id body opts s
  after-Evolves ctx now id (reassign from to reason) s =
      reassign-Evolves env laws ctx now id from to reason s
  after-Evolves ctx now id (tag raw) s = tag-Evolves env laws ctx now id raw s
  after-Evolves ctx now id (untag old) s = untag-Evolves env laws ctx now id old s

  -- An item whose stored data is a later version of `p`.
  abbrev pub HasSuccessor : S → String → ProtoItem Any → Type 0
  HasSuccessor s id p =
      (q : ProtoItem Any) × (stored env.store s id ≡ some (entity_type, value q)) × Successor p q

  Evolves-HasSuccessor :
      {s t : S} (id j : String) (p : ProtoItem Any)
      → Evolves env.store j s t
      → HasSuccessor s id p
      → HasSuccessor t id p
  Evolves-HasSuccessor id j p (unchanged same) (q, here, later) = (q, same.at id ∙ here, later)
  Evolves-HasSuccessor {s} id j p (evolved a b before done later' rest) (q, here, later) =
      elim (Bool-cases (id == j)) [
        | inl same ↦
            let e : id ≡ j = (eq_iff id j).0 same in
            let here' : stored env.store s j ≡ some (entity_type, value q) = rw (← e) here in
            let met : q ≡ a = cc in (b, rw e done, Successor-trans later (rw met later'))
        | inr other ↦ (q, rest id (λ e. cc ((eq_iff id j).1 e)) ∙ here, later)
      ]

  pub after_all-keeps :
      (calls : List (Call Any)) (s : S) (id : String) (p : ProtoItem Any)
      → HasSuccessor s id p
      → HasSuccessor (after_all env calls s) id p
  unfolding after_all
  after_all-keeps [] s id p h = h
  after_all-keeps (c ∷ calls) s id p h =
      after_all-keeps calls (after_call env c s) id p
        (Evolves-HasSuccessor id c.item_id p (after-Evolves c.ctx c.now c.item_id c.method s) h)

  -- From a store that holds an item, whatever is called on whatever items, with or without success,
  -- the store holds the item: its status has moved only along the edges of the lifecycle, its event
  -- log has only grown at the end, and its key, title, description, deadline and payload are the same.
  pub after_all-HasSuccessor :
      (calls : List (Call Any)) (s : S) (id : String) (p : ProtoItem Any)
      → stored env.store s id ≡ some (entity_type, value p)
      → HasSuccessor (after_all env calls s) id p
  after_all-HasSuccessor calls s id p here =
      after_all-keeps calls s id p (p, here, Successor-refl p)

  after-stored :
      (ctx : Context) (now : Time) (j : String) (m : Method Any) (s : S) (id : String)
      → ((p : ProtoItem Any) → stored env.store s id ≢ some (entity_type, value p)) ⊎ (j ≢ id)
      → stored env.store (after env ctx now j m s) id ≡ stored env.store s id
  after-stored ctx now j m s id h = go (after-Evolves ctx now j m s) h
    where
      go :
          {t : S}
          → Evolves env.store j s t
          → ((p : ProtoItem Any) → stored env.store s id ≢ some (entity_type, value p)) ⊎ (j ≢ id)
          → stored env.store t id ≡ stored env.store s id
      go (unchanged same) h = same.at id
      go (evolved a b before done later rest) (inr other) = rest id (λ e. other (sym e))
      go (evolved a b before done later rest) (inl none_here) = elim (Bool-cases (id == j)) [
        | inl same ↦ absurd (none_here a (rw ((eq_iff id j).0 same) before))
        | inr other ↦ rest id (λ e. cc ((eq_iff id j).1 e))
      ]

  -- Calls on other items leave an entity's data alone, and calls on an entity that is no inbox item,
  -- or does not decode, leave it alone too.
  pub after_all-stored :
      (calls : List (Call Any)) (s : S) (id : String)
      → ((p : ProtoItem Any) → stored env.store s id ≢ some (entity_type, value p))
        ⊎ All (λ c. c.item_id ≢ id) calls
      → stored env.store (after_all env calls s) id ≡ stored env.store s id
  unfolding after_all
  after_all-stored [] s id h = refl
  after_all-stored (c ∷ calls) s id (inr (other, others)) =
      after_all-stored calls (after_call env c s) id (inr others)
      ∙ after-stored c.ctx c.now c.item_id c.method s id (inr other)
  after_all-stored (c ∷ calls) s id (inl no_item) =
      let same = after-stored c.ctx c.now c.item_id c.method s id (inl no_item) in
      after_all-stored calls (after_call env c s) id (inl (λ p here. no_item p (sym same ∙ here)))
      ∙ same
