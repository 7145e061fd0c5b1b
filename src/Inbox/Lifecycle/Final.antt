-- ===== src/Inbox/Lifecycle/Final.antt =====
-- Closed items, and items that somebody holds, under the methods of lifecycle.go.
use inbox.Prelude.{
  arith, String, ◌≡◌, ◌≢◌, refl, sym, ◌∙◌, ap, ◌==◌, eq_iff, true, false, some, List,
}
use inbox.Effect.{value, ok, of_fallible}
use inbox.Effect.Blocks.{Refused, continue-Refused, if-Refused}
use inbox.Proto.{Time, ProtoItem}
use inbox.External.{Context, Env}
use inbox.External.Store.{StoreLaws, stored}
use inbox.Inbox.Status.{status_open, status_claimed, status_closed, is_terminal}
use inbox.Inbox.Item.{Item, entity_type, actor_from_ctx}
use inbox.Inbox.Get.{get}
use inbox.Inbox.Lifecycle.{claim, release, close}
use inbox.Inbox.Lifecycle.Success.{claim-Moved, close-Moved}
use inbox.Inbox.Evolution.{StatusPath-terminal}
use inbox.Inbox.Evolution.Store.{get-stored}
use inbox.Inbox.History.{Call, after_all}
use inbox.Inbox.History.Evolves.{after_all-HasSuccessor}

claimed-ne-open : ◌≢◌ {A = String} status_claimed status_open
claimed-ne-open = ground (arith, eq_iff status_claimed status_open)

module _ {S Set Any Foreign : Type 0} (env : Env S Set Any Foreign)
    (laws : StoreLaws env.store) where
  -- the stored data and what `Get` returns are one
  got-eq :
      (id : String) (s : S) (p : ProtoItem Any) (item : Item Set Any)
      → stored env.store s id ≡ some (entity_type, value p)
      → get env id s ≡ ok item
      → item.proto ≡ p
  got-eq id s p item here got = let (before, _) = get-stored env laws s id item got in cc

  claim-Refused :
      (ctx : Context) (now : Time) (id : String) (s : S) (p : ProtoItem Any)
      → stored env.store s id ≡ some (entity_type, value p)
      → p.status ≢ status_open
      → Refused (claim env ctx now id s) s
  unfolding claim
  claim-Refused ctx now id s p here not_open = continue-Refused (actor_from_ctx ctx) _ s λ actor _.
      continue-Refused (of_fallible _ (env.tags.build "assignee" actor)) _ s λ tag _.
        continue-Refused (get env id s) _ s λ item got.
          if-Refused (item.proto.status == status_open) _ _ s
            (λ is_open. absurd (
              not_open
                (sym (ap (λ x. x.status) (got-eq id s p item here got)) ∙ (eq_iff _ _).0 is_open)))
            (λ _. (λ b. cc, refl))

  release-Refused :
      (ctx : Context) (now : Time) (id : String) (s : S) (p : ProtoItem Any)
      → stored env.store s id ≡ some (entity_type, value p)
      → p.status ≢ status_claimed
      → Refused (release env ctx now id s) s
  unfolding release
  release-Refused ctx now id s p here free = continue-Refused (actor_from_ctx ctx) _ s λ actor _.
      continue-Refused (get env id s) _ s λ item got.
        if-Refused (item.proto.status == status_claimed) _ _ s
          (λ held.
            absurd
              (free (sym (ap (λ x. x.status) (got-eq id s p item here got)) ∙ (eq_iff _ _).0 held)))
          (λ _. (λ b. cc, refl))

  close-Refused :
      (ctx : Context) (now : Time) (id reason : String) (s : S) (p : ProtoItem Any)
      → stored env.store s id ≡ some (entity_type, value p)
      → is_terminal p.status ≡ true
      → Refused (close env ctx now id reason s) s
  unfolding close
  close-Refused ctx now id reason s p here done =
      continue-Refused (actor_from_ctx ctx) _ s λ actor _.
        continue-Refused (get env id s) _ s λ item got.
          if-Refused (is_terminal item.proto.status) _ _ s (λ _. (λ b. cc, refl))
            (λ live. cc (got-eq id s p item here got))

  -- A terminal status is neither open nor claimed.
  terminal-ne-open : (status : String) → is_terminal status ≡ true → status ≢ status_open
  unfolding is_terminal
  terminal-ne-open status h e = let live : is_terminal status ≡ false = ap is_terminal e in cc

  terminal-ne-claimed : (status : String) → is_terminal status ≡ true → status ≢ status_claimed
  unfolding is_terminal
  terminal-ne-claimed status h e = let live : is_terminal status ≡ false = ap is_terminal e in cc

  -- what a `Close` and the calls after it leave
  abbrev pub closed_then : Context → Time → String → String → List (Call Any) → S → S
  closed_then ctx now id reason calls s = after_all env calls (close env ctx now id reason s).1

  -- After a `Close` that succeeded and any calls after it, on this item or on others: the item is
  -- stored with status "closed", and `Claim`, `Release` and `Close` by anyone, with any reason, fail
  -- on it and leave the store as it is.
  pub close_final :
      (ctx : Context) (now : Time) (id reason : String) (s : S) (item : Item Set Any)
      (calls : List (Call Any)) (ctx' : Context) (now' : Time) (reason' : String)
      → (close env ctx now id reason s).0 ≡ ok item
      → ((q : ProtoItem Any) × (stored env.store (closed_then ctx now id reason calls s) id
            ≡ some (entity_type, value q))
          × (q.status ≡ status_closed))
        × Refused
            (claim env ctx' now' id (closed_then ctx now id reason calls s))
            (closed_then ctx now id reason calls s)
        × Refused
            (release env ctx' now' id (closed_then ctx now id reason calls s))
            (closed_then ctx now id reason calls s)
        × Refused
            (close env ctx' now' id reason' (closed_then ctx now id reason calls s))
            (closed_then ctx now id reason calls s)
  unfolding is_terminal
  close_final ctx now id reason s item calls ctx' now' reason' h =
      let (actor, p, known, live, m) = close-Moved env laws ctx now id reason s h in
      let (q, here, later) =
        after_all-HasSuccessor env laws calls (close env ctx now id reason s).1 id item.proto
          m.now_stored in
      let was_closed : item.proto.status ≡ status_closed = ap (λ x. x.status) m.proto in
      let terminal : is_terminal item.proto.status ≡ true = ap is_terminal was_closed in
      let same : q.status ≡ item.proto.status = StatusPath-terminal later.path terminal in
      let ended : is_terminal q.status ≡ true = ap is_terminal same ∙ terminal in
      (
        (q, here, same ∙ was_closed),
        claim-Refused ctx' now' id _ q here (terminal-ne-open q.status ended),
        release-Refused ctx' now' id _ q here (terminal-ne-claimed q.status ended),
        close-Refused ctx' now' id reason' _ q here ended,
      )

  -- After a `Claim` that succeeded no one can claim the item: a second `Claim` right after it fails
  -- and leaves the store as it is.
  pub claim_exclusive :
      (ctx ctx' : Context) (now now' : Time) (id : String) (s : S) (item : Item Set Any)
      → (claim env ctx now id s).0 ≡ ok item
      → Refused (claim env ctx' now' id (claim env ctx now id s).1) (claim env ctx now id s).1
  claim_exclusive ctx ctx' now now' id s item h =
      let (actor, p, known, was_open, m) = claim-Moved env laws ctx now id s h in
      claim-Refused ctx' now' id _ item.proto m.now_stored
        (λ e. claimed-ne-open (sym (ap (λ x. x.status) m.proto) ∙ e))
