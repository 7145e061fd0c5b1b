-- ===== src/Inbox/Lifecycle/Refusal.antt =====
-- When `Close` answers that the item is already terminal.
use inbox.Prelude.{
  arith, String, ◌≡◌, refl, sym, ◌∙◌, ap, ◌⊎◌, inl, inr, Bool, true, false, some, none, List, [],
  if◌then◌else◌,
}
use inbox.Effect.{Outcome, ok, err, raise}
use inbox.Effect.Blocks.{continue-err}
use inbox.Proto.{Time, Event, item_closed}
use inbox.External.{Context, Env}
use inbox.Inbox.Errors.{Error, is, err_terminal_status, terminal_status}
use inbox.Inbox.Status.{status_closed, is_terminal}
use inbox.Inbox.Item.{Item, actor_from_ctx, item_from_entity, new_proto_event}
use inbox.Inbox.Get.{get}
use inbox.Inbox.Lifecycle.{do_transition, close}

not_both : {b : Bool} → b ≡ true → b ≡ false → ⊥
not_both p q = cc

actor_from_ctx-err : (ctx : Context) {e : Error} → actor_from_ctx ctx ≡ err e → ⊥
unfolding actor_from_ctx
actor_from_ctx-err none h = cc
actor_from_ctx-err (some i) h = cc

-- an `if` between an error and a block
module _ {S A : Type 0} where
  if-err :
      (b : Bool) (m : S → Outcome Error A × S) (f : Error) (s : S) {e : Error}
      → ((if b then raise f else m) s).0 ≡ err e
      → ((b ≡ true) × ((if b then raise f else m) s ≡ (err f, s))) ⊎ ((m s).0 ≡ err e)
  if-err true m f s h = inl (refl, refl)
  if-err false m f s h = inr h

module _ {S Set Any Foreign : Type 0} (env : Env S Set Any Foreign) where
  get-err :
      (id : String) (s : S) {e : Error} → get env id s ≡ err e → is e err_terminal_status ≡ false
  unfolding get item_from_entity
  get-err id s h = ground arith

  do_transition-err :
      (now : Time) (item : Item Set Any) (to : String) (evt : Event Any) (extra : List String)
      (s : S) {e : Error}
      → (do_transition env now item to evt extra s).0 ≡ err e
      → is e err_terminal_status ≡ false
  unfolding do_transition
  do_transition-err now item to evt extra s h = ground arith

  -- The item was found in a terminal status, and nothing was written.
  pub close-terminal :
      (ctx : Context) (now : Time) (id reason : String) (s : S) {e : Error}
      → (close env ctx now id reason s).0 ≡ err e
      → is e err_terminal_status ≡ true
      → (actor : String) × (item : Item Set Any) × (actor_from_ctx ctx ≡ ok actor)
        × (get env id s ≡ ok item)
        × (is_terminal item.proto.status ≡ true)
        × ((close env ctx now id reason s).1 ≡ s)
  unfolding close
  close-terminal ctx now id reason s h ended = elim (continue-err (actor_from_ctx ctx) _ s h) [
    | inl e ↦ absurd (actor_from_ctx-err ctx e)
    | inr (actor, known, e1) ↦
        let h1 = sym (ap (λ x. x.0) e1) ∙ h in
        elim (continue-err (get env id s) _ s h1) [
          | inl e ↦ absurd (not_both ended (get-err id s e))
          | inr (item, got, e2) ↦
              let h2 = sym (ap (λ x. x.0) e2) ∙ h1 in
              elim (if-err (is_terminal item.proto.status) _ _ s h2) [
                | inl (terminal, e3) ↦
                    (actor, item, known, got, terminal, ap (λ x. x.1) (e1 ∙ e2 ∙ e3))
                | inr h3 ↦ absurd (
                    not_both ended (
                      do_transition-err now item status_closed
                        (new_proto_event env actor (item_closed actor reason)) [] s h3))
              ]
        ]
  ]

  -- A known actor on an item in a terminal status.
  pub close-again :
      (ctx : Context) (now : Time) (id reason actor : String) (s : S) (item : Item Set Any)
      → actor_from_ctx ctx ≡ ok actor
      → get env id s ≡ ok item
      → is_terminal item.proto.status ≡ true
      → close env ctx now id reason s ≡ (err (terminal_status item.proto.status), s)
  unfolding close
  close-again ctx now id reason actor s item known got terminal = rw (known, got, terminal) refl
