-- ===== src/External/Identities.antt =====
-- What the program relies on of `identity.New`.
use inbox.Prelude.{String, ◌≡◌, List}
use inbox.Effect.{value}
use inbox.External.{Identity, Env}

-- An identity that is made has the principal and the type that were given.
pub record IdentityLaws {S Set Any Foreign : Type 0} (env : Env S Set Any Foreign) : Type 0 where
  pub made :
      (tenant workspace principal type : String) (roles : List String) (i : Identity)
      → env.new_identity tenant workspace principal type roles ≡ value i
      → (i.principal_id ≡ principal) × (i.principal_type ≡ type)
