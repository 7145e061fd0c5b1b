-- ===== src/Html/Document.antt =====
-- Documents: `layouts.Base` of dsx makes one from its properties and the steps of its children. A
-- component that renders one does so after the test of its context.
use inbox.Prelude.{String}
use inbox.Html.{Html}

-- `dsx.FromContext(ctx)`
pub record DsxContext : Type 0 where
  pub csrf_token : String
  pub theme : String

-- `layouts.BaseProps`, and the children
pub record BasePage (Component : Type 0) : Type 0 where
  pub title : String
  pub csrf_token : String
  pub theme : String
  pub head : Html Component
  pub children : Html Component
