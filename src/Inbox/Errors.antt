-- ===== src/Inbox/Errors.antt =====
-- errors.go, and the errors that the package's functions build. Of a wrapped error of another
-- package the text is kept.
use inbox.Prelude.{String, Bool, true, false}

pub data Sentinel : Type 0 where
  err_not_found err_invalid_transition err_terminal_status : Sentinel

pub data Error : Type 0 where
  -- "%w: %v" of ErrNotFound and the store's error
  not_found : String → Error
  -- "%w: entity %s is not an inbox item"
  not_inbox_item : String → Error
  -- "%w: item %s has status %s, expected %s"
  invalid_transition : String → String → String → Error
  -- "%w: %s" of ErrTerminalStatus and the status
  terminal_status : String → Error
  -- "inbox: ...: %w" of another package's error
  wrapped : String → String → Error

-- `errors.Is(err, sentinel)`
abbrev pub is : Error → Sentinel → Bool
is (not_found _) err_not_found = true
is (not_inbox_item _) err_not_found = true
is (invalid_transition _ _ _) err_invalid_transition = true
is (terminal_status _) err_terminal_status = true
is _ _ = false
