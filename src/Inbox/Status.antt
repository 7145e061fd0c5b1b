-- ===== src/Inbox/Status.antt =====
-- status.go
use inbox.Prelude.{String, Bool, not, ◌&&◌, ◌==◌}

abbrev pub status_open : String
status_open = "open"

abbrev pub status_claimed : String
status_claimed = "claimed"

abbrev pub status_closed : String
status_closed = "closed"

-- every status but these two, the legacy ones included
unfoldable pub is_terminal : String → Bool
is_terminal status = not (status == status_open) && not (status == status_claimed)
