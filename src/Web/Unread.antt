-- ===== src/Web/Unread.antt =====
-- frontend-web/src/features/navigation/useUnreadMessages.ts: the mark of unread messages.
use text.Mathlib.Text.{starts_with}
use skillhunt.Common.{String, Bool, true, false, ◌==◌, string_eq, if◌then◌else◌}

pub record UnreadMessages : Type 0 where
  pub has_unread : Bool
  pub pathname : String
  pub read_pathname : String

abbrev pub first_render : String → UnreadMessages
first_render pathname = record { has_unread = false; pathname = pathname; read_pathname = pathname }

abbrev pub is_reading : String → Bool
is_reading pathname = starts_with pathname "/messages"

-- A render at the current path.
unfoldable pub render : UnreadMessages → UnreadMessages
render state = if state.pathname == state.read_pathname then state else record state {
  has_unread = if is_reading state.pathname then false else state.has_unread;
  read_pathname = state.pathname;
}

-- The router goes to another path, and the hook is rendered.
abbrev pub navigate : String → UnreadMessages → UnreadMessages
navigate pathname state = render (record state { pathname = pathname })

abbrev pub on_message : UnreadMessages → UnreadMessages
on_message state = if is_reading state.pathname then state else record state { has_unread = true }

abbrev pub mark_all_read : UnreadMessages → UnreadMessages
mark_all_read state = record state { has_unread = false }
