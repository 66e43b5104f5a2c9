-- ===== src/Backup/ShellQuote.antt =====
-- server/internal/backup/shellquote.go (and the copy in retention/staleremote.go).
use Prim.Native.Char.{code}
use sshbackup.Common.{String, ◌<>◌, ◌==◌, if◌then◌else◌}

-- strings.ReplaceAll(s, "'", `'\''`).
unfoldable pub escape_quotes : String → String
escape_quotes String.[] = ""
escape_quotes (String.◌∷◌ c s) =
    (if code c == 39 then "'\\''" else String.◌∷◌ c String.[]) <> escape_quotes s

-- `shellQuote`.
unfoldable pub shell_quote : String → String
unfolding escape_quotes
shell_quote s = "'" <> escape_quotes s <> "'"
