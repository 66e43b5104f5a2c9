-- ===== src/Domain/ArchiveName.antt =====
-- server/internal/domain/archive_name.go. `range` over a text is over its characters.
use Prim.Native.Char.{Char, code}
use sshbackup.Common.{ℕ, String, ◌<>◌, Bool, ◌||◌, ltb, ◌==◌, if◌then◌else◌, ◌≡◌, refl}
use sshbackup.Calendar.{Time}
use sshbackup.Calendar.Format.{format_archive}

-- The characters of `windowsInvalidChars`: < > : " / \ | ? *
abbrev pub is_windows_invalid : ℕ → Bool
is_windows_invalid c =
    c == 60
    || (c == 62
        || (c == 58 || (c == 34 || (c == 47 || (c == 92 || (c == 124 || (c == 63 || c == 42)))))))

abbrev pub sanitize_char : Char → Char
sanitize_char c = if ltb (code c) 32 then "_" else if is_windows_invalid (code c) then "_" else c

-- `sanitizeWindowsFileNameComponent`.
unfoldable pub sanitize : String → String
sanitize String.[] = String.[]
sanitize (String.◌∷◌ c s) = String.◌∷◌ (sanitize_char c) (sanitize s)

-- `ArchiveFileName`.
unfoldable pub archive_file_name : String → Time → String
unfolding sanitize format_archive
archive_file_name job_name started_at =
    sanitize job_name <> "_" <> format_archive started_at <> ".tar.gz"

archive_file_name_test :
    archive_file_name "a/b:c"
      (record { year = 2026; month = 3; day = 9; hour = 4; minute = 5; second = 59; nano = 7 })
    ≡ "a_b_c_2026-03-09_04-05-59.tar.gz"
unfolding archive_file_name
archive_file_name_test = refl
