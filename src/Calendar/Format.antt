-- ===== src/Calendar/Format.antt =====
-- The layouts of `time.Format` that the program uses.
use sshbackup.Common.{ℕ, ltb, if◌then◌else◌, String, ◌<>◌, itoa, pad2}
use sshbackup.Calendar.{Time}

-- `%04d`.
pad4 : ℕ → String
pad4 n =
    if ltb n 10
    then "000" <> itoa n
    else if ltb n 100
    then "00" <> itoa n
    else if ltb n 1000
    then "0" <> itoa n
    else itoa n

-- The layout 2006-01-02_15-04-05.
unfoldable pub format_archive : Time → String
unfolding pad4 itoa pad2
format_archive t =
    pad4 t.year
    <> "-"
    <> pad2 t.month
    <> "-"
    <> pad2 t.day
    <> "_"
    <> pad2 t.hour
    <> "-"
    <> pad2 t.minute
    <> "-"
    <> pad2 t.second
