-- ===== src/Runnerops/Secrets/Stream.antt =====
-- secretinput.go: the redactingWriter, which redacts a child process's output line by line. Its
-- destination is a writer that takes every write, such as the pod's log, and is the text written
-- so far.
pub mod Lines
use doplane.Common.{
  ℕ, zero, suc, ◌+◌, Text, Bool, true, false, Option, none, some, List, [], ◌∷◌, ◌++◌, length, ltb,
  ◌==◌, if◌then◌else◌,
}
use doplane.Runnerops.Path.{is_empty}
use doplane.Runnerops.Secrets.{redact_string}

pub record RedactingWriter : Type 0 where
  pub dst : Text
  pub values : List Text
  pub buf : Text

abbrev pub newline : ℕ
newline = 10

-- `1<<20`
abbrev pub flush_limit : ℕ
flush_limit = 1048576

abbrev pub with_byte : ℕ → Option (Text × Text) → Option (Text × Text)
with_byte c none = none
with_byte c (some (line, rest)) = some (c ∷ line, rest)

-- `bytes.IndexByte(w.buf.Bytes(), '\n')` and `w.buf.Next(i + 1)`: the first line with its newline,
-- and what stays in the buffer.
unfoldable pub next_line : Text → Option (Text × Text)
next_line [] = none
next_line (c ∷ s) =
    let longer = with_byte c (next_line s) in if c == newline then some (c ∷ [], s) else longer

-- `Flush`
unfoldable pub flush : RedactingWriter → RedactingWriter
flush w =
    if is_empty w.buf then w else record w { dst = w.dst ++ redact_string w.buf w.values; buf = [] }

-- The end of `Write`, when the buffer holds no newline.
unfoldable pub flush_if_large : RedactingWriter → RedactingWriter
flush_if_large w = if ltb flush_limit (length w.buf) then flush w else w

-- The loop of `Write`, with a round for each line and one for the end.
unfoldable pub write_lines : ℕ → RedactingWriter → RedactingWriter
write_lines zero w = w
write_lines (suc fuel) w = elim (next_line w.buf) [
  | none ↦ flush_if_large w
  | some r ↦ write_lines fuel (record w { dst = w.dst ++ redact_string r.0 w.values; buf = r.1 })
]

-- `Write`: every line takes at least a byte of the buffer.
unfoldable pub write : RedactingWriter → Text → RedactingWriter
write w p = write_lines (suc (length (w.buf ++ p))) (record w { buf = w.buf ++ p })

-- The writes of one stream, in the order in which the child's output arrives.
unfoldable pub write_all : RedactingWriter → List Text → RedactingWriter
write_all w [] = w
write_all w (p ∷ ps) = write_all (write w p) ps

-- `newRedactingWriter`
abbrev pub new_redacting_writer : Text → List Text → RedactingWriter
new_redacting_writer dst values = record { dst = dst; values = values; buf = [] }
