-- ===== src/Runnerops/Secrets/Stream/Lines.antt =====
-- What the redactingWriter writes (secretinput.go), against the lines of the whole output.
use doplane.Common.{
  ℕ, zero, suc, ◌+◌, ◌≤◌, ◌<◌, ◌≡◌, refl, sym, ◌∙◌, ap, Text, Option, none, some, List, [], ◌∷◌,
  ◌++◌, append_assoc, append-nil, length, ◌==◌, if◌then◌else◌, arith, Option-cases, Bool-cases, inl,
  inr,
}
use mathlib.Core.Option.{some-injective}
use doplane.Runnerops.Path.{is_empty}
use doplane.Runnerops.Secrets.{redact_string}
use doplane.Runnerops.Secrets.Stream.{
  RedactingWriter, newline, flush_limit, with_byte, next_line, flush, flush_if_large, write_lines,
  write, write_all, new_redacting_writer,
}

-- A text redacted line by line: `line` is the part of the current line that was read already.
unfoldable pub redact_lines : List Text → Text → Text → Text
redact_lines values line [] = if is_empty line then [] else redact_string line values
redact_lines values line (c ∷ s) =
    let done = redact_string (line ++ c ∷ []) values ++ redact_lines values [] s in
    let longer = redact_lines values (line ++ c ∷ []) s in if c == newline then done else longer

-- No line of the text is longer than the writer's buffer may become; `n` bytes of the current line
-- are read already.
abbrev pub LinesFit : ℕ → Text → Type 0
LinesFit n [] = n ≤ flush_limit
LinesFit n (c ∷ s) = (n ≤ flush_limit) × LinesFit (if c == newline then 0 else n + 1) s

unfoldable pub concat : List Text → Text
concat [] = []
concat (p ∷ ps) = p ++ concat ps

read_more :
    (c : ℕ) (o : Option (Text × Text)) (r : Text × Text)
    → with_byte c o ≡ some r
    → (q : Text × Text) × (o ≡ some q) × ((c ∷ q.0, q.1) ≡ r)
read_more c none r h = cc
read_more c (some q) r h = (q, refl, some-injective _ _ h)

no_more : (c : ℕ) (o : Option (Text × Text)) → with_byte c o ≡ none → o ≡ none
no_more c none h = refl
no_more c (some q) h = cc

-- The writer's next line is the next line of the whole output, whatever follows the buffer.
redact_lines-next_line :
    (values : List Text) (line buf s : Text) (r : Text × Text)
    → next_line buf ≡ some r
    → redact_lines values line (buf ++ s)
      ≡ redact_string (line ++ r.0) values ++ redact_lines values [] (r.1 ++ s)
unfolding redact_lines next_line
redact_lines-next_line values line [] s r h = cc
redact_lines-next_line values line (c ∷ buf) s r h = elim (Bool-cases (c == newline)) [
  | inl e ↦ rw (e, ← some-injective _ _ (rw e at h))
  | inr e ↦
      let (q, found, same) = read_more c (next_line buf) r (rw e at h) in
      rw (e, ← same)
        (redact_lines-next_line values (line ++ c ∷ []) buf s q found
          ∙ ap (λ t. redact_string t values ++ redact_lines values [] (q.1 ++ s))
              (append_assoc line (c ∷ []) q.0))
]

-- Without a newline the text only extends the current line.
redact_lines-no_newline :
    (values : List Text) (line buf : Text)
    → next_line buf ≡ none
    → redact_lines values line buf
      ≡ (if is_empty (line ++ buf) then [] else redact_string (line ++ buf) values)
unfolding redact_lines next_line
redact_lines-no_newline values line [] h = rw append-nil
redact_lines-no_newline values line (c ∷ buf) h = elim (Bool-cases (c == newline)) [
  | inl e ↦ cc (rw e at h)
  | inr e ↦ rw e (
      redact_lines-no_newline values (line ++ c ∷ []) buf (no_more c (next_line buf) (rw e at h))
      ∙ ap (λ t. if is_empty t then [] else redact_string t values)
          (append_assoc line (c ∷ []) buf))
]

next_line_shorter :
    (buf : Text) (r : Text × Text) → next_line buf ≡ some r → length r.1 < length buf
unfolding next_line
next_line_shorter [] r h = cc
next_line_shorter (c ∷ buf) r h = elim (Bool-cases (c == newline)) [
  | inl e ↦ let same = some-injective _ _ (rw e at h) in rw (← same) (omega arith)
  | inr e ↦
      let (q, found, same) = read_more c (next_line buf) r (rw e at h) in
      rw (← same) (omega (arith, next_line_shorter buf q found))
]

LinesFit-next_line :
    (n : ℕ) (buf s : Text) (r : Text × Text)
    → next_line buf ≡ some r
    → LinesFit n (buf ++ s)
    → LinesFit 0 (r.1 ++ s)
unfolding next_line
LinesFit-next_line n [] s r h f = cc
LinesFit-next_line n (c ∷ buf) s r h f = elim (Bool-cases (c == newline)) [
  | inl e ↦ rw (← some-injective _ _ (rw e at h)) (let f' = rw e at f in f'.1)
  | inr e ↦
      let (q, found, same) = read_more c (next_line buf) r (rw e at h) in
      rw (← same) (LinesFit-next_line (n + 1) buf s q found (let f' = rw e at f in f'.1))
]

LinesFit-le : (n : ℕ) (s : Text) → LinesFit n s → n ≤ flush_limit
LinesFit-le n [] f = f
LinesFit-le n (c ∷ s) f = f.0

LinesFit-no_newline :
    (n : ℕ) (buf s : Text)
    → next_line buf ≡ none
    → LinesFit n (buf ++ s)
    → n + length buf ≤ flush_limit
unfolding next_line
LinesFit-no_newline n [] s h f = omega (arith, LinesFit-le n s f)
LinesFit-no_newline n (c ∷ buf) s h f = elim (Bool-cases (c == newline)) [
  | inl e ↦ cc (rw e at h)
  | inr e ↦ omega (
    arith,
    LinesFit-no_newline (n + 1) buf s (no_more c (next_line buf) (rw e at h)) (rw e at f).1,
  )
]

-- What the writer has written and what it will write for its buffer and the text that follows.
abbrev total : RedactingWriter → Text → Text
total w s = w.dst ++ redact_lines w.values [] (w.buf ++ s)

record Keeps (w w' : RedactingWriter) (s t : Text) : Type 0 where
  no_line : next_line w'.buf ≡ none
  same_values : w'.values ≡ w.values
  same_total : total w' t ≡ total w s
  still_fits : LinesFit 0 (w'.buf ++ t)

flush_if_large_small : (w : RedactingWriter) → length w.buf ≤ flush_limit → flush_if_large w ≡ w
unfolding flush_if_large
flush_if_large_small w h = ground arith

write_lines_end :
    (f : ℕ) (w : RedactingWriter)
    → next_line w.buf ≡ none
    → write_lines (suc f) w ≡ flush_if_large w
unfolding write_lines
write_lines_end f w e = rw (e, write_lines)

write_lines_more :
    (f : ℕ) (w : RedactingWriter) (r : Text × Text)
    → next_line w.buf ≡ some r
    → write_lines (suc f) w
      ≡ write_lines f (record w { dst = w.dst ++ redact_string r.0 w.values; buf = r.1 })
unfolding write_lines
write_lines_more f w r e = rw (e, write_lines)

write_lines-Keeps :
    (f : ℕ) (w : RedactingWriter) (s : Text)
    → length w.buf < f
    → LinesFit 0 (w.buf ++ s)
    → Keeps w (write_lines f w) s s
write_lines-Keeps zero w s b l = elim b [ ]
write_lines-Keeps (suc f) w s b l = elim (Option-cases (next_line w.buf)) [
  | inl e ↦
      rw
        (
          write_lines_end f w e,
          flush_if_large_small w (omega (arith, LinesFit-no_newline 0 w.buf s e l)),
        )
        (record { no_line = e; same_values = refl; same_total = refl; still_fits = l })
  | inr (r, e) ↦
      let next : RedactingWriter = record w {
        dst = w.dst ++ redact_string r.0 w.values;
        buf = r.1;
      } in
      let k =
        write_lines-Keeps f next s (omega (arith, next_line_shorter w.buf r e))
          (LinesFit-next_line 0 w.buf s r e l) in
      rw (write_lines_more f w r e) (record {
        no_line = k.no_line;
        same_values = k.same_values;
        same_total =
            k.same_total
            ∙ append_assoc w.dst (redact_string r.0 w.values) (redact_lines w.values [] (r.1 ++ s))
            ∙ ap (λ t. w.dst ++ t) (sym (redact_lines-next_line w.values [] w.buf s r e));
        still_fits = k.still_fits;
      })
]

write-Keeps :
    (w : RedactingWriter) (p s : Text)
    → LinesFit 0 (w.buf ++ (p ++ s))
    → Keeps w (write w p) (p ++ s) s
unfolding write
write-Keeps w p s l =
    let filled : RedactingWriter = record w { buf = w.buf ++ p } in
    let k =
      write_lines-Keeps (suc (length (w.buf ++ p))) filled s (omega arith)
        (rw (append_assoc w.buf p s) l) in
    record {
      no_line = k.no_line;
      same_values = k.same_values;
      same_total =
          k.same_total ∙ ap (λ t. w.dst ++ redact_lines w.values [] t) (append_assoc w.buf p s);
      still_fits = k.still_fits;
    }

write_all-Keeps :
    (w : RedactingWriter) (ps : List Text)
    → next_line w.buf ≡ none
    → LinesFit 0 (w.buf ++ concat ps)
    → Keeps w (write_all w ps) (concat ps) []
unfolding write_all concat
write_all-Keeps w [] n l = record {
  no_line = n;
  same_values = refl;
  same_total = refl;
  still_fits = l;
}
write_all-Keeps w (p ∷ ps) n l =
    let k = write-Keeps w p (concat ps) l in
    let ks = write_all-Keeps (write w p) ps k.no_line k.still_fits in
    record {
      no_line = ks.no_line;
      same_values = ks.same_values ∙ k.same_values;
      same_total = ks.same_total ∙ k.same_total;
      still_fits = ks.still_fits;
    }

flush-eq-total : (w : RedactingWriter) → next_line w.buf ≡ none → (flush w).dst ≡ total w []
unfolding flush
flush-eq-total w h =
    rw (append-nil w.buf, redact_lines-no_newline w.values [] w.buf h)
      (elim (Bool-cases (is_empty w.buf)) [ inl e ↦ rw e (sym (append-nil w.dst)) | inr e ↦ rw e ])

-- However a child's output is cut into writes, after the last Flush the destination holds the
-- output redacted line by line, where no line is longer than the limit of the buffer.
pub flush-write_all :
    (dst : Text) (values chunks : List Text)
    → LinesFit 0 (concat chunks)
    → (flush (write_all (new_redacting_writer dst values) chunks)).dst
      ≡ dst ++ redact_lines values [] (concat chunks)
flush-write_all dst values chunks l =
    let w = new_redacting_writer dst values in
    let k = write_all-Keeps w chunks (unfold next_line in refl) l in
    flush-eq-total (write_all w chunks) k.no_line ∙ k.same_total
