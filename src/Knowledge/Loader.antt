-- ===== src/Knowledge/Loader.antt =====
-- Policies as Markdown, cut into chunks (apps/ai-service/app/knowledge/loader.py).
-- A text is its code points, and `decimal` is `str` of an integer. The walk over a directory and the
-- search for a document's identifier in its first comment are left out.
pub mod Windows
use enterprise_work_order_ai.Prelude.{
  ℕ, zero, suc, ◌+◌, ◌-◌, min, max, Bool, true, false, not, ◌&&◌, ◌||◌, Option, none, some, List,
  [], ◌∷◌, ◌++◌, map, reverse, leb, ltb, ◌==◌, length, take, drop, if◌then◌else◌,
}
use enterprise_work_order_ai.Prelude.Text.{Str, codes, is_space, strip, nonempty, join_lines}
use enterprise_work_order_ai.Knowledge.Models.{PolicyChunk}

-- The characters at which `str.splitlines` breaks.
unfoldable pub is_line_break : ℕ → Bool
is_line_break c =
    (leb 10 c && leb c 13) || (leb 28 c && leb c 30) || c == 133 || c == 8232 || c == 8233

-- The lines from here on, where `line` is what is read of the present one, the last character first,
-- and `after_cr` tells that a carriage return was the last character.
unfoldable pub lines_from : Str → Bool → Str → List Str
unfolding is_line_break
lines_from line after_cr [] = if nonempty line then reverse line ∷ [] else []
lines_from line after_cr (c ∷ s) =
    let ends : Bool = is_line_break c in
    let rest = lines_from (if ends then [] else c ∷ line) (c == 13) s in
    if ends && not (after_cr && c == 10) then reverse line ∷ rest else rest

-- `text.splitlines()`
unfoldable pub split_lines : Str → List Str
unfolding lines_from
split_lines = lines_from [] false

-- The marks at the start of a line, three at most, and what follows them.
abbrev pub hashes : ℕ → Str → ℕ × Str
hashes zero s = (0, s)
hashes (suc n) [] = (0, [])
hashes (suc n) (c ∷ s) =
    let rest = hashes n s in if c == b'#' then (suc rest.0, rest.1) else (0, c ∷ s)

abbrev pub starts_blank : Str → Bool
starts_blank [] = false
starts_blank (c ∷ s) = is_space c

-- `HEADING_PATTERN.match(line)`: the level and the stripped heading. After one to three marks there
-- is a blank and at least one character more; a heading of blanks is empty once stripped.
unfoldable pub heading_match : Str → Option (ℕ × Str)
unfolding is_space strip
heading_match line =
    let marks = hashes 3 line in
    if leb 1 marks.0 && starts_blank marks.1 && leb 2 (length marks.1)
    then some (marks.0, strip marks.1)
    else none

-- The variables of `_parse_markdown_sections`.
pub record Sections : Type 0 where
  pub title : Str
  pub current_section : Str
  pub section_lines : List Str
  pub sections : List (Str × Str)

abbrev pub any_line : List Str → Bool
any_line [] = false
any_line (_ ∷ _) = true

-- `flush_section`
unfoldable pub flush_section : Sections → Sections
unfolding join_lines strip
flush_section p =
    let text : Str = strip (join_lines p.section_lines) in
    if nonempty p.current_section && any_line p.section_lines && nonempty text
    then record p { sections = p.sections ++ (p.current_section, text) ∷ [] }
    else p

-- One turn of the loop over the lines.
abbrev pub read_line : Sections → Str → Option (ℕ × Str) → Sections
read_line p line none =
    if nonempty p.current_section
    then record p { section_lines = p.section_lines ++ line ∷ [] }
    else p
read_line p line (some (level, heading)) =
    if level == 1
    then record p { title = heading }
    else record (flush_section p) { current_section = heading; section_lines = [] }

unfoldable pub read_lines : Sections → List Str → Sections
unfolding heading_match
read_lines p [] = p
read_lines p (line ∷ lines) = read_lines (read_line p line (heading_match line)) lines

-- `_parse_markdown_sections`
unfoldable pub parse_markdown_sections : Str → Str × List (Str × Str)
unfolding split_lines read_lines flush_section
parse_markdown_sections content =
    let read = flush_section (
      read_lines (record { title = []; current_section = []; section_lines = []; sections = [] })
        (split_lines content)) in
    (read.title, read.sections)

-- `text.rfind(mark, lo, hi) + 1`, with -1 where the mark is not found.
abbrev pub rfind_from : (mark lo hi at best : ℕ) → Str → ℕ
rfind_from mark lo hi at best [] = best
rfind_from mark lo hi at best (c ∷ s) =
    rfind_from mark lo hi (suc at) (if leb lo at && ltb at hi && c == mark then suc at else best) s

-- `"。！？；"`
abbrev pub sentence_marks : List ℕ
sentence_marks = 12290 ∷ 65281 ∷ 65311 ∷ 65307 ∷ []

-- The greatest of the `rfind`s, plus 1.
unfoldable pub last_mark : List ℕ → (lo hi : ℕ) → Str → ℕ
last_mark [] lo hi text = 0
last_mark (mark ∷ marks) lo hi text =
    max (rfind_from mark lo hi 0 0 text) (last_mark marks lo hi text)

-- `text[start:end]`
abbrev pub slice : Str → (start end : ℕ) → Str
slice text start end = take (end - start) (drop start text)

module _ (max_chars overlap : ℕ) where
  -- Where the window that begins at `start` ends.
  unfoldable pub window_end : Str → ℕ → ℕ
  unfolding last_mark
  window_end text start =
      let end : ℕ = min (length text) (start + max_chars) in
      let punctuation : ℕ = last_mark sentence_marks (start + 200) end text in
      if ltb end (length text) && ltb (suc start) punctuation then punctuation else end

  abbrev pub add_chunk : Str → Option (List Str) → Option (List Str)
  add_chunk chunk none = none
  add_chunk chunk (some chunks) = some (if nonempty chunk then chunk ∷ chunks else chunks)

  -- The loop, which has `fuel` turns at most; `none` where it has not come to its end by then.
  unfoldable pub split_from : (fuel : ℕ) → Str → ℕ → Option (List Str)
  unfolding window_end strip
  split_from zero text start = none
  split_from (suc fuel) text start =
      let end : ℕ = window_end text start in
      let rest = split_from fuel text (max (suc start) (end - overlap)) in
      if ltb start (length text)
      then add_chunk (strip (slice text start end))
          (if leb (length text) end then some [] else rest)
      else some []

  -- `_split_text`
  unfoldable pub split_text : Str → Option (List Str)
  unfolding split_from
  split_text text =
      if leb (length text) max_chars
      then some (text ∷ [])
      else split_from (suc (length text)) text 0

module _ (decimal : ℕ → Str) (document_id title : Str) where
  abbrev pub chunk_of : (section_index chunk_index : ℕ) (section text : Str) → PolicyChunk
  chunk_of section_index chunk_index section text = record {
    chunk_id =
        document_id ++ codes ":" ++ decimal section_index ++ codes ":" ++ decimal chunk_index;
    document_id = document_id;
    title = title;
    section = section;
    text = text;
  }

  unfoldable pub section_chunks :
      (section_index chunk_index : ℕ) → Str → List Str → List PolicyChunk
  section_chunks section_index chunk_index section [] = []
  section_chunks section_index chunk_index section (text ∷ texts) =
      chunk_of section_index chunk_index section text
      ∷ section_chunks section_index (suc chunk_index) section texts

  abbrev pub append_chunks :
      Option (List PolicyChunk) → Option (List PolicyChunk) → Option (List PolicyChunk)
  append_chunks (some xs) (some ys) = some (xs ++ ys)
  append_chunks _ _ = none

  abbrev pub chunks_of_texts : ℕ → Str → Option (List Str) → Option (List PolicyChunk)
  unfolding section_chunks
  chunks_of_texts section_index section none = none
  chunks_of_texts section_index section (some texts) =
      some (section_chunks section_index 0 section texts)

  -- The chunks of the sections from the given index on.
  unfoldable pub chunks_from : ℕ → List (Str × Str) → Option (List PolicyChunk)
  unfolding split_text section_chunks
  chunks_from section_index [] = some []
  chunks_from section_index (s ∷ sections) =
      append_chunks (chunks_of_texts section_index s.0 (split_text 500 50 s.1))
        (chunks_from (suc section_index) sections)

  -- `_build_policy_chunks`
  unfoldable pub build_policy_chunks : List (Str × Str) → Option (List PolicyChunk)
  unfolding chunks_from
  build_policy_chunks = chunks_from 0

  -- `chunk_policy_markdown`
  unfoldable pub chunk_policy_markdown : Str → Option (List PolicyChunk)
  unfolding parse_markdown_sections build_policy_chunks
  chunk_policy_markdown content = build_policy_chunks (parse_markdown_sections content).1
