-- ===== src/Rag/Chunking/Laws.antt =====
-- backend/app/rag/chunking.py: the lines and the size of the chunks of a span.
use Prim.Native.String.{count}
use mathlib.Core.Path.{subst}
use remedy_graph.Prelude.{
  ℕ, zero, suc, ◌+◌, ◌-◌, ◌≤◌, ◌<◌, String, ◌≡◌, refl, List, [], ◌∷◌, Bool, true, false, ◌||◌, leb,
  eqb, length, take, drop, length-drop, arith, if◌then◌else◌,
}
use remedy_graph.Ids.{join}
use remedy_graph.Rag.Chunking.{
  NormalizedDocument, DocumentChunk, Span, fill, window, chunk_of, chunk_lines, bounded_chunks,
}

-- the characters of lines with a line break before each
abbrev pub tail_size : List String → ℕ
tail_size [] = 0
tail_size (line ∷ lines) = 1 + count line + tail_size lines

-- len("\n".join(lines))
abbrev pub size : List String → ℕ
size [] = 0
size (line ∷ lines) = count line + tail_size lines

-- one line, or one after an empty line: these may be larger than the bound
abbrev pub is_one_line : List String → Bool
is_one_line (line ∷ []) = true
is_one_line (blank ∷ line ∷ []) = eqb (count blank) 0
is_one_line _ = false

abbrev pub fits : ℕ → List String → Bool
fits max_chars lines = leb (size lines) max_chars || is_one_line lines

fill-fits :
    (max_chars chars : ℕ) (lines : List String)
    → 0 < chars
    → chars ≤ max_chars
    → chars + tail_size (take (fill max_chars false chars lines) lines) ≤ max_chars
unfolding fill
fill-fits max_chars chars [] p h = omega arith
fill-fits max_chars chars (line ∷ lines) p h =
    ground (arith, fill-fits max_chars (chars + (count line + 1)) lines)

fill-le :
    (max_chars : ℕ) (first : Bool) (chars : ℕ) (lines : List String)
    → fill max_chars first chars lines ≤ length lines
unfolding fill
fill-le max_chars first chars [] = omega arith
fill-le max_chars first chars (line ∷ lines) =
    ground (arith, fill-le max_chars false (chars + (count line + (if first then 0 else 1))) lines)

window-bounds :
    (max_chars : ℕ) (line : String) (lines : List String)
    → (0 < window max_chars (line ∷ lines))
      × (window max_chars (line ∷ lines) ≤ length (line ∷ lines))
unfolding window
window-bounds max_chars line lines = ground (arith, fill-le max_chars true 0 (line ∷ lines))

window-fits :
    (max_chars : ℕ) (line : String) (lines : List String)
    → fits max_chars (take (window max_chars (line ∷ lines)) (line ∷ lines)) ≡ true
unfolding window fill
window-fits max_chars line [] = ground arith
window-fits max_chars line (next ∷ lines) =
    ground (arith, fill-fits max_chars (0 + (count line + 0) + (count next + 1)) lines)

-- What chunks say of lines, from the line number `start` on.
abbrev pub Cover : ℕ → ℕ → List String → List DocumentChunk → Type 0
Cover max_chars start lines [] = lines ≡ []
Cover max_chars start lines (c ∷ cs) =
    (n : ℕ) × (0 < n)
    × (n ≤ length lines)
    × (c.text ≡ join "\n" (take n lines))
    × (c.line_start ≡ start)
    × (c.line_end ≡ start + n - 1)
    × (fits max_chars (take n lines) ≡ true)
    × Cover max_chars (start + n) (drop n lines) cs

module _ (sha256_hex : String → String) (max_chars : ℕ) (index_version : String)
    (document : NormalizedDocument) (span : Span) where
  chunk_lines-Cover :
      (fuel offset : ℕ) (lines : List String)
      → length lines ≤ fuel
      → Cover max_chars
          (span.line_start + offset)
          lines
          (chunk_lines sha256_hex max_chars index_version document span fuel offset lines)
  unfolding chunk_lines chunk_of
  chunk_lines-Cover zero offset [] h = refl
  chunk_lines-Cover (suc fuel) offset [] h = refl
  chunk_lines-Cover zero offset (line ∷ lines) h = absurd (omega arith)
  chunk_lines-Cover (suc fuel) offset (line ∷ lines) h =
      let n = window max_chars (line ∷ lines) in
      let bounds = window-bounds max_chars line lines in
      let next : span.line_start + offset + n ≡ span.line_start + (offset + n) = omega arith in
      let left : length (drop n (line ∷ lines)) ≤ fuel =
        omega (arith, length-drop n (line ∷ lines), bounds.0, h) in
      (
        n,
        bounds.0,
        bounds.1,
        refl,
        refl,
        omega arith,
        window-fits max_chars line lines,
        rw next (chunk_lines-Cover fuel (offset + n) (drop n (line ∷ lines)) left),
      )

  -- The chunks of a span cover its lines in order, none left out and none twice: each has the text of
  -- the next lines, at least one, with their line numbers in the span, and is no longer than the
  -- bound unless it is one line, or one line after an empty one.
  pub bounded_chunks-Cover :
      (lines : List String)
      → Cover max_chars span.line_start lines
          (bounded_chunks sha256_hex max_chars index_version document span lines)
  unfolding bounded_chunks
  bounded_chunks-Cover lines =
      let start : span.line_start + 0 ≡ span.line_start = omega arith in
      subst
        (λ n.
          Cover max_chars n lines
            (chunk_lines sha256_hex max_chars index_version document span (length lines) 0 lines))
        start (chunk_lines-Cover (length lines) 0 lines (omega arith))
