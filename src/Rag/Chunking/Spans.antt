-- ===== src/Rag/Chunking/Spans.antt =====
-- backend/app/rag/chunking.py: `_document_spans` and `_paragraph_spans`. `is_blank` says that
-- `strip` leaves nothing of a line, and `is_heading` that `_HEADING` matches.
use remedy_graph.Prelude.{
  ℕ, ◌+◌, ◌-◌, ◌≤◌, ◌<◌, String, ◌≡◌, refl, Option, none, some, List, [], ◌∷◌, Bool-cases, inl, inr,
  Bool, true, false, not, ◌&&◌, ◌||◌, ltb, leb, eqb, any, filter, length, is_empty, arith,
  if◌then◌else◌,
}
use remedy_graph.Rag.Chunking.{Span}

abbrev pub lines_span : ℕ → ℕ → Span
lines_span a b = record { line_start = a; line_end = b; symbol = none }

-- whether line `k` is in the span
abbrev pub contains : ℕ → Span → Bool
contains k s = leb s.line_start k && leb k s.line_end

module _ (is_blank : String → Bool) where
  -- the loop, at the line number `index`, with the start of the paragraph that is open
  unfoldable pub paragraphs : Option ℕ → ℕ → List String → List Span
  paragraphs none index [] = []
  paragraphs (some start) index [] = lines_span start (index - 1) ∷ []
  paragraphs none index (line ∷ lines) =
      let closed = paragraphs none (index + 1) lines in
      let opened = paragraphs (some index) (index + 1) lines in
      if is_blank line then closed else opened
  paragraphs (some start) index (line ∷ lines) =
      let closed = paragraphs none (index + 1) lines in
      let opened = paragraphs (some start) (index + 1) lines in
      if is_blank line then lines_span start (index - 1) ∷ closed else opened

  unfoldable pub paragraph_spans : List String → List Span
  unfolding paragraphs
  paragraph_spans lines = paragraphs none 1 lines

  -- whether line `k` is there and is not blank, where the lines start at `index`
  unfoldable pub has_text_at : ℕ → ℕ → List String → Bool
  has_text_at index k [] = false
  has_text_at index k (line ∷ lines) =
      let rest = has_text_at (index + 1) k lines in
      if eqb index k then not (is_blank line) else rest

  before_start : (index k : ℕ) (lines : List String) → k < index → has_text_at index k lines ≡ false
  unfolding has_text_at
  before_start index k [] h = refl
  before_start index k (line ∷ lines) h = ground (arith, before_start (index + 1) k lines)

  -- a blank line ends the paragraph before it
  closed_at :
      (start index k : ℕ) (found rest : Bool)
      → start < index
      → found ≡ rest
      → (k < index + 1 → rest ≡ false)
      → ((leb start k && leb k (index - 1)) || found)
        ≡ ((leb start k && ltb k index) || (if eqb index k then not true else rest))
  closed_at start index k found rest h e early = ground arith

  -- another line goes on with it
  opened_at :
      (start index k : ℕ) (found rest : Bool)
      → start < index
      → found ≡ ((leb start k && ltb k (index + 1)) || rest)
      → found ≡ ((leb start k && ltb k index) || (if eqb index k then not false else rest))
  opened_at start index k found rest h e = ground arith

  mutual
    unfolding paragraphs has_text_at

    paragraphs-none :
        (index k : ℕ) (lines : List String)
        → 0 < index
        → any (contains k) (paragraphs none index lines) ≡ has_text_at index k lines
    paragraphs-none index k [] h = refl
    paragraphs-none index k (line ∷ lines) h = ground (
      arith,
      paragraphs-none (index + 1) k lines,
      paragraphs-some index (index + 1) k lines,
      before_start (index + 1) k lines,
    )

    paragraphs-some :
        (start index k : ℕ) (lines : List String)
        → start < index
        → any (contains k) (paragraphs (some start) index lines)
          ≡ ((leb start k && ltb k index) || has_text_at index k lines)
    paragraphs-some start index k [] h = ground arith
    paragraphs-some start index k (line ∷ lines) h = elim (Bool-cases (is_blank line)) [
      | inl b ↦ rw b (
          closed_at start index k (any (contains k) (paragraphs none (index + 1) lines))
            (has_text_at (index + 1) k lines) h (paragraphs-none (index + 1) k lines (omega arith))
            (before_start (index + 1) k lines))
      | inr b ↦ rw b (
          opened_at start index k (any (contains k) (paragraphs (some start) (index + 1) lines))
            (has_text_at (index + 1) k lines) h
            (paragraphs-some start (index + 1) k lines (omega arith)))
    ]

  -- A line is in a paragraph exactly when it is not blank.
  pub paragraph_spans-exact :
      (k : ℕ) (lines : List String)
      → any (contains k) (paragraph_spans lines) ≡ has_text_at 1 k lines
  unfolding paragraph_spans
  paragraph_spans-exact k lines = paragraphs-none 1 k lines (omega arith)

-- [(start, the next start - 1) …], and the last one to the end
unfoldable pub spans_from : ℕ → List ℕ → List Span
spans_from last [] = []
spans_from last (a ∷ []) = lines_span a last ∷ []
spans_from last (a ∷ b ∷ starts) = lines_span a (b - 1) ∷ spans_from last (b ∷ starts)

-- `if starts[0] != 1: starts.insert(0, 1)`
abbrev pub with_first : List ℕ → List ℕ
with_first [] = []
with_first (a ∷ starts) = if eqb a 1 then a ∷ starts else 1 ∷ a ∷ starts

-- strictly increasing, up to the last line
abbrev Increasing : ℕ → List ℕ → Type 0
Increasing last [] = Unit
Increasing last (a ∷ []) = a ≤ last
Increasing last (a ∷ b ∷ starts) = (a < b) × Increasing last (b ∷ starts)

abbrev count_in : ℕ → List Span → ℕ
count_in k spans = length (filter (contains k) spans)

Increasing-le : (last a : ℕ) (starts : List ℕ) → Increasing last (a ∷ starts) → a ≤ last
Increasing-le last a [] h = h
Increasing-le last a (b ∷ starts) h = omega (arith, Increasing-le last b starts h.1, h.0)

count_in-spans_from :
    (last k a : ℕ) (starts : List ℕ)
    → Increasing last (a ∷ starts)
    → count_in k (spans_from last (a ∷ starts)) ≡ (if leb a k && leb k last then 1 else 0)
unfolding spans_from
count_in-spans_from last k a [] h = ground arith
count_in-spans_from last k a (b ∷ starts) h =
    ground (arith, count_in-spans_from last k b starts h.1, Increasing-le last b starts h.1)

module _ (is_blank is_heading : String → Bool) where
  unfoldable pub heading_starts : ℕ → List String → List ℕ
  heading_starts index [] = []
  heading_starts index (line ∷ lines) =
      let rest = heading_starts (index + 1) lines in if is_heading line then index ∷ rest else rest

  unfoldable pub document_spans : List String → List Span
  unfolding heading_starts
  document_spans lines =
      let starts = heading_starts 1 lines in
      if is_empty starts
      then paragraph_spans is_blank lines
      else spans_from (length lines) (with_first starts)

  Increasing-heading_starts :
      (last a index : ℕ) (lines : List String)
      → a < index
      → index + length lines ≡ last + 1
      → Increasing last (a ∷ heading_starts index lines)
  unfolding heading_starts
  Increasing-heading_starts last a index [] h e = omega arith
  Increasing-heading_starts last a index (line ∷ lines) h e = elim (Bool-cases (is_heading line)) [
    | inl b ↦
        rw b (h, Increasing-heading_starts last index (index + 1) lines (omega arith) (omega arith))
    | inr b ↦ rw b (Increasing-heading_starts last a (index + 1) lines (omega arith) (omega arith))
  ]

  is_empty-heading_starts :
      (index : ℕ) (lines : List String)
      → is_empty (heading_starts index lines) ≡ not (any is_heading lines)
  unfolding heading_starts
  is_empty-heading_starts index [] = refl
  is_empty-heading_starts index (line ∷ lines) =
      ground (arith, is_empty-heading_starts (index + 1) lines)

  with_first_above :
      (last : ℕ) (starts : List ℕ)
      → Increasing last (1 ∷ starts)
      → is_empty starts ≡ false
      → with_first starts ≡ 1 ∷ starts
  with_first_above last [] h e = cc
  with_first_above last (a ∷ starts) h e = ground arith

  -- the first line starts a span, whether it is a heading or not
  with_first-starts :
      (line : String) (lines : List String)
      → any is_heading (line ∷ lines) ≡ true
      → with_first (heading_starts 1 (line ∷ lines)) ≡ 1 ∷ heading_starts 2 lines
  unfolding heading_starts
  with_first-starts line lines h = elim (Bool-cases (is_heading line)) [
    | inl b ↦ rw b
    | inr b ↦ rw b (
        with_first_above (length lines + 1) (heading_starts 2 lines)
          (Increasing-heading_starts (length lines + 1) 1 2 lines (omega arith) (omega arith))
          (ground (arith, is_empty-heading_starts 2 lines)))
  ]

  -- Where a document has a heading, each of its lines is in exactly one span, and no span has a line
  -- beyond the document.
  pub document_spans-partition :
      (k : ℕ) (lines : List String)
      → any is_heading lines ≡ true
      → length (filter (contains k) (document_spans lines))
        ≡ (if leb 1 k && leb k (length lines) then 1 else 0)
  unfolding document_spans
  document_spans-partition k [] h = cc
  document_spans-partition k (line ∷ lines) h =
      let last = length (line ∷ lines) in
      let found : is_empty (heading_starts 1 (line ∷ lines)) ≡ false =
        ground (arith, is_empty-heading_starts 1 (line ∷ lines)) in
      rw (found, with_first-starts line lines h)
        (count_in-spans_from last k 1 (heading_starts 2 lines)
          (Increasing-heading_starts last 1 2 lines (omega arith) (omega arith)))
