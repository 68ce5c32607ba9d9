-- ===== src/Tests/Chunks.antt =====
-- Chunks and spans of a few lines.
use remedy_graph.Prelude.{
  String, ◌≡◌, refl, none, List, [], ◌∷◌, Bool, ◌==◌, ◌&&◌, ◌||◌, any, filter, length, leb,
  if◌then◌else◌,
}
use remedy_graph.Rag.Chunking.{NormalizedDocument, DocumentType, Span, bounded_chunks}
use remedy_graph.Rag.Chunking.Laws.{Cover, bounded_chunks-Cover}
use remedy_graph.Rag.Chunking.Spans.{
  contains, paragraph_spans, has_text_at, paragraph_spans-exact, document_spans,
  document_spans-partition,
}
use remedy_graph.Tests.Samples.{no_hash}

abbrev lines : List String
lines = "# Retries" ∷ "Retry at most 3 times." ∷ "" ∷ "# Alerts" ∷ []

abbrev notes : NormalizedDocument
notes = record {
  id = "d1";
  source_path = "notes.md";
  document_type = DocumentType.document;
  language = none;
}

abbrev span : Span
span = record { line_start = 1; line_end = 4; symbol = none }

abbrev is_blank : String → Bool
is_blank line = line == ""

abbrev is_heading : String → Bool
is_heading line = line == "# Retries" || line == "# Alerts"

bounded_chunks-Cover_example : Cover 20 1 lines (bounded_chunks no_hash 20 "v1" notes span lines)
bounded_chunks-Cover_example = bounded_chunks-Cover no_hash 20 "v1" notes span lines

paragraph_spans-exact_example :
    any (contains 2) (paragraph_spans is_blank lines) ≡ has_text_at is_blank 1 2 lines
paragraph_spans-exact_example = paragraph_spans-exact is_blank 2 lines

document_spans-partition_example :
    length (filter (contains 3) (document_spans is_blank is_heading lines))
    ≡ (if leb 1 3 && leb 3 (length lines) then 1 else 0)
document_spans-partition_example = document_spans-partition is_blank is_heading 3 lines refl
