-- ===== src/Rag/Chunking.antt =====
-- backend/app/rag/chunking.py: `_bounded_chunks`, the chunks of one span, from the lines that
-- `splitlines` gives of its text.
pub mod Laws
pub mod Spans
use Prim.Native.String.{count}
use remedy_graph.Prelude.{
  ℕ, zero, suc, ◌+◌, ◌-◌, String, Option, none, some, List, [], ◌∷◌, Bool, true, false, ◌&&◌, ltb,
  leb, eqb, length, take, drop, if◌then◌else◌,
}
use remedy_graph.Ids.{join, stable_id, str}

pub data DocumentType : Type 0 where
  document source configuration test : DocumentType

-- what a chunk takes from `NormalizedDocument`
pub record NormalizedDocument : Type 0 where
  pub id : String
  pub source_path : String
  pub document_type : DocumentType
  pub language : Option String

pub record DocumentChunk : Type 0 where
  pub id : String
  pub document_id : String
  pub source_path : String
  pub text : String
  pub line_start : ℕ
  pub line_end : ℕ
  pub document_type : DocumentType
  pub language : Option String
  pub symbol : Option String
  pub content_hash : String
  pub index_version : String

pub record Span : Type 0 where
  pub line_start : ℕ
  pub line_end : ℕ
  pub symbol : Option String

abbrev pub or_empty : Option String → String
or_empty none = ""
or_empty (some s) = s

-- the inner loop: how many more lines it takes, after `chars` characters
unfoldable pub fill : ℕ → Bool → ℕ → List String → ℕ
fill max_chars first chars [] = 0
fill max_chars first chars (line ∷ lines) =
    let total = chars + (count line + (if first then 0 else 1)) in
    let rest = fill max_chars false total lines in
    if ltb 0 chars && ltb max_chars total then 0 else if leb max_chars total then 1 else suc rest

-- `if end == offset: end += 1`
unfoldable pub window : ℕ → List String → ℕ
window max_chars lines = let n = fill max_chars true 0 lines in if eqb n 0 then 1 else n

module _ (sha256_hex : String → String) (max_chars : ℕ) (index_version : String)
    (document : NormalizedDocument) (span : Span) where
  -- the chunk of `n` lines from an offset in the span
  unfoldable pub chunk_of : ℕ → ℕ → List String → DocumentChunk
  chunk_of offset n lines =
      let text = join "\n" (take n lines) in
      let first = span.line_start + offset in
      let last = span.line_start + (offset + n) - 1 in
      let hash = sha256_hex text in
      record {
        id =
            stable_id sha256_hex "chunk"
              (document.id ∷ str first ∷ str last ∷ or_empty span.symbol ∷ hash ∷ []);
        document_id = document.id;
        source_path = document.source_path;
        text = text;
        line_start = first;
        line_end = last;
        document_type = document.document_type;
        language = document.language;
        symbol = span.symbol;
        content_hash = hash;
        index_version = index_version;
      }

  -- the outer loop, from an offset, on the lines that are left
  unfoldable pub chunk_lines : ℕ → ℕ → List String → List DocumentChunk
  chunk_lines zero offset lines = []
  chunk_lines (suc fuel) offset [] = []
  chunk_lines (suc fuel) offset (line ∷ lines) =
      let n = window max_chars (line ∷ lines) in
      chunk_of offset n (line ∷ lines) ∷ chunk_lines fuel (offset + n) (drop n (line ∷ lines))

  -- each round takes a line, so a round for every line is enough
  unfoldable pub bounded_chunks : List String → List DocumentChunk
  unfolding chunk_lines
  bounded_chunks lines = chunk_lines (length lines) 0 lines
