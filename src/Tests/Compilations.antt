-- ===== src/Tests/Compilations.antt =====
-- The compiler on the sample action, with a small set of text tools.
use remedy_graph.Prelude.{none, some, [], ◌∷◌, true, false}
use remedy_graph.Audit.Compiler.Terms.{TextTools}
use remedy_graph.Audit.Compiler.{compile_action, compile}
use remedy_graph.Audit.Compiler.Laws.{IsSound, Covers, compile_action-IsSound, compile-Covers}
use remedy_graph.Tests.Samples.{no_hash, cap_retries}

-- tools that find the number 3 in every text, and no unit
abbrev pub tools : TextTools
tools = record {
  lower = λ s. s;
  strip = λ s. s;
  format = λ n. "3";
  find_number = λ s. some (record { mantissa = 3; scale = 0 }, none);
  mentions_runtime = λ s. false;
  mentions_test = λ s. false;
  mentions_code = λ s. false;
  mentions_at_most = λ s. true;
  mentions_at_least = λ s. false;
  words = λ s. s ∷ [];
}

compile_action-IsSound_example :
    IsSound tools no_hash cap_retries
      (compile_action tools no_hash cap_retries).invariants
      (compile_action tools no_hash cap_retries).check_specs
compile_action-IsSound_example = compile_action-IsSound tools no_hash cap_retries

compile-Covers_example :
    Covers tools no_hash
      (cap_retries ∷ [])
      (compile tools no_hash (cap_retries ∷ [])).invariants
      (compile tools no_hash (cap_retries ∷ [])).check_specs
compile-Covers_example = compile-Covers tools no_hash (cap_retries ∷ [])
