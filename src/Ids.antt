-- ===== src/Ids.antt =====
-- backend/app/ids.py: `stable_id`. The hexadecimal SHA-256 of a text comes from `hashlib` and is a
-- parameter, `sha256_hex`.
use Prim.Native.String.{slice, ◌++◌ as ◌<>◌}
use remedy_graph.Prelude.{ℕ, zero, suc, ◌/◌, ◌%◌, String, List, [], ◌∷◌, ltb, if◌then◌else◌}

-- sep.join(parts)
unfoldable pub join : String → List String → String
join sep [] = ""
join sep (x ∷ []) = x
join sep (x ∷ y ∷ ys) = x <> sep <> join sep (y ∷ ys)

unfoldable pub stable_id : (String → String) → String → List String → String
unfolding join
stable_id sha256_hex kind parts =
    kind <> "_" <> slice (sha256_hex (join "\u{1f}" (kind ∷ parts))) 0 20

digit : ℕ → String
digit n = slice "0123456789" n (suc n)

decimal : ℕ → ℕ → String
unfolding digit
decimal zero n = ""
decimal (suc fuel) n =
    let front = decimal fuel (n / 10) in if ltb n 10 then digit n else front <> digit (n % 10)

-- str(n); a number has fewer digits than itself plus one
unfoldable pub str : ℕ → String
unfolding decimal
str n = decimal (suc n) n
