-- ===== src/Util/Search.antt =====
-- util.rs: `find`.
use Prim.Native.Char.{code}
use Prim.Native.String.{String}
use rd.Prelude.{
  ℕ, ◌+◌, Bool, true, false, ◌&&◌, Option, none, some, List, [], ◌∷◌, ltb, ◌==◌, if◌then◌else◌,
  length,
}

-- `starts_with` of slices
unfoldable pub starts_with : List ℕ → List ℕ → Bool
starts_with bs [] = true
starts_with [] (n ∷ ns) = false
starts_with (b ∷ bs) (n ∷ ns) = b == n && starts_with bs ns

-- The loop of `find`, at `i` with `rest` to go.
unfoldable pub find_from : List ℕ → ℕ → ℕ → List ℕ → Option ℕ
find_from needle haystack_len i [] =
    if ltb haystack_len (i + length needle)
    then none
    else if starts_with [] needle
    then some i
    else none
find_from needle haystack_len i (b ∷ bs) =
    let later = find_from needle haystack_len (i + 1) bs in
    if ltb haystack_len (i + length needle)
    then none
    else if starts_with (b ∷ bs) needle
    then some i
    else later

unfoldable pub find : List ℕ → List ℕ → Option ℕ
unfolding find_from starts_with
find haystack needle = find_from needle (length haystack) 0 haystack

-- The bytes of an ASCII literal.
abbrev pub codes : String → List ℕ
codes String.[] = []
codes (String.◌∷◌ c s) = code c ∷ codes s

-- Equality of strings of bytes.
abbrev pub bytes_eq : List ℕ → List ℕ → Bool
bytes_eq [] [] = true
bytes_eq [] (c ∷ cs) = false
bytes_eq (b ∷ bs) [] = false
bytes_eq (b ∷ bs) (c ∷ cs) = b == c && bytes_eq bs cs
