-- ===== src/Storage/Rows.antt =====
-- The documented view of a RocksDB column family: its rows in the order of their keys, which are
-- compared byte by byte.
pub mod BigEndian
pub mod Put
use settled.Prelude.{
  ℕ, List, [], ◌∷◌, Option, none, some, Bool, true, false, ◌&&◌, ◌||◌, ltb, ◌==◌, if◌then◌else◌,
  be_bytes,
}
use mathlib.Core.List.{reverse}
use settled.Core.Hash.{Bytes, bytes_eq}

abbrev pub Row : Type 0
Row = Bytes × Bytes

abbrev pub Rows : Type 0
Rows = List Row

-- `to_be_bytes` of a `u64`, the keys of the log, the heads and the tree.
unfoldable pub u64_key : ℕ → Bytes
u64_key n = be_bytes 8 n

unfoldable pub lex_lt : Bytes → Bytes → Bool
lex_lt [] [] = false
lex_lt [] (y ∷ ys) = true
lex_lt (x ∷ xs) [] = false
lex_lt (x ∷ xs) (y ∷ ys) = ltb x y || (x == y && lex_lt xs ys)

unfoldable pub find_row : Bytes → Rows → Option Bytes
find_row k [] = none
find_row k ((k', v) ∷ rows) = if bytes_eq k' k then some v else find_row k rows

unfoldable pub put_row : Bytes → Bytes → Rows → Rows
put_row k v [] = (k, v) ∷ []
put_row k v ((k', v') ∷ rows) =
    let rest = put_row k v rows in
    if lex_lt k k'
    then (k, v) ∷ (k', v') ∷ rows
    else if bytes_eq k' k
    then (k, v) ∷ rows
    else (k', v') ∷ rest

unfoldable pub has_key : List Bytes → Bytes → Bool
has_key [] k = false
has_key (k' ∷ keys) k = bytes_eq k' k || has_key keys k

-- What deleting keys leaves.
unfoldable pub delete_rows : List Bytes → Rows → Rows
delete_rows keys [] = []
delete_rows keys ((k, v) ∷ rows) =
    let rest = delete_rows keys rows in if has_key keys k then rest else (k, v) ∷ rest

-- The rows from a key on.
unfoldable pub rows_from : Bytes → Rows → Rows
rows_from k [] = []
rows_from k ((k', v) ∷ rows) =
    let rest = rows_from k rows in if lex_lt k' k then rest else (k', v) ∷ rows

pub data IteratorMode : Type 0 where
  start end : IteratorMode
  from_forward : Bytes → IteratorMode

unfoldable pub rows_in : IteratorMode → Rows → Rows
rows_in start rows = rows
rows_in end rows = reverse rows
rows_in (from_forward k) rows = rows_from k rows
