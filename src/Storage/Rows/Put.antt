-- ===== src/Storage/Rows/Put.antt =====
-- A lookup after a put.
use settled.Prelude.{[], ◌∷◌, some, ◌≡◌, ◌≢◌, inl, inr, false, Bool-cases}
use settled.Core.Hash.{Bytes, bytes_eq}
use settled.Core.Hash.Collisions.{bytes_eq_iff, bytes_eq_refl}
use settled.Storage.Rows.{Rows, lex_lt, find_row, put_row}

pub find_row-put_row : (k v : Bytes) (rows : Rows) → find_row k (put_row k v rows) ≡ some v
unfolding find_row put_row
find_row-put_row k v [] = rw (bytes_eq_refl k)
find_row-put_row k v ((k', v') ∷ rows) = elim (Bool-cases (lex_lt k k')) [
  | inl lt ↦ rw (lt, bytes_eq_refl k)
  | inr ge ↦ elim (Bool-cases (bytes_eq k' k)) [
    | inl e ↦ rw (ge, e, bytes_eq_refl k)
    | inr ne ↦ rw (ge, ne, ne) (find_row-put_row k v rows)
  ]
]

pub bytes_eq_ne : (xs ys : Bytes) → xs ≢ ys → bytes_eq xs ys ≡ false
bytes_eq_ne xs ys ne = elim (Bool-cases (bytes_eq xs ys)) [
  | inl e ↦ absurd (ne ((bytes_eq_iff xs ys).0 e))
  | inr e ↦ e
]

pub find_row-put_row_other :
    (k v k₂ : Bytes) (rows : Rows) → k ≢ k₂ → find_row k₂ (put_row k v rows) ≡ find_row k₂ rows
unfolding find_row put_row
find_row-put_row_other k v k₂ [] ne = rw (bytes_eq_ne k k₂ ne)
find_row-put_row_other k v k₂ ((k', v') ∷ rows) ne = elim (Bool-cases (lex_lt k k')) [
  | inl lt ↦ rw (lt, bytes_eq_ne k k₂ ne)
  | inr ge ↦ elim (Bool-cases (bytes_eq k' k)) [
    | inl e ↦ rw (ge, e, bytes_eq_ne k k₂ ne, (bytes_eq_iff k' k).0 e, bytes_eq_ne k k₂ ne)
    | inr differ ↦ rw (ge, differ, find_row-put_row_other k v k₂ rows ne)
  ]
]
