-- ===== src/Text/StringSet.antt =====
-- `std::set<std::string>`: the elements in ascending order, each once.
use cpufb.Base.{◌≡◌, refl, List, [], ◌∷◌, Bool, true, false, ◌||◌, arith, Bytes, if◌then◌else◌}
use cpufb.Text.Bytes.{bytes_eq, bytes_lt, bytes_eq_refl, bytes_eq→eq}

unfoldable pub insert : Bytes → List Bytes → List Bytes
insert k [] = k ∷ []
insert k (x ∷ xs) =
    let rest = insert k xs in
    if bytes_eq k x then x ∷ xs else if bytes_lt k x then k ∷ x ∷ xs else x ∷ rest

-- `s.find(k) != s.end()`.
unfoldable pub member : Bytes → List Bytes → Bool
member k [] = false
member k (x ∷ xs) = bytes_eq k x || member k xs

unfoldable pub no_elements : List Bytes → Bool
no_elements [] = true
no_elements (x ∷ xs) = false

-- An inserted element is in the set, and nothing else changes.
pub member-insert :
    (j k : Bytes) (xs : List Bytes) → member j (insert k xs) ≡ (bytes_eq j k || member j xs)
unfolding member insert
member-insert j k [] = refl
member-insert j k (x ∷ xs) = ground (arith, member-insert j k xs, bytes_eq→eq k x, bytes_eq_refl j)

pub member-insert_self : (k : Bytes) (xs : List Bytes) → member k (insert k xs) ≡ true
member-insert_self k xs = rw (member-insert k k xs, bytes_eq_refl k) refl

-- Ascending without repetition.
abbrev pub Above : Bytes → List Bytes → Type 0
Above k [] = Unit
Above k (x ∷ xs) = bytes_lt k x ≡ true

abbrev pub IsAscending : List Bytes → Type 0
IsAscending [] = Unit
IsAscending (x ∷ xs) = Above x xs × IsAscending xs

bytes_lt-total : (s t : Bytes) → bytes_eq s t ≡ false → bytes_lt s t ≡ false → bytes_lt t s ≡ true
unfolding bytes_lt bytes_eq
bytes_lt-total [] [] e h = cc
bytes_lt-total [] (d ∷ t) e h = cc
bytes_lt-total (c ∷ s) [] e h = refl
bytes_lt-total (c ∷ s) (d ∷ t) e h = ground (arith, bytes_lt-total s t)

insert-Above :
    (x k : Bytes) (xs : List Bytes) → Above x xs → bytes_lt x k ≡ true → Above x (insert k xs)
unfolding insert
insert-Above x k [] a h = h
insert-Above x k (y ∷ ys) a h = ground arith

pub insert-IsAscending : (k : Bytes) (xs : List Bytes) → IsAscending xs → IsAscending (insert k xs)
unfolding insert
insert-IsAscending k [] h = (tt, tt)
insert-IsAscending k (x ∷ xs) h =
    ground (arith, insert-IsAscending k xs h.1, insert-Above x k xs h.0, bytes_lt-total k x)
