-- ===== src/Accounts/Listing.antt =====
-- What the list of the keys shows.
use asb_cloud_api.Base.{
  ◌≡◌, refl, ◌+◌, ◌≤◌, Bool, List, [], ◌∷◌, count_if, map, arith, if◌then◌else◌,
}
use asb_cloud_api.Accounts.{
  Account, Table, KeyLine, key_line, insert_newest, newest_first, list_keys,
}

-- From the newest to the oldest.
abbrev pub IsNewestFirst : List KeyLine → Type 0
IsNewestFirst [] = Unit
IsNewestFirst (a ∷ []) = Unit
IsNewestFirst (a ∷ b ∷ lines) = (b.created_at ≤ a.created_at) × IsNewestFirst (b ∷ lines)

count_if-insert_newest :
    (p : KeyLine → Bool) (a : Account) (t : Table)
    → count_if p (map key_line (insert_newest a t))
      ≡ (if p (key_line a) then 1 else 0) + count_if p (map key_line t)
unfolding insert_newest
count_if-insert_newest p a [] = ground arith
count_if-insert_newest p a (b ∷ t) = ground (arith, count_if-insert_newest p a t)

insert_newest-IsNewestFirst :
    (a : Account) (t : Table)
    → IsNewestFirst (map key_line t)
    → IsNewestFirst (map key_line (insert_newest a t))
unfolding insert_newest key_line
insert_newest-IsNewestFirst a [] sorted = tt
insert_newest-IsNewestFirst a (b ∷ []) sorted = ground arith
insert_newest-IsNewestFirst a (b ∷ c ∷ t) sorted =
    ground (arith, insert_newest-IsNewestFirst a (c ∷ t) sorted.1)

newest_first-IsNewestFirst : (t : Table) → IsNewestFirst (map key_line (newest_first t))
unfolding newest_first
newest_first-IsNewestFirst [] = tt
newest_first-IsNewestFirst (a ∷ t) =
    insert_newest-IsNewestFirst a (newest_first t) (newest_first-IsNewestFirst t)

count_if-newest_first :
    (p : KeyLine → Bool) (t : Table)
    → count_if p (map key_line (newest_first t)) ≡ count_if p (map key_line t)
unfolding newest_first
count_if-newest_first p [] = refl
count_if-newest_first p (a ∷ t) =
    ground (arith, count_if-insert_newest p a (newest_first t), count_if-newest_first p t)

-- The list of the keys shows every row as often as it is there, the newest first.
pub list_keys-IsNewestFirst :
    (p : KeyLine → Bool) (t : Table)
    → IsNewestFirst (list_keys t) × (count_if p (list_keys t) ≡ count_if p (map key_line t))
unfolding list_keys
list_keys-IsNewestFirst p t = (newest_first-IsNewestFirst t, count_if-newest_first p t)
