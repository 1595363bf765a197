-- ===== src/Agent/Queue/Bounds.antt =====
-- What the queue keeps: its size, its order and what is dropped.
use soul_room_edge_platform.Base.{
  ℕ, suc, ◌+◌, ◌-◌, ◌≡◌, refl, sym, ◌∙◌, ap, ◌⊎◌, inl, inr, Bool, true, false, not, ◌&&◌, ◌||◌,
  List, [], ◌∷◌, ◌++◌, leb, arith, Bool-cases,
}
use mathlib.Core.List.{append-nil, append_assoc}
use soul_room_edge_platform.Base.Lists.{length, filter, All, length-append, length-filter}
use soul_room_edge_platform.Agent.Queue.{
  QueueItem, Store, high, equal_ℤ, total_bytes, before, is_stale, insert_stable, sort_stable,
  is_empty, trim, reverse, prune,
}

-- Every item stands where the order of the queue wants it.
abbrev pub IsOrdered : List QueueItem → Type 0
IsOrdered [] = Unit
IsOrdered (x ∷ xs) = All (λ y. before y x ≡ false) xs × IsOrdered xs

before_trans : (x y z : QueueItem) → before y x ≡ false → before z y ≡ false → before z x ≡ false
before_trans x y z h k = ground arith

All-insert_stable :
    (P : QueueItem → Type 0) (x : QueueItem) (ys : List QueueItem)
    → P x
    → All P ys
    → All P (insert_stable x ys)
unfolding insert_stable
All-insert_stable P x [] p h = (p, tt)
All-insert_stable P x (y ∷ ys) p h = ground (arith, All-insert_stable P x ys p h.1)

All-before :
    (x y : QueueItem) (ys : List QueueItem)
    → before y x ≡ false
    → All (λ z. before z y ≡ false) ys
    → All (λ z. before z x ≡ false) ys
All-before x y [] h k = tt
All-before x y (z ∷ ys) h k = (before_trans x y z h k.0, All-before x y ys h k.1)

before_asym : (x y : QueueItem) → before y x ≡ true → before x y ≡ false
before_asym x y h = ground arith

insert_stable-IsOrdered :
    (x : QueueItem) (ys : List QueueItem) → IsOrdered ys → IsOrdered (insert_stable x ys)
unfolding insert_stable
insert_stable-IsOrdered x [] h = (tt, tt)
insert_stable-IsOrdered x (y ∷ ys) h = elim (Bool-cases (before y x)) [
  | inl e ↦ ground (
    arith,
    insert_stable-IsOrdered x ys h.1,
    All-insert_stable (λ z. before z y ≡ false) x ys (before_asym x y e) h.0,
  )
  | inr e ↦ ground (arith, All-before x y ys e h.0)
]

sort_stable-IsOrdered : (xs : List QueueItem) → IsOrdered (sort_stable xs)
unfolding sort_stable
sort_stable-IsOrdered [] = tt
sort_stable-IsOrdered (x ∷ xs) =
    insert_stable-IsOrdered x (sort_stable xs) (sort_stable-IsOrdered xs)

length-insert_stable :
    (x : QueueItem) (ys : List QueueItem) → length (insert_stable x ys) ≡ suc (length ys)
unfolding insert_stable
length-insert_stable x [] = refl
length-insert_stable x (y ∷ ys) = ground (arith, length-insert_stable x ys)

length-sort_stable : (xs : List QueueItem) → length (sort_stable xs) ≡ length xs
unfolding sort_stable
length-sort_stable [] = refl
length-sort_stable (x ∷ xs) =
    omega (arith, length-insert_stable x (sort_stable xs), length-sort_stable xs)

reverse-append : (xs ys : List QueueItem) → reverse (xs ++ ys) ≡ reverse ys ++ reverse xs
reverse-append [] ys = sym (append-nil (reverse ys))
reverse-append (x ∷ xs) ys =
    rw (reverse-append xs ys, append_assoc (reverse ys) (reverse xs) (x ∷ []))

reverse-reverse : (xs : List QueueItem) → reverse (reverse xs) ≡ xs
reverse-reverse [] = refl
reverse-reverse (x ∷ xs) = rw (reverse-append (reverse xs) (x ∷ []), reverse-reverse xs)

length-reverse : (xs : List QueueItem) → length (reverse xs) ≡ length xs
length-reverse [] = refl
length-reverse (x ∷ xs) = omega (arith, length-append (reverse xs) (x ∷ []), length-reverse xs)

total_bytes-append :
    (xs ys : List QueueItem) → total_bytes (xs ++ ys) ≡ total_bytes xs + total_bytes ys
total_bytes-append [] ys = omega arith
total_bytes-append (x ∷ xs) ys = omega (arith, total_bytes-append xs ys)

total_bytes-reverse : (xs : List QueueItem) → total_bytes (reverse xs) ≡ total_bytes xs
total_bytes-reverse [] = refl
total_bytes-reverse (x ∷ xs) =
    omega (arith, total_bytes-append (reverse xs) (x ∷ []), total_bytes-reverse xs)

-- What `trim` keeps of the items, from the last one on, is what is left when some are dropped.
trim-suffix :
    (max_bytes total : ℕ) (items : List QueueItem)
    → let (kept, n) = trim max_bytes total items in
      (gone : List QueueItem) × (items ≡ gone ++ kept) × (length gone ≡ n)
unfolding trim
trim-suffix max_bytes total [] = ([], refl, refl)
trim-suffix max_bytes total (last ∷ earlier) =
    let stop = leb total max_bytes || is_empty earlier && equal_ℤ last.priority high in
    elim (Bool-cases stop) [
      | inl e ↦ ([], ground arith, ground arith)
      | inr e ↦
          let (gone, split, count) = trim-suffix max_bytes (total - last.approx_bytes) earlier in
          (last ∷ gone, ground (arith, split, count), ground (arith, split, count))
    ]

-- A list of one item of the high priority.
abbrev pub is_single_high : List QueueItem → Bool
is_single_high [] = false
is_single_high (x ∷ xs) = is_empty xs && equal_ℤ x.priority high

trim-fits :
    (max_bytes total : ℕ) (items : List QueueItem)
    → total ≡ total_bytes items
    → (leb (total_bytes (trim max_bytes total items).0) max_bytes
        || is_single_high (trim max_bytes total items).0)
      ≡ true
unfolding trim
trim-fits max_bytes total [] h = ground arith
trim-fits max_bytes total (last ∷ earlier) h =
    ground (arith, trim-fits max_bytes (total - last.approx_bytes) earlier)

trim-keeps :
    (max_bytes : ℕ) (items : List QueueItem)
    → ((trim max_bytes (total_bytes items) items).1 ≡ 0)
      ⊎ (leb (total_bytes items) max_bytes ≡ false)
unfolding trim
trim-keeps max_bytes [] = ground arith
trim-keeps max_bytes (last ∷ earlier) = ground arith

is_single_high-reverse :
    (items : List QueueItem) → is_single_high items ≡ true → reverse items ≡ items
is_single_high-reverse [] h = refl
is_single_high-reverse (x ∷ []) h = refl
is_single_high-reverse (x ∷ y ∷ xs) h = ground arith

length-filter-insert_stable :
    (p : QueueItem → Bool) (x : QueueItem) (ys : List QueueItem)
    → length (filter p (insert_stable x ys)) ≡ length (filter p (x ∷ ys))
unfolding insert_stable
length-filter-insert_stable p x [] = refl
length-filter-insert_stable p x (y ∷ ys) = ground (arith, length-filter-insert_stable p x ys)

length-filter-sort_stable :
    (p : QueueItem → Bool) (xs : List QueueItem)
    → length (filter p (sort_stable xs)) ≡ length (filter p xs)
unfolding sort_stable
length-filter-sort_stable p [] = refl
length-filter-sort_stable p (x ∷ xs) =
    ground (arith, length-filter-insert_stable p x (sort_stable xs), length-filter-sort_stable p xs)

no_length : (xs : List QueueItem) → length xs ≡ 0 → xs ≡ []
no_length [] h = refl
no_length (x ∷ xs) h = absurd (omega (arith, h))

-- The items that are not too old.
abbrev pub fresh : ℕ → Store → List QueueItem → List QueueItem
fresh now s items = filter (λ item. not (is_stale now s.max_age item)) items

-- Within the limit, or one item of the high priority.
abbrev pub is_bounded : ℕ → List QueueItem → Bool
is_bounded max_bytes items = leb (total_bytes items) max_bytes || is_single_high items

module _ (now : ℕ) (s : Store) (items : List QueueItem) where
  -- What is kept of the items: a beginning of those that are not too old, in the order of the
  -- queue, by falling priority and then by rising time, so that the newest of the lowest priority
  -- are the first to go; all of them, if they are within the limit. It is within the limit, or a single item of
  -- the high priority, and every other item is counted as dropped.
  pub prune_lem :
      let (kept, s') = prune now s items in
      let sorted = sort_stable (fresh now s items) in
      (rest : List QueueItem) × (sorted ≡ kept ++ rest)
      × IsOrdered sorted
      × ((p : QueueItem → Bool) → length (filter p sorted) ≡ length (filter p (fresh now s items)))
      × ((rest ≡ []) ⊎ (leb (total_bytes sorted) s.max_bytes ≡ false))
      × (is_bounded s.max_bytes kept ≡ true)
      × (s'.dropped + length kept ≡ s.dropped + length items)
  unfolding prune
  prune_lem =
      let young = fresh now s items in
      let sorted = sort_stable young in
      let kept = (trim s.max_bytes (total_bytes sorted) (reverse sorted)).0 in
      let (gone, split, count) = trim-suffix s.max_bytes (total_bytes sorted) (reverse sorted) in
      let bytes = total_bytes-reverse sorted in
      (
        reverse gone,
        sym (reverse-reverse sorted) ∙ ap reverse split ∙ reverse-append gone kept,
        sort_stable-IsOrdered young,
        λ p. length-filter-sort_stable p young,
        ground (
          arith,
          trim-keeps s.max_bytes (reverse sorted),
          bytes,
          no_length (reverse gone),
          length-reverse gone,
          count,
        ),
        ground (
          arith,
          trim-fits s.max_bytes (total_bytes sorted) (reverse sorted) (sym bytes),
          total_bytes-reverse kept,
          is_single_high-reverse kept,
        ),
        omega (
          arith,
          length-reverse kept,
          length-reverse sorted,
          length-sort_stable young,
          length-filter (λ item. not (is_stale now s.max_age item)) items,
          count,
          ap length split,
          length-append gone kept,
        ),
      )

  pub prune_max_bytes : (prune now s items).1.max_bytes ≡ s.max_bytes
  unfolding prune
  prune_max_bytes = refl

  pub prune_lines : (prune now s items).1.lines ≡ s.lines
  unfolding prune
  prune_lines = refl
