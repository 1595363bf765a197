-- ===== src/Agent/Queue.antt =====
-- The offline queue of agent/internal/storage/store.go: the messages that wait for the connection,
-- in a file with one line for each.
pub mod Bounds
pub mod Messages
pub mod Turns
pub mod Flush
use soul_room_edge_platform.Base.{
  ℕ, suc, ◌+◌, ◌-◌, String, Bool, true, false, not, ◌&&◌, ◌||◌, Option, none, some, List, [], ◌∷◌,
  ◌++◌, ◌==◌, if◌then◌else◌, leb, ltb, eqb,
}
use soul_room_edge_platform.Base.Int.{ℤ, pos, ltb_ℤ, leb_ℤ}
use soul_room_edge_platform.Base.Lists.{length, filter, take, drop}

-- `Priority` with its constants: Low 0, Normal 1, High 2
abbrev pub high : ℤ
high = pos 2

abbrev pub equal_ℤ : ℤ → ℤ → Bool
equal_ℤ a b = leb_ℤ a b && leb_ℤ b a

-- The payload is its bytes, a time the nanoseconds since Go's zero time.
pub record QueueItem : Type 0 where
  pub id : String
  pub kind : String
  pub priority : ℤ
  pub created_at : ℕ
  pub payload : List ℕ
  pub approx_bytes : ℕ

pub record QueueStats : Type 0 where
  pub items : ℕ
  pub bytes : ℕ
  pub dropped_items : ℕ

-- `lines` are the lines of the file `queue.jsonl`, decoded; a line that is no item is `none`. A
-- missing file has no lines. `max_age` is 0 or below for no limit.
pub record Store : Type 0 where
  pub max_bytes : ℕ
  pub max_age : ℤ
  pub lines : List (Option QueueItem)
  pub dropped : ℕ

-- The reading of the clock, and the errors, if any, of reading the file, with the number of lines
-- read before it, and of writing the file.
pub record Env : Type 0 where
  pub now : ℕ
  pub load_error : Option (String × ℕ)
  pub write_error : Option String

-- The items of the lines, and how many lines are none.
abbrev pub decoded : List (Option QueueItem) → List QueueItem
decoded [] = []
decoded (none ∷ lines) = decoded lines
decoded (some item ∷ lines) = item ∷ decoded lines

abbrev pub broken : List (Option QueueItem) → ℕ
broken [] = 0
broken (none ∷ lines) = suc (broken lines)
broken (some item ∷ lines) = broken lines

abbrev pub encoded : List QueueItem → List (Option QueueItem)
encoded [] = []
encoded (item ∷ items) = some item ∷ encoded items

abbrev pub total_bytes : List QueueItem → ℕ
total_bytes [] = 0
total_bytes (item ∷ items) = item.approx_bytes + total_bytes items

-- The lines that are no items are counted as dropped at each reading.
unfoldable pub load_locked : Env → Store → (List QueueItem × Option String) × Store
load_locked env s = elim env.load_error [
  | none ↦ ((decoded s.lines, none), record s { dropped = s.dropped + broken s.lines })
  | some (e, n) ↦
      let read = take n s.lines in
      ((decoded read, some e), record s { dropped = s.dropped + broken read })
]

-- The new file replaces the old one at the end, so that an error leaves the old one.
unfoldable pub write_locked : Env → List QueueItem → Store → Option String × Store
write_locked env items s = elim env.write_error [
  | some e ↦ (some e, s)
  | none ↦ (none, record s { lines = encoded items })
]

-- `maxAge > 0 && now.Sub(it.CreatedAt) > maxAge && it.Priority < High`
abbrev pub is_stale : ℕ → ℤ → QueueItem → Bool
is_stale now max_age item =
    ltb_ℤ (pos 0) max_age
    && not (leb_ℤ (pos now) (pos (item.created_at + pos_age max_age)))
    && ltb_ℤ item.priority high
  where
    pos_age : ℤ → ℕ
    pos_age age = elim age [ pos n ↦ n | _ ↦ 0 ]

-- the order of the queue
abbrev pub before : QueueItem → QueueItem → Bool
before a b =
    if equal_ℤ a.priority b.priority
    then ltb a.created_at b.created_at
    else ltb_ℤ b.priority a.priority

-- `sort.SliceStable`: what a stable sort gives.
unfoldable pub insert_stable : QueueItem → List QueueItem → List QueueItem
insert_stable x [] = x ∷ []
insert_stable x (y ∷ ys) =
    let rest = insert_stable x ys in if before y x then y ∷ rest else x ∷ y ∷ ys

unfoldable pub sort_stable : List QueueItem → List QueueItem
sort_stable [] = []
sort_stable (x ∷ xs) = insert_stable x (sort_stable xs)

abbrev pub is_empty : List QueueItem → Bool
is_empty [] = true
is_empty (_ ∷ _) = false

-- The loop that drops the last item while there are too many bytes, on the items from the last
-- one to the first; with the number of the dropped.
unfoldable pub trim : ℕ → ℕ → List QueueItem → List QueueItem × ℕ
trim max_bytes total [] = ([], 0)
trim max_bytes total (last ∷ earlier) =
    let rest = trim max_bytes (total - last.approx_bytes) earlier in
    if leb total max_bytes || is_empty earlier && equal_ℤ last.priority high
    then (last ∷ earlier, 0)
    else (rest.0, suc rest.1)

abbrev pub reverse : List QueueItem → List QueueItem
reverse [] = []
reverse (x ∷ xs) = reverse xs ++ (x ∷ [])

unfoldable pub prune : ℕ → Store → List QueueItem → List QueueItem × Store
prune now s items =
    let fresh = filter (λ item. not (is_stale now s.max_age item)) items in
    let sorted = sort_stable fresh in
    let (kept, n) = trim s.max_bytes (total_bytes sorted) (reverse sorted) in
    (reverse kept, record s { dropped = s.dropped + (length items - length fresh) + n })

abbrev pub sized : ℕ → QueueItem → QueueItem
sized now item = record item {
  created_at = if eqb item.created_at 0 then now else item.created_at;
  approx_bytes = length item.payload + 256;
}

unfoldable pub enqueue : Env → QueueItem → Store → Option String × Store
enqueue env item s =
    if item.id == ""
    then (some "queue item id is required", s)
    else (let ((items, e), s') = load_locked env s in
        elim e [
          | some message ↦ (some message, s')
          | none ↦
              let (kept, s'') = prune env.now s' (items ++ (sized env.now item ∷ [])) in
              write_locked env kept s''
        ])

-- `limit <= 0 || limit > len(items)`
abbrev pub limited : ℤ → List QueueItem → ℕ
limited limit items = elim limit [
  | pos n ↦ if eqb n 0 || ltb (length items) n then length items else n
  | _ ↦ length items
]

unfoldable pub dequeue : Env → ℤ → Store → (List QueueItem × Option String) × Store
dequeue env limit s =
    let ((items, e), s') = load_locked env s in
    elim e [
      | some message ↦ (([], some message), s')
      | none ↦
          let n = limited limit items in
          let (e', s'') = write_locked env (drop n items) s' in ((take n items, e'), s'')
    ]

unfoldable pub stats : Env → Store → (Option QueueStats × Option String) × Store
stats env s =
    let ((items, e), s') = load_locked env s in
    elim e [
      | some message ↦ ((none, some message), s')
      | none ↦ (
        (
          some record {
            items = length items;
            bytes = total_bytes items;
            dropped_items = s'.dropped;
          },
          none,
        ),
        s',
      )
    ]
