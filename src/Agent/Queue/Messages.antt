-- ===== src/Agent/Queue/Messages.antt =====
-- The messages of the queue, apart from the bytes that it reckons for them.
use soul_room_edge_platform.Base.{
  ℕ, ◌+◌, ◌≤◌, String, ◌≡◌, ap, Bool, not, List, [], ◌∷◌, ◌++◌, if◌then◌else◌, eqb, arith,
}
use soul_room_edge_platform.Base.Int.{ℤ}
use soul_room_edge_platform.Base.Lists.{length, filter}
use soul_room_edge_platform.Agent.Queue.{QueueItem, Store, is_stale, sort_stable, prune}
use soul_room_edge_platform.Agent.Queue.Bounds.{fresh, prune_lem}

pub record Message : Type 0 where
  pub id : String
  pub kind : String
  pub priority : ℤ
  pub created_at : ℕ
  pub payload : List ℕ

abbrev pub message : QueueItem → Message
message item = record {
  id = item.id;
  kind = item.kind;
  priority = item.priority;
  created_at = item.created_at;
  payload = item.payload;
}

-- The message of an item that has a time, or else the one of the clock.
abbrev pub stamped : ℕ → QueueItem → Message
stamped now item = record (message item) {
  created_at = if eqb item.created_at 0 then now else item.created_at;
}

-- How many of the items have a message that passes a test.
abbrev pub tally : (Message → Bool) → List QueueItem → ℕ
tally p items = length (filter (λ item. p (message item)) items)

abbrev pub one_if : Bool → ℕ
one_if b = if b then 1 else 0

module _ (p : Message → Bool) where
  pub tally-append : (xs ys : List QueueItem) → tally p (xs ++ ys) ≡ tally p xs + tally p ys
  tally-append [] ys = omega arith
  tally-append (x ∷ xs) ys = ground (arith, tally-append xs ys)

  tally-filter : (f : QueueItem → Bool) (xs : List QueueItem) → tally p (filter f xs) ≤ tally p xs
  tally-filter f [] = omega arith
  tally-filter f (x ∷ xs) = ground (arith, tally-filter f xs)

  -- What `prune` keeps are messages that it was given.
  pub tally-prune :
      (now : ℕ) (s : Store) (items : List QueueItem) → tally p (prune now s items).0 ≤ tally p items
  tally-prune now s items =
      let (rest, split, _, counts, _, _, _) = prune_lem now s items in
      let sorted = sort_stable (fresh now s items) in
      omega (
        arith,
        ap (tally p) split,
        tally-append (prune now s items).0 rest,
        counts (λ item. p (message item)),
        tally-filter (λ item. not (is_stale now s.max_age item)) items,
      )
