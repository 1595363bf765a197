-- ===== src/Agent/Queue/Turns.antt =====
-- What one turn of the queue does to its file.
use soul_room_edge_platform.Base.{
  ℕ, zero, suc, Bool, ◌≤◌, ◌+◌, ◌≡◌, ◌≢◌, refl, ◌⊎◌, true, Option, none, some, List, [], ◌∷◌, ◌++◌,
  arith,
}
use soul_room_edge_platform.Base.Int.{ℤ}
use soul_room_edge_platform.Base.Lists.{length, take, drop, length-append}
use soul_room_edge_platform.Agent.Queue.{
  QueueItem, Store, Env, prune, sized, enqueue, dequeue, load_locked, write_locked, limited,
  decoded, encoded, broken,
}
use soul_room_edge_platform.Agent.Queue.Bounds.{is_bounded, prune_lem, prune_lines}
use soul_room_edge_platform.Agent.Queue.Messages.{
  Message, stamped, tally, one_if, tally-append, tally-prune,
}

pub decoded-encoded : (items : List QueueItem) → decoded (encoded items) ≡ items
decoded-encoded [] = refl
decoded-encoded (x ∷ xs) = rw (decoded-encoded xs)

pub length-lines :
    (lines : List (Option QueueItem)) → length (decoded lines) + broken lines ≡ length lines
length-lines [] = omega arith
length-lines (none ∷ lines) = omega (arith, length-lines lines)
length-lines (some item ∷ lines) = omega (arith, length-lines lines)

pub take-drop : (n : ℕ) (items : List QueueItem) → take n items ++ drop n items ≡ items
take-drop zero items = refl
take-drop (suc n) [] = refl
take-drop (suc n) (x ∷ xs) = rw (take-drop n xs)

-- An `Enqueue` that fails leaves the file as it is. One that succeeds leaves a file within the
-- limit, or with a single item of the high priority. Its items are old ones and the new one: by any
-- test of their messages (the id, the kind, the priority, the time and the payload), the new file
-- has no more that pass than the old one and the new item have; the time of an item without one is
-- that of the clock. Every line that is not in the new file is counted as dropped.
pub enqueue_lem :
    (p : Message → Bool) (env : Env) (item : QueueItem) (s : Store)
    → let (e, s') = enqueue env item s in
      ((e ≢ none) × (s'.lines ≡ s.lines))
      ⊎ ((e ≡ none)
          × (is_bounded s.max_bytes (decoded s'.lines) ≡ true)
          × (s'.dropped + length (decoded s'.lines) ≡ s.dropped + length s.lines + 1)
          × (tally p (decoded s'.lines)
              ≤ tally p (decoded s.lines) + one_if (p (stamped env.now item))))
unfolding enqueue load_locked write_locked
enqueue_lem p env item s =
    let s1 = record s { dropped = s.dropped + broken s.lines } in
    let items = decoded s.lines ++ (sized env.now item ∷ []) in
    let (rest, _, _, _, _, bounded, count) = prune_lem env.now s1 items in
    ground (
      arith,
      bounded,
      count,
      decoded-encoded (prune env.now s1 items).0,
      prune_lines env.now s1 items,
      length-lines s.lines,
      length-append (decoded s.lines) (sized env.now item ∷ []),
      tally-prune p env.now s1 items,
      tally-append p (decoded s.lines) (sized env.now item ∷ []),
    )

-- A `Dequeue` that fails leaves the file as it is. One that succeeds returns the first items of
-- the file and leaves the others: together they are the items that the file had.
pub dequeue_lem :
    (env : Env) (limit : ℤ) (s : Store)
    → let ((out, e), s') = dequeue env limit s in
      ((e ≢ none) × (s'.lines ≡ s.lines))
      ⊎ ((e ≡ none) × (out ++ decoded s'.lines ≡ decoded s.lines))
unfolding dequeue load_locked write_locked
dequeue_lem env limit s =
    let items = decoded s.lines in
    ground (
      arith,
      take-drop (limited limit items) items,
      decoded-encoded (drop (limited limit items) items),
    )
