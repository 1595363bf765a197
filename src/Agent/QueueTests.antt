-- ===== src/Agent/QueueTests.antt =====
-- Runs of the theorems of the queue.
use soul_room_edge_platform.Base.{
  ℕ, ◌+◌, ◌≤◌, String, ◌≡◌, ◌≢◌, refl, ◌⊎◌, Bool, true, false, Option, none, some, List, [], ◌∷◌,
  ◌++◌, leb, eqb, if◌then◌else◌, ◌==◌, arith, string_dec,
}
use soul_room_edge_platform.Base.Int.{ℤ, pos}
use soul_room_edge_platform.Base.Lists.{length, filter, All}
use soul_room_edge_platform.Agent.Queue.{
  QueueItem, Store, Env, prune, sort_stable, insert_stable, trim, enqueue, decoded, total_bytes,
  high, equal_ℤ,
}
use soul_room_edge_platform.Agent.Queue.Bounds.{is_bounded, prune_lem, IsOrdered, fresh}
use soul_room_edge_platform.Agent.Queue.Flush.{flush, account, IsSent, IsComplete, account-flush}
use soul_room_edge_platform.Agent.Queue.Messages.{Message, stamped, tally, one_if}
use soul_room_edge_platform.Agent.Queue.Turns.{enqueue_lem}

abbrev item : String → ℤ → ℕ → QueueItem
item id priority at = record {
  id = id;
  kind = "telemetry";
  priority = priority;
  created_at = at;
  payload = 1 ∷ 2 ∷ [];
  approx_bytes = 258;
}

abbrev queue : Store
queue = record {
  max_bytes = 600;
  max_age = pos 50;
  lines = some (item "a" (pos 1) 10) ∷ none ∷ some (item "b" (pos 0) 90) ∷ [];
  dropped = 0;
}

abbrev env : Env
env = record { now = 100; load_error = none; write_error = none }

abbrev waiting : List QueueItem
waiting = item "a" (pos 1) 10 ∷ item "b" (pos 0) 90 ∷ item "c" high 95 ∷ item "d" (pos 1) 80 ∷ []

prune_example :
    let (kept, s') = prune 100 queue waiting in
    let sorted = sort_stable (fresh 100 queue waiting) in
    (rest : List QueueItem) × (sorted ≡ kept ++ rest)
    × IsOrdered sorted
    × ((p : QueueItem → Bool)
        → length (filter p sorted) ≡ length (filter p (fresh 100 queue waiting)))
    × ((rest ≡ []) ⊎ (leb (total_bytes sorted) 600 ≡ false))
    × (is_bounded 600 kept ≡ true)
    × (s'.dropped + length kept ≡ queue.dropped + length waiting)
prune_example = prune_lem 100 queue waiting

-- An expired item and an item of a low priority make room for one of a high priority.
prune_keeps : (prune 100 queue waiting).0 ≡ item "c" high 95 ∷ item "d" (pos 1) 80 ∷ []
unfolding prune sort_stable insert_stable trim
prune_keeps = refl

abbrev is_urgent : Message → Bool
is_urgent m = equal_ℤ m.priority high

enqueue_example :
    let (e, s') = enqueue env (item "c" high 95) queue in
    ((e ≢ none) × (s'.lines ≡ queue.lines))
    ⊎ ((e ≡ none)
        × (is_bounded 600 (decoded s'.lines) ≡ true)
        × (s'.dropped + length (decoded s'.lines) ≡ queue.dropped + length queue.lines + 1)
        × (tally is_urgent (decoded s'.lines)
            ≤ tally is_urgent (decoded queue.lines)
              + one_if (is_urgent (stamped 100 (item "c" high 95)))))
enqueue_example = enqueue_lem is_urgent env (item "c" high 95) queue

-- The connection fails at the second item.
abbrev post : ℕ → String → String → List ℕ → Option String
post i endpoint schema payload = if eqb i 1 then some "unreachable" else none

named : (id : String) → (id == "") ≡ false → id ≢ ""
named id h e = ground arith

queue-IsComplete : All IsComplete (decoded queue.lines)
unfolding string_dec
queue-IsComplete =
    ((named "a" refl, λ e. omega (arith, e)), ((named "b" refl, λ e. omega (arith, e)), tt))

account-flush_example :
    let r = flush post (λ i. env) queue in
    (r.0.0 + account r.1 ≡ 3)
    × ((sent : List QueueItem) × (rest : List QueueItem) × (decoded queue.lines ≡ sent ++ rest)
        × (length sent ≡ r.0.0)
        × IsSent post 0 sent
        × (tally is_urgent (decoded r.1.lines) ≤ tally is_urgent rest))
account-flush_example =
    account-flush post (λ i. env) (λ k. (refl, refl)) is_urgent queue queue-IsComplete
