-- ===== src/Agent/Queue/Flush.antt =====
-- `flush` of agent/internal/agent/agent.go: the queue is emptied in parts of at most 16 items.
use mathlib.Core.List.{append_assoc}
use soul_room_edge_platform.Base.{
  ℕ, zero, suc, Bool, ◌≤◌, inl, inr, ap, sym, ◌∙◌, Option-cases, ◌+◌, String, ◌<>◌, ◌≡◌, ◌≢◌, refl,
  Option, none, some, List, [], ◌∷◌, ◌++◌, ◌==◌, if◌then◌else◌, arith,
}
use soul_room_edge_platform.Base.Int.{ℤ, pos}
use soul_room_edge_platform.Base.Lists.{length, take, drop, length-append, All}
use soul_room_edge_platform.Agent.Queue.{
  QueueItem, Store, Env, prune, sized, enqueue, dequeue, load_locked, write_locked, decoded,
  encoded, limited, broken,
}
use soul_room_edge_platform.Agent.Queue.Bounds.{prune_lem}
use soul_room_edge_platform.Agent.Queue.Turns.{length-lines, take-drop, enqueue_lem, dequeue_lem}
use soul_room_edge_platform.Agent.Queue.Messages.{Message, message, tally, one_if, tally-append}

abbrev pub endpoint_of : String → String
endpoint_of kind =
    if kind == "heartbeat"
    then "/v1/heartbeat"
    else if kind == "telemetry"
    then "/v1/telemetry"
    else if kind == "inventory"
    then "/v1/inventory"
    else "/v1/offline"

-- The items that could not be sent, put back one after the other; their errors are dropped.
unfoldable pub requeue : (ℕ → Env) → ℕ → List QueueItem → Store → Store
requeue envs i [] s = s
requeue envs i (item ∷ items) s = requeue envs (suc i) items (enqueue (envs i) item s).1

-- `post` is `PostEnvelope`, from the endpoint, the schema and the payload to its error; the `i`th
-- call of the queue meets `envs i`.
module _ (post : ℕ → String → String → List ℕ → Option String) (envs : ℕ → Env) where
  -- The loop over the items: how many were sent, the error, and the store.
  unfoldable pub send_all : ℕ → List QueueItem → Store → (ℕ × Option String) × Store
  send_all i [] s = ((i, none), s)
  send_all i (item ∷ items) s =
      let rest = send_all (suc i) items s in
      elim (post i (endpoint_of item.kind) (item.kind <> ".v1") item.payload) [
        | some e ↦ ((i, some e), requeue envs 1 (item ∷ items) s)
        | none ↦ rest
      ]

  unfoldable pub flush : Store → (ℕ × Option String) × Store
  flush s =
      let ((items, e), s') = dequeue (envs 0) (pos 16) s in
      elim e [ some message ↦ ((0, some message), s') | none ↦ send_all 0 items s' ]

-- How much the queue accounts for: the items and the dropped.
abbrev pub account : Store → ℕ
account s = s.dropped + length s.lines

abbrev pub IsCalm : Env → Type 0
IsCalm env = (env.load_error ≡ none) × (env.write_error ≡ none)

length-encoded : (items : List QueueItem) → length (encoded items) ≡ length items
length-encoded [] = refl
length-encoded (x ∷ xs) = omega (arith, length-encoded xs)

account-enqueue :
    (env : Env) (item : QueueItem) (s : Store)
    → IsCalm env
    → item.id ≢ ""
    → account (enqueue env item s).1 ≡ suc (account s)
unfolding enqueue load_locked write_locked
account-enqueue env item s calm named =
    let s1 = record s { dropped = s.dropped + broken s.lines } in
    let items = decoded s.lines ++ (sized env.now item ∷ []) in
    let (rest, _, _, _, _, _, count) = prune_lem env.now s1 items in
    ground (
      arith,
      count,
      length-encoded (prune env.now s1 items).0,
      length-lines s.lines,
      length-append (decoded s.lines) (sized env.now item ∷ []),
    )

account-dequeue :
    (env : Env) (limit : ℤ) (s : Store)
    → IsCalm env
    → account (dequeue env limit s).1 + length (dequeue env limit s).0.0 ≡ account s
unfolding dequeue load_locked write_locked
account-dequeue env limit s calm =
    let items = decoded s.lines in
    let n = limited limit items in
    ground (
      arith,
      take-drop n items,
      length-append (take n items) (drop n items),
      length-encoded (drop n items),
      length-lines s.lines,
    )

account-requeue :
    (envs : ℕ → Env) (i : ℕ) (items : List QueueItem) (s : Store)
    → ((k : ℕ) → IsCalm (envs k))
    → All (λ item. item.id ≢ "") items
    → account (requeue envs i items s) ≡ account s + length items
unfolding requeue
account-requeue envs i [] s calm named = omega arith
account-requeue envs i (item ∷ items) s calm named = omega (
  arith,
  account-requeue envs (suc i) items (enqueue (envs i) item s).1 calm named.1,
  account-enqueue (envs i) item s (calm i) named.0,
)

dequeue_calm : (env : Env) (limit : ℤ) (s : Store) → IsCalm env → (dequeue env limit s).0.1 ≡ none
unfolding dequeue load_locked write_locked
dequeue_calm env limit s calm = ground arith

dequeue_taken :
    (env : Env) (limit : ℤ) (s : Store)
    → IsCalm env
    → (dequeue env limit s).0.0 ≡ take (limited limit (decoded s.lines)) (decoded s.lines)
unfolding dequeue load_locked write_locked
dequeue_taken env limit s calm = ground arith

dequeue_whole :
    (env : Env) (limit : ℤ) (s : Store)
    → IsCalm env
    → (dequeue env limit s).0.0 ++ decoded (dequeue env limit s).1.lines ≡ decoded s.lines
dequeue_whole env limit s calm =
    ground (arith, dequeue_lem env limit s, dequeue_calm env limit s calm)

All-take :
    (P : QueueItem → Type 0) (n : ℕ) (items : List QueueItem) → All P items → All P (take n items)
All-take P zero items h = tt
All-take P (suc n) [] h = tt
All-take P (suc n) (x ∷ xs) h = (h.0, All-take P n xs h.1)

-- An id and a time, which `Enqueue` gives to every item.
abbrev pub IsComplete : QueueItem → Type 0
IsComplete item = (item.id ≢ "") × (item.created_at ≢ 0)

dequeue-IsComplete :
    (env : Env) (limit : ℤ) (s : Store)
    → IsCalm env
    → All IsComplete (decoded s.lines)
    → All IsComplete (dequeue env limit s).0.0
dequeue-IsComplete env limit s calm h =
    rw (dequeue_taken env limit s calm)
      (All-take IsComplete (limited limit (decoded s.lines)) (decoded s.lines) h)

-- The calls of `PostEnvelope`, from the `i`th on, that send these items, one each.
abbrev pub IsSent : (ℕ → String → String → List ℕ → Option String) → ℕ → List QueueItem → Type 0
IsSent post i [] = Unit
IsSent post i (item ∷ items) =
    (post i (endpoint_of item.kind) (item.kind <> ".v1") item.payload ≡ none)
    × IsSent post (suc i) items

All-named : (items : List QueueItem) → All IsComplete items → All (λ item. item.id ≢ "") items
All-named [] h = tt
All-named (x ∷ xs) h = (h.0.0, All-named xs h.1)

module _ (p : Message → Bool) where
  tally-enqueue :
      (env : Env) (item : QueueItem) (s : Store)
      → item.created_at ≢ 0
      → tally p (decoded (enqueue env item s).1.lines)
        ≤ tally p (decoded s.lines) + one_if (p (message item))
  tally-enqueue env item s timed = ground (arith, enqueue_lem p env item s)

  tally-requeue :
      (envs : ℕ → Env) (i : ℕ) (items : List QueueItem) (s : Store)
      → All IsComplete items
      → tally p (decoded (requeue envs i items s).lines) ≤ tally p (decoded s.lines) + tally p items
  unfolding requeue
  tally-requeue envs i [] s h = omega arith
  tally-requeue envs i (item ∷ items) s h = ground (
    arith,
    tally-requeue envs (suc i) items (enqueue (envs i) item s).1 h.1,
    tally-enqueue (envs i) item s h.0.1,
  )

module _ (post : ℕ → String → String → List ℕ → Option String) (envs : ℕ → Env) where
  -- What a loop over items sends, and what it leaves in the file.
  abbrev Parts : (Message → Bool) → ℕ → List QueueItem → Store → Type 0
  Parts p i items s =
      (sent : List QueueItem) × (unsent : List QueueItem) × (items ≡ sent ++ unsent)
      × ((send_all post envs i items s).0.0 ≡ i + length sent)
      × IsSent post i sent
      × (tally p (decoded (send_all post envs i items s).1.lines)
          ≤ tally p (decoded s.lines) + tally p unsent)

  send_all_lem :
      (p : Message → Bool) (i : ℕ) (items : List QueueItem) (s : Store)
      → All IsComplete items
      → Parts p i items s
  unfolding send_all
  send_all_lem p i [] s h = ([], [], refl, omega arith, tt, omega arith)
  send_all_lem p i (item ∷ items) s h =
      elim (Option-cases (post i (endpoint_of item.kind) (item.kind <> ".v1") item.payload)) [
        | inr (x, e) ↦ (
          [],
          item ∷ items,
          refl,
          rw (send_all, e) (omega arith),
          tt,
          rw (send_all, e) (tally-requeue p envs 1 (item ∷ items) s h),
        )
        | inl e ↦
            let (sent, unsent, split, count, calls, bound) = send_all_lem p (suc i) items s h.1 in
            (
              item ∷ sent,
              unsent,
              ap (λ rest. item ∷ rest) split,
              rw (send_all, e) (omega (arith, count)),
              (e, calls),
              rw (send_all, e) bound,
            )
      ]

module _ (post : ℕ → String → String → List ℕ → Option String) (envs : ℕ → Env)
    (calm : (k : ℕ) → IsCalm (envs k)) where
  account-send_all :
      (i : ℕ) (items : List QueueItem) (s : Store)
      → All (λ item. item.id ≢ "") items
      → (send_all post envs i items s).0.0 + account (send_all post envs i items s).1
        ≡ i + account s + length items
  unfolding send_all
  account-send_all i [] s named = omega arith
  account-send_all i (item ∷ items) s named = ground (
    arith,
    account-requeue envs 1 (item ∷ items) s calm named,
    account-send_all (suc i) items s named.1,
  )

  -- While the disk works and every queued item has an id and a time, a flush loses nothing,
  -- wherever the connection fails: a beginning of the old file is sent, each item by a call of its
  -- own, and by any test of the messages, the new file has no more that pass than the rest of the
  -- old one. The items sent, the lines of the new file and the items dropped account for all lines
  -- of the old file and the items dropped before.
  pub account-flush :
      (p : Message → Bool) (s : Store)
      → All IsComplete (decoded s.lines)
      → ((flush post envs s).0.0 + account (flush post envs s).1 ≡ account s)
        × ((sent : List QueueItem) × (rest : List QueueItem) × (decoded s.lines ≡ sent ++ rest)
            × (length sent ≡ (flush post envs s).0.0)
            × IsSent post 0 sent
            × (tally p (decoded (flush post envs s).1.lines) ≤ tally p rest))
  unfolding flush
  account-flush p s complete =
      let taken = (dequeue (envs 0) (pos 16) s).0.0 in
      let left = (dequeue (envs 0) (pos 16) s).1 in
      let whole : taken ++ decoded left.lines ≡ decoded s.lines =
        dequeue_whole (envs 0) (pos 16) s (calm 0) in
      let fine = dequeue_calm (envs 0) (pos 16) s (calm 0) in
      let taken_complete : All IsComplete taken =
        dequeue-IsComplete (envs 0) (pos 16) s (calm 0) complete in
      let (sent, unsent, split, count, calls, bound) =
        send_all_lem post envs p 0 taken left taken_complete in
      (
        ground (
          arith,
          account-dequeue (envs 0) (pos 16) s (calm 0),
          fine,
          account-send_all 0 taken left (All-named taken taken_complete),
        ),
        (
          sent,
          unsent ++ decoded left.lines,
          sym whole
              ∙ ap (λ items. items ++ decoded left.lines) split
              ∙ append_assoc sent unsent (decoded left.lines),
          ground (arith, fine, count),
          calls,
          ground (arith, fine, bound, tally-append p unsent (decoded left.lines)),
        ),
      )
