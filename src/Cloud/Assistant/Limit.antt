-- ===== src/Cloud/Assistant/Limit.antt =====
-- How many requests `Allow` lets through.
use soul_room_edge_platform.Base.{
  ℕ, ◌≤◌, String, ◌≡◌, ◌≢◌, refl, sym, ap, subst, ◌∙◌, Bool, List, [], ◌∷◌, ◌++◌, ◌==◌,
  if◌then◌else◌, arith, string_dec,
}
use soul_room_edge_platform.Base.Lists.{length, filter, length-append, length-filter}
use soul_room_edge_platform.Base.Dict.{Dict, lookup, insert, lookup-insert}
use soul_room_edge_platform.Cloud.Model.{Time}
use soul_room_edge_platform.Cloud.Store.{is_after}
use soul_room_edge_platform.Cloud.Assistant.{stamps, cutoff, recent_stamps, allow}

abbrev pub since : Time → List Time → List Time
since bound ts = filter (λ stamp. is_after stamp bound) ts

-- The log of a key after a call with `asked`, by the answer of the call.
abbrev pub logged : String → String → Time → Bool → List Time → List Time
logged asked key now answer log =
    if answer then (if asked == key then log ++ (now ∷ []) else log) else log

-- Calls of `Allow`, each with a key of its own and at no earlier time than the one before, with
-- the times at which the requests with `key` were let through.
pub data Run (limit : ℕ) (key : String) : Time → List Time → Dict (List Time) → Type 0 where
  start : Run limit key 0 [] []
  call :
      (now then' : Time) (asked : String) (log : List Time) (times : Dict (List Time))
      → Run limit key then' log times
      → then' ≤ now
      → Run limit key now
          (logged asked key now (allow limit now asked times).0 log)
          (allow limit now asked times).1

filter-append :
    (bound : Time) (xs ys : List Time) → since bound (xs ++ ys) ≡ since bound xs ++ since bound ys
filter-append bound [] ys = refl
filter-append bound (x ∷ xs) ys = ground (arith, filter-append bound xs ys)

-- A later bound makes an earlier one needless.
since-since :
    (early late : Time) (xs : List Time)
    → early ≤ late
    → since late (since early xs) ≡ since late xs
since-since early late [] h = refl
since-since early late (x ∷ xs) h = ground (arith, since-since early late xs h)

stamps-insert :
    (asked key : String) (ts : List Time) (times : Dict (List Time))
    → stamps key (insert asked ts times) ≡ (if asked == key then ts else stamps key times)
unfolding stamps
stamps-insert asked key ts times = ground (arith, lookup-insert asked key ts times)

-- What the map holds of a key is, from the last minute on, the log.
abbrev pub Agrees : String → Time → List Time → Dict (List Time) → Type 0
Agrees key now log times =
    (bound : Time) → cutoff now ≤ bound → since bound (stamps key times) ≡ since bound log

cutoff_mono : (a b : Time) → a ≤ b → cutoff a ≤ cutoff b
unfolding cutoff
cutoff_mono a b h = omega arith

recent-Agrees :
    (key : String) (then' now : Time) (log : List Time) (times : Dict (List Time)) (bound : Time)
    → Agrees key then' log times
    → then' ≤ now
    → cutoff now ≤ bound
    → since bound (recent_stamps now (stamps key times)) ≡ since bound log
recent-Agrees key then' now log times bound agrees later h =
    since-since (cutoff now) bound (stamps key times) h
    ∙ agrees bound (omega (arith, cutoff_mono then' now later))

-- The map and the log after a call with the key, or with another.
logged-Agrees :
    (now : Time) (recent log : List Time) (bound : Time)
    → since bound recent ≡ since bound log
    → since bound (recent ++ (now ∷ [])) ≡ since bound (log ++ (now ∷ []))
logged-Agrees now recent log bound e =
    filter-append bound recent (now ∷ [])
    ∙ ap (λ t. t ++ since bound (now ∷ [])) e
    ∙ sym (filter-append bound log (now ∷ []))

-- Both facts that every run keeps.
abbrev Holds : ℕ → String → Time → List Time → Dict (List Time) → Type 0
Holds limit key now log times = Agrees key now log times × (length (stamps key times) ≤ limit)

own_call-Holds :
    (limit : ℕ) (key : String) (then' now : Time) (log : List Time) (times : Dict (List Time))
    → Holds limit key then' log times
    → then' ≤ now
    → Holds limit key now
        (if (allow limit now key times).0 then log ++ (now ∷ []) else log)
        (allow limit now key times).1
unfolding allow
own_call-Holds limit key then' now log times (agrees, small) later =
    let recent = recent_stamps now (stamps key times) in
    let refused = stamps-insert key key recent times in
    let allowed = stamps-insert key key (recent ++ (now ∷ [])) times in
    (
      λ bound h.
          let same = recent-Agrees key then' now log times bound agrees later h in
          ground (arith, refused, allowed, same, logged-Agrees now recent log bound same),
      ground (
        arith,
        refused,
        allowed,
        small,
        length-append recent (now ∷ []),
        length-filter (λ stamp. is_after stamp (cutoff now)) (stamps key times),
      ),
    )

other_call-Holds :
    (limit : ℕ) (key asked : String) (then' now : Time) (log : List Time) (times : Dict (List Time))
    → asked ≢ key
    → Holds limit key then' log times
    → then' ≤ now
    → Holds limit key now log (allow limit now asked times).1
unfolding allow
other_call-Holds limit key asked then' now log times other (agrees, small) later =
    let recent = recent_stamps now (stamps asked times) in
    let refused = stamps-insert asked key recent times in
    let allowed = stamps-insert asked key (recent ++ (now ∷ [])) times in
    (
      λ bound h.
          let earlier : cutoff then' ≤ bound = omega (arith, cutoff_mono then' now later) in
          ground (arith, refused, allowed, agrees bound earlier),
      ground (arith, refused, allowed, small),
    )

logged_own :
    (key : String) (now : Time) (answer : Bool) (log : List Time)
    → logged key key now answer log ≡ (if answer then log ++ (now ∷ []) else log)
logged_own key now answer log = ground arith

logged_other :
    (asked key : String) (now : Time) (answer : Bool) (log : List Time)
    → asked ≢ key
    → logged asked key now answer log ≡ log
logged_other asked key now answer log ne = ground arith

Run-Holds :
    (limit : ℕ) (key : String) (now : Time) (log : List Time) (times : Dict (List Time))
    → Run limit key now log times
    → Holds limit key now log times
unfolding stamps lookup
Run-Holds limit key _ _ _ start = (λ bound h. refl, omega arith)
Run-Holds limit key _ _ _ (call now then' asked log times run later) =
    let before = Run-Holds limit key then' log times run in
    elim (string_dec asked key) [
      | no other ↦
          subst (λ l. Holds limit key now l (allow limit now asked times).1)
            (sym (logged_other asked key now (allow limit now asked times).0 log other))
            (other_call-Holds limit key asked then' now log times other before later)
      | yes same ↦
          subst
            (λ a.
              Holds limit key now (logged a key now (allow limit now a times).0 log)
                (allow limit now a times).1)
            (sym same)
            (subst (λ l. Holds limit key now l (allow limit now key times).1)
              (sym (logged_own key now (allow limit now key times).0 log))
              (own_call-Holds limit key then' now log times before later))
    ]

-- However the calls of `Allow` follow each other, for this key and for others, the number of
-- requests with the key that it has let through within the last minute is never above the limit.
pub allow-le-limit :
    (limit : ℕ) (key : String) (now : Time) (log : List Time) (times : Dict (List Time))
    → Run limit key now log times
    → length (since (cutoff now) log) ≤ limit
allow-le-limit limit key now log times run =
    let (agrees, small) = Run-Holds limit key now log times run in
    ground (
      arith,
      agrees (cutoff now) (omega arith),
      small,
      length-filter (λ stamp. is_after stamp (cutoff now)) (stamps key times),
    )
