-- ===== src/Cloud/Store/Jobs/Loop.antt =====
-- The loop of `NextJobForDevice`: what it does with each job, and with the one that it returns.
use soul_room_edge_platform.Base.{
  String, ◌≡◌, refl, ◌≢◌, ◌⊎◌, inl, inr, true, false, Option, none, some, List, [], ◌∷◌, ◌==◌,
  string_dec, arith, ◌∙◌, sym, subst,
}
use soul_room_edge_platform.Base.Lists.{any}
use soul_room_edge_platform.Base.Dict.{Dict, lookup, insert, lookup-insert}
use soul_room_edge_platform.Cloud.Model.{TenantContext, Time, Job}
use soul_room_edge_platform.Cloud.Store.{is_after, increment}
use soul_room_edge_platform.Cloud.Store.Jobs.{
  is_pending, is_candidate, Visit, skip, expire, deliver, visit, next_job_loop,
}

abbrev pub expired : Job → Job
expired job = record job { state = "expired" }

abbrev pub delivered : Job → Job
delivered job = record job { state = "delivered"; attempt = increment job.attempt }

-- An expired job is not handed out.
pub expired-not_pending : is_pending "expired" ≡ false
unfolding string_dec
expired-not_pending = refl

pub Visit-cases :
    (v : Visit) → (v ≡ skip) ⊎ ((j : Job) × (v ≡ expire j)) ⊎ ((j : Job) × (v ≡ deliver j))
Visit-cases skip = inl refl
Visit-cases (expire j) = inr (inl (j, refl))
Visit-cases (deliver j) = inr (inr (j, refl))

module _ (tc : TenantContext) (device_id : String) (now : Time) where
  -- What has happened to one entry of the map of jobs.
  pub data Fate (before after : Option Job) : Type 0 where
    kept : after ≡ before → Fate before after
    timed_out :
        (job : Job)
        → before ≡ some job
        → is_candidate tc device_id job ≡ true
        → is_after now job.expires_at ≡ true
        → after ≡ some (expired job)
        → Fate before after
    handed_out :
        (job : Job)
        → before ≡ some job
        → is_candidate tc device_id job ≡ true
        → is_after now job.expires_at ≡ false
        → after ≡ some (delivered job)
        → Fate before after

  -- The job and the entry that one turn of the loop delivers.
  visit-deliver :
      (o : Option Job) {job : Job}
      → visit tc device_id now o ≡ deliver job
      → (old : Job) × (o ≡ some old)
        × (is_candidate tc device_id old ≡ true)
        × (is_after now old.expires_at ≡ false)
        × (job ≡ delivered old)
  unfolding visit
  visit-deliver none h = cc
  visit-deliver (some old) h = (old, refl, ground arith, ground arith, ground arith)

  visit-expire :
      (o : Option Job) {job : Job}
      → visit tc device_id now o ≡ expire job
      → (old : Job) × (o ≡ some old)
        × (is_candidate tc device_id old ≡ true)
        × (is_after now old.expires_at ≡ true)
        × (job ≡ expired old)
  unfolding visit
  visit-expire none h = cc
  visit-expire (some old) h = (old, refl, ground arith, ground arith, ground arith)

  expired-not_candidate : (job : Job) → is_candidate tc device_id (expired job) ≡ false
  expired-not_candidate job = ground (arith, expired-not_pending)

  -- An entry that has timed out is no candidate, so that the rest of the loop keeps it.
  Fate-expired :
      (old : Job) {x y z : Option Job}
      → x ≡ some old
      → is_candidate tc device_id old ≡ true
      → is_after now old.expires_at ≡ true
      → y ≡ some (expired old)
      → Fate y z
      → Fate x z
  Fate-expired old found candidate late made (kept e) =
      timed_out old found candidate late (e ∙ made)
  Fate-expired old found candidate late made (timed_out job b c l a) =
      absurd (ground (arith, expired-not_candidate old))
  Fate-expired old found candidate late made (handed_out job b c l a) =
      absurd (ground (arith, expired-not_candidate old))

  Fate-subst : {x y z : Option Job} → y ≡ x → Fate y z → Fate x z
  Fate-subst {z} e f = subst (λ o. Fate o z) e f

  Fate-expire :
      (id k : String) (js : Dict Job) {job : Job} {z : Option Job}
      → visit tc device_id now (lookup id js) ≡ expire job
      → Fate (lookup k (insert id job js)) z
      → Fate (lookup k js) z
  Fate-expire id k js {job} h f = elim (string_dec id k) [
    | yes same ↦
        let (old, found, candidate, late, made) = visit-expire (lookup id js) h in
        Fate-expired old (rw (← same) found) candidate late
          (ground (arith, lookup-insert id k job js)) f
    | no other ↦ Fate-subst (ground (arith, lookup-insert id k job js)) f
  ]

  Fate-deliver :
      (id k : String) (js : Dict Job) {job : Job}
      → visit tc device_id now (lookup id js) ≡ deliver job
      → Fate (lookup k js) (lookup k (insert id job js))
  Fate-deliver id k js {job} h = elim (string_dec id k) [
    | yes same ↦
        let (old, found, candidate, late, made) = visit-deliver (lookup id js) h in
        handed_out old (rw (← same) found) candidate late
          (ground (arith, lookup-insert id k job js))
    | no other ↦ kept (ground (arith, lookup-insert id k job js))
  ]

  -- The three ways in which the loop goes on.
  next_job_loop-skip :
      (id : String) (ids : List String) (js : Dict Job)
      → visit tc device_id now (lookup id js) ≡ skip
      → next_job_loop tc device_id now (id ∷ ids) js ≡ next_job_loop tc device_id now ids js
  unfolding next_job_loop
  next_job_loop-skip id ids js e = rw (e, next_job_loop)

  next_job_loop-expire :
      (id : String) (ids : List String) (js : Dict Job) {j : Job}
      → visit tc device_id now (lookup id js) ≡ expire j
      → next_job_loop tc device_id now (id ∷ ids) js
        ≡ next_job_loop tc device_id now ids (insert id j js)
  unfolding next_job_loop
  next_job_loop-expire id ids js e = rw (e, next_job_loop)

  next_job_loop-stop :
      (id : String) (ids : List String) (js : Dict Job) {j : Job}
      → visit tc device_id now (lookup id js) ≡ deliver j
      → next_job_loop tc device_id now (id ∷ ids) js ≡ (some j, insert id j js)
  unfolding next_job_loop
  next_job_loop-stop id ids js e = rw (e, next_job_loop)

  -- The loop leaves each entry as it was, times it out, or hands it out.
  pub next_job_loop-Fate :
      (ids : List String) (k : String) (js : Dict Job)
      → Fate (lookup k js) (lookup k (next_job_loop tc device_id now ids js).1)
  unfolding next_job_loop
  next_job_loop-Fate [] k js = kept refl
  next_job_loop-Fate (id ∷ ids) k js = elim (Visit-cases (visit tc device_id now (lookup id js))) [
    | inl e ↦ unfold next_job_loop in rw (e, next_job_loop) (next_job_loop-Fate ids k js)
    | inr (inl (j, e)) ↦
        rw (e, next_job_loop) (Fate-expire id k js e (next_job_loop-Fate ids k (insert id j js)))
    | inr (inr (j, e)) ↦ rw (e, next_job_loop) (Fate-deliver id k js e)
  ]

  -- What the loop says of the job that it returns.
  abbrev pub Hands : Dict Job → Option Job × Dict Job → Job → Type 0
  Hands js r job =
      (id : String) × (old : Job) × (lookup id js ≡ some old)
      × (is_candidate tc device_id old ≡ true)
      × (is_after now old.expires_at ≡ false)
      × (job ≡ delivered old)
      × (lookup id r.1 ≡ some job)

  Hands-expire :
      (id : String) (js : Dict Job) (r : Option Job × Dict Job) {j job : Job}
      → visit tc device_id now (lookup id js) ≡ expire j
      → Hands (insert id j js) r job
      → Hands js r job
  Hands-expire id js r {j} e (k, old, found, candidate, live, made, there) =
      let (prev, _, _, _, timed) = visit-expire (lookup id js) e in
      (
        k,
        old,
        ground (arith, lookup-insert id k j js, expired-not_candidate prev),
        candidate,
        live,
        made,
        there,
      )

  no_job : (js : Dict Job) {job : Job} → (next_job_loop tc device_id now [] js).0 ≡ some job → ⊥
  unfolding next_job_loop
  no_job js h = cc

  -- The job that the loop returns stands in the new map, and was a live candidate in the old one.
  pub next_job_loop-Hands :
      (ids : List String) (js : Dict Job) {job : Job}
      → (next_job_loop tc device_id now ids js).0 ≡ some job
      → Hands js (next_job_loop tc device_id now ids js) job
  next_job_loop-Hands [] js h = absurd (no_job js h)
  next_job_loop-Hands (id ∷ ids) js {job} h =
      elim (Visit-cases (visit tc device_id now (lookup id js))) [
        | inl e ↦
            let eq = next_job_loop-skip id ids js e in
            rw eq (next_job_loop-Hands ids js (rw eq at h))
        | inr (inl (j, e)) ↦
            let eq = next_job_loop-expire id ids js e in
            rw eq (
              Hands-expire id js (next_job_loop tc device_id now ids (insert id j js)) e
                (next_job_loop-Hands ids (insert id j js) (rw eq at h)))
        | inr (inr (j, e)) ↦
            let eq = next_job_loop-stop id ids js e in
            let (old, found, candidate, live, made) = visit-deliver (lookup id js) e in
            let same : j ≡ job = cc (rw eq at h) in
            rw eq (
              id,
              old,
              found,
              candidate,
              live,
              sym same ∙ made,
              ground (arith, lookup-insert id id j js),
            )
      ]

  visit_live :
      (id k : String) (js : Dict Job) (job : Job)
      → lookup k js ≡ some job
      → is_candidate tc device_id job ≡ true
      → is_after now job.expires_at ≡ false
      → id ≡ k
      → visit tc device_id now (lookup id js) ≡ deliver (delivered job)
  unfolding visit
  visit_live id k js job found candidate live same = rw (same, found) (ground arith)

  -- A live candidate that the loop visits keeps it from ending without a job.
  pub next_job_loop-ne-none :
      (ids : List String) (k : String) (js : Dict Job) (job : Job)
      → any (λ id. id == k) ids ≡ true
      → lookup k js ≡ some job
      → is_candidate tc device_id job ≡ true
      → is_after now job.expires_at ≡ false
      → (next_job_loop tc device_id now ids js).0 ≢ none
  unfolding next_job_loop
  next_job_loop-ne-none [] k js job listed found candidate live = cc
  next_job_loop-ne-none (id ∷ ids) k js job listed found candidate live =
      elim (Visit-cases (visit tc device_id now (lookup id js))) [
        | inl e ↦ rw (next_job_loop-skip id ids js e) (
            next_job_loop-ne-none ids k js job (ground (arith, visit_live id k js job)) found
              candidate live)
        | inr (inl (j, e)) ↦ rw (next_job_loop-expire id ids js e) (
            next_job_loop-ne-none ids k (insert id j js) job
              (ground (arith, visit_live id k js job))
              (ground (arith, visit_live id k js job, lookup-insert id k j js)) candidate live)
        | inr (inr (j, e)) ↦ rw (next_job_loop-stop id ids js e) (λ h. cc)
      ]
