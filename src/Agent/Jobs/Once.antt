-- ===== src/Agent/Jobs/Once.antt =====
-- A job that has succeeded is not run again.
use soul_room_edge_platform.Base.{
  ℕ, ltb, zero, suc, string_dec, ◌≡◌, refl, ◌⊎◌, false, none, some, [], ◌∷◌, ◌==◌, ◌≤◌, arith,
  if◌then◌else◌,
}
use soul_room_edge_platform.Base.Lists.{length, take}
use soul_room_edge_platform.Base.Dict.{lookup-insert}
use soul_room_edge_platform.Agent.Jobs.{
  Bytes, Job, JobState, Library, Handler, StateFile, Registry, Env, load_job_state, known_states,
  save_job_state, validate_job, truncated, limit, completed, run_handler, execute_new, recorded,
  execute,
}

failed_differs : ("failed" == "succeeded") ≡ false
unfolding string_dec
failed_differs = refl

length-take : (n : ℕ) (bytes : Bytes) → length (take n bytes) ≤ n
length-take zero bytes = omega arith
length-take (suc n) [] = omega arith
length-take (suc n) (x ∷ xs) = omega (arith, length-take n xs)

length_cut :
    (n : ℕ) (bytes : Bytes) → length (if ltb n (length bytes) then take n bytes else bytes) ≤ n
length_cut n bytes = ground (arith, length-take n bytes)

-- A saved state is found again.
load-save :
    (now : ℕ) (st : JobState) (file : StateFile)
    → load_job_state st.job_id (save_job_state none now st file)
      ≡ (none, some (record st { updated_at = now }))
unfolding load_job_state save_job_state
load-save now st file =
    ground (
      arith,
      lookup-insert st.job_id st.job_id (record st { updated_at = now }) (known_states file),
    )

module _ (lib : Library) where
  recorded-run_handler :
      (env : Env) (h : Handler) (job : Job) (r : Registry)
      → env.write_result ≡ none
      → lib.decode (lib.encode (run_handler lib env h job r).0) ≡ (run_handler lib env h job r).0
      → (run_handler lib env h job r).0.state ≡ "succeeded"
      → recorded lib (load_job_state job.id (run_handler lib env h job r).1.file)
        ≡ some (run_handler lib env h job r).0
  unfolding run_handler
  recorded-run_handler env h job r written round_trip succeeded =
      let running : JobState = record {
        job_id = job.id;
        state = "running";
        result_json = [];
        updated_at = 0;
      } in
      let result = completed env job (h.execute job) in
      let done : JobState = record {
        job_id = job.id;
        state = result.state;
        result_json = lib.encode result;
        updated_at = 0;
      } in
      ground (
        arith,
        load-save (env.now 3) done (save_job_state env.write_running (env.now 2) running r.file),
        round_trip,
      )

  recorded-execute_new :
      (env : Env) (job : Job) (r : Registry)
      → env.write_result ≡ none
      → lib.decode (lib.encode (execute_new lib env job r).0) ≡ (execute_new lib env job r).0
      → (execute_new lib env job r).0.state ≡ "succeeded"
      → recorded lib (load_job_state job.id (execute_new lib env job r).1.file)
        ≡ some (execute_new lib env job r).0
  unfolding execute_new
  recorded-execute_new env job r written round_trip succeeded =
      grind (arith, failed_differs, recorded-run_handler)

  -- Once a job has succeeded and the result is written, the same job delivered again, while it is
  -- valid, is not run: it gets the same result, and the registry stays as it is. The result is read
  -- back as it was written.
  pub execute-execute :
      (env env' : Env) (job : Job) (r : Registry)
      → env.write_result ≡ none
      → lib.decode (lib.encode (execute lib env job r).0) ≡ (execute lib env job r).0
      → (execute lib env job r).0.state ≡ "succeeded"
      → validate_job lib (env'.now 1) job ≡ none
      → execute lib env' job (execute lib env job r).1 ≡ execute lib env job r
  unfolding execute
  execute-execute env env' job r written round_trip succeeded valid =
      ground (arith, failed_differs, recorded-execute_new env job r written)

  length-truncated : (bytes : Bytes) → length (truncated bytes) ≤ limit
  length-truncated bytes = length_cut limit bytes

  -- A job that is run leaves one more run in the registry, and the output in its result is at
  -- most 64 KiB for each stream; otherwise the registry stays as it is.
  execute_runs :
      (env : Env) (job : Job) (r : Registry)
      → let (result, r') = execute lib env job r in
        (r' ≡ r)
        ⊎ ((r'.runs ≡ job.id ∷ r.runs)
            × (length result.stdout ≤ limit)
            × (length result.stderr ≤ limit))
  unfolding execute execute_new run_handler
  execute_runs env job r = grind (arith, length-truncated)
