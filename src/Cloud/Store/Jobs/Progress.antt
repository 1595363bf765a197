-- ===== src/Cloud/Store/Jobs/Progress.antt =====
-- The state that `campaignState` computes, against a description by counts and tests.
use soul_room_edge_platform.Base.{
  String, ◌≡◌, refl, Bool, true, false, ◌&&◌, none, some, List, [], ◌∷◌, ◌==◌, if◌then◌else◌, ltb,
  arith,
}
use soul_room_edge_platform.Base.Lists.{length, filter, any}
use soul_room_edge_platform.Base.Dict.{Dict, values}
use soul_room_edge_platform.Cloud.Model.{Job, Campaign}
use soul_room_edge_platform.Cloud.Store.Jobs.{
  is_failure, all_succeeded, of_campaign, judge, campaign_state,
}

abbrev pub all {ℓ} : {A : Type ℓ} → (A → Bool) → List A → Bool
all p [] = true
all p (x ∷ xs) = p x && all p xs

abbrev pub is_success : Job → Bool
is_success job = job.state == "succeeded"

-- The jobs of a campaign among those of a map.
abbrev pub campaign_jobs : Campaign → Dict Job → List Job
campaign_jobs c js = filter (of_campaign c) (values js)

-- The state of a campaign by what holds of all its jobs together.
abbrev pub progress : Campaign → List Job → String
progress c jobs =
    if any is_failure jobs
    then "failed"
    else if not_all
    then "running"
    else if ltb (length jobs) (length c.target_ids)
    then "canary_complete"
    else "completed"
  where
    not_all : Bool
    not_all = if all is_success jobs then false else true

all_succeeded_lem :
    (acc : Bool) (jobs : List Job)
    → all_succeeded acc jobs
      ≡ (if any is_failure jobs then none else some (acc && all is_success jobs))
unfolding all_succeeded
all_succeeded_lem true [] = refl
all_succeeded_lem false [] = refl
all_succeeded_lem acc (job ∷ jobs) =
    ground (arith, all_succeeded_lem true jobs, all_succeeded_lem false jobs)

judge-progress :
    (c : Campaign) (job : Job) (jobs : List Job) → judge c (job ∷ jobs) ≡ progress c (job ∷ jobs)
judge-progress c job jobs = ground (arith, all_succeeded_lem true (job ∷ jobs))

-- A campaign with no job keeps its state; another is `failed` if one of its jobs has failed or
-- expired, else `running` unless all have succeeded, and then `canary_complete` while it has
-- fewer jobs than targets, and `completed` after that.
pub campaign_state-progress :
    (c : Campaign) (js : Dict Job)
    → campaign_state c js
      ≡ elim (campaign_jobs c js) [ [] ↦ c.state | job ∷ jobs ↦ progress c (job ∷ jobs) ]
unfolding campaign_state
campaign_state-progress c js = split (filter (of_campaign c) (values js))
  where
    split :
        (jobs : List Job)
        → judge c jobs ≡ elim jobs [ [] ↦ c.state | job ∷ rest ↦ progress c (job ∷ rest) ]
    split [] = refl
    split (job ∷ jobs) = judge-progress c job jobs
