-- ===== src/Cloud/Store/Jobs/Order.antt =====
-- The state that `campaignState` computes, and the order in which `range` visits the jobs.
use soul_room_edge_platform.Base.{String, ◌≡◌, refl, ◌∙◌, sym, Bool, List, [], ◌∷◌, arith}
use mathlib.Core.List.{Permᴰ}
use soul_room_edge_platform.Base.Lists.{length, any}
use soul_room_edge_platform.Base.Dict.{Dict, values}
use soul_room_edge_platform.Cloud.Model.{Job, Campaign}
use soul_room_edge_platform.Cloud.Store.Jobs.{is_failure, campaign_state}
use soul_room_edge_platform.Cloud.Store.Jobs.Progress.{
  all, is_success, campaign_jobs, progress, campaign_state-progress,
}

module _ (c : Campaign) where
  any-campaign_jobs :
      (p : Job → Bool) {js js' : Dict Job}
      → Permᴰ js js'
      → any p (campaign_jobs c js) ≡ any p (campaign_jobs c js')
  unfolding values
  any-campaign_jobs p Permᴰ.nil = refl
  any-campaign_jobs p (Permᴰ.cons e d) = ground (arith, any-campaign_jobs p d)
  any-campaign_jobs p (Permᴰ.swap e e') = ground arith
  any-campaign_jobs p (Permᴰ.trans d d') = any-campaign_jobs p d ∙ any-campaign_jobs p d'

  all-campaign_jobs :
      (p : Job → Bool) {js js' : Dict Job}
      → Permᴰ js js'
      → all p (campaign_jobs c js) ≡ all p (campaign_jobs c js')
  unfolding values
  all-campaign_jobs p Permᴰ.nil = refl
  all-campaign_jobs p (Permᴰ.cons e d) = ground (arith, all-campaign_jobs p d)
  all-campaign_jobs p (Permᴰ.swap e e') = ground arith
  all-campaign_jobs p (Permᴰ.trans d d') = all-campaign_jobs p d ∙ all-campaign_jobs p d'

  length-campaign_jobs :
      {js js' : Dict Job}
      → Permᴰ js js'
      → length (campaign_jobs c js) ≡ length (campaign_jobs c js')
  unfolding values
  length-campaign_jobs Permᴰ.nil = refl
  length-campaign_jobs (Permᴰ.cons e d) = ground (arith, length-campaign_jobs d)
  length-campaign_jobs (Permᴰ.swap e e') = ground arith
  length-campaign_jobs (Permᴰ.trans d d') = length-campaign_jobs d ∙ length-campaign_jobs d'

  abbrev described : List Job → String
  described jobs = elim jobs [ [] ↦ c.state | job ∷ rest ↦ progress c (job ∷ rest) ]

  described_same :
      (xs ys : List Job)
      → any is_failure xs ≡ any is_failure ys
      → all is_success xs ≡ all is_success ys
      → length xs ≡ length ys
      → described xs ≡ described ys
  described_same [] [] f a l = refl
  described_same [] (y ∷ ys) f a l = absurd (omega (arith, l))
  described_same (x ∷ xs) [] f a l = absurd (omega (arith, l))
  described_same (x ∷ xs) (y ∷ ys) f a l = ground arith

  -- Whatever the order of the jobs in the map, the campaign gets the same state.
  pub campaign_state-Perm :
      {js js' : Dict Job} → Permᴰ js js' → campaign_state c js ≡ campaign_state c js'
  campaign_state-Perm {js} {js'} d =
      campaign_state-progress c js
      ∙ described_same (campaign_jobs c js) (campaign_jobs c js') (any-campaign_jobs is_failure d)
          (all-campaign_jobs is_success d) (length-campaign_jobs d)
      ∙ sym (campaign_state-progress c js')
