-- ===== src/Agent/Engine/Phases.antt =====
-- The phases of a transaction: the stage that each has, and what they are earned by.
use soul_room_edge_platform.Base.{
  String, ◌≡◌, refl, Bool, true, false, ◌||◌, ◌==◌, arith, string_dec,
}
use soul_room_edge_platform.Base.Lists.{any}
use soul_room_edge_platform.Agent.Engine.{Calls, valid_phase}
use soul_room_edge_platform.Agent.Engine.Run.{is_pre_install}
use soul_room_edge_platform.Agent.Engine.Earned.{
  install-reboot_requested, install-rollback_reboot_requested, is_install, is_earned, is_finished,
}

-- The phases from a stage on.
unfoldable pub from_activated : String → Bool
from_activated phase = phase == "activated"

unfoldable pub from_installed : String → Bool
from_installed phase = phase == "installed" || from_activated phase

unfoldable pub from_verified : String → Bool
from_verified phase = phase == "verified" || from_installed phase

unfoldable pub from_downloaded : String → Bool
from_downloaded phase = phase == "downloaded" || from_verified phase

unfoldable pub from_prepared : String → Bool
from_prepared phase = phase == "prepared" || from_downloaded phase

unfoldable pub from_created : String → Bool
from_created phase = phase == "created" || from_prepared phase

pub from-prepared : from_prepared "prepared" ≡ true
unfolding string_dec from_activated from_installed from_verified from_downloaded from_prepared
from-prepared = refl

pub from-downloaded : from_downloaded "downloaded" ≡ true
unfolding string_dec from_activated from_installed from_verified from_downloaded
from-downloaded = refl

pub from-verified : from_verified "verified" ≡ true
unfolding string_dec from_activated from_installed from_verified
from-verified = refl

pub from-installed : from_installed "installed" ≡ true
unfolding string_dec from_activated from_installed
from-installed = refl

pub from-activated : from_activated "activated" ≡ true
unfolding string_dec from_activated
from-activated = refl

pub created-later :
    (phase : String)
    → from_created phase ≡ true
    → ¬ (phase ≡ "created")
    → from_prepared phase ≡ true
unfolding from_created
created-later phase h n = ground arith

pub prepared-later :
    (phase : String)
    → from_prepared phase ≡ true
    → ¬ (phase ≡ "prepared")
    → from_downloaded phase ≡ true
unfolding from_prepared
prepared-later phase h n = ground arith

pub downloaded-later :
    (phase : String)
    → from_downloaded phase ≡ true
    → ¬ (phase ≡ "downloaded")
    → from_verified phase ≡ true
unfolding from_downloaded
downloaded-later phase h n = ground arith

pub verified-later :
    (phase : String)
    → from_verified phase ≡ true
    → ¬ (phase ≡ "verified")
    → from_installed phase ≡ true
unfolding from_verified
verified-later phase h n = ground arith

pub installed-later :
    (phase : String)
    → from_installed phase ≡ true
    → ¬ (phase ≡ "installed")
    → from_activated phase ≡ true
unfolding from_installed
installed-later phase h n = ground arith

pub pre-created : is_pre_install "created" ≡ true
unfolding string_dec is_pre_install
pre-created = refl

pub pre-prepared : is_pre_install "prepared" ≡ true
unfolding string_dec is_pre_install
pre-prepared = refl

pub pre-downloaded : is_pre_install "downloaded" ≡ true
unfolding string_dec is_pre_install
pre-downloaded = refl

pub pre-verified : is_pre_install "verified" ≡ true
unfolding string_dec is_pre_install
pre-verified = refl

pub waiting_phases :
    (phase : String) (calls : Calls)
    → (phase == "reboot_requested" || phase == "rollback_reboot_requested") ≡ true
    → is_earned phase calls ≡ true
    → any is_install calls ≡ true
waiting_phases phase calls h e =
    grind (arith, install-reboot_requested, install-rollback_reboot_requested)

-- A phase is finished, waits for a reboot, or has its stage.
pub staged :
    (phase : String)
    → valid_phase phase ≡ true
    → is_finished phase ≡ false
    → (phase == "reboot_requested" || phase == "rollback_reboot_requested") ≡ false
    → from_created phase ≡ true
unfolding valid_phase is_finished from_created from_prepared from_downloaded from_verified
    from_installed from_activated
staged phase v f w = ground arith

pub earned-created : (calls : Calls) → is_earned "created" calls ≡ true
unfolding string_dec is_earned is_pre_install
earned-created calls = refl
