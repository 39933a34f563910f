-- ===== src/Controller/Desired/Active.antt =====
-- The pod that `activePodForPVC` finds.
use mathlib.Core.List.{Memᴰ}
use simple_volume.Base.{◌≡◌, true, false, List, Option, none, some, All}
use simple_volume.Text.{Text}
use simple_volume.Controller.Kube.{Pod}
use simple_volume.Controller.Desired.{may_be_active, created_before}

module _ {Q : Type 0} where
  -- No pod that may be active is left out.
  pub IsOldest : List (Pod Q) → Text → Option (Pod Q) → Type 0
  IsOldest pods claim none = All (λ p. may_be_active claim p ≡ false) pods
  IsOldest pods claim (some pod) =
      Memᴰ pod pods
      × (may_be_active claim pod ≡ true)
      × All (λ p. may_be_active claim p ≡ true → created_before p pod ≡ false) pods
