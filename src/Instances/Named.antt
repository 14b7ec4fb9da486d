-- ===== src/Instances/Named.antt =====
-- InstanceManager: an instance is registered under its own address.
use ea.Common.{◌≡◌, ℕ, inl, inr, subst, some}
use ea.Common.Bytes.{Bytes, bytes_eq}
use ea.Common.Maps.{find, found-assign, found-erase}
use ea.Api.{ServletInstance}
use ea.Api.Absent.{text_of}
use ea.Instances.{Registry, set_instance_info, remove_instance_info}

abbrev pub IsNamed : Registry → Type 0
IsNamed s =
    (address : Bytes) (info : ServletInstance)
    → find s.instance_info address ≡ some info
    → text_of info.address ≡ address

pub set_instance_info-IsNamed :
    (s : Registry) (info : ServletInstance) → IsNamed s → IsNamed (set_instance_info s info)
unfolding set_instance_info
set_instance_info-IsNamed s info h a i e =
    elim (found-assign s.instance_info (text_of info.address) info a i e) [
      | inl (same, eq) ↦ subst (λ j. text_of j.address ≡ a) eq same
      | inr (other, there) ↦ h a i there
    ]

pub remove_instance_info-IsNamed :
    (s : Registry) (address : Bytes) (now : ℕ)
    → IsNamed s
    → IsNamed (remove_instance_info s address now)
unfolding remove_instance_info
remove_instance_info-IsNamed s address now h a i f =
    h a i (found-erase s.instance_info address a i f).1
