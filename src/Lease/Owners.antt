-- ===== src/Lease/Owners.antt =====
-- The owner of a lease over its renewals.
use nvidia_gpu_scheduler.Prelude.{
  Bool, true, false, ◌≡◌, refl, List, [], ◌∷◌, Option, none, some, String,
}
use nvidia_gpu_scheduler.Lease.{Lease, OwnerReference, owner_of, set_node_owner_func, with_node}

-- The renewals of a lease: whether the node has been reported, and what the api server answers.
unfoldable pub renew : String → List (Bool × Option String) → Lease → Lease
unfolding set_node_owner_func
renew node_name [] lease = lease
renew node_name ((pushed, get) ∷ rest) lease =
    renew node_name rest (set_node_owner_func node_name pushed get lease).0

-- The first node that is answered after a report.
pub owner_or : String → Bool → Option String → List OwnerReference → List OwnerReference
owner_or node_name true (some uid) later = owner_of node_name uid ∷ []
owner_or node_name true none later = later
owner_or node_name false get later = later

unfoldable pub first_owner : String → List (Bool × Option String) → List OwnerReference
unfolding owner_or
first_owner node_name [] = []
first_owner node_name ((pushed, get) ∷ rest) =
    owner_or node_name pushed get (first_owner node_name rest)

renew-owned :
    (node_name : String) (renewals : List (Bool × Option String)) (o : OwnerReference)
    (os : List OwnerReference)
    → renew node_name renewals (record { owner_references = o ∷ os })
      ≡ record { owner_references = o ∷ os }
unfolding renew set_node_owner_func
renew-owned node_name [] o os = refl
renew-owned node_name ((pushed, get) ∷ rest) o os = renew-owned node_name rest o os

-- Over any renewals of a lease without an owner, the lease gets the first GpuNode that the api server
-- answers with after the node has been reported, and keeps that owner; without such an answer it has
-- none.
pub renew-first_owner :
    (node_name : String) (renewals : List (Bool × Option String))
    → renew node_name renewals (record { owner_references = [] })
      ≡ record { owner_references = first_owner node_name renewals }
unfolding renew set_node_owner_func first_owner owner_or with_node
renew-first_owner node_name [] = refl
renew-first_owner node_name ((true, some uid) ∷ rest) =
    renew-owned node_name rest (owner_of node_name uid) []
renew-first_owner node_name ((true, none) ∷ rest) = renew-first_owner node_name rest
renew-first_owner node_name ((false, get) ∷ rest) = renew-first_owner node_name rest
