-- ===== src/Examples/Equality.antt =====
-- The equality of the pods that a kubelet lists, and that it holds only of equal pods.
use nvidia_gpu_scheduler.Prelude.{
  arith, ◌≡◌, ◌&&◌, refl, ap, ◌∙◌, Bool, false, true, List, [], ◌∷◌, String, str_eq, eq_iff,
}
use nvidia_gpu_scheduler.Report.{ContainerDevices, ContainerResources, PodResources}

same_list : {A : Type 0} → (A → A → Bool) → List A → List A → Bool
same_list f [] [] = true
same_list f [] (y ∷ ys) = false
same_list f (x ∷ xs) [] = false
same_list f (x ∷ xs) (y ∷ ys) = f x y && same_list f xs ys

both_true : (a b : Bool) → (a && b) ≡ true → (a ≡ true) × (b ≡ true)
both_true true true h = (refl, refl)
both_true true false h = absurd (ground arith)
both_true false b h = absurd (ground arith)

same_list_sound :
    {A : Type 0} (f : A → A → Bool)
    → ((x y : A) → f x y ≡ true → x ≡ y)
    → (xs ys : List A) → same_list f xs ys ≡ true
    → xs ≡ ys
unfolding same_list
same_list_sound f sound [] [] h = refl
same_list_sound f sound [] (y ∷ ys) h = absurd (ground arith)
same_list_sound f sound (x ∷ xs) [] h = absurd (ground arith)
same_list_sound f sound (x ∷ xs) (y ∷ ys) h =
    let (here, later) = both_true (f x y) (same_list f xs ys) h in
    rw (sound x y here, same_list_sound f sound xs ys later) refl

same_devices : ContainerDevices → ContainerDevices → Bool
unfolding same_list
same_devices c d =
    str_eq c.resource_name d.resource_name && same_list str_eq c.device_ids d.device_ids

same_devices_sound : (c d : ContainerDevices) → same_devices c d ≡ true → c ≡ d
unfolding same_devices
same_devices_sound c d h =
    let (name, ids) =
      both_true (str_eq c.resource_name d.resource_name)
        (same_list str_eq c.device_ids d.device_ids) h in
    let e = (eq_iff c.resource_name d.resource_name).0 name in
    let f = same_list_sound str_eq (λ x y. (eq_iff x y).0) c.device_ids d.device_ids ids in
    ap (λ (x : String). record { resource_name = x; device_ids = c.device_ids }) e
    ∙ ap (λ (x : List String). record { resource_name = d.resource_name; device_ids = x }) f

same_containers : ContainerResources → ContainerResources → Bool
unfolding same_list same_devices
same_containers c d = str_eq c.name d.name && same_list same_devices c.devices d.devices

same_containers_sound : (c d : ContainerResources) → same_containers c d ≡ true → c ≡ d
unfolding same_containers
same_containers_sound c d h =
    let (name, devices) =
      both_true (str_eq c.name d.name) (same_list same_devices c.devices d.devices) h in
    let e = (eq_iff c.name d.name).0 name in
    let f = same_list_sound same_devices same_devices_sound c.devices d.devices devices in
    ap (λ (x : String). record { name = x; devices = c.devices }) e
    ∙ ap (λ (x : List ContainerDevices). record { name = d.name; devices = x }) f

-- Two pods are equal if all their fields are.
unfoldable pub same_pods : PodResources → PodResources → Bool
unfolding same_list same_containers
same_pods p q =
    str_eq p.name q.name
    && (str_eq p.namespace q.namespace && same_list same_containers p.containers q.containers)

pub same_pods_sound : (p q : PodResources) → same_pods p q ≡ true → p ≡ q
unfolding same_pods
same_pods_sound p q h =
    let (name, rest) =
      both_true (str_eq p.name q.name)
        (str_eq p.namespace q.namespace && same_list same_containers p.containers q.containers) h in
    let (space, containers) =
      both_true (str_eq p.namespace q.namespace)
        (same_list same_containers p.containers q.containers) rest in
    let e = (eq_iff p.name q.name).0 name in
    let f = (eq_iff p.namespace q.namespace).0 space in
    let g =
      same_list_sound same_containers same_containers_sound p.containers q.containers containers in
    ap (λ (x : String). record { name = x; namespace = p.namespace; containers = p.containers }) e
    ∙ ap (λ (x : String). record { name = q.name; namespace = x; containers = p.containers }) f
    ∙ ap
        (λ (x : List ContainerResources). record {
          name = q.name;
          namespace = q.namespace;
          containers = x;
        })
        g
