-- ===== src/PodSpec/Requests.antt =====
-- The number of gpus that a pod asks for, against the plain sum of its containers' limits.
use nvidia_gpu_scheduler.Prelude.{
  ℕ, ◌+◌, ◌<◌, ◌≡◌, refl, true, false, List, [], ◌∷◌, Option, none, some, lookup, arith, ◌==◌,
}
use nvidia_gpu_scheduler.Words.{i64_sign}
use nvidia_gpu_scheduler.Api.{Quantity, Container, Pod}
use nvidia_gpu_scheduler.PodSpec.{
  nvidia_gpu_resource_name, add_limit, count_limits, get_pod_request_gpu_num, asks,
  some_container_asks, is_gpu_pod,
}

-- An amount is zero exactly when its value is 0: Value() rounds away from zero.
abbrev pub IsExact : Option Quantity → Type 0
IsExact none = Unit {0}
IsExact (some q) = q.is_zero ≡ (q.value == 0)

abbrev pub amount : Option Quantity → ℕ
amount none = 0
amount (some q) = q.value

abbrev pub total_limits : List Container → ℕ
total_limits [] = 0
total_limits (c ∷ cs) = amount (lookup nvidia_gpu_resource_name c.limits) + total_limits cs

abbrev pub AreExact : List Container → Type 0
AreExact [] = Unit {0}
AreExact (c ∷ cs) = IsExact (lookup nvidia_gpu_resource_name c.limits) × AreExact cs

add_limit-eq-add :
    (num : ℕ) (q : Option Quantity)
    → IsExact q
    → num + amount q < i64_sign
    → add_limit num q ≡ num + amount q
unfolding add_limit
add_limit-eq-add num none x h = omega arith
add_limit-eq-add num (some q) x h = ground arith

count_limits-eq-add :
    (num : ℕ) (cs : List Container)
    → AreExact cs
    → num + total_limits cs < i64_sign
    → count_limits num cs ≡ num + total_limits cs
unfolding count_limits
count_limits-eq-add num [] x h = omega arith
count_limits-eq-add num (c ∷ cs) x h =
    let q = lookup nvidia_gpu_resource_name c.limits in
    let here : add_limit num q ≡ num + amount q = add_limit-eq-add num q x.0 (omega arith) in
    rw here (omega (arith, count_limits-eq-add (num + amount q) cs x.1 (omega arith)))

-- A pod whose gpu limits add up below 2 ^ 63, each with an exact amount, asks for exactly their
-- sum: the int64 additions of the loop do not wrap.
pub get_pod_request_gpu_num-eq-total :
    (pod : Pod)
    → AreExact pod.containers
    → total_limits pod.containers < i64_sign
    → get_pod_request_gpu_num pod ≡ total_limits pod.containers
unfolding get_pod_request_gpu_num
get_pod_request_gpu_num-eq-total pod x h = omega (arith, count_limits-eq-add 0 pod.containers x)

-- Where no container asks for a gpu, the count stays as it is.
count_limits_none :
    (num : ℕ) (cs : List Container) → some_container_asks cs ≡ false → count_limits num cs ≡ num
unfolding count_limits some_container_asks
count_limits_none num [] h = refl
count_limits_none num (c ∷ cs) h =
    let q = lookup nvidia_gpu_resource_name c.limits in
    let silent : asks q ≡ false = ground arith in
    let same : add_limit num q ≡ num = add_limit_silent q silent in
    rw same (count_limits_none num cs (ground arith))
  where
    add_limit_silent : (q : Option Quantity) → asks q ≡ false → add_limit num q ≡ num
    add_limit_silent none h = refl
    add_limit_silent (some q) h = ground arith

-- A pod for which the scheduler counts at least one gpu is one that the pod watcher takes for a gpu
-- pod.
pub is_gpu_pod_of_request : (pod : Pod) → 0 < get_pod_request_gpu_num pod → is_gpu_pod pod ≡ true
unfolding get_pod_request_gpu_num is_gpu_pod
is_gpu_pod_of_request pod h = ground (arith, count_limits_none 0 pod.containers)
