-- ===== src/Secrets/Waiting.antt =====
-- That the wait for the certificate comes to an end.
use nvidia_gpu_scheduler.Prelude.{
  ℕ, zero, suc, ◌≡◌, refl, List, ◌∷◌, ◌++◌, Option, none, some, String, Map, replicate,
}
use nvidia_gpu_scheduler.Secrets.{ca_of, ensure_get_ca_from_secrets}

-- After any number of failed tries, the first try that the api server answers ends the wait with the
-- certificate of that answer, whatever would come after it.
pub ensure_get_ca_from_secrets-answered :
    (ca_cert_name : String) (n : ℕ) (secret : Map String) (ticks : List (Option (Map String)))
    → ensure_get_ca_from_secrets ca_cert_name (replicate n none ++ some secret ∷ ticks)
      ≡ some (ca_of ca_cert_name secret)
unfolding ensure_get_ca_from_secrets
ensure_get_ca_from_secrets-answered ca_cert_name zero secret ticks = refl
ensure_get_ca_from_secrets-answered ca_cert_name (suc n) secret ticks =
    ensure_get_ca_from_secrets-answered ca_cert_name n secret ticks
