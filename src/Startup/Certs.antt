-- ===== src/Startup/Certs.antt =====
-- InitializeCert and InitializeCertWithFile of pkg/gpuserver/certs/util/util.go.
use Prim.Native.String.{◌++◌ as concat}
use nvidia_gpu_scheduler.Prelude.{Option, none, some, String}
use nvidia_gpu_scheduler.Startup.{Tried, got, error}
use nvidia_gpu_scheduler.Startup.Clients.{Artifacts}

-- NewSecretCertWriter, EnsureCert of a name, and WriteCertsToDir
pub record CertWriter : Type 0 where
  pub new_secret_cert_writer : Option String
  pub ensure_cert : String → Tried Artifacts
  pub write_certs_to_dir : Artifacts → Option String

pub after_write : Artifacts → Option String → Tried Artifacts
after_write certs none = got certs
after_write certs (some e) = error "EnsureCert failed to write certs to dir"

pub after_ensure : CertWriter → Tried Artifacts → Tried Artifacts
unfolding after_write
after_ensure w (got certs) = after_write certs (w.write_certs_to_dir certs)
after_ensure w (error e) = error (concat "EnsureCert: " e)

pub after_writer : CertWriter → String → Option String → Tried Artifacts
unfolding after_ensure
after_writer w dns_name none = after_ensure w (w.ensure_cert dns_name)
after_writer w dns_name (some e) = error (concat "NewSecretCertWriter: " e)

unfoldable pub initialize_cert : CertWriter → String → Tried Artifacts
unfolding after_writer
initialize_cert w dns_name = after_writer w dns_name w.new_secret_cert_writer

pub record TlsConfig : Type 0 where
  pub ca_cert : String
  pub cert : String
  pub key : String

abbrev pub and_read : {A B : Type 0} → Tried A → (A → Tried B) → Tried B
and_read (got a) rest = rest a
and_read (error e) rest = error e

-- The first argument is ioutil.ReadFile.
unfoldable pub initialize_cert_with_file : (String → Tried String) → TlsConfig → Tried Artifacts
initialize_cert_with_file read_file tlsconfig = and_read (read_file tlsconfig.ca_cert) (λ ca.
    and_read (read_file tlsconfig.cert) (λ cert.
      and_read (read_file tlsconfig.key)
        (λ key. got (record { ca_cert = ca; cert = cert; key = key }))))
