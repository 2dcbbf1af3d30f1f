-- ===== src/Clients.antt =====
-- src/grpc/client.rs and src/tls.rs: the channels to the other services, and the certificates.
pub mod Laws
use Prim.Native.String
use sentiric_b2bua_service.Prelude.{String, Bool, not, Option, none, some, ◌==◌, if◌then◌else◌}
use sentiric_b2bua_service.Prelude.Text.{starts_with, replace}
use sentiric_b2bua_service.Sip.{Outcome, ok, err}
use sentiric_b2bua_service.Fallible.{◌>>=◌, ◌>>◌, required, refuse_if}
use sentiric_b2bua_service.Config.{AppConfig}

-- `Identity::from_pem` and `Certificate::from_pem` of the texts that were read.
pub record Identity : Type 0 where
  pub cert : String
  pub key : String

pub record ClientTlsConfig : Type 0 where
  pub domain_name : String
  pub ca_certificate : String
  pub identity : Identity

pub record ServerTlsConfig : Type 0 where
  pub identity : Identity
  pub client_ca_root : String

-- `endpoint.connect_lazy()`: an endpoint that connects when it is first used.
pub record Channel : Type 0 where
  pub uri : String
  pub tls : ClientTlsConfig

-- The file system, and what `tonic` takes.
pub record Outside : Type 0 where
  pub read : String → Option String
  -- whether the text is a `Uri`
  pub is_uri : String → Bool
  -- `Endpoint::tls_config`: the error that it gives, if any
  pub tls_error : String → ClientTlsConfig → Option String

pub record InternalClients : Type 0 where
  pub media : Channel
  pub registrar : Channel
  pub user : Channel
  pub dialplan : Channel

unfoldable pub target_url : String → String
target_url url =
    if starts_with url "http://"
    then replace url "http://" "https://"
    else if not (starts_with url "http")
    then String.◌++◌ "https://" url
    else url

abbrev no_certificates : String → String
no_certificates e =
    String.◌++◌
      "[ARCH-COMPLIANCE] mTLS sertifikaları yüklenemedi. Güvensiz moda düşmek yasaktır. Servis durduruluyor: "
      e

abbrev no_ca_path : String
no_ca_path =
    "[ARCH-COMPLIANCE] CA_PATH yapılandırılmamış. mTLS zorunludur, güvensiz bağlantıya izin verilmez."

abbrev no_tls : String → String
no_tls target_url =
    String.◌++◌ "[ARCH-COMPLIANCE] mTLS konfigürasyonu eksik, güvensiz bağlantı kurulamaz: "
      target_url

module _ (out : Outside) where
  with_tls : String → Option ClientTlsConfig → Outcome Channel
  with_tls uri none = err (no_tls uri)
  with_tls uri (some tls) = elim (out.tls_error uri tls) [
    | some e ↦ err e
    | none ↦ ok (record { uri = uri; tls = tls })
  ]

  unfoldable pub connect_endpoint : String → Option ClientTlsConfig → Outcome Channel
  unfolding with_tls
  connect_endpoint url tls_config = do
    let target = target_url url
    refuse_if (not (out.is_uri target)) (String.◌++◌ "Geçersiz URL: " target)
    with_tls target tls_config

  unfoldable pub load_tls_config : AppConfig → Outcome ClientTlsConfig
  load_tls_config config = do
    cert ← required "İstemci sertifikası okunamadı" (out.read config.cert_path)
    key ← required "İstemci anahtarı okunamadı" (out.read config.key_path)
    ca_cert ← required "CA sertifikası okunamadı" (out.read config.ca_path)
    ok (record {
      domain_name = "sentiric.cloud";
      ca_certificate = ca_cert;
      identity = record { cert = cert; key = key };
    })

  -- The error of `load_tls_config`, in the words of `connect`.
  loaded : Outcome ClientTlsConfig → Outcome (Option ClientTlsConfig)
  loaded (ok cfg) = ok (some cfg)
  loaded (err e) = err (no_certificates e)

  unfoldable pub connect : AppConfig → Outcome InternalClients
  unfolding loaded
  connect config = do
    tls_config ←
        (if not (config.ca_path == "") then loaded (load_tls_config config) else err no_ca_path)
    media ← connect_endpoint config.media_service_url tls_config
    registrar ← connect_endpoint config.registrar_service_url tls_config
    user ← connect_endpoint config.user_service_url tls_config
    dialplan ← connect_endpoint config.dialplan_service_url tls_config
    ok (record { media = media; registrar = registrar; user = user; dialplan = dialplan })

  -- src/tls.rs
  unfoldable pub load_server_tls_config : AppConfig → Outcome ServerTlsConfig
  load_server_tls_config config = do
    cert ← required "Sunucu sertifikası okunamadı" (out.read config.cert_path)
    key ← required "Sunucu anahtarı okunamadı" (out.read config.key_path)
    ca ← required "CA sertifikası okunamadı" (out.read config.ca_path)
    ok (record { identity = record { cert = cert; key = key }; client_ca_root = ca })
