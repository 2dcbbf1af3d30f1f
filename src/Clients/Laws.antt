-- ===== src/Clients/Laws.antt =====
-- Where the channels of src/grpc/client.rs go, and with which certificates.
use sentiric_b2bua_service.Prelude.{
  none, String, ◌≡◌, ◌≢◌, ◌↔◌, inl, inr, true, false, some, Option-cases, arith, eq_iff,
}
use sentiric_b2bua_service.Prelude.Text.{starts_with}
use sentiric_b2bua_service.Sip.{ok}
use sentiric_b2bua_service.Config.{AppConfig}
use sentiric_b2bua_service.Clients.{
  Outside, Channel, InternalClients, target_url, connect_endpoint, load_tls_config, connect,
}

-- A text that starts like a scheme, and has neither `http://` nor `https://`.
abbrev pub IsMixed : String → Type 0
IsMixed url =
    (starts_with url "http" ≡ true)
    × (starts_with url "http://" ≡ false)
    × (starts_with url "https://" ≡ false)

abbrev pub channel_to : (cert key ca url : String) → Channel
channel_to cert key ca url = record {
  uri = target_url url;
  tls = record {
    domain_name = "sentiric.cloud";
    ca_certificate = ca;
    identity = record { cert = cert; key = key };
  };
}

-- A channel that `tonic` takes.
pub record IsAccepted (out : Outside) (channel : Channel) : Type 0 where
  pub uri : out.is_uri channel.uri ≡ true
  pub tls : out.tls_error channel.uri channel.tls ≡ none

-- The clients that `connect` gives.
pub record Connected (out : Outside) (config : AppConfig) (c : InternalClients) : Type 0 where
  pub cert : String
  pub key : String
  pub ca : String
  pub ca_path : config.ca_path ≢ ""
  pub cert_read : out.read config.cert_path ≡ some cert
  pub key_read : out.read config.key_path ≡ some key
  pub ca_read : out.read config.ca_path ≡ some ca
  pub media : c.media ≡ channel_to cert key ca config.media_service_url
  pub registrar : c.registrar ≡ channel_to cert key ca config.registrar_service_url
  pub user : c.user ≡ channel_to cert key ca config.user_service_url
  pub dialplan : c.dialplan ≡ channel_to cert key ca config.dialplan_service_url
  pub media_accepted : IsAccepted out (channel_to cert key ca config.media_service_url)
  pub registrar_accepted : IsAccepted out (channel_to cert key ca config.registrar_service_url)
  pub user_accepted : IsAccepted out (channel_to cert key ca config.user_service_url)
  pub dialplan_accepted : IsAccepted out (channel_to cert key ca config.dialplan_service_url)

pub connect-Connected :
    (out : Outside) (config : AppConfig) (c : InternalClients)
    → connect out config ≡ ok c
    → Connected out config c
unfolding connect connect_endpoint load_tls_config
connect-Connected out config c e = elim (Option-cases (out.read config.cert_path)) [
  | inl none_cert ↦ absurd (ground (arith, none_cert))
  | inr (cert, r) ↦ elim (Option-cases (out.read config.key_path)) [
    | inl none_key ↦ absurd (ground (arith, r, none_key))
    | inr (key, s) ↦ elim (Option-cases (out.read config.ca_path)) [
      | inl none_ca ↦ absurd (ground (arith, r, s, none_ca))
      | inr (ca, t) ↦ record {
        cert = cert;
        key = key;
        ca = ca;
        ca_path = λ q. ground (arith, r, s, t, q, eq_iff config.ca_path "");
        cert_read = r;
        key_read = s;
        ca_read = t;
        media = ground (arith, r, s, t);
        registrar = ground (arith, r, s, t);
        user = ground (arith, r, s, t);
        dialplan = ground (arith, r, s, t);
        media_accepted = record { uri = ground (arith, r, s, t); tls = ground (arith, r, s, t) };
        registrar_accepted = record {
          uri = ground (arith, r, s, t);
          tls = ground (arith, r, s, t);
        };
        user_accepted = record { uri = ground (arith, r, s, t); tls = ground (arith, r, s, t) };
        dialplan_accepted = record { uri = ground (arith, r, s, t); tls = ground (arith, r, s, t) };
      }
    ]
  ]
]

Connected-connect :
    (out : Outside) (config : AppConfig) (c : InternalClients)
    → Connected out config c
    → connect out config ≡ ok c
unfolding connect connect_endpoint load_tls_config
Connected-connect out config c k = ground (
  arith,
  k.ca_path,
  k.cert_read,
  k.key_read,
  k.ca_read,
  k.media,
  k.registrar,
  k.user,
  k.dialplan,
  k.media_accepted,
  k.registrar_accepted,
  k.user_accepted,
  k.dialplan_accepted,
  eq_iff config.ca_path "",
)

-- `connect` gives clients exactly if the path of the CA's certificate is not empty, the three
-- certificate files are read, and each of the four clients is a channel with TLS, of these
-- certificates, to the target of its URL, that `tonic` takes.
pub connect-ok_iff :
    (out : Outside) (config : AppConfig) (c : InternalClients)
    → connect out config ≡ ok c ↔ Connected out config c
connect-ok_iff out config c = (connect-Connected out config c, Connected-connect out config c)
