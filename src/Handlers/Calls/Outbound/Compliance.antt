-- ===== src/Handlers/Calls/Outbound/Compliance.antt =====
-- An outgoing call keeps the rules.
use sentiric_b2bua_service.Prelude.{ℕ, String, Option, none, some, List, [], ◌∷◌}
use sentiric_b2bua_service.Sip.{SipPacket, SocketAddr, Outcome, ok, err}
use sentiric_b2bua_service.Libraries.{Libraries}
use sentiric_b2bua_service.Data.{CallSessionData}
use sentiric_b2bua_service.Effects.{◌>>=◌, perform}
use sentiric_b2bua_service.Effects.Every.{Every, Every-bind, Every-ret}
use sentiric_b2bua_service.Compliance.{Complies}
use sentiric_b2bua_service.Store.Compliance.{insert-Complies}
use sentiric_b2bua_service.Handlers.Media.Compliance.{allocate_port-Complies}
use sentiric_b2bua_service.Handlers.Calls.{CallHandler}
use sentiric_b2bua_service.Handlers.Calls.Outbound.{dial, call_out, process_outbound_invite}

module _ (lib : Libraries) (L : String → Type 0) (A : Type 0) (self : CallHandler)
    (id : String) where
  dial-Complies :
      (request : SipPacket) (session : SocketAddr → CallSessionData)
      (addrs : Option (List SocketAddr))
      → Every (Complies lib L A id) (dial lib self request session addrs)
  unfolding dial perform
  dial-Complies request session none = Every-ret _
  dial-Complies request session (some []) = Every-ret _
  dial-Complies request session (some (addr ∷ rest)) =
      Every-bind _ _ (insert-Complies lib L A id _) λ _. record { all = (tt, λ _. tt) }

  call_out-Complies :
      (from_uri to_uri : String) (o : Outcome ℕ)
      → Every (Complies lib L A id) (call_out lib self id from_uri to_uri o)
  unfolding call_out ◌>>=◌
  call_out-Complies from_uri to_uri (err e) = Every-ret _
  call_out-Complies from_uri to_uri (ok port) = record {
    all = (tt, λ tag. (tt, λ addrs. (dial-Complies _ _ addrs).all));
  }

  pub process_outbound_invite-Complies :
      (from_uri to_uri : String)
      → Every (Complies lib L A id) (process_outbound_invite lib self id from_uri to_uri)
  unfolding process_outbound_invite
  process_outbound_invite-Complies from_uri to_uri =
      Every-bind _ _ (allocate_port-Complies lib L A id _) λ o. call_out-Complies from_uri to_uri o
