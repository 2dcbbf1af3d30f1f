-- ===== src/Handlers/Calls/Outbound/Ports.antt =====
-- The port of an outgoing call.
use sentiric_b2bua_service.Prelude.{ℕ, String, Option, none, some, List, [], ◌∷◌}
use sentiric_b2bua_service.Sip.{SipPacket, SocketAddr, ok, err}
use sentiric_b2bua_service.Libraries.{Libraries}
use sentiric_b2bua_service.Effects.{◌>>=◌, perform}
use sentiric_b2bua_service.Effects.Protocol.{Keeps, Keeps-bind}
use sentiric_b2bua_service.Ports.{Port}
use sentiric_b2bua_service.Store
use sentiric_b2bua_service.Store.Ports.{insert-Port}
use sentiric_b2bua_service.Handlers.Media.Ports.{allocate_port-Port}
use sentiric_b2bua_service.Handlers.Calls.{CallHandler}
use sentiric_b2bua_service.Handlers.Calls.Outbound.{
  dial, call_out, process_outbound_invite, outbound_session,
}

module _ (lib : Libraries) (self : CallHandler) where
  dial-Port :
      (request : SipPacket) (id from_uri to_uri tag : String) (port : ℕ)
      (addrs : Option (List SocketAddr))
      → Keeps Port
          (port ∷ [])
          (dial lib self request (outbound_session lib self id from_uri to_uri tag port) addrs)
          (λ ps a. Unit)
  unfolding dial perform outbound_session
  dial-Port request id from_uri to_uri tag port none = tt
  dial-Port request id from_uri to_uri tag port (some []) = tt
  dial-Port request id from_uri to_uri tag port (some (addr ∷ rest)) =
      Keeps-bind Port _ (Store.insert lib _) _ _ (insert-Port lib _ _ [] (tt, λ a. tt))

  call_out-Port :
      (id from_uri to_uri : String) (port : ℕ)
      → Keeps Port (port ∷ []) (call_out lib self id from_uri to_uri (ok port)) (λ ps a. Unit)
  unfolding call_out ◌>>=◌
  call_out-Port id from_uri to_uri port =
      (tt, λ tag. (tt, λ addrs. dial-Port _ id from_uri to_uri tag port addrs))

  call_out-Port_err :
      (id from_uri to_uri e : String)
      → Keeps Port [] (call_out lib self id from_uri to_uri (err e)) (λ ps a. Unit)
  unfolding call_out
  call_out-Port_err id from_uri to_uri e = tt

  -- An outgoing call stores no port but the one that it was given, and releases none.
  pub process_outbound_invite-Port :
      (id from_uri to_uri : String)
      → Keeps Port [] (process_outbound_invite lib self id from_uri to_uri) (λ ps a. Unit)
  unfolding process_outbound_invite
  process_outbound_invite-Port id from_uri to_uri = Keeps-bind Port [] _ _ _ (
      allocate_port-Port lib self.media_mgr id _ (λ p. call_out-Port id from_uri to_uri p)
        (λ e. call_out-Port_err id from_uri to_uri e))
