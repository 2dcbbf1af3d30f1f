-- ===== src/Handlers/Calls/Ending/Terminate.antt =====
-- `terminate_session`, when it runs undisturbed.
use sentiric_b2bua_service.Prelude.{
  String, ◌≡◌, refl, ap, sym, ◌∙◌, none, some, [], ◌∷◌, ◌++◌, ◌==◌, if◌then◌else◌,
}
use sentiric_b2bua_service.Prelude.Text.{replace, show}
use sentiric_b2bua_service.Prelude.Table.{lookup, contains, contains-discard}
use sentiric_b2bua_service.Sip.{
  SipPacket, SocketAddr, bye, via, from, to, call_id, cseq, max_forwards, route, content_length,
}
use sentiric_b2bua_service.Libraries.{Libraries}
use sentiric_b2bua_service.Data.{CallSession}
use sentiric_b2bua_service.Effects.{
  World, Env, run, respond, update, advance, ◌>>=◌, generate_branch_id,
}
use sentiric_b2bua_service.Effects.Run.{run-bind_some}
use sentiric_b2bua_service.Ports.{port_of, released, sent}
use sentiric_b2bua_service.Redis.{removals, IsGone-same}
use sentiric_b2bua_service.Store
use sentiric_b2bua_service.Store.Runs.{Removed, remove-Removed}
use sentiric_b2bua_service.RabbitMq.Report.{Report}
use sentiric_b2bua_service.Handlers.Calls.{CallHandler, concat, header}
use sentiric_b2bua_service.Handlers.Calls.Ending.{
  release_and_report, say_bye, end_and_say_bye, terminate_session, bye_request,
}
use sentiric_b2bua_service.Handlers.Calls.Ending.Runs.{
  Ended, release_for, release_and_report-Report,
}

-- The BYE for the call of a session, with the address that it goes to: to the caller's contact and
-- from the called party, with the tags of the dialog, by way of the SBC.
abbrev pub bye_message :
    Libraries → CallHandler → (id branch : String) → CallSession → SipPacket × SocketAddr
bye_message lib self id branch s =
    let d = s.session_data in
    let packet = lib.new_request bye (replace (replace d.client_contact "<" "") ">" "") in
    (
      record packet {
        headers =
            packet.headers
            ++ header via (
                concat (
                  "SIP/2.0/UDP "
                  ∷ self.config.public_ip
                  ∷ ":"
                  ∷ show self.config.sip_port
                  ∷ ";branch="
                  ∷ branch
                  ∷ ";rport"
                  ∷ []))
              ∷ header max_forwards "70"
              ∷ header to (
                  if d.caller_tag == ""
                  then d.from_uri
                  else concat (d.from_uri ∷ ";tag=" ∷ d.caller_tag ∷ []))
              ∷ header from (concat (d.to_uri ∷ ";tag=" ∷ d.local_tag ∷ []))
              ∷ header call_id id
              ∷ header cseq "999 BYE"
              ∷ header route
                  (concat ("<sip:sbc@" ∷ self.config.sbc_public_ip ∷ ":" ∷ "5060" ∷ ";lr>" ∷ []))
              ∷ header content_length "0"
              ∷ [];
      },
      d.proxy_addr,
    )

module _ (lib : Libraries) (self : CallHandler) (env : Env) where
  say_bye-Report :
      (id : String) (s : CallSession) (w : World)
      → Report
          (released w.trace)
          (bye_message lib self id (env w generate_branch_id) s ∷ sent w.trace)
          w
          (run env (say_bye lib self id s) w)
  unfolding say_bye bye_request run advance respond update released sent removals ◌>>=◌
  say_bye-Report id s w = record {
    result = refl;
    cache = refl;
    early_cancelled = refl;
    invites_in_flight = refl;
    ports_released = refl;
    said = refl;
    redis = refl;
  }

  end_and_say_bye-Report :
      (id : String) (s : CallSession) (w : World)
      → (branch : String) × Report
          (port_of s ∷ released w.trace)
          (bye_message lib self id branch s ∷ sent w.trace)
          w
          (run env (end_and_say_bye lib self id (some s)) w)
  unfolding end_and_say_bye
  end_and_say_bye-Report id s w =
      let first = release_and_report lib self id "system_terminated" s in
      let r = release_and_report-Report lib self env id "system_terminated" s w in
      let b = say_bye-Report id s (run env first w).1 in
      (
        env (run env first w).1 generate_branch_id,
        rw (run-bind_some env first _ w r.result) (record {
          result = b.result;
          cache = b.cache ∙ r.cache;
          early_cancelled = b.early_cancelled ∙ r.early_cancelled;
          invites_in_flight = b.invites_in_flight ∙ r.invites_in_flight;
          ports_released = b.ports_released ∙ r.ports_released;
          redis = b.redis ∙ r.redis;
          said =
              b.said
              ∙ ap
                  (λ ms.
                    bye_message lib self id (env (run env first w).1 generate_branch_id) s ∷ ms)
                  r.said;
        }),
      )

  -- `terminate_session` of a call whose session is cached: it takes the call out of the maps of the
  -- store and, where Redis can be reached, its entry out of Redis, releases the session's port
  -- once, and sends one BYE for it to the address that the session came from.
  pub terminate-cached :
      (id : String) (s : CallSession) (w : World)
      → lookup id w.cache ≡ some s
      → (branch : String) × Ended id
          (bye_message lib self id branch s ∷ sent w.trace)
          w
          (run env (terminate_session lib self id) w)
  unfolding terminate_session
  terminate-cached id s w found =
      let gone : Removed id w _ = remove-Removed env id w in
      let (branch, r) = end_and_say_bye-Report id s (run env (Store.remove id) w).1 in
      (
        branch,
        rw (run-bind_some env (Store.remove id) _ w (gone.result ∙ ap some found)) (record {
          result = r.result;
          cache = r.cache ∙ gone.cache;
          early_cancelled = λ k.
              ap (contains k) (r.early_cancelled ∙ gone.early_cancelled)
              ∙ contains-discard id k w.early_cancelled;
          invites_in_flight = r.invites_in_flight ∙ gone.invites_in_flight;
          redis = IsGone-same id _ _ r.redis gone.redis;
          ports =
              r.ports_released
              ∙ ap (λ ps. port_of s ∷ ps) gone.released
              ∙ ap (λ o. release_for o (released w.trace)) (sym found);
          said = r.said ∙ ap (λ ms. bye_message lib self id branch s ∷ ms) gone.sent;
        }),
      )

  -- `terminate_session` of a call that is not cached, whatever Redis has of it: nothing is sent,
  -- and no port is released. (`remove` deletes the entry in Redis, and looks for the session in the
  -- cache only.)
  pub terminate-uncached :
      (id : String) (w : World)
      → lookup id w.cache ≡ none
      → Ended id (sent w.trace) w (run env (terminate_session lib self id) w)
        × (released (run env (terminate_session lib self id) w).1.trace ≡ released w.trace)
  unfolding terminate_session end_and_say_bye run
  terminate-uncached id w missing =
      let gone : Removed id w _ = remove-Removed env id w in
      rw (run-bind_some env (Store.remove id) _ w (gone.result ∙ ap some missing)) (
        record {
          result = refl;
          cache = gone.cache;
          early_cancelled =
              λ k. ap (contains k) gone.early_cancelled ∙ contains-discard id k w.early_cancelled;
          invites_in_flight = gone.invites_in_flight;
          ports = gone.released ∙ ap (λ o. release_for o (released w.trace)) (sym missing);
          said = gone.sent;
          redis = gone.redis;
        },
        gone.released,
      )
