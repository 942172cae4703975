-- ===== src/HostControl/Service.antt =====
-- The handlers of host-control (core/host-control.cxx).
use Prim.Native.String.{◌++◌}
use marinatb.Common.{
  String, none, some, [], ◌∷◌, Result, ok, err, Exception, out_of_range, runtime_error,
  delete_active_blueprint, thrown_text, undefined, nat_eq,
}
use marinatb.Common.Dict
use marinatb.Platform.{Pipes, UuidLib, Fmt, Inet, JsonLib}
use marinatb.Ident.{Uuid}
use marinatb.Blueprint.Store.{Blueprint}
use marinatb.Json.Object.{Supply, object, extract}
use marinatb.Json.Values.{to_uuid}
use marinatb.Json.Wholes.{to_blueprint, of_blueprint}
use marinatb.Http.{
  Response, dumped, ok_status, bad_request_status, bad_request, unexpected_failure, Handler,
}
use marinatb.HostControl.Shell.{Machine, Done, Shell, pure, lift, ◌>>=◌, Replies}
use marinatb.HostControl.Launch.{init_xp_dir, launch_networks, launch_computers}
use marinatb.HostControl.Terminate.{terminate_computers, terminate_networks, del_xp_dir}

-- What the exceptions of a handler are answered with, by the order of its catch clauses: out_of_range
-- and the other classes below std::exception; the rest is not caught.
unfoldable pub caught : {J : Type 0} → Exception → Result (Response J)
caught out_of_range = ok bad_request
caught delete_active_blueprint = err delete_active_blueprint
caught thrown_text = err thrown_text
caught undefined = err undefined
caught e = ok unexpected_failure

abbrev pub answer : {J : Type 0} → Result (Response J) × Machine → Result (Response J) × Machine
answer (ok r, s) = (ok r, s)
answer (err e, s) = (caught e, s)

abbrev pub set_live : Blueprint → Shell Done
set_live bp s =
    (ok tt, record s { live_blueprints = Dict.insert_or_assign bp.id bp s.live_blueprints })

-- How the thread of construct ends: it returns, it drops the reply of a catch clause, or an exception
-- that is not caught leaves it, which ends the service.
pub data ThreadEnd (J : Type 0) : Type 0 where
  finished : ThreadEnd J
  dropped : Response J → ThreadEnd J
  terminated : Exception → ThreadEnd J

module _ {J : Type 0} where
  abbrev pub ended : Result (Response J) → ThreadEnd J
  ended (ok r) = dropped r
  ended (err e) = terminated e

  unfoldable pub ending : Result Done → ThreadEnd J
  ending (ok x) = finished
  ending (err e) = ended (caught e)

module _ {J F : Type 0} (l : JsonLib J) (u : UuidLib) (o : Inet) (p : Pipes F) (fmt : Fmt)
    (reply : Replies) (remote_addr : String) (draw : Supply) where
  -- The body of the thread that construct starts. The lock of live_blueprints is held for one write.
  unfoldable pub materialize : J → Shell Done
  materialize j = do
    bp ← lift (to_blueprint l u o draw j)
    _ ← set_live bp
    _ ← init_xp_dir u reply bp
    _ ← launch_networks p fmt reply remote_addr bp
    launch_computers u reply bp

  -- The reply of construct does not wait for the thread, which runs to its end here.
  unfoldable pub construct : J → Machine → Response J × ThreadEnd J × Machine
  construct j s =
      let (r, after) = materialize j s in
      (
        record {
          status = ok_status;
          content = dumped (object l (("status", l.of_string "materializing") ∷ []));
        },
        ending r,
        after,
      )

  unfoldable pub dematerialize : J → Shell (Response J)
  dematerialize j = do
    bp ← lift (to_blueprint l u o draw j)
    _ ← terminate_computers u reply bp
    _ ← terminate_networks p reply bp
    _ ← del_xp_dir u reply bp
    pure (record {
      status = ok_status;
      content = dumped (object l (("status", l.of_string "ok") ∷ []));
    })

  unfoldable pub destruct : Handler J Machine
  destruct j s = answer (dematerialize j s)

module _ {J : Type 0} (l : JsonLib J) (u : UuidLib) (draw : Supply) where
  abbrev pub requested : J → Result Uuid
  requested j = elim (extract l j "bpid") [ ok id_j ↦ to_uuid l u draw id_j | err e ↦ err e ]

  abbrev pub live : Uuid → Machine → Result (Response J)
  live id s = elim (Dict.find id s.live_blueprints) [
    | some bp ↦ ok (record { status = ok_status; content = dumped (of_blueprint l u bp) })
    | none ↦ ok (record {
      status = bad_request_status;
      content = dumped (
          object l (
            ("error", l.of_string ("bpid " ++ (u.unparse id ++ " is not being materialized here")))
            ∷ []));
    })
  ]

  -- Where the id is read, only out_of_range is caught.
  unfoldable pub info : Handler J Machine
  info j s = elim (requested j) [
    | ok id ↦ (live id s, s)
    | err out_of_range ↦ (ok bad_request, s)
    | err e ↦ (err e, s)
  ]

-- list, which is not written
unfoldable pub list : {J : Type 0} → Handler J Machine
list j s = (err runtime_error, s)
