-- ===== src/Kernel/Router/Leaks.antt =====
-- What a call that fails leaves behind.
use agent_native_os.Prelude.{
  ℕ, String, Bool, true, false, ◌≡◌, ◌≢◌, refl, ap, ◌∙◌, inl, inr, [], ◌∷◌, ◌==◌, text_comparable,
  str_eq_iff, if◌then◌else◌, arith, some, Bool-cases,
}
use agent_native_os.Prelude.Map.{lookup, lookup-insert_self}
use agent_native_os.Kernel.Protocol.{Envelope}
use agent_native_os.Kernel.Registry.State.{Provider}
use agent_native_os.Kernel.Authz.Engine.{Engine}
use agent_native_os.Kernel.Router.State.{Router, Host, channel}
use agent_native_os.Kernel.Router.Invoke.{
  Origin, Deadline, Ending, Authority, calling, begin, finish, open_call, close_call, stream_route,
}
use agent_native_os.Kernel.Router.Streams.{forward_stream}
use agent_native_os.Kernel.Router.Opening.{begin-IsOpened}

-- The request of InvokeExternalStream, whose stream has a new name if it has none.
abbrev pub stream_request : String → Envelope → Envelope
stream_request fresh req = record req {
  stream_id = if req.stream_id == "" then fresh else req.stream_id;
}

open_call-stream :
    (o : Origin) (a : Authority) (p : Provider) (fresh : String) (req : Envelope) (r : Router)
    → o.external ≡ true
    → req.stream_id ≢ ""
    → lookup req.stream_id (open_call o a p fresh req r).streams ≡ some (stream_route o req p)
unfolding open_call
open_call-stream o a p fresh req r streaming named =
    let given : (req.stream_id == "") ≡ false =
      ground (arith, named, str_eq_iff req.stream_id "") in
    elim (Bool-cases (o.runtime == "")) [
      | inl host ↦ rw (given, host, streaming) (lookup-insert_self req.stream_id _ r.streams)
      | inr process ↦ rw (given, process) (lookup-insert_self req.stream_id _ r.streams)
    ]

-- A call of InvokeExternalStream that has reached its provider leaves its stream's route in place,
-- however it ends. If it ends with an error, the source closes the channel; a later frame of the
-- provider is sent into it all the same.
pub ended_stream_still_routed :
    (auth : Engine) (io : Bool) (deadline : Deadline) (fresh : String) (o : Origin)
    (req frame : Envelope) (p : Provider) (sent : Envelope) (timeout : ℕ) (h : Host)
    (ending : Ending)
    → o.external ≡ true
    → req.stream_id ≢ ""
    → frame.stream_id ≡ req.stream_id
    → (begin auth io deadline fresh o req h).0 ≡ calling p sent timeout
    → let h' = (finish ending o req p fresh (begin auth io deadline fresh o req h).1).1 in
      (forward_stream true p.runtime_id frame h'.router).0
      ≡ record { target = channel req.stream_id; envelope = frame } ∷ []
unfolding finish close_call forward_stream
ended_stream_still_routed auth io deadline fresh o req frame p sent timeout h ending streaming named
      same e =
    let opened = begin-IsOpened o fresh req auth io deadline h p sent timeout e in
    let route =
      ap (λ id. lookup id (begin auth io deadline fresh o req h).1.router.streams) same
      ∙ ap (λ r. lookup req.stream_id r.streams) opened.tables
      ∙ open_call-stream o opened.authority p fresh req h.router streaming named in
    rw (route, forward_stream, (str_eq_iff p.runtime_id p.runtime_id).1 refl, streaming)
