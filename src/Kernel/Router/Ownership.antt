-- ===== src/Kernel/Router/Ownership.antt =====
-- A stream and a request belong to the two sides that the router has noted.
use agent_native_os.Prelude.{
  String, Bool, ◌≡◌, ◌≢◌, inl, inr, some, [], ◌==◌, text_comparable, str_eq_iff, Bool-cases,
  Option-cases, refl, ap, All, All-imp,
}
use agent_native_os.Prelude.Map.{lookup}
use agent_native_os.Kernel.Protocol.{Envelope}
use agent_native_os.Kernel.Router.State.{
  StreamRoute, InflightKey-Comparable, InflightRoute, Router, Sent, process, runtime_consumer_key,
}
use agent_native_os.Kernel.Router.Streams.{
  forward_stream, forward_cancel, send_to, cancel_stream, cancel_request,
}

-- A frame that is passed on, or that changes the router, comes from the process that the stream's
-- route names as its provider.
pub frames_come_from_provider :
    (taken : Bool) (runtime : String) (e : Envelope) (r : Router)
    → forward_stream taken runtime e r ≢ ([], r)
    → (sr : StreamRoute) × (lookup e.stream_id r.streams ≡ some sr)
      × (sr.provider_runtime ≡ runtime)
unfolding forward_stream
frames_come_from_provider taken runtime e r acted =
    elim (Option-cases (lookup e.stream_id r.streams)) [
      | inl missing ↦ absurd (acted (rw (missing, forward_stream)))
      | inr (sr, found) ↦ elim (Bool-cases (sr.provider_runtime == runtime)) [
        | inl same ↦ (sr, found, (str_eq_iff sr.provider_runtime runtime).0 same)
        | inr other ↦ absurd (acted (rw (found, other, forward_stream)))
      ]
    ]

-- What a process may cancel, and at whom: a stream that it consumes, at the stream's provider, which
-- is told the request that opened it; or a request of its own that is open, at the provider that
-- serves it, which is told the request.
pub data IsCancel (runtime : String) (e : Envelope) (r : Router) (s : Sent) : Type 0 where
  of_stream :
      (sr : StreamRoute)
      → lookup e.stream_id r.streams ≡ some sr
      → sr.consumer_runtime ≡ runtime
      → s.target ≡ process sr.provider_runtime
      → s.envelope.reply_to ≡ sr.request_id
      → IsCancel runtime e r s
  of_request :
      (route : InflightRoute)
      → lookup
          (record { consumer = runtime_consumer_key runtime; request_id = e.reply_to })
          r.inflight
        ≡ some route
      → s.target ≡ process route.provider_runtime
      → s.envelope.reply_to ≡ route.provider_request_id
      → IsCancel runtime e r s

-- A message to a process goes there as it is, if the process is connected.
send_to-target :
    (runtime : String) (e : Envelope) (r : Router)
    → All (λ s. (s.target ≡ process runtime) × (s.envelope ≡ e)) (send_to runtime e r)
unfolding send_to
send_to-target runtime e r = elim (Option-cases (lookup runtime r.clients)) [
  | inl missing ↦ rw (missing, send_to) tt
  | inr (plugin, found) ↦ rw (found, send_to) ((refl, refl), tt)
]

-- Each message by which the router passes on a cancel of a process goes to the provider of a stream
-- that the process consumes and the cancel names, or of an open request of the process that it
-- names; it names the request there.
pub cancels_come_from_consumer :
    (runtime : String) (e : Envelope) (r : Router)
    → All (IsCancel runtime e r) (forward_cancel runtime e r)
unfolding forward_cancel cancel_stream cancel_request
cancels_come_from_consumer runtime e r = elim (Bool-cases (e.stream_id == "")) [
  | inr given ↦ elim (Option-cases (lookup e.stream_id r.streams)) [
    | inl missing ↦ rw (given, missing, forward_cancel, cancel_stream) tt
    | inr (sr, found) ↦ elim (Bool-cases (sr.consumer_runtime == runtime)) [
      | inl same ↦
          rw (given, found, same, forward_cancel, cancel_stream)
            (All-imp _ _
              (λ s sent.
                of_stream sr found ((str_eq_iff sr.consumer_runtime runtime).0 same) sent.0
                  (ap (λ x. x.reply_to) sent.1))
              (send_to-target sr.provider_runtime _ r))
      | inr other ↦ rw (given, found, other, forward_cancel, cancel_stream) tt
    ]
  ]
  | inl none_given ↦ elim (Bool-cases (e.reply_to == "")) [
    | inl empty ↦ rw (none_given, empty, forward_cancel) tt
    | inr named ↦
        elim (Option-cases (
          lookup (record { consumer = runtime_consumer_key runtime; request_id = e.reply_to })
            r.inflight)) [
              | inl missing ↦ rw (none_given, named, missing, forward_cancel, cancel_request) tt
              | inr (route, found) ↦
                  rw (none_given, named, found, forward_cancel, cancel_request)
                    (All-imp _ _
                      (λ s sent. of_request route found sent.0 (ap (λ x. x.reply_to) sent.1))
                      (send_to-target route.provider_runtime _ r))
            ]
  ]
]
