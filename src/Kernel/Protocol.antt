-- ===== src/Kernel/Protocol.antt =====
-- kernel/sdk/go/protocol/protocol.go: the kinds of messages.
use agent_native_os.Prelude.{
  ℕ, String, Bool, true, false, not, ◌&&◌, ◌≡◌, ◌↔◌, List, arith, Comparable, ◌==◌, text_comparable,
  nat_comparable,
}
use agent_native_os.Prelude.Int64.{slt}
use agent_native_os.Prelude.Result.{Result, ok, err, ◌>>◌, fail_if}

pub data Kind : Type 0 where
  hello ready ping pong command query result error event cancel : Kind
  stream_open stream_data stream_close unsupported : Kind

abbrev kind_eq : Kind → Kind → Bool
kind_eq hello hello = true
kind_eq ready ready = true
kind_eq ping ping = true
kind_eq pong pong = true
kind_eq command command = true
kind_eq query query = true
kind_eq result result = true
kind_eq error error = true
kind_eq event event = true
kind_eq cancel cancel = true
kind_eq stream_open stream_open = true
kind_eq stream_data stream_data = true
kind_eq stream_close stream_close = true
kind_eq unsupported unsupported = true
kind_eq _ _ = false

pub kind_eq_iff : (a b : Kind) → (kind_eq a b ≡ true) ↔ (a ≡ b)
kind_eq_iff a b = ground arith

instance abbrev pub Kind-Comparable : Comparable Kind
Kind-Comparable = record { same_value = kind_eq; same_value_iff = kind_eq_iff }

-- A raw payload stays as it is; what it decodes to is an argument of each handler.
pub record Envelope : Type 0 where
  pub protocol : ℕ
  pub message_id : String
  pub kind : Kind
  pub capability : String
  pub major : ℕ
  pub contract : String
  pub caller : String
  pub principal : String
  pub actor_chain : List String
  pub delegation_id : String
  pub provider_hint : String
  pub service : String
  pub authority : String
  pub fencing_epoch : ℕ
  pub reply_to : String
  pub reply_runtime : String
  pub target_runtime : String
  pub trace_id : String
  pub correlation_id : String
  pub causation_id : String
  pub deadline : String
  pub idempotency_key : String
  pub stream_id : String
  pub payload : String

-- The texts of messages are left out.
pub record Error : Type 0 where
  pub code : String
  pub retryable : Bool

pub data EnvelopeError : Type 0 where
  unsupported_protocol no_message_id no_capability no_event_name no_reply_to : EnvelopeError
  no_cancel_target no_stream_id unsupported_kind : EnvelopeError

abbrev names_capability : Envelope → Bool
names_capability e = not (e.capability == "") && slt 0 e.major

abbrev pub validate_kind : Kind → Envelope → Result EnvelopeError (Unit {0})
validate_kind command e = fail_if (not (names_capability e)) no_capability
validate_kind query e = fail_if (not (names_capability e)) no_capability
validate_kind event e = fail_if (not (names_capability e)) no_event_name
validate_kind result e = fail_if (e.reply_to == "") no_reply_to
validate_kind error e = fail_if (e.reply_to == "") no_reply_to
validate_kind pong e = fail_if (e.reply_to == "") no_reply_to
validate_kind cancel e = fail_if (e.stream_id == "" && e.reply_to == "") no_cancel_target
validate_kind stream_open e = fail_if (e.stream_id == "") no_stream_id
validate_kind stream_data e = fail_if (e.stream_id == "") no_stream_id
validate_kind stream_close e = fail_if (e.stream_id == "") no_stream_id
validate_kind hello e = ok tt
validate_kind ready e = ok tt
validate_kind ping e = ok tt
validate_kind unsupported e = err unsupported_kind

unfoldable pub validate_envelope : Envelope → Result EnvelopeError (Unit {0})
validate_envelope e = do
  fail_if (not (e.protocol == 1)) unsupported_protocol
  fail_if (e.message_id == "") no_message_id
  validate_kind e.kind e
