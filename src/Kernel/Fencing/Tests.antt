-- ===== src/Kernel/Fencing/Tests.antt =====
-- A fence file that the registry has written, and two processes that write behind it.
use agent_native_os.Prelude.{
  String, true, ◌≡◌, refl, [], ◌∷◌, text_comparable, nat_comparable, str_eq_iff, arith,
}
use agent_native_os.Prelude.Result.{Result, ok, err}
use agent_native_os.Prelude.Map.{insert}
use agent_native_os.Kernel.Protocol.{Envelope, command}
use agent_native_os.Kernel.Registry.State.{AuthorityKey, WriterLease, Registry, new}
use agent_native_os.Kernel.Registry.Fence.{Disk, fence_file, fence_base, persist_fence}
use agent_native_os.Kernel.Fencing.{FenceEnv, stale_writer, with_write_fence}
use agent_native_os.Kernel.Fencing.Stale.{IsEquipped, read_disk, promoted_fence}

abbrev authority_key : AuthorityKey
authority_key = record { service = "work"; authority = "main" }

abbrev lease : WriterLease
lease = record { runtime_id = "rt-2"; epoch = 2 }

abbrev registry : Registry
registry = record new { fence_root = "/fence" }

abbrev disk : Disk
disk = (fence_base authority_key, fence_file authority_key lease) ∷ []

abbrev process : String → FenceEnv
process id = record { root = "/fence"; runtime_id = id; io = true; read = read_disk disk }

abbrev pub request : Envelope
request = record {
  protocol = 1;
  message_id = "m1";
  kind = command;
  capability = "work.create";
  major = 1;
  contract = "work.create@1";
  caller = "";
  principal = "";
  actor_chain = [];
  delegation_id = "";
  provider_hint = "";
  service = "work";
  authority = "main";
  fencing_epoch = 2;
  reply_to = "";
  reply_runtime = "";
  target_runtime = "";
  trace_id = "";
  correlation_id = "";
  causation_id = "";
  deadline = "";
  idempotency_key = "";
  stream_id = "";
  payload = "";
}

persists : persist_fence true authority_key lease registry [] ≡ ok disk
unfolding persist_fence insert
persists = refl

equipped : IsEquipped (process "rt-1") request
equipped = record {
  epoch_positive = ground arith;
  epoch_bounded = ground arith;
  service_named = ground (arith, str_eq_iff "work" "");
  authority_named = ground (arith, str_eq_iff "main" "");
  has_root = ground (arith, str_eq_iff "/fence" "");
  io_works = refl;
}

abbrev write : String → Result String String × String
write w = (ok "written", "new")

promoted_fence_example :
    with_write_fence (process "rt-1") request write "old" ≡ (err stale_writer, "old")
promoted_fence_example =
    promoted_fence true authority_key lease registry [] disk (process "rt-1") request write "old"
      persists refl refl refl equipped
