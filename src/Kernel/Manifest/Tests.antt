-- ===== src/Kernel/Manifest/Tests.antt =====
-- A stateful plugin's manifest.
use agent_native_os.Prelude.{◌≡◌, refl, [], ◌∷◌, arith}
use agent_native_os.Prelude.Text.{canonical, str_lt}
use agent_native_os.Prelude.Result.{ok}
use agent_native_os.Kernel.Manifest.{Manifest}
use agent_native_os.Kernel.Manifest.Path.{split_path, clean_from, starts_above}
use agent_native_os.Kernel.Manifest.Validate.{
  is_bad_namespace, check_exports, check_declared, insert_text, sort_texts, has_repeat, validate,
}
use agent_native_os.Kernel.Manifest.Soundness.{IsSound, IsWords, validate-IsSound}

abbrev manifest : Manifest
manifest = record {
  manifest_version = 1;
  plugin = record { id = "work"; version = "1" };
  runtime = record {
    protocol = "vibe-plugin/1";
    executable = "run";
    args = [];
    isolation = "";
    data_namespace = "work/./a/../log";
  };
  exports =
      record {
        name = "work.create";
        major = 1;
        contract = "work.create@1";
        mode = "stateful";
        service = "work";
        authority = "main";
        priority = 0;
      }
      ∷ [];
  consumes = record { required = []; optional = [] };
  publishes = [];
  subscribes = [];
  permissions = "net" ∷ "disk" ∷ [];
  restart = record { mode = ""; max_attempts = 0; cooldown_ms = 0 };
  resources = record { memory_mb = 512; cpu_weight = 50 };
}

accepted : validate manifest ≡ ok tt
unfolding validate is_bad_namespace split_path clean_from starts_above check_exports check_declared
    insert_text sort_texts has_repeat canonical str_lt
accepted = refl

words : IsWords manifest.resources
words = record { memory_word = ground arith; cpu_word = ground arith }

validate-IsSound_example : IsSound manifest
validate-IsSound_example = validate-IsSound manifest words accepted
