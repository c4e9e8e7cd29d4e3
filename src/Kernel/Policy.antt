-- ===== src/Kernel/Policy.antt =====
-- kernel/internal/policy/policy.go: the file with the grants and the clients' credentials.
use Prim.Native.String.{len}
use agent_native_os.Prelude.{
  String, not, Option, none, some, [], ◌∷◌, ◌==◌, text_comparable, nat_comparable,
}
use agent_native_os.Prelude.Map.{Map, lookup}
use agent_native_os.Prelude.Result.{Result, ok, err, ◌>>◌, fail_if}
use agent_native_os.Kernel.Authz.Engine.{Grant, Engine}

pub record ClientCredential : Type 0 where
  pub token_sha256 : String

pub record File : Type 0 where
  pub grants : Engine
  pub clients : Map String ClientCredential

pub data PolicyError : Type 0 where
  empty_identity bad_token no_grant : PolicyError

abbrev check_grant : Option Grant → Result PolicyError (Unit {0})
check_grant none = err no_grant
check_grant (some g) = ok tt

abbrev check_client : Engine → String → ClientCredential → Result PolicyError (Unit {0})
check_client grants identity c = do
  fail_if (identity == "") empty_identity
  fail_if (not (len c.token_sha256 == 64)) bad_token
  check_grant (lookup identity grants)

-- The loop over the clients. Their order decides only which error is told.
unfoldable pub check_clients : Engine → Map String ClientCredential → Result PolicyError (Unit {0})
check_clients grants [] = ok tt
check_clients grants ((identity, c) ∷ rest) =
    check_client grants identity c >> check_clients grants rest

unfoldable pub validate_policy : File → Result PolicyError (Unit {0})
unfolding check_clients
validate_policy f = check_clients f.grants f.clients

-- Each client with the hash of its token.
unfoldable pub client_tokens : Map String ClientCredential → Map String String
client_tokens [] = []
client_tokens ((identity, c) ∷ rest) = (identity, c.token_sha256) ∷ client_tokens rest
