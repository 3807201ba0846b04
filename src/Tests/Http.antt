-- ===== src/Tests/Http.antt =====
-- A request to the sandbox of a transaction, for the transaction itself.
use arseeding.Prelude.{codes, text_eq, ◌≡◌, refl, true, some, []}
use arseeding.Effect.{err, not_exist}
use arseeding.Rawdb.Memory.{memory}
use arseeding.Goar.Plain.{plain}
use arseeding.Tasks.Id.{to_lower}
use arseeding.Bundle.Parse.{expected_tx_sandbox, replace_id}
use arseeding.Bundle.Plain.{plain_utils, manifest_rows}
use arseeding.Http.Paths.{
  before, after, is_id_byte, take_id, get_tx_id_from_path, get_request_sandbox,
}
use arseeding.Http.Middleware.{
  Request, Web, redirect, redirect_to, redirect_url, sandbox_request, manifest_middleware,
}
use arseeding.Http.Redirect.{Ends, manifest_middleware-Ends}
use arseeding.Tests.Manifest.{no_bundler, one_manifest, empty_db}

abbrev own_request : Request
own_request = record {
  method = codes "GET";
  host = codes "0123456789012345678901234567890123456789abc.arweave.world";
  request_uri = codes "/0123456789012345678901234567890123456789abc";
  path = codes "/0123456789012345678901234567890123456789abc";
  tls = true;
}

abbrev idle : Web ⦃kv = memory⦄ ⦃m = manifest_rows⦄
unfolding manifest_rows
idle = record {
  service = record { tasks = []; db = empty_db; tk_chan = [] };
  manifests = [];
  cache = [];
}

to_root :
    manifest_middleware ⦃kv = memory⦄ ⦃g = plain⦄ ⦃m = manifest_rows⦄ ⦃u = plain_utils⦄
      ⦃b = no_bundler⦄ ⦃j = one_manifest⦄ 0 own_request
      (err not_exist)
      true
      idle
    ≡ some
        (idle, redirect (codes "https://arweave.world/0123456789012345678901234567890123456789abc"))
unfolding manifest_middleware sandbox_request redirect_to redirect_url before after is_id_byte
    take_id get_tx_id_from_path get_request_sandbox expected_tx_sandbox replace_id to_lower
    plain_utils text_eq
to_root = refl

manifest_middleware-Ends_example : Ends ⦃u = plain_utils⦄ own_request (
    manifest_middleware ⦃kv = memory⦄ ⦃g = plain⦄ ⦃m = manifest_rows⦄ ⦃u = plain_utils⦄
      ⦃b = no_bundler⦄ ⦃j = one_manifest⦄ 0 own_request
      (err not_exist)
      true
      idle)
manifest_middleware-Ends_example =
    manifest_middleware-Ends ⦃kv = memory⦄ ⦃g = plain⦄ ⦃m = manifest_rows⦄ ⦃u = plain_utils⦄
      ⦃b = no_bundler⦄ ⦃j = one_manifest⦄ 0 own_request (err not_exist) true idle
