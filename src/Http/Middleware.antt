-- ===== src/Http/Middleware.antt =====
-- middleware.go: `ManifestMiddleware`. The content of a file stands for the file.
use arseeding.Prelude.{
  ℕ, Text, Bytes, codes, text_eq, Bool, false, not, ◌&&◌, ◌||◌, ◌==◌, length, Option, none, some,
  List, [], ◌∷◌, ◌++◌, if◌then◌else◌,
}
use arseeding.Prelude.Maps.{Dict, lookup, insert, map_option}
use arseeding.Effect.{Error, Result, ok, err, local_not_exist, panic}
use arseeding.Rawdb.Interface.{KeyValueDb}
use arseeding.Goar.Types.{Goar, Tag}
use arseeding.Tasks.Service.{Service}
use arseeding.Bundle.Types.{BundleUtils, ManifestTable}
use arseeding.Bundle.Parse.{get_manifest_id, expected_tx_sandbox, get_tag_value, content_type}
use arseeding.Orders.Chain.{Bundler}
use arseeding.Manifest.Items.{
  ManifestJson, get_ar_tx_or_item_data, get_ar_tx_or_item_data_for_manifest, handle_manifest,
}
use arseeding.Http.Paths.{before, after, get_tx_id_from_path, get_request_sandbox, get_sub_domain}

pub record Request : Type 0 where
  pub method : Text
  pub host : Text
  pub request_uri : Text
  pub path : Text
  pub tls : Bool

pub data Response : Type 0 where
  redirect : Text → Response
  manifest_id_not_found syncing : Response
  internal_error : Error → Response
  page : Text → Bytes → Response
  -- `c.Next()`
  next_handler : Response

abbrev pub api_hosts : List Text
api_hosts =
    codes "seed-dev.everpay.io"
    ∷ codes "arseed.web3infra.dev"
    ∷ codes "arseed.web3infura.io"
    ∷ codes "arseed-dev.web3infra.dev"
    ∷ codes "arseed-dev.web3infura.io"
    ∷ codes "web3infra.dev"
    ∷ codes "web3infura.io"
    ∷ codes "arweave.world"
    ∷ codes "arweave.asia"
    ∷ codes "localhost"
    ∷ codes "127.0.0.1"
    ∷ []

unfoldable pub is_one_of : Text → List Text → Bool
is_one_of host [] = false
is_one_of host (h ∷ hosts) = text_eq host h || is_one_of host hosts

unfoldable pub page_of : List Tag × Bytes → Response
page_of (tags, bytes) = page (get_tag_value tags content_type ++ codes "; charset=utf-8") bytes

unfoldable pub redirect_url : Request → Text → Text → Text
redirect_url req root_host tx_id =
    (if req.tls then codes "https" else codes "http")
    ++ codes "://"
    ++ root_host
    ++ codes "/"
    ++ tx_id

-- A host without a dot has no root host, and the handler panics.
unfoldable pub redirect_to : Request → Text → Option Text → Response
redirect_to req tx_id (some root_host) = redirect (redirect_url req root_host tx_id)
redirect_to req tx_id none = internal_error panic

module _ ⦃kv : KeyValueDb⦄ ⦃m : ManifestTable⦄ where
  -- the tasks and the store, the manifests, and the ids that are cached for names
  pub record Web : Type 0 where
    pub service : Service
    pub manifests : m.Table
    pub cache : Dict Text

module _ ⦃kv : KeyValueDb⦄ ⦃g : Goar⦄ ⦃m : ManifestTable⦄ ⦃u : BundleUtils⦄ ⦃b : Bundler⦄
    ⦃j : ManifestJson⦄ (fuel : ℕ) where
  abbrev pub page_or_error : Result (List Tag × Bytes) → Response
  page_or_error (ok found) = page_of found
  page_or_error (err e) = internal_error e

  -- the page that the manifest has for the path
  abbrev pub through_manifest : Request → kv.Db → Result (List Tag × Bytes) → Option Response
  through_manifest req db (err e) = some (internal_error e)
  through_manifest req db (ok (tags, mf_data)) =
      map_option page_or_error (handle_manifest fuel mf_data req.path db)

  abbrev pub manifest_data : kv.Db → Text → Option (Result (List Tag × Bytes))
  manifest_data db mf_id = get_ar_tx_or_item_data fuel mf_id db

  abbrev pub and_through : Request → kv.Db → Option (Result (List Tag × Bytes)) → Option Response
  and_through req db none = none
  and_through req db (some r) = through_manifest req db r

  abbrev pub by_manifest_id : Request → kv.Db → Result Text → Option Response
  by_manifest_id req db (err e) = some manifest_id_not_found
  by_manifest_id req db (ok mf_id) = and_through req db (manifest_data db mf_id)

  -- https://{{sandbox}}.arseed.web3infra.dev
  unfoldable pub sandbox_request : Request → Text → Web → Option Response
  sandbox_request req prefix s =
      let tx_id = get_tx_id_from_path req.request_uri in
      if not (length tx_id == 0) && text_eq prefix (expected_tx_sandbox tx_id)
      then some (redirect_to req tx_id (after b'.' req.host))
      else by_manifest_id req s.service.db (get_manifest_id prefix s.manifests)

  abbrev pub html_or_manifest :
      Request → Service → Result (List Tag × Bytes) → Option (Service × Response)
  html_or_manifest req s (err local_not_exist) = some (s, syncing)
  html_or_manifest req s (err e) = some (s, internal_error e)
  html_or_manifest req s (ok (tags, mf_data)) =
      if text_eq (get_tag_value tags content_type) (codes "text/html")
      then some (s, page_of (tags, mf_data))
      else map_option (λ r. (s, r)) (through_manifest req s.db (ok (tags, mf_data)))

  abbrev pub serve_found :
      Request → Option (Service × Result (List Tag × Bytes)) → Option (Service × Response)
  serve_found req none = none
  serve_found req (some (s, r)) = html_or_manifest req s r

  abbrev pub serve_id : Request → Web → Text → Option (Web × Response)
  serve_id req s tx_id =
      map_option (λ out. (record s { service = out.0 }, out.1))
        (serve_found req (get_ar_tx_or_item_data_for_manifest fuel tx_id s.service))

  -- the id of a name: from the cache, or else what the name service answers, which goes into the cache
  -- where it takes it
  abbrev pub by_name :
      Request → Text → Result Text → Bool → Web → Option Text → Option (Web × Response)
  by_name req domain answer cached s (some (c ∷ tx_id)) = serve_id req s (c ∷ tx_id)
  by_name req domain (err e) cached s none_or_empty = some (s, internal_error e)
  by_name req domain (ok tx_id) cached s none_or_empty =
      serve_id req
        (if cached then record s { cache = insert (codes "txId_" ++ domain) tx_id s.cache } else s)
        tx_id

  unfoldable pub name_request : Request → Result Text → Bool → Web → Option (Web × Response)
  name_request req answer cached s =
      let domain = get_sub_domain req.host in
      by_name req domain answer cached s (lookup (codes "txId_" ++ domain) s.cache)

  -- `answer` is what the name service answers, and `cached` whether the cache takes it.
  unfoldable pub manifest_middleware : Request → Result Text → Bool → Web → Option (Web × Response)
  manifest_middleware req answer cached s =
      let prefix = get_request_sandbox req.host in
      let get = text_eq req.method (codes "GET") in
      let sandboxed = map_option (λ r. (s, r)) (sandbox_request req prefix s) in
      let named = name_request req answer cached s in
      if not (length prefix == 0) && get
      then sandboxed
      else if not (length (get_sub_domain req.host) == 0)
          && get
          && not (is_one_of (before b':' req.host) api_hosts)
      then named
      else some (s, next_handler)
