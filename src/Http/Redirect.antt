-- ===== src/Http/Redirect.antt =====
-- middleware.go: where `ManifestMiddleware` redirects to.
use arseeding.Prelude.{
  ℕ, Text, Bytes, codes, text_eq, text_eq_iff, ◌≡◌, refl, Bool, true, false, not, ◌&&◌, ◌==◌,
  length, Option, none, some, List, [], ◌∷◌, ◌++◌, Bool-cases, inl, inr, if◌then◌else◌,
}
use arseeding.Prelude.Maps.{lookup, map_option}
use arseeding.Effect.{Result, ok, err, local_not_exist}
use arseeding.Rawdb.Interface.{KeyValueDb}
use arseeding.Goar.Types.{Goar, Tag}
use arseeding.Tasks.Service.{Service}
use arseeding.Bundle.Types.{BundleUtils, ManifestTable}
use arseeding.Bundle.Parse.{get_manifest_id, expected_tx_sandbox, get_tag_value, content_type}
use arseeding.Orders.Chain.{Bundler}
use arseeding.Orders.Rows.{both_true}
use arseeding.Manifest.Items.{ManifestJson, handle_manifest, get_ar_tx_or_item_data_for_manifest}
use arseeding.Http.Paths.{before, after, get_tx_id_from_path, get_request_sandbox, get_sub_domain}
use arseeding.Http.Named.{HasLabel, Names, get_tx_id_from_path-Names, get_request_sandbox-HasLabel}
use arseeding.Http.Middleware.{
  Request, Response, redirect, next_handler, api_hosts, is_one_of, page_of, redirect_url,
  redirect_to, Web, page_or_error, through_manifest, manifest_data, and_through, by_manifest_id,
  sandbox_request, html_or_manifest, serve_found, serve_id, by_name, name_request,
  manifest_middleware,
}

negated : (b : Bool) → not b ≡ true → b ≡ false
negated true h = absurd cc
negated false h = refl

-- The target is the scheme of the request, the host asked without its first label, and the id that the
-- path begins with; this label is the sandbox of the id.
abbrev pub ToRoot : ⦃u : BundleUtils⦄ → Request → Text → Type 0
ToRoot req url =
    (label : Text) × (root : Text) × (id : Text) × HasLabel req.host label root
    × Names req.request_uri id
    × (label ≡ expected_tx_sandbox id)
    × (url ≡ (if req.tls then codes "https://" else codes "http://") ++ root ++ codes "/" ++ id)

module _ ⦃u : BundleUtils⦄ (req : Request) where
  abbrev pub Redirects : Response → Type 0
  Redirects (redirect url) = ToRoot req url
  Redirects _ = Unit {0}

  abbrev Answers : Option Response → Type 0
  Answers none = Unit {0}
  Answers (some r) = Redirects r

  -- of a response with a state, where there is one
  abbrev pub Ends : {S : Type 0} → Option (S × Response) → Type 0
  Ends none = Unit {0}
  Ends (some (s, r)) = Redirects r

  Answers-Ends :
      {S : Type 0} (s : S) (o : Option Response) → Answers o → Ends (map_option (λ r. (s, r)) o)
  Answers-Ends s none h = tt
  Answers-Ends s (some r) h = h

  Ends-map :
      {S T : Type 0} (f : S → T) (o : Option (S × Response))
      → Ends o
      → Ends (map_option (λ out. (f out.0, out.1)) o)
  Ends-map f none h = tt
  Ends-map f (some (s, r)) h = h

  Ends-if :
      {S : Type 0} (c : Bool) (o p : Option (S × Response))
      → (c ≡ true → Ends o)
      → Ends p
      → Ends (if c then o else p)
  Ends-if true o p h k = h refl
  Ends-if false o p h k = k

  page_of-Redirects : (found : List Tag × Bytes) → Redirects (page_of found)
  unfolding page_of
  page_of-Redirects (tags, bytes) = tt

  scheme :
      (root : Text) (id : Text)
      → redirect_url req root id
        ≡ (if req.tls then codes "https://" else codes "http://") ++ root ++ codes "/" ++ id
  unfolding redirect_url
  scheme root id = elim (Bool-cases req.tls) [ inl tls ↦ rw tls refl | inr plain ↦ rw plain refl ]

  redirect_to-Redirects :
      (root : Option Text)
      → after b'.' req.host ≡ root
      → (length (get_request_sandbox req.host) == 0) ≡ false
      → (length (get_tx_id_from_path req.request_uri) == 0) ≡ false
      → get_request_sandbox req.host ≡ expected_tx_sandbox (get_tx_id_from_path req.request_uri)
      → Redirects (redirect_to req (get_tx_id_from_path req.request_uri) root)
  unfolding redirect_to
  redirect_to-Redirects none h labelled named same = tt
  redirect_to-Redirects (some root) h labelled named same =
      let id = get_tx_id_from_path req.request_uri in
      (
        get_request_sandbox req.host,
        root,
        id,
        get_request_sandbox-HasLabel req.host root labelled h,
        get_tx_id_from_path-Names req.request_uri named,
        same,
        scheme root id,
      )

module _ ⦃kv : KeyValueDb⦄ ⦃g : Goar⦄ ⦃m : ManifestTable⦄ ⦃u : BundleUtils⦄ ⦃b : Bundler⦄
    ⦃j : ManifestJson⦄ (fuel : ℕ) (req : Request) where
  page_or_error-Answers :
      (o : Option (Result (List Tag × Bytes))) → Answers req (map_option (page_or_error fuel) o)
  page_or_error-Answers none = tt
  page_or_error-Answers (some (ok found)) = page_of-Redirects req found
  page_or_error-Answers (some (err e)) = tt

  through_manifest-Answers :
      (db : kv.Db) (r : Result (List Tag × Bytes)) → Answers req (through_manifest fuel req db r)
  through_manifest-Answers db (err e) = tt
  through_manifest-Answers db (ok (tags, mf_data)) =
      page_or_error-Answers (handle_manifest fuel mf_data req.path db)

  and_through-Answers :
      (db : kv.Db) (o : Option (Result (List Tag × Bytes)))
      → Answers req (and_through fuel req db o)
  and_through-Answers db none = tt
  and_through-Answers db (some r) = through_manifest-Answers db r

  by_manifest_id-Answers :
      (db : kv.Db) (r : Result Text) → Answers req (by_manifest_id fuel req db r)
  by_manifest_id-Answers db (err e) = tt
  by_manifest_id-Answers db (ok mf_id) = and_through-Answers db (manifest_data fuel db mf_id)

  sandbox_request-Answers :
      (s : Web)
      → (length (get_request_sandbox req.host) == 0) ≡ false
      → Answers req (sandbox_request fuel req (get_request_sandbox req.host) s)
  unfolding sandbox_request
  sandbox_request-Answers s labelled =
      let prefix = get_request_sandbox req.host in
      let tx_id = get_tx_id_from_path req.request_uri in
      elim (Bool-cases (not (length tx_id == 0) && text_eq prefix (expected_tx_sandbox tx_id))) [
        | inl own ↦ rw own (
            redirect_to-Redirects req (after b'.' req.host) refl labelled
              (negated _ (both_true _ _ own).0)
              ((text_eq_iff prefix (expected_tx_sandbox tx_id)).0 (both_true _ _ own).1))
        | inr other ↦
            rw other (by_manifest_id-Answers s.service.db (get_manifest_id prefix s.manifests))
      ]

  html_or_manifest-Ends :
      (s : Service) (r : Result (List Tag × Bytes)) → Ends req (html_or_manifest fuel req s r)
  html_or_manifest-Ends s (err local_not_exist) = tt
  html_or_manifest-Ends s (ok (tags, mf_data)) =
      Ends-if req (text_eq (get_tag_value tags content_type) (codes "text/html"))
        (some (s, page_of (tags, mf_data)))
        (map_option (λ r. (s, r)) (through_manifest fuel req s.db (ok (tags, mf_data))))
        (λ html. page_of-Redirects req (tags, mf_data))
        (Answers-Ends req s (through_manifest fuel req s.db (ok (tags, mf_data)))
          (through_manifest-Answers s.db (ok (tags, mf_data))))
  html_or_manifest-Ends s (err _) = tt

  serve_found-Ends :
      (o : Option (Service × Result (List Tag × Bytes))) → Ends req (serve_found fuel req o)
  serve_found-Ends none = tt
  serve_found-Ends (some (s, r)) = html_or_manifest-Ends s r

  serve_id-Ends : (s : Web) (tx_id : Text) → Ends req (serve_id fuel req s tx_id)
  serve_id-Ends s tx_id =
      let found = get_ar_tx_or_item_data_for_manifest fuel tx_id s.service in
      Ends-map req (λ v. record s { service = v }) (serve_found fuel req found)
        (serve_found-Ends found)

  by_name-Ends :
      (domain : Text) (answer : Result Text) (cached : Bool) (s : Web) (known : Option Text)
      → Ends req (by_name fuel req domain answer cached s known)
  by_name-Ends domain answer cached s (some (c ∷ tx_id)) = serve_id-Ends s (c ∷ tx_id)
  by_name-Ends domain (err e) cached s none = tt
  by_name-Ends domain (err e) cached s (some []) = tt
  by_name-Ends domain (ok tx_id) cached s none = serve_id-Ends _ tx_id
  by_name-Ends domain (ok tx_id) cached s (some []) = serve_id-Ends _ tx_id

  name_request-Ends :
      (answer : Result Text) (cached : Bool) (s : Web)
      → Ends req (name_request fuel req answer cached s)
  unfolding name_request
  name_request-Ends answer cached s =
      let domain = get_sub_domain req.host in
      by_name-Ends domain answer cached s (lookup (codes "txId_" ++ domain) s.cache)

-- Where `manifest_middleware` redirects a request, the path of the request begins with an id of 43 bytes,
-- the host is a first label of more than 40 bytes, a dot and a root, the label is the sandbox of the id,
-- and the target is the scheme of the request, this root, a slash and this id: a request is redirected
-- to no other host and no other transaction.
pub manifest_middleware-Ends :
    ⦃kv : KeyValueDb⦄ ⦃g : Goar⦄ ⦃m : ManifestTable⦄ ⦃u : BundleUtils⦄ ⦃b : Bundler⦄
    ⦃j : ManifestJson⦄ (fuel : ℕ) (req : Request) (answer : Result Text) (cached : Bool) (s : Web)
    → Ends req (manifest_middleware fuel req answer cached s)
unfolding manifest_middleware
manifest_middleware-Ends fuel req answer cached s =
    let prefix = get_request_sandbox req.host in
    let get = text_eq req.method (codes "GET") in
    let named = name_request fuel req answer cached s in
    let use_name =
      not (length (get_sub_domain req.host) == 0)
      && get
      && not (is_one_of (before b':' req.host) api_hosts) in
    Ends-if req (not (length prefix == 0) && get)
      (map_option (λ r. (s, r)) (sandbox_request fuel req prefix s))
      (if use_name then named else some (s, next_handler))
      (λ asked.
        Answers-Ends req s (sandbox_request fuel req prefix s)
          (sandbox_request-Answers fuel req s (negated _ (both_true _ _ asked).0)))
      (Ends-if req use_name named (some (s, next_handler))
        (λ is_name. name_request-Ends fuel req answer cached s) tt)
