-- ===== src/Client/Attempts.antt =====
-- When `connect` of src/client.rs makes an attempt, and how it fails.
use Prim.Native.String
use fogws.Prelude.{
  ℕ, ◌≡◌, refl, sym, subst, ◌∙◌, Bool-cases, ◌⊎◌, inl, inr, Result-cases, ap, Option, none, true,
  false, some, ok, err, String, [], ◌∷◌,
}
use text.Mathlib.TextEquality.{eq_iff}
use fogws.Error.{invalid_uri, connection_failed}
use fogws.Config.{ConnectionConfig, websocket_config}
use fogws.Client.{
  Attempted, attempt, no_attempt, Handshake, is_ws, has_invalid_explicit_port, connect,
}

abbrev not_ws : String
not_ws = "only plain ws:// URIs are supported in this release slice"

abbrev bad_port : String
bad_port = "WebSocket URI has an invalid explicit port"

abbrev no_uri : String → String
no_uri error = String.◌++◌ "invalid WebSocket URI: " error

abbrev failed : String → String
failed error = String.◌++◌ "WebSocket connection failed: " error

module _ (http : Handshake) where
  -- A URI that is worth an attempt.
  pub record Acceptable (uri : String) (request : http.Request) : Type 0 where
    pub parsed : http.into_client_request uri ≡ ok request
    pub scheme : http.scheme_str request ≡ some "ws"
    pub port : has_invalid_explicit_port http request ≡ false

  is_ws_sound : (scheme : Option String) → is_ws http scheme ≡ true → scheme ≡ some "ws"
  is_ws_sound none h = cc
  is_ws_sound (some scheme) h = ap some ((eq_iff scheme "ws").0 h)

  -- What the one attempt of an acceptable URI comes to: the driver's socket and configuration, or the
  -- failure of the handshake.
  pub record Attempt (usize_bits : ℕ) (uri : String) (config : ConnectionConfig)
      (attempted : Attempted http) : Type 0 where
    pub request : http.Request
    pub acceptable : Acceptable uri request
    pub once : attempted.0 ≡ (request, websocket_config usize_bits config) ∷ []
    pub result :
        ((socket : http.Socket) × (http.connect_async_with_config request
              (websocket_config usize_bits config)
            ≡ ok socket)
          × (attempted.1 ≡ ok (socket, config)))
        ⊎ ((failure : String) × (http.connect_async_with_config request
                (websocket_config usize_bits config)
              ≡ err failure)
            × ((message : String) × (attempted.1 ≡ err (connection_failed message))))

  -- No request that the URI stands for is acceptable, and none was made.
  pub record NoAttempt (uri : String) (attempted : Attempted http) : Type 0 where
    pub unacceptable : (request : http.Request) → ¬ Acceptable uri request
    pub none_made : attempted.0 ≡ []
    pub result : (message : String) × (attempted.1 ≡ err (invalid_uri message))

  attempt-Attempt :
      (usize_bits : ℕ) (uri : String) (config : ConnectionConfig) (request : http.Request)
      → Acceptable uri request
      → Attempt usize_bits uri config
          (attempt http request (websocket_config usize_bits config) config)
  attempt-Attempt usize_bits uri config request a =
      elim (Result-cases
        (http.connect_async_with_config request (websocket_config usize_bits config))) [
          | inl (socket, e) ↦ record {
            request = request;
            acceptable = a;
            once = refl;
            result = inl (socket, e, rw e refl);
          }
          | inr (failure, e) ↦ record {
            request = request;
            acceptable = a;
            once = refl;
            result = inr (failure, e, (failed failure, rw e refl));
          }
        ]

  refused-NoAttempt :
      (uri message : String) (attempted : Attempted http)
      → ((request : http.Request) → ¬ Acceptable uri request)
      → attempted ≡ no_attempt http (invalid_uri message)
      → NoAttempt uri attempted
  refused-NoAttempt uri message attempted un e = record {
    unacceptable = un;
    none_made = ap (λ x. x.0) e;
    result = (message, ap (λ x. x.1) e);
  }

  module _ (usize_bits : ℕ) (uri : String) (config : ConnectionConfig) where
    same_request :
        (request asked : http.Request)
        → http.into_client_request uri ≡ ok request
        → Acceptable uri asked
        → request ≡ asked
    same_request request asked e a = cc (sym e ∙ a.parsed)

    scheme_differs :
        (request asked : http.Request)
        → http.into_client_request uri ≡ ok request
        → is_ws http (http.scheme_str request) ≡ false
        → ¬ Acceptable uri asked
    scheme_differs request asked e other a = cc (
      ap (λ r. is_ws http (http.scheme_str r)) (same_request request asked e a),
      ap (is_ws http) a.scheme,
    )

    port_differs :
        (request asked : http.Request)
        → http.into_client_request uri ≡ ok request
        → has_invalid_explicit_port http request ≡ true
        → ¬ Acceptable uri asked
    port_differs request asked e bad a =
        cc (ap (has_invalid_explicit_port http) (same_request request asked e a), a.port)

    connect-attempt :
        (request : http.Request)
        → Acceptable uri request
        → connect http usize_bits uri config
          ≡ attempt http request (websocket_config usize_bits config) config
    unfolding connect
    connect-attempt request a = rw (connect, a.parsed, a.scheme, a.port) refl

    connect-no_uri :
        (error : String)
        → http.into_client_request uri ≡ err error
        → connect http usize_bits uri config ≡ no_attempt http (invalid_uri (no_uri error))
    unfolding connect
    connect-no_uri error e = rw (connect, e) refl

    connect-not_ws :
        (request : http.Request)
        → http.into_client_request uri ≡ ok request
        → is_ws http (http.scheme_str request) ≡ false
        → connect http usize_bits uri config ≡ no_attempt http (invalid_uri not_ws)
    unfolding connect
    connect-not_ws request e h = rw (connect, e, h) refl

    connect-bad_port :
        (request : http.Request)
        → http.into_client_request uri ≡ ok request
        → is_ws http (http.scheme_str request) ≡ true
        → has_invalid_explicit_port http request ≡ true
        → connect http usize_bits uri config ≡ no_attempt http (invalid_uri bad_port)
    unfolding connect
    connect-bad_port request e h g = rw (connect, e, h, g) refl

    -- `connect` makes one attempt for a URI that is acceptable, and none for any other. The attempt is made
    -- with the settings of the configuration; if it succeeds the driver gets its socket and the
    -- configuration unchanged, and if it fails `connect` fails with a ConnectionFailed. Without an
    -- attempt `connect` fails with an InvalidUri.
    pub connect_once :
        Attempt usize_bits uri config (connect http usize_bits uri config)
        ⊎ NoAttempt uri (connect http usize_bits uri config)
    connect_once = elim (Result-cases (http.into_client_request uri)) [
      | inr (failure, e) ↦ inr (
          refused-NoAttempt uri (no_uri failure) _ (λ request a. cc (sym e ∙ a.parsed))
            (connect-no_uri failure e))
      | inl (request, e) ↦ elim (Bool-cases (is_ws http (http.scheme_str request))) [
        | inr other ↦ inr (
            refused-NoAttempt uri not_ws _ (λ asked a. scheme_differs request asked e other a)
              (connect-not_ws request e other))
        | inl ws ↦ elim (Bool-cases (has_invalid_explicit_port http request)) [
          | inl bad ↦ inr (
              refused-NoAttempt uri bad_port _ (λ asked a. port_differs request asked e bad a)
                (connect-bad_port request e ws bad))
          | inr good ↦
              let a : Acceptable uri request = record {
                parsed = e;
                scheme = is_ws_sound (http.scheme_str request) ws;
                port = good;
              } in
              inl (
                subst (Attempt usize_bits uri config) (sym (connect-attempt request a))
                  (attempt-Attempt usize_bits uri config request a))
        ]
      ]
    ]
