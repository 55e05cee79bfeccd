-- ===== src/Bindings/Connects.antt =====
-- The function `connect` of src/py.rs: what the future that it starts is given, and how it refuses.
use fogws.Prelude.{ℕ, String, ◌≡◌, arith, Option, none, some, ok, err, Result-cases, inl, inr, ap}
use fogws.Error.{DriverError}
use fogws.Config.{new, default_max_queue, default_max_message_size, default_max_buffered_bytes}
use fogws.Config.Limits.{IsValid, new-ok_iff, new-err_resource_limit}
use fogws.Python.{PyErr, Attribute, resource_limit_error, new_err}
use fogws.Runtime.{ensure_current_process}
use fogws.Bindings.Exceptions.{driver_error_to_python}
use fogws.Bindings.Connection.{Context, current_loop, extract_limit, Connecting, connect}

-- A limit that was given converts to `n`, and one that was left out is the default.
abbrev pub Chosen {ℓ} : {Object : Type ℓ} → (Object → Option ℕ) → ℕ → Option Object → ℕ → Type 0
Chosen extract_usize default none n = n ≡ default
Chosen extract_usize default (some value) n = extract_usize value ≡ some n

module _ {Object : Type 0} (extract_usize : Object → Option ℕ) where
  extract_limit-ok :
      (value : Option Object) (name : String) (default : ℕ) {n : ℕ}
      → extract_limit extract_usize value name default ≡ ok n
      → Chosen extract_usize default value n
  unfolding extract_limit
  extract_limit-ok none name default h = ground arith
  extract_limit-ok (some value) name default h = ground arith

  extract_limit-err :
      (value : Option Object) (name : String) (default : ℕ) {e : PyErr}
      → extract_limit extract_usize value name default ≡ err e
      → e.kind ≡ resource_limit_error
  unfolding extract_limit new_err
  extract_limit-err none name default h = ground arith
  extract_limit-err (some value) name default h = ground arith

  module _ (setattr : Attribute → PyErr → Option PyErr) {F64 : Type 0}
      (try_from_secs_f64 : F64 → Option ℕ) (max_permits : ℕ) where
    -- What a success came through.
    connect-steps :
        (c : Context) (uri : String) (queue size bytes : Option Object) (timeout : F64)
        {cell : Option ℕ} {x : Connecting}
        → connect extract_usize setattr try_from_secs_f64 max_permits c uri queue size bytes timeout
          ≡ (cell, ok x)
        → (c.running_loop ≡ some x.owner_loop)
          × ((q : ℕ) × (m : ℕ) × (b : ℕ) × (extract_limit extract_usize queue "max_queue"
                  default_max_queue
                ≡ ok q)
              × (extract_limit extract_usize size "max_message_size" default_max_message_size
                  ≡ ok m)
              × (extract_limit extract_usize bytes "max_buffered_bytes" default_max_buffered_bytes
                  ≡ ok b)
              × (new try_from_secs_f64 max_permits q m b timeout ≡ ok x.config)
              × (x.uri ≡ uri))
    unfolding connect current_loop
    connect-steps c uri queue size bytes timeout h =
        elim (Result-cases (extract_limit extract_usize queue "max_queue" default_max_queue)) [
          | inl (q, e) ↦
              elim (Result-cases
                (extract_limit extract_usize size "max_message_size" default_max_message_size)) [
                  | inl (m, f) ↦
                      elim (Result-cases (
                        extract_limit extract_usize bytes "max_buffered_bytes"
                          default_max_buffered_bytes)) [
                            | inl (b, g) ↦
                                (ground arith, (q, m, b, e, f, g, ground arith, ground arith))
                            | inr (error, g) ↦ ground arith
                          ]
                  | inr (error, f) ↦ ground arith
                ]
          | inr (error, e) ↦ ground arith
        ]

    -- A connection attempt that Python starts is given the URI, the loop that runs, and a valid
    -- configuration of the limits that were given and the defaults for those left out.
    pub connecting-IsValid :
        (c : Context) (uri : String) (queue size bytes : Option Object) (timeout : F64)
        {cell : Option ℕ} {x : Connecting}
        → connect extract_usize setattr try_from_secs_f64 max_permits c uri queue size bytes timeout
          ≡ (cell, ok x)
        → (x.uri ≡ uri)
          × (c.running_loop ≡ some x.owner_loop)
          × IsValid max_permits x.config
          × Chosen extract_usize default_max_queue queue x.config.max_queue
          × Chosen extract_usize default_max_message_size size x.config.max_message_size
          × Chosen extract_usize default_max_buffered_bytes bytes x.config.max_buffered_bytes
          × (try_from_secs_f64 timeout ≡ some x.config.close_timeout)
    connecting-IsValid c uri queue size bytes timeout {x} h =
        let (on_loop, (q, m, b, got_q, got_m, got_b, made, same_uri)) =
          connect-steps c uri queue size bytes timeout h in
        let (given, valid) =
          (new-ok_iff try_from_secs_f64 max_permits q m b timeout x.config).0 made in
        (
          same_uri,
          on_loop,
          valid,
          rw given.0 (extract_limit-ok queue "max_queue" default_max_queue got_q),
          rw given.1 (extract_limit-ok size "max_message_size" default_max_message_size got_m),
          rw given.2 (extract_limit-ok bytes "max_buffered_bytes" default_max_buffered_bytes got_b),
          given.3,
        )

    limit_kind :
        (q m b : ℕ) (timeout : F64) {error : DriverError}
        → new try_from_secs_f64 max_permits q m b timeout ≡ err error
        → (driver_error_to_python setattr error).kind ≡ resource_limit_error
    unfolding driver_error_to_python new_err
    limit_kind q m b timeout {error} h =
        let (message, e) =
          new-err_resource_limit try_from_secs_f64 max_permits q m b timeout error h in
        ap (λ x. (driver_error_to_python setattr x).kind) e

    -- In a process and on a loop where connections may be made, every refusal is a
    -- `ResourceLimitError`.
    pub connecting_refusals :
        (c : Context) (uri : String) (queue size bytes : Option Object) (timeout : F64)
        {cell : Option ℕ} {e : PyErr} (running : ℕ)
        → (ensure_current_process c.process c.owner_process).1 ≡ ok tt
        → c.running_loop ≡ some running
        → connect extract_usize setattr try_from_secs_f64 max_permits c uri queue size bytes timeout
          ≡ (cell, err e)
        → e.kind ≡ resource_limit_error
    unfolding connect current_loop
    connecting_refusals c uri queue size bytes timeout running process on_loop h =
        elim (Result-cases (extract_limit extract_usize queue "max_queue" default_max_queue)) [
          | inl (q, f) ↦
              elim (Result-cases
                (extract_limit extract_usize size "max_message_size" default_max_message_size)) [
                  | inl (m, g) ↦
                      elim (Result-cases (
                        extract_limit extract_usize bytes "max_buffered_bytes"
                          default_max_buffered_bytes)) [
                            | inl (b, k) ↦
                                elim (Result-cases
                                  (new try_from_secs_f64 max_permits q m b timeout)) [
                                    | inl (config, l) ↦ ground arith
                                    | inr (error, l) ↦ ground (arith, limit_kind q m b timeout l)
                                  ]
                            | inr (error, k) ↦ ground (
                              arith,
                              extract_limit-err bytes "max_buffered_bytes"
                                  default_max_buffered_bytes k,
                            )
                          ]
                  | inr (error, g) ↦
                      ground (
                        arith,
                        extract_limit-err size "max_message_size" default_max_message_size g,
                      )
                ]
          | inr (error, f) ↦ ground (arith, extract_limit-err queue "max_queue" default_max_queue f)
        ]
