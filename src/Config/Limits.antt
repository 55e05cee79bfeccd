-- ===== src/Config/Limits.antt =====
-- What `ConnectionConfig::new` of src/config.rs accepts, and how it refuses.
use Prim.Native.String.{String}
use fogws.Prelude.{ℕ, ◌≤◌, ◌<◌, ◌≡◌, ◌↔◌, Option, some, ok, err, arith}
use fogws.Error.{DriverError, resource_limit}
use fogws.Config.{ConnectionConfig, u32_max, new}

-- The limits that the driver relies on.
pub record IsValid (max_permits : ℕ) (c : ConnectionConfig) : Type 0 where
  pub queue_pos : 0 < c.max_queue
  pub queue_capped : c.max_queue ≤ max_permits
  pub message_pos : 0 < c.max_message_size
  pub budget_covers : c.max_message_size ≤ c.max_buffered_bytes
  pub budget_capped : c.max_buffered_bytes ≤ u32_max
  pub timeout_pos : 0 < c.close_timeout

module _ {F64 : Type 0} (try_from_secs_f64 : F64 → Option ℕ) (max_permits : ℕ) where
  -- The arguments as they were given, with the timeout converted.
  abbrev pub Given : ℕ → ℕ → ℕ → F64 → ConnectionConfig → Type 0
  Given q m b t c =
      (c.max_queue ≡ q)
      × (c.max_message_size ≡ m)
      × (c.max_buffered_bytes ≡ b)
      × (try_from_secs_f64 t ≡ some c.close_timeout)

  new_accepts :
      (q m b : ℕ) (t : F64) (c : ConnectionConfig)
      → Given q m b t c
      → IsValid max_permits c
      → new try_from_secs_f64 max_permits q m b t ≡ ok c
  unfolding new
  new_accepts q m b t c g v = ground arith

  new_sound :
      (q m b : ℕ) (t : F64) (c : ConnectionConfig)
      → new try_from_secs_f64 max_permits q m b t ≡ ok c
      → Given q m b t c × IsValid max_permits c
  unfolding new
  new_sound q m b t c h = ground arith

  -- `new` returns a configuration exactly when it holds the given limits, its timeout is the
  -- converted one, and the limits are valid.
  pub new-ok_iff :
      (q m b : ℕ) (t : F64) (c : ConnectionConfig)
      → (new try_from_secs_f64 max_permits q m b t ≡ ok c)
        ↔ (Given q m b t c × IsValid max_permits c)
  new-ok_iff q m b t c = (new_sound q m b t c, λ h. new_accepts q m b t c h.0 h.1)

  -- Every refusal of `new` is a resource limit error.
  pub new-err_resource_limit :
      (q m b : ℕ) (t : F64) (e : DriverError)
      → new try_from_secs_f64 max_permits q m b t ≡ err e
      → (message : String) × (e ≡ resource_limit message)
  unfolding new
  new-err_resource_limit q m b t e h = ground arith
